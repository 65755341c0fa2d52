-- ===== src/Driver/SharedFd/Sound.antt =====
-- That a shared descriptor is closed once, after its last use
-- (crates/monoio/src/driver/shared_fd.rs).
use nirvana_dev.Prelude.{
  ℕ, ◌+◌, ◌-◌, ◌≡◌, ◌≢◌, ◌≤◌, ◌<◌, refl, Bool, true, false, Option, none, some, List, [], ◌∷◌, ◌==◌,
  if◌then◌else◌, arith, Bool-cases, ==_iff, inl, inr, ap, sym, ◌∙◌,
}
use nirvana_dev.Driver.SharedFd.{
  init, waiting, closing, closed, poll_legacy, State, uring, legacy, SharedFd, strong_count, new,
  close_fd, deregister, drop_legacy, drop_inner, release, drop_closer, start_close, close,
  poll_closed, try_unwrap, cvt_uring_poll, cvt_comp, Event, clone, drop_handle, close_handle,
  poll_closer, cancel_closer, complete, unwrap, to_poll, to_comp, after_poll, step, run,
}

abbrev pub is_closing : State → Bool
is_closing (uring closing) = true
is_closing (uring closed) = true
is_closing (uring init) = false
is_closing (uring (waiting waker)) = false
is_closing (uring (poll_legacy idx)) = false
is_closing (legacy idx) = false

-- How often the descriptor was closed.
abbrev pub closes : SharedFd → ℕ
closes s = s.submitted + s.direct

abbrev pub closes_of : State → ℕ
closes_of state = if is_closing state then 1 else 0

-- How often a descriptor without references was closed.
abbrev pub owed : Bool → ℕ
owed unwrapped = if unwrapped then 0 else 1

-- With references left the descriptor is closed only if it is closing, which is by a closer without any
-- handle beside it; without references it was closed once, unless it was taken out.
pub record IsSound (s : SharedFd) : Type 0 where
  pub alone : is_closing s.state ≡ true → s.handles ≡ 0
  pub in_use : 0 < strong_count s → (s.unwrapped ≡ false) × (closes s ≡ closes_of s.state)
  pub over : strong_count s ≡ 0 → closes s ≡ owed s.unwrapped

-- What a drop of the shared part changes: the descriptor is closed unless it is closing.
record Dropped (state : State) (s s' : SharedFd) : Type 0 where
  same_state : s'.state ≡ s.state
  same_handles : s'.handles ≡ s.handles
  same_closers : s'.closers ≡ s.closers
  same_unwrapped : s'.unwrapped ≡ s.unwrapped
  counted : closes s' ≡ closes s + (1 - closes_of state)

deregister-same :
    (current : Bool) (idx : Option ℕ) (s : SharedFd)
    → Dropped (uring closed) s (deregister current idx s)
unfolding deregister
deregister-same true (some token) s = record {
  same_state = refl;
  same_handles = refl;
  same_closers = refl;
  same_unwrapped = refl;
  counted = omega arith;
}
deregister-same false (some token) s = record {
  same_state = refl;
  same_handles = refl;
  same_closers = refl;
  same_unwrapped = refl;
  counted = omega arith;
}
deregister-same current none s = record {
  same_state = refl;
  same_handles = refl;
  same_closers = refl;
  same_unwrapped = refl;
  counted = omega arith;
}

drop_legacy-Dropped :
    (current : Bool) (idx : Option ℕ) (s : SharedFd)
    → Dropped (legacy idx) s (drop_legacy current idx s)
unfolding drop_legacy
drop_legacy-Dropped current idx s =
    let d = deregister-same current idx s in
    record {
      same_state = d.same_state;
      same_handles = d.same_handles;
      same_closers = d.same_closers;
      same_unwrapped = d.same_unwrapped;
      counted = omega (arith, d.counted);
    }

close_fd-Dropped : (submits : Bool) (s : SharedFd) → Dropped (uring init) s (close_fd submits s)
unfolding close_fd
close_fd-Dropped true s = record {
  same_state = refl;
  same_handles = refl;
  same_closers = refl;
  same_unwrapped = refl;
  counted = omega arith;
}
close_fd-Dropped false s = record {
  same_state = refl;
  same_handles = refl;
  same_closers = refl;
  same_unwrapped = refl;
  counted = omega arith;
}

drop_inner-Dropped :
    (current submits : Bool) (state : State) (s : SharedFd)
    → Dropped state s (drop_inner current submits state s)
unfolding drop_inner
drop_inner-Dropped current submits (uring init) s = close_fd-Dropped submits s
drop_inner-Dropped current submits (uring (waiting waker)) s =
    let d = close_fd-Dropped submits s in
    record {
      same_state = d.same_state;
      same_handles = d.same_handles;
      same_closers = d.same_closers;
      same_unwrapped = d.same_unwrapped;
      counted = d.counted;
    }
drop_inner-Dropped current submits (legacy idx) s = drop_legacy-Dropped current idx s
drop_inner-Dropped current submits (uring (poll_legacy idx)) s =
    let d = drop_legacy-Dropped current idx s in
    record {
      same_state = d.same_state;
      same_handles = d.same_handles;
      same_closers = d.same_closers;
      same_unwrapped = d.same_unwrapped;
      counted = d.counted;
    }
drop_inner-Dropped current submits (uring closing) s = record {
  same_state = refl;
  same_handles = refl;
  same_closers = refl;
  same_unwrapped = refl;
  counted = omega arith;
}
drop_inner-Dropped current submits (uring closed) s = record {
  same_state = refl;
  same_handles = refl;
  same_closers = refl;
  same_unwrapped = refl;
  counted = omega arith;
}

-- What holds of a descriptor in use, and when a reference was just given up.
record Live (s : SharedFd) : Type 0 where
  alone : is_closing s.state ≡ true → s.handles ≡ 0
  there : s.unwrapped ≡ false
  counted : closes s ≡ closes_of s.state

Live-IsSound : (s : SharedFd) → Live s → 0 < strong_count s → IsSound s
Live-IsSound s l lt = record {
  alone = l.alone;
  in_use = λ h. (l.there, l.counted);
  over = λ z. absurd (omega arith);
}

IsSound-Live : (s : SharedFd) → IsSound s → 0 < strong_count s → Live s
IsSound-Live s v lt = record { alone = v.alone; there = (v.in_use lt).0; counted = (v.in_use lt).1 }

owed-le : (unwrapped : Bool) → owed unwrapped ≤ 1
owed-le unwrapped = ground arith

closes_of-le : (state : State) → closes_of state ≤ 1
closes_of-le state = ground arith

release-IsSound :
    (current submits : Bool) (s : SharedFd) → Live s → IsSound (release current submits s)
unfolding release
release-IsSound current submits s l = elim (Bool-cases (strong_count s == 0)) [
  | inl gone ↦
      let z : strong_count s ≡ 0 = (==_iff (strong_count s) 0).0 gone in
      let d = drop_inner-Dropped current submits s.state s in
      let s' : SharedFd = drop_inner current submits s.state s in
      rw gone (record {
        alone = λ h. omega (arith, d.same_handles);
        in_use = λ h. absurd (omega (arith, d.same_handles, d.same_closers));
        over = λ h.
            let once : closes s' ≡ 1 = omega (arith, d.counted, l.counted, closes_of-le s.state) in
            once ∙ sym (ap owed (d.same_unwrapped ∙ l.there));
      })
  | inr kept ↦ rw kept (Live-IsSound s l (ground arith))
]

drop_closer-IsSound :
    (current submits : Bool) (s : SharedFd) → Live s → IsSound (drop_closer current submits s)
unfolding drop_closer
drop_closer-IsSound current submits s l =
    release-IsSound current submits (record s { closers = s.closers - 1 })
      (record { alone = l.alone; there = l.there; counted = l.counted })

closes_of-open : (state : State) → is_closing state ≡ false → closes_of state ≡ 0
closes_of-open state h = rw h refl

-- A close whose operation can be submitted, from a descriptor that is not closing.
start_close-IsSound :
    (current : Bool) (state : State) (s : SharedFd)
    → s.state ≡ state
    → is_closing state ≡ false
    → s.closers ≢ 0
    → Live s
    → IsSound (start_close current true state s)
unfolding start_close
start_close-IsSound current (uring u) s e open_ some_closer l =
    let unclosed : closes s ≡ 0 = l.counted ∙ ap closes_of e ∙ closes_of-open (uring u) open_ in
    elim (Bool-cases (strong_count s == 1)) [
      | inl one ↦
          let only : strong_count s ≡ 1 = (==_iff (strong_count s) 1).0 one in
          rw one (
            Live-IsSound (record s { state = uring closing; submitted = s.submitted + 1 })
              (record {
                alone = λ h. omega arith;
                there = l.there;
                counted = omega (arith, unclosed);
              })
              (omega arith))
      | inr more ↦ rw more (Live-IsSound s l (omega arith))
    ]
start_close-IsSound current (legacy idx) s e open_ some_closer l =
    drop_closer-IsSound current true s l

-- Neither a poll nor a conversion makes a descriptor closing.
poll_closed-closing :
    (will_wake : ℕ → ℕ → Bool) (completed : Bool) (state : State) (waker : ℕ)
    → is_closing (poll_closed will_wake completed state waker).0 ≡ is_closing state
unfolding poll_closed
poll_closed-closing will_wake completed (uring init) waker = refl
poll_closed-closing will_wake completed (uring (waiting none)) waker = refl
poll_closed-closing will_wake completed (uring (waiting (some old))) waker = refl
poll_closed-closing will_wake true (uring closing) waker = refl
poll_closed-closing will_wake false (uring closing) waker = refl
poll_closed-closing will_wake completed (uring closed) waker = refl
poll_closed-closing will_wake completed (uring (poll_legacy idx)) waker = refl
poll_closed-closing will_wake completed (legacy idx) waker = refl

cvt_uring_poll-closing :
    (reg : Option ℕ) (state : State) → is_closing (cvt_uring_poll reg state).0 ≡ is_closing state
unfolding cvt_uring_poll
cvt_uring_poll-closing none (uring init) = refl
cvt_uring_poll-closing (some token) (uring init) = refl
cvt_uring_poll-closing reg (uring (waiting waker)) = ground arith
cvt_uring_poll-closing reg (uring closing) = ground arith
cvt_uring_poll-closing reg (uring closed) = ground arith
cvt_uring_poll-closing reg (uring (poll_legacy idx)) = ground arith
cvt_uring_poll-closing reg (legacy idx) = ground arith

cvt_comp-closing :
    (succeeds : Bool) (state : State) → is_closing (cvt_comp succeeds state).0 ≡ is_closing state
unfolding cvt_comp
cvt_comp-closing true (uring (poll_legacy (some token))) = refl
cvt_comp-closing false (uring (poll_legacy (some token))) = refl
cvt_comp-closing succeeds (uring (poll_legacy none)) = refl
cvt_comp-closing succeeds (uring init) = refl
cvt_comp-closing succeeds (uring (waiting waker)) = refl
cvt_comp-closing succeeds (uring closing) = refl
cvt_comp-closing succeeds (uring closed) = refl
cvt_comp-closing succeeds (legacy idx) = refl

-- A handle is there only while the descriptor is not closing.
not_closing : (s : SharedFd) → Live s → s.handles ≢ 0 → is_closing s.state ≡ false
not_closing s l h = ground (arith, l.alone)

Live-state :
    (s : SharedFd) (state : State)
    → is_closing state ≡ is_closing s.state
    → Live s
    → Live (record s { state = state })
Live-state s state e l = record {
  alone = λ h. l.alone (sym e ∙ h);
  there = l.there;
  counted = l.counted ∙ ap (λ b. if b then 1 else 0) (sym e);
}

after_poll-IsSound :
    (will_wake : ℕ → ℕ → Bool) (current submits : Bool) (s : SharedFd) (state : State)
    (ready : Bool)
    → is_closing state ≡ is_closing s.state
    → s.closers ≢ 0
    → Live s
    → IsSound (after_poll will_wake current submits s (state, ready))
unfolding after_poll
after_poll-IsSound will_wake current submits s state true e some_closer l =
    drop_closer-IsSound current submits (record s { state = state }) (Live-state s state e l)
after_poll-IsSound will_wake current submits s state false e some_closer l =
    Live-IsSound (record s { state = state }) (Live-state s state e l) (omega arith)

-- The only handle takes the descriptor out.
out-IsSound :
    (s s' : SharedFd) {state : State}
    → s.state ≡ state
    → s.handles ≢ 0
    → Live s
    → (strong_count s == 1) ≡ true
    → s'.closers ≡ s.closers
    → closes s' ≡ closes s
    → IsSound (record s' { handles = 0; unwrapped = true })
out-IsSound s s' e some_handle l one same_closers same =
    let only : strong_count s ≡ 1 = (==_iff (strong_count s) 1).0 one in
    let unclosed : closes s ≡ 0 =
      l.counted ∙ closes_of-open s.state (not_closing s l some_handle) in
    record {
      alone = λ h. refl;
      in_use = λ h. absurd (omega (arith, same_closers));
      over = λ h. same ∙ unclosed;
    }

unwrap-IsSound :
    (current : Bool) (state : State) (s : SharedFd)
    → s.state ≡ state
    → s.handles ≢ 0
    → Live s
    → IsSound (try_unwrap current state s)
unfolding try_unwrap
unwrap-IsSound current (uring u) s e some_handle l = elim (Bool-cases (strong_count s == 1)) [
  | inl one ↦ rw one (out-IsSound s s e some_handle l one refl (omega arith))
  | inr more ↦ rw more (Live-IsSound s l (omega arith))
]
unwrap-IsSound current (legacy idx) s e some_handle l =
    let d = deregister-same current idx s in
    elim (Bool-cases (strong_count s == 1)) [
      | inl one ↦ rw one (
          out-IsSound s (deregister current idx s) e some_handle l one d.same_closers
            (omega (arith, d.counted)))
      | inr more ↦ rw more (Live-IsSound s l (omega arith))
    ]

-- The close operation can be submitted whenever a handle is closed.
abbrev pub Submits : Event → Type 0
Submits (close_handle current submits) = submits ≡ true
Submits clone = Unit
Submits (drop_handle current submits) = Unit
Submits (poll_closer current submits waker) = Unit
Submits (cancel_closer current submits) = Unit
Submits complete = Unit
Submits (unwrap current) = Unit
Submits (to_poll reg) = Unit
Submits (to_comp succeeds) = Unit

module _ (will_wake : ℕ → ℕ → Bool) where
  -- An event of a holder of a handle.
  handle-IsSound :
      (s t : SharedFd)
      → IsSound s
      → (s.handles ≢ 0 → Live s → IsSound t)
      → IsSound (if s.handles == 0 then s else t)
  handle-IsSound s t v next = elim (Bool-cases (s.handles == 0)) [
    | inl none_ ↦ rw none_ v
    | inr there ↦
        let some_handle : s.handles ≢ 0 = λ z. cc ((==_iff s.handles 0).1 z) in
        rw there (next some_handle (IsSound-Live s v (omega arith)))
  ]

  closer-IsSound :
      (s t : SharedFd)
      → IsSound s
      → (s.closers ≢ 0 → Live s → IsSound t)
      → IsSound (if s.closers == 0 then s else t)
  closer-IsSound s t v next = elim (Bool-cases (s.closers == 0)) [
    | inl none_ ↦ rw none_ v
    | inr there ↦
        let some_closer : s.closers ≢ 0 = λ z. cc ((==_iff s.closers 0).1 z) in
        rw there (next some_closer (IsSound-Live s v (omega arith)))
  ]

  step-IsSound : (e : Event) (s : SharedFd) → Submits e → IsSound s → IsSound (step will_wake e s)
  unfolding step close
  step-IsSound clone s h v = handle-IsSound s _ v (λ some_handle l.
      let open_ = not_closing s l some_handle in
      Live-IsSound (record s { handles = s.handles + 1 })
        (record { alone = λ c. cc; there = l.there; counted = l.counted }) (omega arith))
  step-IsSound (drop_handle current submits) s h v = handle-IsSound s _ v (λ some_handle l.
      release-IsSound current submits (record s { handles = s.handles - 1 })
        (record { alone = λ c. omega (arith, l.alone c); there = l.there; counted = l.counted }))
  step-IsSound (close_handle current submits) s h v = handle-IsSound s _ v (λ some_handle l.
      let s' : SharedFd = record s { handles = s.handles - 1; closers = s.closers + 1 } in
      rw h (
        start_close-IsSound current s.state s' refl (not_closing s l some_handle) (λ z. omega arith)
          (record { alone = λ c. omega (arith, l.alone c); there = l.there; counted = l.counted })))
  step-IsSound (poll_closer current submits waker) s h v = closer-IsSound s _ v (λ some_closer l.
      after_poll-IsSound will_wake current submits s
        (poll_closed will_wake s.completed s.state waker).0
        (poll_closed will_wake s.completed s.state waker).1
        (poll_closed-closing will_wake s.completed s.state waker) some_closer l)
  step-IsSound (cancel_closer current submits) s h v =
      closer-IsSound s _ v (λ some_closer l. drop_closer-IsSound current submits s l)
  step-IsSound complete s h v = record { alone = v.alone; in_use = v.in_use; over = v.over }
  step-IsSound (unwrap current) s h v =
      handle-IsSound s _ v (λ some_handle l. unwrap-IsSound current s.state s refl some_handle l)
  step-IsSound (to_poll reg) s h v = handle-IsSound s _ v (λ some_handle l.
      Live-IsSound (record s { state = (cvt_uring_poll reg s.state).0 })
        (Live-state s _ (cvt_uring_poll-closing reg s.state) l) (omega arith))
  step-IsSound (to_comp succeeds) s h v = handle-IsSound s _ v (λ some_handle l.
      Live-IsSound (record s { state = (cvt_comp succeeds s.state).0 })
        (Live-state s _ (cvt_comp-closing succeeds s.state) l) (omega arith))

  abbrev pub AllSubmit : List Event → Type 0
  AllSubmit [] = Unit
  AllSubmit (e ∷ es) = Submits e × AllSubmit es

  run-IsSound :
      (es : List Event) (s : SharedFd) → AllSubmit es → IsSound s → IsSound (run will_wake es s)
  unfolding run
  run-IsSound [] s h v = v
  run-IsSound (e ∷ es) s h v = run-IsSound es (step will_wake e s) h.1 (step-IsSound e s h.0 v)

  in_use-unclosed : (s : SharedFd) → IsSound s → 0 < s.handles → closes s ≡ 0
  in_use-unclosed s v lt =
      let l = IsSound-Live s v (omega arith) in
      l.counted ∙ closes_of-open s.state (not_closing s l (λ z. omega arith))

  closes-le_one : (s : SharedFd) → IsSound s → closes s ≤ 1
  closes-le_one s v = elim (Bool-cases (strong_count s == 0)) [
    | inl z ↦
        let e = v.over ((==_iff (strong_count s) 0).0 z) in omega (arith, e, owed-le s.unwrapped)
    | inr more ↦
        let l = IsSound-Live s v (ground arith) in omega (arith, l.counted, closes_of-le s.state)
  ]

  new-IsSound : (state : State) → is_closing state ≡ false → IsSound (new state)
  unfolding new
  new-IsSound state h = record {
    alone = λ c. cc;
    in_use = λ lt. (refl, sym (closes_of-open state h));
    over = λ z. absurd (omega arith);
  }

  -- If the close operation can be submitted whenever a handle is closed, then after any events a new
  -- descriptor was not closed while handles are there, and not more than once; without references it
  -- was closed once, or handed out by `try_unwrap` and not closed.
  pub run-closes :
      (es : List Event) (state : State)
      → is_closing state ≡ false
      → AllSubmit es
      → (0 < (run will_wake es (new state)).handles → closes (run will_wake es (new state)) ≡ 0)
        × (closes (run will_wake es (new state)) ≤ 1)
        × (strong_count (run will_wake es (new state)) ≡ 0
            → closes (run will_wake es (new state)) ≡ owed (run will_wake es (new state)).unwrapped)
  run-closes es state open_ h =
      let s : SharedFd = run will_wake es (new state) in
      let v : IsSound s = run-IsSound es (new state) h (new-IsSound state open_) in
      (in_use-unclosed s v, closes-le_one s v, v.over)
