-- ===== src/Driver/SharedFd/Waits.antt =====
-- That a `close` which has to wait is never woken (crates/monoio/src/driver/shared_fd.rs).
use nirvana_dev.Prelude.{
  ℕ, ◌+◌, ◌-◌, ◌≡◌, ◌<◌, refl, Bool, true, false, Option, none, some, List, [], ◌∷◌, ◌==◌,
  if◌then◌else◌, arith, sym,
}
use nirvana_dev.Driver.SharedFd.{
  waiting, uring, SharedFd, strong_count, release, start_close, close, poll_closed, try_unwrap,
  cvt_uring_poll, cvt_comp, Event, clone, drop_handle, close_handle, poll_closer, cancel_closer,
  complete, unwrap, to_poll, to_comp, after_poll, step, run,
}
use mathlib.Core.Path.{subst}
use nirvana_dev.Driver.SharedFd.Sound.{closes}

-- A closer waits for its waker, and the descriptor was closed so often.
pub record Waits (n : ℕ) (s : SharedFd) : Type 0 where
  pub waker : ℕ
  pub state : s.state ≡ uring (waiting (some waker))
  pub closer : 0 < s.closers
  pub count : closes s ≡ n

-- No future of `close` is dropped before it is ready.
abbrev pub Stays : Event → Type 0
Stays (cancel_closer current submits) = ⊥
Stays clone = Unit
Stays (drop_handle current submits) = Unit
Stays (close_handle current submits) = Unit
Stays (poll_closer current submits waker) = Unit
Stays complete = Unit
Stays (unwrap current) = Unit
Stays (to_poll reg) = Unit
Stays (to_comp succeeds) = Unit

abbrev pub AllStay : List Event → Type 0
AllStay [] = Unit
AllStay (e ∷ es) = Stays e × AllStay es

module _ (will_wake : ℕ → ℕ → Bool) (n : ℕ) where
  if-Waits :
      (b : Bool) (s t : SharedFd)
      → Waits n s
      → (b ≡ false → Waits n t)
      → Waits n (if b then s else t)
  if-Waits true s t v next = v
  if-Waits false s t v next = next refl

  start_close-Waits :
      (current submits : Bool) (s : SharedFd)
      → Waits n s
      → 1 < strong_count s
      → Waits n (start_close current submits s.state s)
  unfolding start_close
  start_close-Waits current submits s v lt =
      let several : (strong_count s == 1) ≡ false = ground arith in
      subst (λ st. Waits n (start_close current submits st s)) (sym v.state) (rw several v)

  several_left :
      (s : SharedFd) → Waits n s → (s.handles == 0) ≡ false → (strong_count s == 1) ≡ false
  several_left s v e = ground (arith, v.closer)

  pending-Waits :
      (current submits : Bool) (s : SharedFd) (waker : ℕ) (v : Waits n s)
      → Waits n (
          after_poll will_wake current submits s
            (poll_closed will_wake s.completed (uring (waiting (some v.waker))) waker))
  unfolding after_poll poll_closed
  pending-Waits current submits s waker v = record {
    waker = _;
    state = refl;
    closer = v.closer;
    count = v.count;
  }

  to_poll-Waits :
      (reg : Option ℕ) (s : SharedFd) (v : Waits n s)
      → Waits n (record s { state = (cvt_uring_poll reg (uring (waiting (some v.waker)))).0 })
  unfolding cvt_uring_poll
  to_poll-Waits none s v = record {
    waker = v.waker;
    state = refl;
    closer = v.closer;
    count = v.count;
  }
  to_poll-Waits (some token) s v = record {
    waker = v.waker;
    state = refl;
    closer = v.closer;
    count = v.count;
  }

  step-Waits : (e : Event) (s : SharedFd) → Stays e → Waits n s → Waits n (step will_wake e s)
  unfolding step close release
  step-Waits clone s h v =
      if-Waits (s.handles == 0) s _ v
        (λ e. record { waker = v.waker; state = v.state; closer = v.closer; count = v.count })
  step-Waits (drop_handle current submits) s h v = if-Waits (s.handles == 0) s _ v (λ e.
      let kept : (s.handles - 1 + s.closers == 0) ≡ false = ground (arith, v.closer) in
      rw kept (record { waker = v.waker; state = v.state; closer = v.closer; count = v.count }))
  step-Waits (close_handle current submits) s h v = if-Waits (s.handles == 0) s _ v (λ e.
      start_close-Waits current submits
        (record s { handles = s.handles - 1; closers = s.closers + 1 })
        (record {
          waker = v.waker;
          state = v.state;
          closer = omega (arith, v.closer);
          count = v.count;
        })
        (omega (arith, v.closer)))
  step-Waits (poll_closer current submits waker) s h v = if-Waits (s.closers == 0) s _ v (λ e.
      subst
        (λ st.
          Waits n
            (after_poll will_wake current submits s (poll_closed will_wake s.completed st waker)))
        (sym v.state) (pending-Waits current submits s waker v))
  step-Waits (cancel_closer current submits) s h v = elim h [ ]
  step-Waits complete s h v = record {
    waker = v.waker;
    state = v.state;
    closer = v.closer;
    count = v.count;
  }
  step-Waits (unwrap current) s h v = if-Waits (s.handles == 0) s _ v (λ e.
      let several : (strong_count s == 1) ≡ false = several_left s v e in
      subst (λ st. Waits n (try_unwrap current st s)) (sym v.state)
        (unfold try_unwrap in rw several v))
  step-Waits (to_poll reg) s h v = if-Waits (s.handles == 0) s _ v (λ e.
      subst (λ st. Waits n (record s { state = (cvt_uring_poll reg st).0 })) (sym v.state)
        (to_poll-Waits reg s v))
  step-Waits (to_comp succeeds) s h v = if-Waits (s.handles == 0) s _ v (λ e.
      subst (λ st. Waits n (record s { state = (cvt_comp succeeds st).0 })) (sym v.state)
        (unfold cvt_comp in
          record { waker = v.waker; state = refl; closer = v.closer; count = v.count }))

  run-Waits :
      (es : List Event) (s : SharedFd) → AllStay es → Waits n s → Waits n (run will_wake es s)
  unfolding run
  run-Waits [] s h v = v
  run-Waits (e ∷ es) s h v = run-Waits es (step will_wake e s) h.1 (step-Waits e s h.0 v)

  -- A `close` that waits has to wait forever: as long as no future of `close` is dropped, whatever else
  -- the holders and the kernel do, also when all other references are gone, a later poll of a waiting
  -- `close` is not ready, and the descriptor is not closed meanwhile.
  pub run-pending :
      (es : List Event) (s : SharedFd) (waker : ℕ)
      → AllStay es
      → Waits n s
      → ((poll_closed will_wake (run will_wake es s).completed (run will_wake es s).state waker).1
          ≡ false)
        × (closes (run will_wake es s) ≡ n)
  run-pending es s waker h v =
      let w = run-Waits es s h v in
      (
        subst (λ st. (poll_closed will_wake (run will_wake es s).completed st waker).1 ≡ false)
            (sym w.state) (unfold poll_closed in refl),
        w.count,
      )
