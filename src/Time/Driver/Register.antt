-- ===== src/Time/Driver/Register.antt =====
-- crates/monoio/src/time/driver/mod.rs, `reregister` and `clear_entry`: a driver that is fine stays
-- fine, and one timer is changed.
use nirvana_dev.Prelude.{
  ℕ, ◌+◌, ◌/◌, ◌≤◌, ◌<◌, true, false, leb, ltb, ◌==◌, Bool-cases, Option, none, some, ◌≡◌, ◌≢◌, ◌⊎◌,
  inl, inr, refl, sym, ap, ◌∙◌, arith,
}
use mathlib.Core.Path.{subst}
use nirvana_dev.Time.Entry.{
  TimerShared, ok, fire, set_expiration, state_deregistered, state_pending_fire, state_min_value,
  u64_max,
}
use nirvana_dev.Time.Wheel.{Wheel, inserted, elapsed, insert, with_timer}
use nirvana_dev.Time.Wheel.Fine.{IsWheel}
use nirvana_dev.Time.Wheel.Insert.{insert-inserted, insert-elapsed, synced}
use nirvana_dev.Time.Wheel.Level.{slot_range}
use nirvana_dev.Time.Wheel.Link.{also}
use nirvana_dev.Time.Wheel.Next.{no_one}
use nirvana_dev.Time.Wheel.Off.{off-IsWheel}
use nirvana_dev.Time.Wheel.Remove.{take_off-IsUnlinked}
use nirvana_dev.Time.Driver.{InnerState, take_off, put_timer, clear_entry, reregister}
use nirvana_dev.Time.Driver.Fine.{IsDriver}

fire_gone : (t : TimerShared) → (fire t ok).0.state ≡ state_deregistered
unfolding fire
fire_gone t = elim (Bool-cases (t.state == state_deregistered)) [
  | inl e ↦ rw (fire, e) (ground arith)
  | inr e ↦ rw (fire, e) refl
]

fire_waker : (t : TimerShared) → t.state ≢ state_deregistered → (fire t ok).1 ≡ t.waker
unfolding fire
fire_waker t on =
    let e : (t.state == state_deregistered) ≡ false = ground arith in rw (fire, e) refl

-- One timer of the driver is changed, and the clock is not.
pub record IsChanged (item : ℕ) (s s' : InnerState) : Type 0 where
  pub at : s'.elapsed ≡ s.elapsed
  pub others : (i : ℕ) → (i == item) ≡ false → s'.wheel.timers i ≡ s.wheel.timers i

module _ (n : ℕ) (s : InnerState) (item : ℕ) (d : IsDriver n s) where
  fine_here : IsWheel s.wheel.elapsed no_one s.wheel
  fine_here = subst (λ e. IsWheel e no_one s.wheel) (sym d.time) d.fine

  -- A wheel with one timer replaced makes the driver fine.
  module _ (lt : item < n) (w : Wheel) (t : TimerShared) (fine : IsWheel s.wheel.elapsed no_one w)
      (time : w.elapsed ≡ s.wheel.elapsed) (timers : w.timers ≡ with_timer s.wheel.timers item t)
      (word : t.state ≤ u64_max) where
    pub replaced-IsDriver : IsDriver n (record s { wheel = w })
    replaced-IsDriver = record {
      fine = subst (λ e. IsWheel e no_one w) d.time fine;
      time = time ∙ d.time;
      words = λ i. elim (Bool-cases (i == item)) [
        | inl e ↦ rw (timers, e) word
        | inr e ↦ rw (timers, e) (d.words i)
      ];
      unused = λ i le.
          let other : (i == item) ≡ false = ground arith in rw (timers, other) (d.unused i le);
    }

    pub replaced-IsChanged : IsChanged item s (record s { wheel = w })
    replaced-IsChanged = record { at = refl; others = λ i other. rw (timers, other) refl }

  -- In a driver that is fine, `clear_entry` fails no assertion, leaves the timer deregistered and each
  -- other one as it was, and the driver stays fine.
  pub clear_entry-IsDriver :
      item < n
      → (s' : InnerState) × (clear_entry s item ≡ some s')
        × IsDriver n s'
        × IsChanged item s s'
        × ((s'.wheel.timers item).state ≡ state_deregistered)
  unfolding clear_entry
  clear_entry-IsDriver lt =
      let (w, run, off) = take_off-IsUnlinked s.wheel item fine_here (d.words item) in
      let t = (fire (w.timers item) ok).0 in
      let gone = fire_gone (w.timers item) in
      let fine =
        off-IsWheel s.wheel.elapsed s.wheel w item no_one t fine_here off (λ i other. refl)
          (omega arith) (λ taken. absurd (omega arith)) (λ low. absurd (omega arith))
          (λ p. omega arith) in
      let w' = put_timer w item t in
      let timers : w'.timers ≡ with_timer s.wheel.timers item t =
        ap (λ ts. with_timer ts item t) off.timers in
      (
        record s { wheel = w' },
        rw (clear_entry, run) refl,
        replaced-IsDriver lt w' t fine off.time timers (omega arith),
        replaced-IsChanged lt w' t fine off.time timers (omega arith),
        (let self : (item == item) ≡ true = ground arith in rw self gone),
      )

-- A timer that is replaced twice.
twice :
    (timers : ℕ → TimerShared) (item : ℕ) (t t' : TimerShared)
    → with_timer (with_timer timers item t) item t' ≡ with_timer timers item t'
twice timers item t t' =
    let same : (i : ℕ)
        → with_timer (with_timer timers item t) item t' i ≡ with_timer timers item t' i =
      λ i. elim (Bool-cases (i == item)) [ inl e ↦ rw e refl | inr e ↦ rw e refl ] in
    λ x i. same i x

pub here :
    (timers : ℕ → TimerShared) (item : ℕ) (t : TimerShared) → with_timer timers item t item ≡ t
here timers item t = let self : (item == item) ≡ true = ground arith in rw self refl

-- What `reregister` gives: a timer that is registered for its tick, or one that is fired because its
-- tick has passed, with its waker.
pub record Reregistered (n tick item : ℕ) (s : InnerState) (run : Option (InnerState × Option ℕ))
    : Type 0 where
  pub next : InnerState
  pub waker : Option ℕ
  pub runs : run ≡ some (next, waker)
  pub driver : IsDriver n next
  pub changed : IsChanged item s next
  pub outcome :
      ((s.elapsed < tick) × ((next.wheel.timers item).state ≡ tick) × (waker ≡ none))
      ⊎ ((tick ≤ s.elapsed)
          × ((next.wheel.timers item).state ≡ state_deregistered)
          × (waker ≡ (s.wheel.timers item).waker))

module _ (tick : ℕ) (s : InnerState) (item : ℕ) (w w' : Wheel) (t : TimerShared)
    (run : take_off s.wheel item ≡ some w)
    (set : set_expiration (w.timers item) tick ≡ some t) where
  run_inserted :
      (when : ℕ)
      → insert (put_timer w item t) item ≡ some (w', inserted when)
      → reregister s tick item ≡ some (record s { wheel = w' }, none)
  unfolding reregister
  run_inserted when ins = rw (reregister, run, set, ins) refl

  run_elapsed :
      insert (put_timer w item t) item ≡ some (w', elapsed)
      → reregister s tick item
        ≡ some (
          record s { wheel = put_timer w' item (fire (w'.timers item) ok).0 },
          (fire (w'.timers item) ok).1,
        )
  unfolding reregister
  run_elapsed ins = rw (reregister, run, set, ins) refl

module _ (n tick : ℕ) (s : InnerState) (item : ℕ) (d : IsDriver n s) (lt : item < n)
    (waits : tick < state_pending_fire)
    (horizon : tick / slot_range 5 < s.elapsed / slot_range 5 + 64) where
  -- A tick that lies ahead, less than a rotation of the last level away, is registered; one that has
  -- passed is fired at once.
  pub reregister-Reregistered : Reregistered n tick item s (reregister s tick item)
  unfolding set_expiration
  reregister-Reregistered =
      let (w, run, off) = take_off-IsUnlinked s.wheel item (fine_here n s item d) (d.words item) in
      let old = w.timers item in
      let t = record old { state = tick; cached_when = tick } in
      let set : set_expiration old tick ≡ some t =
        (let low : ltb tick state_min_value ≡ true = ground arith in
          rw (set_expiration, low) refl) in
      let w1 = put_timer w item t in
      let same = here w.timers item t in
      elim (Bool-cases (leb tick s.elapsed)) [
        | inl late ↦
            let le : tick ≤ w.elapsed = ground (arith, off.time, d.time) in
            let low : w.elapsed < u64_max = omega (arith, off.time, d.time, d.fine.small) in
            let ins = insert-elapsed w1 item (rw same le) low in
            let w2 = record w1 { timers = with_timer w1.timers item (synced (w1.timers item)) } in
            let same2 : w2.timers item ≡ synced t =
              here w1.timers item (synced (w1.timers item)) ∙ ap synced same in
            let tf = (fire (w2.timers item) ok).0 in
            let gone = fire_gone (w2.timers item) in
            let once =
              twice w1.timers item (synced (w1.timers item)) tf ∙ twice w.timers item t tf in
            let fine =
              off-IsWheel s.wheel.elapsed s.wheel w item no_one tf (fine_here n s item d) off
                (λ i other. refl) (omega arith) (λ taken. absurd (omega arith))
                (λ low. absurd (omega (arith, gone, low))) (λ p. omega (arith, gone, p)) in
            let w3 = put_timer w2 item tf in
            let fine3 =
              subst (λ ts. IsWheel s.wheel.elapsed no_one (record w { timers = ts })) (sym once)
                fine in
            let timers : w3.timers ≡ with_timer s.wheel.timers item tf =
              once ∙ ap (λ ts. with_timer ts item tf) off.timers in
            let word : tf.state ≤ u64_max = omega (arith, gone) in
            record {
              next = record s { wheel = w3 };
              waker = (fire (w2.timers item) ok).1;
              runs = run_elapsed tick s item w w2 t run set ins;
              driver = replaced-IsDriver n s item d lt w3 tf fine3 off.time timers word;
              changed = replaced-IsChanged n s item d lt w3 tf fine3 off.time timers word;
              outcome = inr (
                ground arith,
                ap (λ (x : TimerShared). x.state) (here w2.timers item tf) ∙ gone,
                fire_waker (w2.timers item) (λ off.
                      (let at = ap (λ (x : TimerShared). x.state) same2 in omega (arith, off, at)))
                    ∙ ap (λ (x : TimerShared). x.waker) same2
                    ∙ ap (λ ts. (ts item).waker) off.timers,
              );
            }
        | inr ahead ↦
            let less : w.elapsed < tick = ground (arith, off.time, d.time) in
            let fine =
              off-IsWheel s.wheel.elapsed s.wheel w item (also item no_one) t (fine_here n s item d)
                off (λ i other. rw other refl) (ground arith)
                (λ taken. (
                  record { registered = waits; horizon = rw d.time horizon },
                  omega (arith, less, off.time),
                ))
                (λ low. ground arith) (λ p. omega (arith, waits, p)) in
            let fine1 = subst (λ e. IsWheel e (also item no_one) w1) (sym off.time) fine in
            let (w', run', fine', time', timers') = insert-inserted w1 item fine1 (rw same less) in
            let timers : w'.timers ≡ with_timer s.wheel.timers item (synced t) =
              timers'
              ∙ twice w.timers item t (synced (w1.timers item))
              ∙ ap (λ x. with_timer w.timers item (synced x)) same
              ∙ ap (λ ts. with_timer ts item (synced t)) off.timers in
            let fine'' = subst (λ e. IsWheel e no_one w') off.time fine' in
            let time = time' ∙ off.time in
            let word : tick ≤ u64_max = omega arith in
            record {
              next = record s { wheel = w' };
              waker = none;
              runs = run_inserted tick s item w w' t run set (w1.timers item).state run';
              driver = replaced-IsDriver n s item d lt w' (synced t) fine'' time timers word;
              changed = replaced-IsChanged n s item d lt w' (synced t) fine'' time timers word;
              outcome = inl (
                ground arith,
                ap (λ ts. (ts item).state) timers
                    ∙ ap (λ (x : TimerShared). x.state) (here s.wheel.timers item (synced t)),
                refl,
              );
            }
      ]
