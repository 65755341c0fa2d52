-- ===== src/Time/Driver/Process.antt =====
-- crates/monoio/src/time/driver/mod.rs, `process_at_time`: it fires exactly the timers that are due.
use nirvana_dev.Prelude.{
  ℕ, zero, suc, ◌+◌, ◌-◌, ◌^◌, ◌≤◌, ◌<◌, false, ltb, ◌==◌, Bool-cases, Option-cases, List, [],
  Option, none, some, ◌≡◌, inl, inr, refl, sym, ap, ◌∙◌, arith,
}
use nirvana_dev.Time.Entry.{TimerShared, ok, state_deregistered, state_pending_fire}
use nirvana_dev.Time.Wheel.{Wheel, poll}
use nirvana_dev.Time.Wheel.Counts.{count, count-empty}
use nirvana_dev.Time.Wheel.Fine.{IsWheel}
use nirvana_dev.Time.Wheel.Next.{no_one}
use nirvana_dev.Time.Wheel.Poll.{IsTaken, IsIdle, poll-cases}
use nirvana_dev.Time.Driver.{fire_all, put_timer, cons_some}
use nirvana_dev.Time.Driver.Fire.{
  IsDue, Served, fired, kept, rest-not-IsDue, popped-state, fire-queued, live, live-same, live-fire,
  fire-IsWheel, rest-Served,
}
use nirvana_dev.Time.Driver.Served.{
  IsWoken, Fired, Moved-IsDue, IsDue-Moved, Moved-registered, then-Served, count-cons_some,
  count_head,
}

module _ (now : ℕ) (small : now < 2 ^ 62) where
  -- One more timer is fired.
  module _ (w : Wheel) (run : Option (Wheel × Option ℕ)) (o : IsTaken now w run) where
    abbrev was : TimerShared
    was = o.wheel.timers o.item

    abbrev gone : TimerShared
    gone = record was { result = ok; state = state_deregistered; waker = none }

    abbrev after : Wheel
    after = put_timer (record o.wheel { pending = o.rest }) o.item gone

    queued : was.state ≡ state_pending_fire
    queued = popped-state o.wheel.elapsed o.wheel o.rest o.item o.fine o.popped

    registered : ((w.timers o.item).state == state_deregistered) ≡ false
    registered =
        let on : (was.state == state_deregistered) ≡ false = ground (arith, queued) in
        sym (Moved-registered now small (w.timers o.item) was (o.moved o.item)) ∙ on

    after-bound :
        (n : ℕ)
        → ((i : ℕ) → n ≤ i → (w.timers i).state ≡ state_deregistered)
        → (i : ℕ) → n ≤ i
        → (after.timers i).state ≡ state_deregistered
    after-bound n bound i le = elim (Bool-cases (i == o.item)) [
      | inl e ↦ rw e refl
      | inr e ↦
          let off = bound i le in
          let same = Moved-registered now small (w.timers i) (o.wheel.timers i) (o.moved i) in
          rw e (ground arith)
    ]

    after-live :
        (n : ℕ)
        → ((i : ℕ) → n ≤ i → (w.timers i).state ≡ state_deregistered)
        → live n after.timers + 1 ≡ live n w.timers
    after-live n bound =
        let inside : o.item < n = elim (Bool-cases (ltb o.item n)) [
          | inl e ↦ ground arith
          | inr e ↦ let off = bound o.item (ground arith) in absurd (ground (arith, registered))
        ] in
        let on : (was.state == state_deregistered) ≡ false = ground (arith, queued) in
        live-fire n o.item o.wheel.timers gone inside on refl
        ∙ live-same n w.timers o.wheel.timers
            (λ i. Moved-registered now small (w.timers i) (o.wheel.timers i) (o.moved i))

    IsDue-item : IsDue now (w.timers o.item)
    IsDue-item = Moved-IsDue now small (w.timers o.item) was (o.moved o.item) (inr queued)

    gone-Served :
        (c : TimerShared)
        → Served now gone c
        → (c.state ≡ state_deregistered) × (c.result ≡ ok) × (c.waker ≡ none)
    gone-Served c (fired due off result waker) = (off, result, waker)
    gone-Served c (kept wait idle state result waker) = (state, result, waker)

    -- A timer before, and when the others have been served after it.
    after-Served :
        (i : ℕ) (c : TimerShared) → Served now (after.timers i) c → Served now (w.timers i) c
    after-Served i c served = elim (Bool-cases (i == o.item)) [
      | inl e ↦
          let same : i ≡ o.item = ground arith in
          let served' = rw e at served in
          let (off, result, waker) = gone-Served c served' in
          fired (rw same IsDue-item) off result waker
      | inr e ↦
          let served' = rw e at served in
          then-Served now small (w.timers i) (o.wheel.timers i) c (o.moved i) served'
    ]

    waker_of : (k : ℕ) → (i : ℕ) → (w.timers i).waker ≡ some k → (o.wheel.timers i).waker ≡ some k
    waker_of k i e = (o.moved i).waker ∙ e

    -- A waker of a timer that is due after the firing.
    only_after :
        (wakers : List ℕ) (k : ℕ)
        → IsWoken now after.timers wakers
        → 1 ≤ count k wakers
        → (i : ℕ) × IsDue now (w.timers i) × ((w.timers i).waker ≡ some k)
    only_after wakers k woken linked =
        let (i, due, e) = woken.only k linked in
        elim (Bool-cases (i == o.item)) [
          | inl same ↦ let e' = rw same at e in absurd (ground arith)
          | inr other ↦
              let due' = rw other at due in
              let e' = rw other at e in
              (
                i,
                Moved-IsDue now small (w.timers i) (o.wheel.timers i) (o.moved i) due',
                sym (o.moved i).waker ∙ e',
              )
        ]

    after-IsWoken :
        (wakers : List ℕ)
        → IsWoken now after.timers wakers
        → IsWoken now w.timers (cons_some was.waker wakers)
    after-IsWoken wakers woken = record {
      each = λ i k due e.
          (let c = count-cons_some k was.waker wakers in
            elim (Bool-cases (i == o.item)) [
              | inl same ↦
                  let at : i ≡ o.item = ground arith in
                  let e' = waker_of k o.item (rw (← at) e) in rw e' (count_head k wakers)
              | inr other ↦
                  let due' =
                    IsDue-Moved now small (w.timers i) (o.wheel.timers i) (o.moved i) due in
                  let linked = woken.each i k (rw other due') (rw other (waker_of k i e)) in
                  omega (arith, c, linked)
            ]);
      only = λ k linked.
          (let c = count-cons_some k was.waker wakers in
            elim (Option-cases was.waker) [
              | inl e ↦
                  let c' = rw e at c in
                  let linked' = rw e at linked in
                  only_after wakers k woken (omega (arith, c', linked'))
              | inr (j, e) ↦
                  let c' = rw e at c in
                  elim (Bool-cases (k == j)) [
                    | inl same ↦
                        let at : j ≡ k = ground arith in
                        (o.item, IsDue-item, sym (o.moved o.item).waker ∙ e ∙ ap Option.some at)
                    | inr other ↦
                        let c'' = rw other at c' in
                        let linked' = rw e at linked in
                        only_after wakers k woken (omega (arith, c'', linked'))
                  ]
            ]);
    }

  pub fire_all-Fired :
      (fuel n : ℕ) (w : Wheel)
      → IsWheel w.elapsed no_one w
      → w.elapsed ≤ now
      → ((i : ℕ) → n ≤ i → (w.timers i).state ≡ state_deregistered)
      → live n w.timers < fuel
      → Fired now w (fire_all fuel w now)
  unfolding fire_all
  fire_all-Fired zero n w fine le bound enough = absurd (omega arith)
  fire_all-Fired (suc fuel) n w fine le bound enough =
      elim (poll-cases now (suc now - w.elapsed) w small fine le (omega arith)) [
        | inr o ↦ idle fuel w o
        | inl o ↦
            let run = poll (suc now - w.elapsed) w now in
            let fired_item = fire-queued (was w run o) (queued w run o) in
            let fine1 = fire-IsWheel o.wheel o.rest o.item (gone w run o) o.fine o.popped refl in
            let fewer = after-live w run o n bound in
            let ih =
              fire_all-Fired fuel n (after w run o) fine1 o.in_time (after-bound w run o n bound)
                (omega (arith, fewer)) in
            record {
              wheel = ih.wheel;
              wakers = cons_some (was w run o).waker ih.wakers;
              runs = rw (fire_all, o.runs, fired_item, ih.runs, fired_item) refl;
              fine = ih.fine;
              time = ih.time;
              unqueued = ih.unqueued;
              served = λ i. after-Served w run o i (ih.wheel.timers i) (ih.served i);
              woken = after-IsWoken w run o ih.wakers ih.woken;
            }
      ]
    where
      idle :
          (fuel : ℕ) (w : Wheel)
          → IsIdle now w (poll (suc now - w.elapsed) w now)
          → Fired now w (fire_all (suc fuel) w now)
      idle fuel w o = record {
        wheel = o.wheel;
        wakers = [];
        runs = rw (fire_all, o.runs) refl;
        fine = o.fine;
        time = o.time;
        unqueued = o.unqueued;
        served = λ i. rest-Served now w o.wheel o.fine o.unqueued o.moved i;
        woken = record {
          each = λ i k due e. absurd (rest-not-IsDue now w o.wheel o.fine o.unqueued o.moved i due);
          only = λ k linked. absurd (omega (arith, linked, count-empty [] k refl));
        };
      }
