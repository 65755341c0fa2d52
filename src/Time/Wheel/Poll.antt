-- ===== src/Time/Wheel/Poll.antt =====
-- crates/monoio/src/time/driver/wheel/mod.rs, `poll`: the timers whose time has come, one by one.
use nirvana_dev.Prelude.{
  ℕ, zero, suc, ◌+◌, ◌*◌, ◌/◌, ◌^◌, ◌≤◌, ◌<◌, true, leb, Bool-cases, Option-cases, List, [], Option,
  none, some, ◌≡◌, ◌⊎◌, inl, inr, refl, ◌∙◌, arith,
}
use native.Mathlib.Nat.{div-lt_iff_lt-mul}
use nirvana_dev.Time.Wheel.{Wheel, set_elapsed, wait, poll}
use nirvana_dev.Time.Wheel.EntryList.{pop_back, is_empty}
use nirvana_dev.Time.Wheel.Counts.{count, count-empty, pop_back-none}
use nirvana_dev.Time.Wheel.Fine.{IsWheel, IsWheel-elapsed}
use nirvana_dev.Time.Wheel.Level.{slot_range}
use nirvana_dev.Time.Wheel.Level.Range.{slot_range_pos}
use nirvana_dev.Time.Wheel.Next.{no_one, next_expiration-cases}
use nirvana_dev.Time.Wheel.Process.{Moved, Moved-refl, Moved-trans, process_expiration-IsWheel}
use nirvana_dev.Time.Wheel.Take.{IsWheel-later, reach_tick}

-- What `poll` gives: a timer taken off the queue of a wheel that is fine, or nothing, with the wheel
-- at the present and no timer queued.
pub data Polled (now : ℕ) : Wheel → Option ℕ → Type 0 where
  fires :
      (w : Wheel) (rest : List ℕ) (item : ℕ)
      → IsWheel w.elapsed no_one w
      → w.elapsed ≤ now
      → pop_back w.pending ≡ some (rest, item)
      → Polled now (record w { pending = rest }) (some item)
  rests : (w : Wheel) → IsWheel now no_one w → w.elapsed ≡ now → w.pending ≡ [] → Polled now w none

-- A wheel and a result of `poll` to which it gets in time.
pub record Outcome (now : ℕ) (w : Wheel) (run : Option (Wheel × Option ℕ)) : Type 0 where
  pub wheel : Wheel
  pub item : Option ℕ
  pub runs : run ≡ some (wheel, item)
  pub polled : Polled now wheel item
  pub moved : (i : ℕ) → Moved now (w.timers i) (wheel.timers i)
  pub onward : w.elapsed ≤ wheel.elapsed

module _ (now : ℕ) (small : now < 2 ^ 62) where
  wait-Outcome :
      (w : Wheel)
      → IsWheel w.elapsed no_one w
      → w.elapsed ≤ now
      → w.pending ≡ []
      → ((i m s : ℕ)
          → m < 6
          → s < 64
          → 1 ≤ count i ((w.levels m).slot s)
          → now / slot_range m < (w.timers i).cached_when / slot_range m)
      → Outcome now w (wait w now)
  unfolding set_elapsed pop_back
  wait-Outcome w fine le unqueued before =
      let in_time : leb w.elapsed now ≡ true = ground arith in
      let last : pop_back w.pending ≡ none = rw unqueued refl in
      record {
        wheel = record w { elapsed = now };
        item = none;
        runs = rw (wait, set_elapsed, in_time, last) refl;
        polled =
            rests (record w { elapsed = now }) (IsWheel-later w w.elapsed now fine le small before)
              refl unqueued;
        moved = λ i. Moved-refl now (w.timers i);
        onward = le;
      }

  pub poll_from :
      (fuel : ℕ) (w : Wheel)
      → IsWheel w.elapsed no_one w
      → w.elapsed ≤ now
      → now < fuel + w.elapsed
      → Outcome now w (poll fuel w now)
  unfolding poll set_elapsed
  poll_from zero w fine le enough = absurd (omega arith)
  poll_from (suc fuel) w fine le enough = elim (Option-cases (pop_back w.pending)) [
    | inr ((rest, item), e) ↦ record {
      wheel = record w { pending = rest };
      item = some item;
      runs = rw (poll, e) refl;
      polled = fires w rest item fine le e;
      moved = λ i. Moved-refl now (w.timers i);
      onward = omega arith;
    }
    | inl e ↦
        let unqueued = pop_back-none w.pending e in
        let clear : is_empty w.pending ≡ true = rw unqueued refl in
        elim (next_expiration-cases w fine clear) [
          | inl (found, all) ↦
              let o = wait-Outcome w fine le unqueued (λ i m s lm ls linked. absurd (
                let clear = all m s lm ls in
                omega (arith, linked, count-empty ((w.levels m).slot s) i clear))) in
              runs_as o (rw (poll, e, found) refl)
          | inr (m, q, found, lt, n, lower) ↦
              let d = q * slot_range m in
              let (into, back) =
                div-lt_iff_lt-mul {k = slot_range m} {x = w.elapsed} {y = q} (slot_range_pos m) in
              let ahead : w.elapsed < d = into n.after in
              elim (Bool-cases (leb d now)) [
                | inl due ↦
                    let (w1, run, fine1, progress) =
                      process_expiration-IsWheel w fine m q lt n lower (ground arith)
                        (omega arith) in
                    let w2 = record w1 { elapsed = d } in
                    let fine2 = IsWheel-elapsed d no_one w1 d fine1 in
                    let in_time : leb w1.elapsed d ≡ true = ground (arith, progress.time, ahead) in
                    let o = poll_from fuel w2 fine2 (ground arith) (omega arith) in
                    record {
                      wheel = o.wheel;
                      item = o.item;
                      runs = rw (poll, e, found, due, run, set_elapsed, in_time) o.runs;
                      polled = o.polled;
                      moved = λ i.
                          Moved-trans d now (w.timers i) (w1.timers i) (o.wheel.timers i)
                            (ground arith) small (progress.moved i) (o.moved i);
                      onward = omega (arith, o.onward);
                    }
                | inr over ↦
                    let o =
                      wait-Outcome w fine le unqueued
                        (reach_tick w fine m q lt n lower now (ground arith)) in
                    runs_as o (rw (poll, e, found, over) refl)
              ]
        ]
  ]
    where
      runs_as :
          {w : Wheel} {run run' : Option (Wheel × Option ℕ)}
          → Outcome now w run
          → run' ≡ run
          → Outcome now w run'
      runs_as o same = record {
        wheel = o.wheel;
        item = o.item;
        runs = same ∙ o.runs;
        polled = o.polled;
        moved = o.moved;
        onward = o.onward;
      }

-- A timer that `poll` takes off the queue.
pub record IsTaken (now : ℕ) (w : Wheel) (run : Option (Wheel × Option ℕ)) : Type 0 where
  pub wheel : Wheel
  pub rest : List ℕ
  pub item : ℕ
  pub runs : run ≡ some (record wheel { pending = rest }, some item)
  pub fine : IsWheel wheel.elapsed no_one wheel
  pub in_time : wheel.elapsed ≤ now
  pub popped : pop_back wheel.pending ≡ some (rest, item)
  pub moved : (i : ℕ) → Moved now (w.timers i) (wheel.timers i)

-- The wheel when `poll` gives no timer.
pub record IsIdle (now : ℕ) (w : Wheel) (run : Option (Wheel × Option ℕ)) : Type 0 where
  pub wheel : Wheel
  pub runs : run ≡ some (wheel, none)
  pub fine : IsWheel now no_one wheel
  pub time : wheel.elapsed ≡ now
  pub unqueued : wheel.pending ≡ []
  pub moved : (i : ℕ) → Moved now (w.timers i) (wheel.timers i)

-- From a wheel that is fine, with fuel for each tick up to the present, `poll` gives a timer whose
-- time has come, or brings the wheel to the present with no timer queued.
pub poll-cases :
    (now fuel : ℕ) (w : Wheel)
    → now < 2 ^ 62
    → IsWheel w.elapsed no_one w
    → w.elapsed ≤ now
    → now < fuel + w.elapsed
    → IsTaken now w (poll fuel w now) ⊎ IsIdle now w (poll fuel w now)
poll-cases now fuel w small fine le enough =
    let o = poll_from now small fuel w fine le enough in split o.polled o.runs o.moved
  where
    split :
        {w' : Wheel} {item : Option ℕ} {run : Option (Wheel × Option ℕ)}
        → Polled now w' item
        → run ≡ some (w', item)
        → ((i : ℕ) → Moved now (w.timers i) (w'.timers i))
        → IsTaken now w run ⊎ IsIdle now w run
    split (fires v rest item fine in_time popped) runs moved = inl (record {
      wheel = v;
      rest = rest;
      item = item;
      runs = runs;
      fine = fine;
      in_time = in_time;
      popped = popped;
      moved = moved;
    })
    split (rests v fine time unqueued) runs moved = inr (record {
      wheel = v;
      runs = runs;
      fine = fine;
      time = time;
      unqueued = unqueued;
      moved = moved;
    })
