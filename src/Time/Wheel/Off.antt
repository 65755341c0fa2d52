-- ===== src/Time/Wheel/Off.antt =====
-- crates/monoio/src/time/driver/wheel/mod.rs: a wheel that a timer was taken off.
use nirvana_dev.Prelude.{
  ℕ, ◌≤◌, ◌<◌, false, ◌==◌, if◌then◌else◌, Bool-cases, ◌≡◌, ◌≢◌, inl, inr, arith,
}
use nirvana_dev.Time.Entry.{TimerShared, state_pending_fire}
use nirvana_dev.Time.Wheel.{Wheel, with_timer}
use nirvana_dev.Time.Wheel.Counts.{count}
use nirvana_dev.Time.Wheel.Fine.{IsWheel, IsWaiting}
use nirvana_dev.Time.Wheel.Level.Fine.{IsFine}
use nirvana_dev.Time.Wheel.Next.{no_one}

-- `w'` is the wheel `w` with a timer linked nowhere.
pub record IsUnlinked (item : ℕ) (w w' : Wheel) : Type 0 where
  pub time : w'.elapsed ≡ w.elapsed
  pub timers : w'.timers ≡ w.timers
  pub levels : (m : ℕ) → m < 6 → IsFine (w'.levels m) × ((w'.levels m).level ≡ m)
  pub slots :
      (i m s : ℕ)
      → m < 6
      → s < 64
      → count i ((w'.levels m).slot s) ≡ (if i == item then 0 else count i ((w.levels m).slot s))
  pub queue : (i : ℕ) → count i w'.pending ≡ (if i == item then 0 else count i w.pending)

-- Whatever is put in place of a timer that is off: a timer that has fired, or one that is to be linked.
pub off-IsWheel :
    (now : ℕ) (w w' : Wheel) (item : ℕ) (g : ℕ → ℕ) (t : TimerShared)
    → IsWheel now no_one w
    → IsUnlinked item w w'
    → ((i : ℕ) → (i == item) ≡ false → g i ≡ 0)
    → g item ≤ 1
    → (1 ≤ g item → IsWaiting now t × (now ≤ t.state))
    → (t.state < state_pending_fire → 1 ≤ g item)
    → t.state ≢ state_pending_fire
    → IsWheel now g (record w' { timers = with_timer w'.timers item t })
off-IsWheel now w w' item g t fine off others once waits taken idle = record {
  small = fine.small;
  levels = off.levels;
  once = λ i m s lm ls. elim (Bool-cases (i == item)) [
    | inl e ↦
        let same : i ≡ item = ground arith in
        let c = off.slots i m s lm ls in
        let c' = rw e at c in rw same (let c'' = rw same at c' in omega (arith, c'', once))
    | inr e ↦
        let c = off.slots i m s lm ls in
        let c' = rw e at c in omega (arith, c', fine.once i m s lm ls, others i e)
  ];
  placed = λ i m s lm ls linked. elim (Bool-cases (i == item)) [
    | inl e ↦
        let c = off.slots i m s lm ls in let c' = rw e at c in absurd (omega (arith, c', linked))
    | inr e ↦
        let c = off.slots i m s lm ls in
        let c' = rw e at c in
        rw (e, off.timers) (fine.placed i m s lm ls (omega (arith, c', linked)))
  ];
  queued_once = λ i. ground (arith, off.queue i, fine.queued_once i);
  queued = λ i linked. elim (Bool-cases (i == item)) [
    | inl e ↦ let c = off.queue i in let c' = rw e at c in absurd (omega (arith, c', linked))
    | inr e ↦
        let c = off.queue i in
        let c' = rw e at c in rw (e, off.timers) (fine.queued i (omega (arith, c', linked)))
  ];
  off = λ i some. elim (Bool-cases (i == item)) [
    | inl e ↦ let same : i ≡ item = ground arith in rw e (waits (rw same at some))
    | inr e ↦ absurd (omega (arith, others i e, some))
  ];
  held = λ i low. elim (Bool-cases (i == item)) [
    | inl e ↦
        let same : i ≡ item = ground arith in let low' = rw e at low in inl (rw same (taken low'))
    | inr e ↦
        let low' = rw (e, off.timers) at low in
        elim (fine.held i low') [
          | inl hit ↦ absurd (omega arith)
          | inr h ↦
              let c = off.slots i h.level h.slot h.level_lt h.slot_lt in
              let c' = rw e at c in
              inr (record {
                level = h.level;
                slot = h.slot;
                level_lt = h.level_lt;
                slot_lt = h.slot_lt;
                linked = omega (arith, c', h.linked);
              })
        ]
  ];
  pends = λ i pending. elim (Bool-cases (i == item)) [
    | inl e ↦ let p = rw e at pending in absurd (idle p)
    | inr e ↦
        let p = rw (e, off.timers) at pending in
        let c = off.queue i in let c' = rw e at c in omega (arith, c', fine.pends i p)
  ];
}
