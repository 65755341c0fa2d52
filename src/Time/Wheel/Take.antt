-- ===== src/Time/Wheel/Take.antt =====
-- crates/monoio/src/time/driver/wheel/mod.rs: time passes, and the slot that expires is taken.
use nirvana_dev.Prelude.{
  ℕ, suc, ◌*◌, ◌/◌, ◌%◌, ◌^◌, ◌≤◌, ◌<◌, Bool, true, false, ◌&&◌, ltb, ◌==◌, Bool-cases, ◌≡◌, inl,
  inr, sym, ap, ◌∙◌, arith,
}
use native.Mathlib.Nat.{mul-div_cancel, div-lt_iff_lt-mul}
use nirvana_dev.Time.Wheel.{Wheel}
use nirvana_dev.Time.Wheel.EntryList.{is_empty}
use nirvana_dev.Time.Wheel.Counts.{count, count-is_empty, count-empty}
use nirvana_dev.Time.Wheel.Fine.{IsWheel, IsPlaced, IsTick, IsPlaced-IsTick, IsPlaced-later}
use nirvana_dev.Time.Wheel.Level.{slot_range, slot_for}
use nirvana_dev.Time.Wheel.Level.Next.{IsNext}
use nirvana_dev.Time.Wheel.Level.Range.{slot_range_pos, div_mono}
use nirvana_dev.Time.Wheel.LevelFor.{coarser, IsLevel-le}
use nirvana_dev.Time.Wheel.Next.{no_one, turn_of, turn_start}

abbrev pub is_at : (m k m' k' : ℕ) → Bool
is_at m k m' k' = (m' == m) && (k' == k)

-- A timer is in one slot.
pub IsPlaced-unique :
    (now : ℕ) (w : Wheel) (i m s m' s' : ℕ)
    → IsPlaced now (w.timers i) m s
    → IsPlaced now (w.timers i) m' s'
    → is_at m s m' s' ≡ true
IsPlaced-unique now w i m s m' s' at at' =
    let c = (w.timers i).cached_when in
    let le = IsLevel-le now c m m' at.on_level at'.on_level in
    let ge = IsLevel-le now c m' m at'.on_level at.on_level in
    let same : m' ≡ m = omega arith in
    let slots : s' ≡ s = sym at'.in_slot ∙ ap (λ l. slot_for c l) same ∙ at.in_slot in ground arith

-- Time passes to `later`, before the slot of each timer that is linked.
pub IsWheel-later :
    (w : Wheel) (now later : ℕ)
    → IsWheel now no_one w
    → now ≤ later
    → later < 2 ^ 62
    → ((i m s : ℕ)
        → m < 6
        → s < 64
        → 1 ≤ count i ((w.levels m).slot s)
        → later / slot_range m < (w.timers i).cached_when / slot_range m)
    → IsWheel later no_one (record w { elapsed = later })
IsWheel-later w now later fine le small before = record {
  small = small;
  levels = fine.levels;
  once = fine.once;
  placed = λ i m s lm ls linked.
      IsPlaced-later now later (w.timers i) m s le (before i m s lm ls linked)
        (fine.placed i m s lm ls linked);
  queued_once = fine.queued_once;
  queued = fine.queued;
  off = λ i some. absurd (omega arith);
  held = fine.held;
  pends = fine.pends;
}

after_of : (p q : ℕ) → ltb p q ≡ false → (p % 64 == q % 64) ≡ false → q < p
after_of p q late other = elim (Bool-cases (p == q)) [
  | inl e ↦ let same : p ≡ q = ground arith in let e' = rw same at other in absurd (ground arith)
  | inr e ↦ ground arith
]

module _ (w : Wheel) (fine : IsWheel w.elapsed no_one w) (m q : ℕ) (lt : m < 6)
    (n : IsNext (w.levels m) (w.elapsed / slot_range m) q)
    (lower : (l s : ℕ) → l < m → s < 64 → is_empty ((w.levels l).slot s) ≡ true) where
  abbrev now : ℕ
  now = w.elapsed

  abbrev deadline : ℕ
  deadline = q * slot_range m

  tick_of_deadline : deadline / slot_range m ≡ q
  tick_of_deadline = mul-div_cancel q (slot_range_pos m)

  -- A timer that is linked, at its tick.
  placed-IsTick :
      (i l s : ℕ)
      → l < 6
      → s < 64
      → 1 ≤ count i ((w.levels l).slot s)
      → IsTick now (w.timers i) l s ((w.timers i).cached_when / slot_range l)
  placed-IsTick i l s ll ls linked =
      IsPlaced-IsTick now (w.timers i) l s (fine.placed i l s ll ls linked)

  -- The slot that expires first holds the timers of its tick, and all the others are later.
  pub later_tick :
      (i l s : ℕ)
      → l < 6
      → s < 64
      → is_at m (q % 64) l s ≡ false
      → 1 ≤ count i ((w.levels l).slot s)
      → deadline / slot_range l < (w.timers i).cached_when / slot_range l
  later_tick i l s ll ls other linked =
      let at = placed-IsTick i l s ll ls linked in
      let p = (w.timers i).cached_when / slot_range l in
      elim (Bool-cases (ltb l m)) [
        | inl below ↦
            let clear = lower l s (ground arith) ls in
            absurd (omega (arith, linked, count-empty ((w.levels l).slot s) i clear))
        | inr e ↦ elim (Bool-cases (ltb m l)) [
          | inl above ↦
              let turn =
                turn_of w fine m (omega arith) q (ground arith) n.after n.within n.entries in
              let same = coarser deadline now (suc m) l (ground arith) (turn_start now m q turn) in
              omega (arith, same, at.ahead)
          | inr e' ↦
              let same : l ≡ m = ground arith in
              let p' : now / slot_range m < p = rw (← same) at.ahead in
              let slots : (p % 64 == q % 64) ≡ false = ground (arith, at.slot_of) in
              let holds = count-is_empty ((w.levels l).slot s) i linked in
              let holds' : is_empty ((w.levels m).slot (p % 64)) ≡ false =
                rw (at.slot_of, ← same) holds in
              elim (Bool-cases (ltb p q)) [
                | inl early ↦ let clear = n.before p p' (ground arith) in absurd (ground arith)
                | inr late ↦
                    (let whole : deadline / slot_range l ≡ q =
                        ap (λ x. deadline / slot_range x) same ∙ tick_of_deadline in
                      let more : q < p = after_of p q late slots in rw whole more)
              ]
        ]
      ]

  -- The timers of the slot that expires first have their times in its tick.
  pub expiring_tick :
      (i : ℕ)
      → 1 ≤ count i ((w.levels m).slot (q % 64))
      → (w.timers i).cached_when / slot_range m ≡ q
  expiring_tick i linked =
      let at = placed-IsTick i m (q % 64) lt (omega arith) linked in
      let p = (w.timers i).cached_when / slot_range m in
      omega (arith, at.slot_of, at.ahead, at.near, n.after, n.within)

  -- Nothing is reached before the first deadline.
  pub reach_tick :
      (later : ℕ)
      → later < deadline
      → (i l s : ℕ) → l < 6
      → s < 64
      → 1 ≤ count i ((w.levels l).slot s)
      → later / slot_range l < (w.timers i).cached_when / slot_range l
  reach_tick later less i l s ll ls linked = elim (Bool-cases (is_at m (q % 64) l s)) [
    | inl e ↦
        let same : l ≡ m = ground arith in
        let slots : s ≡ q % 64 = ground arith in
        let whole = expiring_tick i (rw (← slots, ← same) linked) in
        let (into, below) =
          div-lt_iff_lt-mul {k = slot_range m} {x = later} {y = q} (slot_range_pos m) in
        rw (same, whole) (below less)
    | inr e ↦
        let le = div_mono (slot_range l) later deadline (slot_range_pos l) (omega arith) in
        omega (arith, le, later_tick i l s ll ls e linked)
  ]
