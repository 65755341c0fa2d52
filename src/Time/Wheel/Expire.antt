-- ===== src/Time/Wheel/Expire.antt =====
-- crates/monoio/src/time/driver/wheel/mod.rs, `take_entries`: the slot that expires is emptied.
use nirvana_dev.Prelude.{
  ℕ, ◌+◌, ◌*◌, ◌/◌, ◌%◌, ◌^◌, ◌≤◌, ◌<◌, true, ◌&&◌, ltb, ◌==◌, if◌then◌else◌, Bool-cases, ◌≡◌, ◌⊎◌,
  inl, inr, refl, sym, ◌∙◌, arith,
}
use native.Mathlib.Nat.{div-mul-le_self}
use nirvana_dev.Time.Entry.{state_pending_fire}
use nirvana_dev.Time.Wheel.{Wheel, take_entries, with_level}
use nirvana_dev.Time.Wheel.EntryList.{is_empty}
use nirvana_dev.Time.Wheel.Counts.{count}
use nirvana_dev.Time.Wheel.Fine.{IsWheel, IsWaiting, IsHeld, IsPlaced-later, IsWaiting-later}
use nirvana_dev.Time.Wheel.Level
use nirvana_dev.Time.Wheel.Level.{Expiration, slot_range, take_slot}
use nirvana_dev.Time.Wheel.Level.Fine.{IsFine, take_slot-IsFine}
use nirvana_dev.Time.Wheel.Level.Next.{IsNext}
use nirvana_dev.Time.Wheel.Next.{expires, no_one}
use nirvana_dev.Time.Wheel.Take.{is_at, IsPlaced-unique, later_tick, expiring_tick}

take_slot-level : (l : Level.Level) (k : ℕ) → (take_slot l k).0.level ≡ l.level
unfolding take_slot
take_slot-level l k = refl

-- A wheel in which one level was changed.
module _ (levels : ℕ → Level.Level) (m : ℕ) (l : Level.Level) (fine : IsFine l)
    (level : l.level ≡ m) where
  pub with_level-IsFine :
      ((n : ℕ) → n < 6 → IsFine (levels n) × ((levels n).level ≡ n))
      → (n : ℕ) → n < 6
      → IsFine (with_level levels m l n) × ((with_level levels m l n).level ≡ n)
  with_level-IsFine all n lt = elim (Bool-cases (n == m)) [
    | inl e ↦ let same : n ≡ m = ground arith in rw e (fine, level ∙ sym same)
    | inr e ↦ rw e (all n lt)
  ]

module _ (w : Wheel) (m k : ℕ) where
  abbrev levels_after : ℕ → Level.Level
  levels_after = with_level w.levels m (take_slot (w.levels m) k).0

  count_after :
      (i l s : ℕ)
      → count i ((levels_after l).slot s)
        ≡ (if is_at m k l s then 0 else count i ((w.levels l).slot s))
  unfolding take_slot count
  count_after i l s = elim (Bool-cases (l == m)) [
    | inl e ↦
        let same : l ≡ m = ground arith in
        elim (Bool-cases (s == k)) [ inl f ↦ rw (e, f) refl | inr f ↦ rw (e, f, same) refl ]
    | inr e ↦ rw e refl
  ]

module _ (w : Wheel) (fine : IsWheel w.elapsed no_one w) (m q : ℕ) (lt : m < 6)
    (n : IsNext (w.levels m) (w.elapsed / slot_range m) q)
    (lower : (l s : ℕ) → l < m → s < 64 → is_empty ((w.levels l).slot s) ≡ true)
    (small : q * slot_range m < 2 ^ 62) (ahead : w.elapsed ≤ q * slot_range m) where
  abbrev pub taken : ℕ → ℕ
  taken i = count i ((w.levels m).slot (q % 64))

  once_after :
      (i l s : ℕ) → l < 6 → s < 64 → count i ((levels_after w m (q % 64) l).slot s) + taken i ≤ 1
  once_after i l s ll ls =
      let c = count_after w m (q % 64) i l s in
      let here = fine.once i m (q % 64) lt (omega arith) in
      let there = fine.once i l s ll ls in
      elim (Bool-cases (is_at m (q % 64) l s)) [
        | inl e ↦ let c' = rw e at c in omega (arith, c', here)
        | inr e ↦
            let c' = rw e at c in
            elim (Bool-cases (ltb 0 (taken i) && ltb 0 (count i ((w.levels l).slot s)))) [
              | inl both ↦
                  let same =
                    IsPlaced-unique w.elapsed w i m (q % 64) l s
                      (fine.placed i m (q % 64) lt (omega arith) (ground arith))
                      (fine.placed i l s ll ls (ground arith)) in
                  absurd (ground arith)
              | inr one ↦ ground (arith, c', here, there)
            ]
      ]

  off_after :
      (i : ℕ)
      → 1 ≤ taken i
      → IsWaiting (q * slot_range m) (w.timers i) × (q * slot_range m ≤ (w.timers i).state)
  off_after i some =
      let at = fine.placed i m (q % 64) lt (omega arith) some in
      let whole = expiring_tick w fine m q lt n lower i some in
      let c = (w.timers i).cached_when in
      let le = div-mul-le_self c (slot_range m) in
      let le' = rw whole at le in
      (
        IsWaiting-later w.elapsed (q * slot_range m) (w.timers i) ahead at.waits,
        omega (arith, le', at.sooner),
      )

  IsHeld-after :
      (i : ℕ)
      → (w.timers i).state < state_pending_fire
      → (1 ≤ taken i) ⊎ IsHeld (levels_after w m (q % 64)) i
  IsHeld-after i waits = elim (fine.held i waits) [
    | inl some ↦ absurd (omega arith)
    | inr h ↦
        let c = count_after w m (q % 64) i h.level h.slot in
        elim (Bool-cases (is_at m (q % 64) h.level h.slot)) [
          | inl e ↦
              let level : h.level ≡ m = ground arith in
              let slot : h.slot ≡ q % 64 = ground arith in inl (rw (← level, ← slot) h.linked)
          | inr e ↦
              let c' = rw e at c in
              inr (record {
                level = h.level;
                slot = h.slot;
                level_lt = h.level_lt;
                slot_lt = h.slot_lt;
                linked = omega (arith, c', h.linked);
              })
        ]
  ]

  -- At the deadline the wheel is fine, with the entries of the slot taken off.
  pub take_entries-IsWheel : IsWheel (q * slot_range m) taken (take_entries w (expires m q)).0
  take_entries-IsWheel =
      let k = q % 64 in
      let now = w.elapsed in
      let later = q * slot_range m in
      record {
        small = small;
        levels =
            let (l, same) = fine.levels m lt in
            with_level-IsFine w.levels m (take_slot (w.levels m) k).0
              (take_slot-IsFine (w.levels m) k (omega arith) l)
              (take_slot-level (w.levels m) k ∙ same) fine.levels;
        once = λ i l s ll ls. once_after i l s ll ls;
        placed = λ i l s ll ls linked. elim (Bool-cases (is_at m k l s)) [
          | inl e ↦
              absurd
                (let c = count_after w m k i l s in let c' = rw e at c in omega (arith, c', linked))
          | inr e ↦
              let c = count_after w m k i l s in
              let c' = rw e at c in
              let linked' : 1 ≤ count i ((w.levels l).slot s) = omega (arith, c', linked) in
              IsPlaced-later now later (w.timers i) l s ahead
                (later_tick w fine m q lt n lower i l s ll ls e linked')
                (fine.placed i l s ll ls linked')
        ];
        queued_once = fine.queued_once;
        queued = fine.queued;
        off = λ i some. off_after i some;
        held = λ i waits. IsHeld-after i waits;
        pends = fine.pends;
      }
