-- ===== src/Time/Wheel/Next.antt =====
-- crates/monoio/src/time/driver/wheel/mod.rs: the slot of the wheel that is due next.
use nirvana_dev.Prelude.{
  ℕ, zero, suc, ◌+◌, ◌*◌, ◌/◌, ◌%◌, ◌≤◌, ◌<◌, true, false, ◌==◌, Bool-cases, Option, none, some,
  ◌≡◌, ◌⊎◌, inl, inr, refl, sym, ap, ◌∙◌, arith,
}
use mathlib.Core.Path.{subst}
use native.Mathlib.Nat.{div-div-eq-div-mul, div-lt_iff_lt-mul, mul-div_cancel}
use nirvana_dev.Time.Wheel.{Wheel, check_levels, no_expirations_before, next_expiration}
use nirvana_dev.Time.Wheel.EntryList.{is_empty}
use nirvana_dev.Time.Wheel.Counts.{count, count-some}
use nirvana_dev.Time.Wheel.Fine.{IsWheel, IsTick, IsPlaced-IsTick}
use nirvana_dev.Time.Wheel.Level
use nirvana_dev.Time.Wheel.Level.{Expiration, slot_range}
use nirvana_dev.Time.Wheel.Level.Next.{IsNext, IsAhead, Found, nothing, due, next_expiration-Found}
use nirvana_dev.Time.Wheel.Level.Range.{slot_range_pos, slot_range_suc}
use nirvana_dev.Time.Wheel.LevelFor.{coarser}

abbrev pub no_one : ℕ → ℕ
no_one i = 0

abbrev pub expires : (level q : ℕ) → Expiration
expires level q = record { level = level; slot = q % 64; deadline = q * slot_range level }

-- What `next_expiration` finds on a level of the wheel.
pub data OnLevel (w : Wheel) (now m : ℕ) : Option (Option Expiration) → Type 0 where
  idle : ((s : ℕ) → s < 64 → is_empty ((w.levels m).slot s) ≡ true) → OnLevel w now m (some none)
  next :
      (q : ℕ)
      → IsNext (w.levels m) (now / slot_range m) q
      → OnLevel w now m (some (some (expires m q)))

pub OnLevel-cases :
    {w : Wheel} {now m : ℕ} {r : Option (Option Expiration)}
    → OnLevel w now m r
    → ((r ≡ some none) × ((s : ℕ) → s < 64 → is_empty ((w.levels m).slot s) ≡ true))
      ⊎ ((q : ℕ) × (r ≡ some (some (expires m q))) × IsNext (w.levels m) (now / slot_range m) q)
OnLevel-cases (idle clear) = inl (refl, clear)
OnLevel-cases (next q n) = inr (q, refl, n)

pub turn_start :
    (now m q : ℕ)
    → q / 64 ≡ now / slot_range m / 64
    → q * slot_range m / slot_range (suc m) ≡ now / slot_range (suc m)
turn_start now m q turn =
    let whole : q * slot_range m / slot_range m ≡ q = mul-div_cancel q (slot_range_pos m) in
    rw (slot_range_suc m) (
      sym (div-div-eq-div-mul (q * slot_range m) (slot_range m) 64)
      ∙ ap (λ (t : ℕ). t / 64) whole
      ∙ turn
      ∙ div-div-eq-div-mul now (slot_range m) 64)

module _ (w : Wheel) (fine : IsWheel w.elapsed no_one w) where
  module _ (m : ℕ) (lt : m < 6) where
    -- An entry in the slot of a tick less than a rotation away has its time in that tick.
    IsTick-at :
        (p : ℕ)
        → is_empty ((w.levels m).slot (p % 64)) ≡ false
        → (i : ℕ) × (1 ≤ count i ((w.levels m).slot (p % 64)))
          × IsTick w.elapsed (w.timers i) m (p % 64) ((w.timers i).cached_when / slot_range m)
    IsTick-at p entries =
        let (i, linked) = count-some ((w.levels m).slot (p % 64)) entries in
        (
          i,
          linked,
          IsPlaced-IsTick w.elapsed (w.timers i) m (p % 64)
              (fine.placed i m (p % 64) lt (omega arith) linked),
        )

    pub turn_of :
        (p : ℕ)
        → m < 5
        → w.elapsed / slot_range m < p
        → p < w.elapsed / slot_range m + 64
        → is_empty ((w.levels m).slot (p % 64)) ≡ false
        → p / 64 ≡ w.elapsed / slot_range m / 64
    turn_of p low from to entries =
        let (i, linked, at) = IsTick-at p entries in
        omega (arith, at.slot_of, at.ahead, at.near, at.turn low)

    level-IsAhead : IsAhead (w.levels m) (w.elapsed / slot_range m)
    level-IsAhead = record {
      present =
          let n = w.elapsed / slot_range m in
          elim (Bool-cases (is_empty ((w.levels m).slot (n % 64)))) [
            | inl e ↦ e
            | inr e ↦
                let (i, linked, at) = IsTick-at n e in
                absurd (omega (arith, at.slot_of, at.ahead, at.near))
          ];
      rotation = λ p low from to entries.
          let (l, same) = fine.levels m lt in turn_of p (rw same at low) from to entries;
    }

    pub level-OnLevel : OnLevel w w.elapsed m (Level.next_expiration (w.levels m) w.elapsed)
    level-OnLevel =
        let (l, same) = fine.levels m lt in
        let range : (w.levels m).slot_range ≡ slot_range m = l.slots ∙ ap slot_range same in
        restate same range (
          next_expiration-Found (w.levels m) w.elapsed l (omega (arith, fine.small))
            (subst (λ r. IsAhead (w.levels m) (w.elapsed / r)) (sym range) level-IsAhead))
      where
        restate :
            {r : Option (Option Expiration)}
            → (w.levels m).level ≡ m
            → (w.levels m).slot_range ≡ slot_range m
            → Found (w.levels m) (w.elapsed / (w.levels m).slot_range) r
            → OnLevel w w.elapsed m r
        restate level range (nothing empty) = idle empty
        restate level range (due q n) =
            rw (level, range) (next q (subst (λ r. IsNext (w.levels m) (w.elapsed / r) q) range n))

  -- What a level finds is no later than what a higher one finds.
  module _ (m m' q q' : ℕ) (lt : m' < 6) (above : m < m') where
    deadline_order :
        IsNext (w.levels m) (w.elapsed / slot_range m) q
        → IsNext (w.levels m') (w.elapsed / slot_range m') q'
        → q * slot_range m ≤ q' * slot_range m'
    deadline_order n n' =
        let turn = turn_of m (omega arith) q (omega arith) n.after n.within n.entries in
        let same =
          coarser (q * slot_range m) w.elapsed (suc m) m' (omega arith)
            (turn_start w.elapsed m q turn) in
        let (into, below) =
          div-lt_iff_lt-mul {k = slot_range m'} {x = q * slot_range m} {y = q'}
            (slot_range_pos m') in
        let lt = into (omega (arith, same, n'.after)) in omega (arith, lt)

  earlier :
      (left level m q : ℕ)
      → level + left ≡ 6
      → m < level
      → IsNext (w.levels m) (w.elapsed / slot_range m) q
      → no_expirations_before left w level (q * slot_range m) ≡ some true
  unfolding no_expirations_before
  earlier zero level m q all lt n = refl
  earlier (suc left) level m q all lt n =
      let ih = earlier left (level + 1) m q (omega arith) (omega arith) n in
      elim (OnLevel-cases (level-OnLevel level (omega arith))) [
        | inl (void, clear) ↦ rw (no_expirations_before, void, ih) refl
        | inr (q', found, n') ↦
            let le = deadline_order m level q q' (omega arith) lt n n' in
            rw (no_expirations_before, found, ih) (ground arith)
      ]

  -- What the wheel finds from a level on: the lowest level that has an entry, and the first slot.
  pub data From (level : ℕ) : Option (Option Expiration) → Type 0 where
    empty :
        ((m s : ℕ) → level ≤ m → m < 6 → s < 64 → is_empty ((w.levels m).slot s) ≡ true)
        → From level (some none)
    first :
        (m q : ℕ)
        → level ≤ m
        → m < 6
        → IsNext (w.levels m) (w.elapsed / slot_range m) q
        → ((l s : ℕ) → level ≤ l → l < m → s < 64 → is_empty ((w.levels l).slot s) ≡ true)
        → From level (some (some (expires m q)))

  check_levels-From : (left level : ℕ) → level + left ≡ 6 → From level (check_levels left w level)
  unfolding check_levels
  check_levels-From zero level all = empty (λ m s le lt. absurd (omega arith))
  check_levels-From (suc left) level all =
      let ih = check_levels-From left (level + 1) (omega arith) in
      let found = level-OnLevel level (omega arith) in
      (elim (OnLevel-cases found) [
        | inl (void, clear) ↦ rw (check_levels, void) (widen ih clear)
        | inr (q, found', n) ↦
            let right = earlier left (level + 1) level q (omega arith) (omega arith) n in
            rw (check_levels, found', right)
              (first level q (omega arith) (omega arith) n (λ l s le lt. absurd (omega arith)))
      ])
    where
      widen :
          {r : Option (Option Expiration)}
          → From (level + 1) r
          → ((s : ℕ) → s < 64 → is_empty ((w.levels level).slot s) ≡ true)
          → From level r
      widen (empty all) clear = empty (λ m s le lt small. elim (Bool-cases (m == level)) [
        | inl e ↦ let same : m ≡ level = ground arith in rw same (clear s small)
        | inr e ↦ all m s (ground arith) lt small
      ])
      widen (first m q le lt n all) clear = first m q (omega arith) lt n (λ l s from to small.
          elim (Bool-cases (l == level)) [
            | inl e ↦ let same : l ≡ level = ground arith in rw same (clear s small)
            | inr e ↦ all l s (ground arith) to small
          ])

  pub next_expiration-From : is_empty w.pending ≡ true → From 0 (next_expiration w)
  unfolding next_expiration
  next_expiration-From clear = rw clear (check_levels-From 6 0 (omega arith))

  pub next_expiration-cases :
      is_empty w.pending ≡ true
      → ((next_expiration w ≡ some none)
          × ((m s : ℕ) → m < 6 → s < 64 → is_empty ((w.levels m).slot s) ≡ true))
        ⊎ ((m q : ℕ) × (next_expiration w ≡ some (some (expires m q)))
            × (m < 6)
            × IsNext (w.levels m) (w.elapsed / slot_range m) q
            × ((l s : ℕ) → l < m → s < 64 → is_empty ((w.levels l).slot s) ≡ true))
  next_expiration-cases clear = split (next_expiration-From clear)
    where
      split :
          {r : Option (Option Expiration)}
          → From 0 r
          → ((r ≡ some none) × ((m s : ℕ) → m < 6 → s < 64 → is_empty ((w.levels m).slot s) ≡ true))
            ⊎ ((m q : ℕ) × (r ≡ some (some (expires m q)))
                × (m < 6)
                × IsNext (w.levels m) (w.elapsed / slot_range m) q
                × ((l s : ℕ) → l < m → s < 64 → is_empty ((w.levels l).slot s) ≡ true))
      split (empty all) = inl (refl, λ m s lt ls. all m s (omega arith) lt ls)
      split (first m q le lt n all) =
          inr (m, q, refl, lt, n, λ l s ll ls. all l s (omega arith) ll ls)
