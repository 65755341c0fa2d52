-- ===== src/Time/Wheel/Level/Next.antt =====
-- crates/monoio/src/time/driver/wheel/level.rs: the slot that is due next.
use nirvana_dev.Prelude.{
  ℕ, ◌+◌, ◌-◌, ◌*◌, ◌/◌, ◌%◌, ◌^◌, ◌≤◌, ◌<◌, true, false, Option, none, some, ◌==◌, Bool-cases, ◌≡◌,
  refl, sym, ap, ◌∙◌, ◌⊎◌, inl, inr, arith,
}
use nirvana_dev.Prelude.Bits.{bit_and}
use native.Mathlib.Nat.{
  div-add-mod', mod-lt, mul_comm, div-div-eq-div-mul, add-mul, mul-le-mul_right,
}
use nirvana_dev.Prelude.Words.Powers.{pow_pos, pow_mono}
use nirvana_dev.Prelude.Words.{bit, rotate_right, trailing_zeros}
use nirvana_dev.Prelude.Words.Zeros.{
  rotate_right-bit, trailing_zeros-cases, rotate_right-none, rotate_right_lt, pow_add,
}
use nirvana_dev.Time.Wheel.Level.Range.{
  level_start, slot_range-bits, late, this_rotation, next_rotation,
}
use nirvana_dev.Time.Wheel.Level.{
  Level, Expiration, next_occupied_slot, next_expiration, level_range, u64_not,
}
use nirvana_dev.Prelude.Words.Digits.{zero-bit}
use nirvana_dev.Time.Wheel.EntryList.{is_empty}
use nirvana_dev.Time.Wheel.Level.Fine.{IsFine}

-- The occupied ticks of a level from that of `n` on: `q` is the first one.
abbrev pub IsFirst : (occupied n q : ℕ) → Type 0
IsFirst occupied n q =
    (n ≤ q)
    × (q < n + 64)
    × (bit occupied (q % 64) ≡ 1)
    × ((p : ℕ) → n ≤ p → p < q → bit occupied (p % 64) ≡ 0)

pub next_occupied_slot-IsFirst :
    (l : Level) (now : ℕ)
    → l.occupied < 2 ^ 64
    → ((l.occupied ≡ 0) × (next_occupied_slot l now ≡ none))
      ⊎ ((q : ℕ) × (next_occupied_slot l now ≡ some (q % 64))
          × IsFirst l.occupied (now / l.slot_range) q)
unfolding next_occupied_slot
next_occupied_slot-IsFirst l now word = elim (Bool-cases (l.occupied == 0)) [
  | inl e ↦ inl (ground arith, rw e refl)
  | inr e ↦
      let n = now / l.slot_range in
      let k = n % 2 ^ 32 in
      let turned = rotate_right l.occupied k in
      let z = trailing_zeros 64 turned in
      let (less, one, zeros) =
        trailing_zeros-cases 64 turned (rotate_right_lt l.occupied k word)
          (λ gone. absurd (let h = rotate_right-none l.occupied k word gone in ground arith)) in
      inr (
        z + n,
        rw e refl,
        (
          omega arith,
          omega arith,
          (let same : (z + n) % 64 ≡ (z + k) % 64 = omega arith in
              rw same (sym (rotate_right-bit l.occupied k z word less) ∙ one)),
          λ p from to.
              (let p' = p - n in
                let same : p % 64 ≡ (p' + k) % 64 = omega arith in
                rw same (
                  sym (rotate_right-bit l.occupied k p' word (omega arith))
                  ∙ zeros p' (omega arith))),
        ),
      )
]

module _ (l : Level) (now : ℕ) (fine : IsFine l) (word : now < 2 ^ 63) where
  slot_length : (1 ≤ l.slot_range) × (l.slot_range ≤ 2 ^ 30) × (l.level_range ≡ 64 * l.slot_range)
  unfolding level_range
  slot_length =
      let small = pow_mono (l.level * 6) 30 (omega (arith, fine.in_range)) in
      (
        rw (fine.slots, slot_range-bits l.level) (pow_pos (l.level * 6)),
        rw (fine.slots, slot_range-bits l.level) small,
        fine.levels ∙ ap (λ (t : ℕ). 64 * t) (sym fine.slots),
      )

  start : bit_and now (u64_not (l.level_range - 1)) ≡ now / l.slot_range / 64 * (64 * l.slot_range)
  start =
      let (pos, small, range) = slot_length in
      let k = l.level * 6 in
      let power : 2 ^ (k + 6) ≡ 64 * l.slot_range =
        rw (pow_add k 6, fine.slots, slot_range-bits l.level) refl in
      rw (range, ← power)
        (level_start (k + 6) now (omega (arith, fine.in_range)) (omega arith)
          ∙ ap (λ (t : ℕ). t * 2 ^ (k + 6))
              (sym (
                div-div-eq-div-mul now l.slot_range 64
                ∙ ap (λ (t : ℕ). now / t) (mul_comm l.slot_range 64 ∙ sym power))))

  module _ (q : ℕ) (found : next_occupied_slot l now ≡ some (q % 64))
      (from : now / l.slot_range < q) (to : q < now / l.slot_range + 64)
      (once : l.level < 5 → q / 64 ≡ now / l.slot_range / 64) where
    found_at :
        next_expiration l now
        ≡ some (some (record { level = l.level; slot = q % 64; deadline = q * l.slot_range }))
    unfolding next_expiration
    found_at =
        let (pos, small, range) = slot_length in
        let r = l.slot_range in
        let n = now / r in
        let rest = now % r in
        let whole : n * r + rest ≡ now = omega (arith, div-add-mod' now r) in
        let less = mod-lt now pos in
        let after = late r n q rest less from to in
        let bound : q * r ≤ n * r + 64 * r =
          omega (arith, mul-le-mul_right {m = q} {n = n + 64} r (omega arith), add-mul n 64 r) in
        elim (Bool-cases (q / 64 == n / 64)) [
          | inl e ↦
              let at = this_rotation r n q rest less from to (ground arith) in
              let fits : q * r % 2 ^ 64 ≡ q * r = omega arith in
              rw (next_expiration, found, start, at, fits) (ground arith)
          | inr e ↦
              let (at, before) = next_rotation r n q rest less from to (λ same. ground arith) in
              let last : l.level ≡ 5 = ground arith in
              let fits : (n / 64 * (64 * r) + q % 64 * r) % 2 ^ 64
                  ≡ n / 64 * (64 * r) + q % 64 * r =
                omega arith in
              let fits' : q * r % 2 ^ 64 ≡ q * r = omega arith in
              rw (next_expiration, found, start, fits, last, range, at, fits') (ground arith)
        ]

module _ (l : Level) (fine : IsFine l) (s : ℕ) (lt : s < 64) where
  empty→clear : is_empty (l.slot s) ≡ true → bit l.occupied s ≡ 0
  empty→clear e = fine.agree s lt ∙ rw e refl

  clear→empty : bit l.occupied s ≡ 0 → is_empty (l.slot s) ≡ true
  clear→empty z = elim (Bool-cases (is_empty (l.slot s))) [
    | inl e ↦ e
    | inr e ↦ let h = rw e at (fine.agree s lt) in absurd (omega (arith, h, z))
  ]

  set→entries : bit l.occupied s ≡ 1 → is_empty (l.slot s) ≡ false
  set→entries one = elim (Bool-cases (is_empty (l.slot s))) [
    | inl e ↦ let h = rw e at (fine.agree s lt) in absurd (omega (arith, h, one))
    | inr e ↦ e
  ]

-- The first tick of a level after `n` whose slot holds an entry.
pub record IsNext (l : Level) (n q : ℕ) : Type 0 where
  pub after : n < q
  pub within : q < n + 64
  pub entries : is_empty (l.slot (q % 64)) ≡ false
  pub before : (p : ℕ) → n < p → p < q → is_empty (l.slot (p % 64)) ≡ true

-- No entry of the level lies in the slot of tick `n`, nor, but for the last level, in a slot that
-- comes round in the next rotation only.
pub record IsAhead (l : Level) (n : ℕ) : Type 0 where
  pub present : is_empty (l.slot (n % 64)) ≡ true
  pub rotation :
      (p : ℕ)
      → l.level < 5
      → n < p
      → p < n + 64
      → is_empty (l.slot (p % 64)) ≡ false
      → p / 64 ≡ n / 64

pub data Found (l : Level) (n : ℕ) : Option (Option Expiration) → Type 0 where
  nothing : ((s : ℕ) → s < 64 → is_empty (l.slot s) ≡ true) → Found l n (some none)
  due :
      (q : ℕ)
      → IsNext l n q
      → Found l n
          (some (some (record { level = l.level; slot = q % 64; deadline = q * l.slot_range })))

-- For a level whose entries lie ahead of the present, `next_expiration` gives nothing if the level
-- is empty, and otherwise the first tick whose slot holds an entry, at its start.
pub next_expiration-Found :
    (l : Level) (now : ℕ)
    → IsFine l
    → now < 2 ^ 63
    → IsAhead l (now / l.slot_range)
    → Found l (now / l.slot_range) (next_expiration l now)
unfolding next_expiration
next_expiration-Found l now fine word ahead = elim (next_occupied_slot-IsFirst l now fine.word) [
  | inl (no_bits, e) ↦
      rw (next_expiration, e) (nothing (λ s lt. clear→empty l fine s lt (rw no_bits (zero-bit s))))
  | inr (q, e, (le, within, one, zeros)) ↦
      let n = now / l.slot_range in
      let here = empty→clear l fine (n % 64) (omega arith) ahead.present in
      let after : n < q = elim (Bool-cases (n == q)) [
        | inl same ↦
            let at : n % 64 ≡ q % 64 = ground arith in
            let z : bit l.occupied (q % 64) ≡ 0 = rw at at here in absurd (omega arith)
        | inr other ↦ ground arith
      ] in
      let entries = set→entries l fine (q % 64) (omega arith) one in
      let at =
        found_at l now fine word q e after within
          (λ low. ahead.rotation q low after within entries) in
      rw at (
        due q (record {
          after = after;
          within = within;
          entries = entries;
          before =
              λ p from to. clear→empty l fine (p % 64) (omega arith) (zeros p (omega arith) to);
        }))
]
