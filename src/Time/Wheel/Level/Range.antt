-- ===== src/Time/Wheel/Level/Range.antt =====
-- crates/monoio/src/time/driver/wheel/level.rs: the ranges of slots and levels, and ticks in them.
use nirvana_dev.Prelude.{
  ℕ, zero, suc, ◌+◌, ◌-◌, ◌*◌, ◌/◌, ◌%◌, ◌^◌, ◌≤◌, ◌<◌, inl, inr, ltb, Bool-cases, ◌≡◌, ◌≢◌, refl,
  sym, ap, ◌∙◌, arith,
}
use native.Mathlib.Nat.{
  div-lt_iff_lt-mul, div-add-mod', mod-lt, mul_comm, mul_assoc, add-mul, suc-mul, pow-suc,
  mul-le-mul_right, le-div_iff_mul-le, div-mul-le_self,
}
use nirvana_dev.Prelude.Bits.{bit_and, bit_and-words, bit_and-ones, bit_and-zero}
use nirvana_dev.Prelude.Words.Powers.{pow_pos}
use nirvana_dev.Prelude.Words.Zeros.{pow_add}
use nirvana_dev.Time.Wheel.Level.{slot_range, u64_not}

-- The start of the rotation of a level, whose length is a power of two.
pub level_start :
    (k now : ℕ) → k < 64 → now < 2 ^ 64 → bit_and now (u64_not (2 ^ k - 1)) ≡ now / 2 ^ k * 2 ^ k
level_start k now small word =
    let whole : k + (64 - k) ≡ 64 = omega arith in
    let sum : 2 ^ 64 ≡ 2 ^ (64 - k) * 2 ^ k = rw (← pow_add k (64 - k), whole) refl in
    let (into, high) = div-lt_iff_lt-mul (pow_pos k) in
    let q = now / 2 ^ k in
    let less : q < 2 ^ (64 - k) = high (rw (← sum) word) in
    let now' : 2 ^ k * q + now % 2 ^ k ≡ now =
      omega (arith, div-add-mod' now (2 ^ k), mul_comm q (2 ^ k)) in
    let m = 2 ^ (64 - k) - 1 in
    let mask : u64_not (2 ^ k - 1) ≡ 2 ^ k * m + 0 =
      (let top : 2 ^ (64 - k) ≡ suc m = omega (arith, pow_pos (64 - k)) in
        let sum' = rw (top, suc-mul) at sum in
        omega (arith, sum', mul_comm m (2 ^ k), pow_pos k)) in
    let h = bit_and-words k q (now % 2 ^ k) m 0 (mod-lt now (pow_pos k)) (pow_pos k) in
    let h' = rw (now', ← mask, bit_and-zero, bit_and-ones (64 - k) q less) at h in
    omega (arith, h', mul_comm q (2 ^ k))

-- The deadline of tick `q`, for slots of length `r` and the present in tick `n`.
module _ (r n q rest : ℕ) (rest_lt : rest < r) (from : n < q) (to : q < n + 64) where
  pub late : n * r + rest < q * r
  late = omega (arith, mul-le-mul_right r from, suc-mul n r)

  together : n / 64 * (64 * r) + q % 64 * r ≡ (n / 64 * 64 + q % 64) * r
  together = rw (← mul_assoc (n / 64) 64 r, ← add-mul) refl

  pub this_rotation : q / 64 ≡ n / 64 → n / 64 * (64 * r) + q % 64 * r ≡ q * r
  this_rotation same =
      let e : n / 64 * 64 + q % 64 ≡ q = omega arith in together ∙ ap (λ (t : ℕ). t * r) e

  pub next_rotation :
      q / 64 ≢ n / 64
      → (n / 64 * (64 * r) + q % 64 * r + 64 * r ≡ q * r)
        × (n / 64 * (64 * r) + q % 64 * r ≤ n * r + rest)
  next_rotation other =
      let t = n / 64 * 64 + q % 64 in
      let e : t + 64 ≡ q = omega arith in
      let sum = sym (ap (λ (t : ℕ). t * r) e) in
      let sum' = rw add-mul at sum in
      let le = mul-le-mul_right {m = t} {n = n} r (omega arith) in
      (omega (arith, together, sum'), omega (arith, together, le))

pub slot_range-bits : (level : ℕ) → slot_range level ≡ 2 ^ (level * 6)
unfolding slot_range
slot_range-bits zero = omega arith
slot_range-bits (suc level) =
    let e : suc level * 6 ≡ level * 6 + 6 = omega arith in
    let ih = slot_range-bits level in rw (e, pow_add (level * 6) 6, pow-suc) (omega (arith, ih))

pub slot_range_pos : (level : ℕ) → 1 ≤ slot_range level
slot_range_pos level = rw (slot_range-bits level) (pow_pos (level * 6))

pub div_mono : (d a b : ℕ) → 1 ≤ d → a ≤ b → a / d ≤ b / d
div_mono d a b pos le =
    let (into, from) = le-div_iff_mul-le pos in from (omega (arith, le, div-mul-le_self a d))

pub slot_range_suc : (level : ℕ) → slot_range (suc level) ≡ slot_range level * 64
unfolding slot_range
slot_range_suc level = pow-suc 64 level

pub lt_of_div-lt : (d a b : ℕ) → 1 ≤ d → a / d < b / d → a < b
lt_of_div-lt d a b pos lt = elim (Bool-cases (ltb a b)) [
  | inl e ↦ ground arith
  | inr e ↦ let le = div_mono d b a pos (ground arith) in absurd (omega arith)
]
