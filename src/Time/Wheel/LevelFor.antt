-- ===== src/Time/Wheel/LevelFor.antt =====
-- crates/monoio/src/time/driver/wheel/mod.rs, `level_for`: the level of a time that is ahead.
use nirvana_dev.Prelude.{
  ℕ, suc, ◌+◌, ◌-◌, ◌*◌, ◌/◌, ◌%◌, ◌^◌, ◌≤◌, ◌<◌, leb, ltb, Bool-cases, leb→lt, ◌≡◌, sym, ap, ◌∙◌,
  inl, inr, arith,
}
use native.Mathlib.Nat.{mul_comm, div-div-eq-div-mul}
use nirvana_dev.Prelude.Bits.{bit_or, bit_xor, bit_or-low}
use nirvana_dev.Prelude.Words.{bit_length}
use nirvana_dev.Prelude.Words.Powers.{pow_pos, pow_mono, bit_length-cases}
use nirvana_dev.Prelude.Words.Digits.{bit_or_lt}
use nirvana_dev.Prelude.Words.Zeros.{pow_add}
use nirvana_dev.Prelude.Words.Difference.{xor_below, xor_above}
use nirvana_dev.Time.Wheel.{level_for, max_duration}
use nirvana_dev.Time.Wheel.Level.{slot_range}
use nirvana_dev.Time.Wheel.Level.Range.{slot_range-bits, div_mono}

-- The mask fills the low six digits only.
masked-high : (x : ℕ) → bit_or x 63 / 64 ≡ x / 64
masked-high x =
    let e : 64 * (x / 64) + x % 64 ≡ x = omega arith in
    let h = bit_or-low 6 (x / 64) (x % 64) 63 (omega arith) (omega arith) in
    let h' = rw e at h in
    let lt = bit_or_lt 6 (x % 64) 63 (omega arith) (omega arith) in omega (arith, h', lt)

-- The digit that decides the level: the highest one of the masked difference, if it is not capped.
data Decided (x : ℕ) : ℕ → Type 0 where
  lowest : x < 64 → Decided x 0
  digit :
      (j : ℕ)
      → j < 36
      → 2 ^ j ≤ bit_or x 63
      → (j < 35 → bit_or x 63 < 2 ^ suc j)
      → Decided x (j / 6)

under : (j x : ℕ) → 2 ^ j ≤ x → x < 2 ^ 36 → j < 36
under j x lo less = elim (Bool-cases (ltb j 36)) [
  | inl e ↦ ground arith
  | inr e ↦ let high = pow_mono 36 j (ground arith) in absurd (omega arith)
]

level_for-Decided : (e c : ℕ) → Decided (bit_xor e c) (level_for e c)
unfolding level_for bit_length
level_for-Decided e c =
    let masked = bit_or (bit_xor e c) 63 in
    elim (Bool-cases (leb max_duration masked)) [
      | inl big ↦ rw big (digit 35 (omega arith) (ground arith) (λ lt. absurd (omega arith)))
      | inr small ↦
          let less = leb→lt max_duration masked small in
          elim (bit_length-cases 64 masked (omega (arith, less))) [
            | inl (z, b) ↦ rw (small, b) (lowest (omega (arith, z, masked-high (bit_xor e c))))
            | inr (j, b, le, lo, hi) ↦
                let at : 63 - (64 - suc j) ≡ j = omega arith in
                rw (small, b, at) (digit j (under j masked lo (omega (arith, less))) lo (λ lt. hi))
          ]
    ]

-- The level on which `c` belongs at the time `e`: the present is in another, earlier slot of it, and
-- but for the last level in the same slot of the next one.
pub record IsLevel (e c level : ℕ) : Type 0 where
  pub in_range : level < 6
  pub apart : e / slot_range level < c / slot_range level
  pub together : level < 5 → e / slot_range (suc level) ≡ c / slot_range (suc level)

decide : (e c level : ℕ) → e < c → Decided (bit_xor e c) level → IsLevel e c level
decide e c level less (lowest lt) = record {
  in_range = omega arith;
  apart = rw (slot_range-bits 0) (omega arith);
  together = λ low. rw (slot_range-bits 1) (xor_below 6 e c lt);
}
decide e c level less (digit j small lo hi) =
    let m = j / 6 in
    let x = bit_xor e c in
    let high = masked-high x in
    record {
      in_range = omega arith;
      apart = rw (slot_range-bits m) (elim (Bool-cases (ltb j 6)) [
        | inl e ↦ let z : j / 6 * 6 ≡ 0 = ground arith in rw z (omega arith)
        | inr big ↦
            let n = m * 6 in
            let le = pow_mono n j (omega arith) in
            let wide : 2 ^ n ≡ 64 * 2 ^ (n - 6) =
              (let back : n - 6 + 6 ≡ n = ground arith in
                let h = pow_add (n - 6) 6 in rw back at h) in
            let above = xor_above n e c (omega (arith, high, le, lo, wide)) in
            let order = div_mono (2 ^ n) e c (pow_pos n) (omega arith) in ground arith
      ]);
      together = λ low.
          (let n = m * 6 in
            let at : suc m * 6 ≡ n + 6 = omega arith in
            let le = pow_mono (suc j) (n + 6) (omega arith) in
            let lt = hi (omega arith) in
            let wide = pow_add n 6 in
            rw (slot_range-bits (suc m), at)
              (xor_below (n + 6) e c (omega (arith, high, le, lt, wide))));
    }

-- `level_for` gives the level on which a time that is ahead belongs.
pub level_for-IsLevel : (e c : ℕ) → e < c → IsLevel e c (level_for e c)
level_for-IsLevel e c less = decide e c (level_for e c) less (level_for-Decided e c)

-- Times in one slot of a level are in one slot of each higher one.
pub coarser :
    (e c a b : ℕ)
    → a ≤ b
    → e / slot_range a ≡ c / slot_range a
    → e / slot_range b ≡ c / slot_range b
coarser e c a b le same =
    let k = (b - a) * 6 in
    let at : a * 6 + k ≡ b * 6 = omega arith in
    let h = pow_add (a * 6) k in
    let wide : slot_range b ≡ slot_range a * 2 ^ k =
      rw (slot_range-bits b, slot_range-bits a, ← at)
        (omega (arith, h, mul_comm (2 ^ k) (2 ^ (a * 6)))) in
    rw wide (
      sym (div-div-eq-div-mul e (slot_range a) (2 ^ k))
      ∙ ap (λ (t : ℕ). t / 2 ^ k) same
      ∙ div-div-eq-div-mul c (slot_range a) (2 ^ k))

pub IsLevel-le : (e c a b : ℕ) → IsLevel e c a → IsLevel e c b → a ≤ b
IsLevel-le e c a b at bt = elim (Bool-cases (ltb b a)) [
  | inl less ↦
      let same = coarser e c (suc b) a (ground arith) (bt.together (ground (arith, at.in_range))) in
      absurd (omega (arith, at.apart, same))
  | inr le ↦ ground arith
]

-- No other level will do.
pub IsLevel-unique : (e c level : ℕ) → e < c → IsLevel e c level → level_for e c ≡ level
IsLevel-unique e c level less at =
    let here = level_for-IsLevel e c less in
    omega (
      arith,
      IsLevel-le e c (level_for e c) level here at,
      IsLevel-le e c level (level_for e c) at here,
    )
