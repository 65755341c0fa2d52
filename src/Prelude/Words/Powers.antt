-- ===== src/Prelude/Words/Powers.antt =====
-- Powers of two, and the length of a word between them.
use Prim.Native.Nat.{ℕ, zero, suc, ◌/◌, ◌^◌, ◌≤◌, ◌<◌}
use mathlib.Core.Path.{◌≡◌, refl, ap}
use mathlib.Core.Logic.{◌⊎◌, inl, inr}
use native.Mathlib.Omega.{arith}
use nirvana_dev.Prelude.Tests.{◌==◌, ltb, Bool-cases}
use nirvana_dev.Prelude.Words.{bit_length}

pub pow_pos : (j : ℕ) → 1 ≤ 2 ^ j
pow_pos zero = omega arith
pow_pos (suc j) = let ih = pow_pos j in omega arith

pub pow_mono : (i j : ℕ) → i ≤ j → 2 ^ i ≤ 2 ^ j
pow_mono zero j le = pow_pos j
pow_mono (suc i) zero le = absurd (omega arith)
pow_mono (suc i) (suc j) le = let ih = pow_mono i j (omega arith) in omega arith

pub pow_inj_le : (x i j : ℕ) → 2 ^ i ≤ x → x < 2 ^ suc j → i ≤ j
pow_inj_le x i j lo hi = elim (Bool-cases (ltb j i)) [
  | inl e ↦ let more = pow_mono (suc j) i (ground arith) in absurd (omega arith)
  | inr e ↦ ground arith
]

pub bit_length-cases :
    (n x : ℕ)
    → x < 2 ^ n
    → ((x ≡ 0) × (bit_length n x ≡ 0))
      ⊎ ((j : ℕ) × (bit_length n x ≡ suc j) × (j < n) × (2 ^ j ≤ x) × (x < 2 ^ suc j))
unfolding bit_length
bit_length-cases zero x lt = inl (omega arith, refl)
bit_length-cases (suc n) x lt = elim (Bool-cases (x == 0)) [
  | inl e ↦ inl (ground arith, rw e refl)
  | inr e ↦ elim (bit_length-cases n (x / 2) (omega arith)) [
    | inl (z, b) ↦ inr (0, rw e (ap suc b), omega arith, ground arith, ground arith)
    | inr (j, b, le, lo, hi) ↦ inr (suc j, rw e (ap suc b), omega arith, omega arith, omega arith)
  ]
]
