-- ===== src/Prelude/Words/Difference.antt =====
-- The exclusive or of two words, and the digits in which they differ.
use Prim.Native.Nat.{ℕ, zero, suc, ◌+◌, ◌/◌, ◌%◌, ◌^◌, ◌≤◌, ◌<◌, differ, bit_xor}
use native.Mathlib.Nat.{pow-succ', div-eq_of_lt, le-div_iff_mul-le, div-div-eq-div-mul}
use mathlib.Core.Path.{◌≡◌, refl, sym, ap, ◌∙◌}
use mathlib.Core.Logic.{◌≢◌, inl, inr}
use native.Mathlib.Omega.{arith}
use nirvana_dev.Prelude.Tests.{◌==◌, Bool-cases}
use nirvana_dev.Prelude.Bits.{bit_xor-digit}
use nirvana_dev.Prelude.Words.Digits.{differ_lt}
use nirvana_dev.Prelude.Words.Powers.{pow_pos}

xor_half : (a b : ℕ) → bit_xor a b / 2 ≡ bit_xor (a / 2) (b / 2)
xor_half a b =
    let lt = differ_lt (a % 2) (b % 2) (omega arith) (omega arith) in
    omega (arith, bit_xor-digit a b)

pub xor_quotient : (n a b : ℕ) → bit_xor a b / 2 ^ n ≡ bit_xor (a / 2 ^ n) (b / 2 ^ n)
xor_quotient zero a b =
    let ea : a / 1 ≡ a = omega arith in
    let eb : b / 1 ≡ b = omega arith in rw (ea, eb) (omega arith)
xor_quotient (suc n) a b =
    let halved =
      λ (x : ℕ). ap (λ t. x / t) (pow-succ' 2 n) ∙ sym (div-div-eq-div-mul x 2 (2 ^ n)) in
    rw (halved (bit_xor a b), halved a, halved b, xor_half a b) (xor_quotient n (a / 2) (b / 2))

differ_self : (d : ℕ) → d < 2 → differ d d ≡ 0
differ_self zero lt = refl
differ_self (suc zero) lt = refl
differ_self (suc (suc d)) lt = absurd (omega arith)

differ_none : (d e : ℕ) → d < 2 → e < 2 → differ d e ≡ 0 → d ≡ e
differ_none zero zero ld le none = refl
differ_none (suc zero) (suc zero) ld le none = refl
differ_none zero (suc zero) ld le none = absurd (omega (arith, none))
differ_none (suc zero) zero ld le none = absurd (omega (arith, none))
differ_none (suc (suc d)) e ld le none = absurd (omega arith)
differ_none zero (suc (suc e)) ld le none = absurd (omega arith)
differ_none (suc zero) (suc (suc e)) ld le none = absurd (omega arith)

xor_self : (fuel a : ℕ) → a ≤ fuel → bit_xor a a ≡ 0
xor_self fuel zero le = refl
xor_self zero (suc a) le = absurd (omega arith)
xor_self (suc fuel) (suc a) le =
    let ih = xor_self fuel (suc a / 2) (omega arith) in
    omega (arith, bit_xor-digit (suc a) (suc a), differ_self (suc a % 2) (omega arith))

xor_none : (fuel a b : ℕ) → a + b ≤ fuel → bit_xor a b ≡ 0 → a ≡ b
xor_none zero a b le none = omega arith
xor_none (suc fuel) a b le none = elim (Bool-cases (a + b == 0)) [
  | inl e ↦ ground arith
  | inr e ↦
      let lt = differ_lt (a % 2) (b % 2) (omega arith) (omega arith) in
      let some : 1 ≤ a + b = ground arith in
      let halves : bit_xor (a / 2) (b / 2) ≡ 0 = omega (arith, bit_xor-digit a b, none) in
      let low : differ (a % 2) (b % 2) ≡ 0 = omega (arith, bit_xor-digit a b, none) in
      let ih = xor_none fuel (a / 2) (b / 2) (omega arith) halves in
      let last = differ_none (a % 2) (b % 2) (omega arith) (omega arith) low in
      omega (arith, ih, last)
]

-- Words differ below digit `n` only if their quotients are the same.
pub xor_below : (n a b : ℕ) → bit_xor a b < 2 ^ n → a / 2 ^ n ≡ b / 2 ^ n
xor_below n a b lt =
    let x = a / 2 ^ n in
    let y = b / 2 ^ n in
    xor_none (x + y) x y (omega arith) (sym (xor_quotient n a b) ∙ div-eq_of_lt lt)

pub xor_above : (n a b : ℕ) → 2 ^ n ≤ bit_xor a b → a / 2 ^ n ≢ b / 2 ^ n
xor_above n a b le same =
    let (into, from) = le-div_iff_mul-le (pow_pos n) in
    let some : 1 ≤ bit_xor a b / 2 ^ n = from (omega (arith, le)) in
    let x = a / 2 ^ n in
    let y = b / 2 ^ n in
    let none = xor_quotient n a b ∙ ap (λ t. bit_xor x t) (sym same) ∙ xor_self x x (omega arith) in
    omega (arith, some, none)
