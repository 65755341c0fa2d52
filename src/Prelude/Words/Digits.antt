-- ===== src/Prelude/Words/Digits.antt =====
-- The digits of a word, and how the bitwise operations, powers and sums act on them.
use Prim.Native.Nat.{
  ℕ, zero, suc, ◌+◌, ◌-◌, ◌*◌, ◌/◌, ◌%◌, ◌^◌, ◌<◌, min, max, differ, bit_and, bit_or, bit_xor,
}
use native.Mathlib.Nat.{pow-suc, mul_assoc, div-add-mod', mod-lt}
use mathlib.Core.Path.{◌≡◌, refl, ap, sym, ◌∙◌}
use mathlib.Core.Bool.{false}
use native.Mathlib.Omega.{arith}
use nirvana_dev.Prelude.Tests.{◌==◌}
use nirvana_dev.Prelude.Bits.{bit_and-digit, bit_or-digit, bit_xor-digit}
use nirvana_dev.Prelude.Words.{bit}
use nirvana_dev.Prelude.Words.Powers.{pow_pos}

pub differ_lt : (a b : ℕ) → a < 2 → b < 2 → differ a b < 2
differ_lt zero zero la lb = omega arith
differ_lt zero (suc zero) la lb = omega arith
differ_lt (suc zero) zero la lb = omega arith
differ_lt (suc zero) (suc zero) la lb = omega arith
differ_lt (suc (suc a)) b la lb = absurd (omega arith)
differ_lt zero (suc (suc b)) la lb = absurd (omega arith)
differ_lt (suc zero) (suc (suc b)) la lb = absurd (omega arith)

pub bit_lt : (x i : ℕ) → bit x i < 2
unfolding bit
bit_lt x zero = omega arith
bit_lt x (suc i) = bit_lt (x / 2) i

pub zero-bit : (i : ℕ) → bit 0 i ≡ 0
unfolding bit
zero-bit zero = refl
zero-bit (suc i) = zero-bit i

-- An operation by digits acts on each digit.
module _ (op d : ℕ → ℕ → ℕ) (step : (a b : ℕ) → op a b ≡ op (a / 2) (b / 2) * 2 + d (a % 2) (b % 2))
    (small : (a b : ℕ) → a < 2 → b < 2 → d a b < 2) where
  each_digit : (a b i : ℕ) → bit (op a b) i ≡ d (bit a i) (bit b i)
  unfolding bit
  each_digit a b zero =
      let lt = small (a % 2) (b % 2) (omega arith) (omega arith) in omega (arith, step a b)
  each_digit a b (suc i) =
      let lt = small (a % 2) (b % 2) (omega arith) (omega arith) in
      let half : op a b / 2 ≡ op (a / 2) (b / 2) = omega (arith, step a b) in
      rw half (each_digit (a / 2) (b / 2) i)

  each_lt : (n a b : ℕ) → op 0 0 ≡ 0 → a < 2 ^ n → b < 2 ^ n → op a b < 2 ^ n
  each_lt zero a b none la lb =
      let a0 : a ≡ 0 = omega arith in
      let b0 : b ≡ 0 = omega arith in rw (a0, b0, none) (omega arith)
  each_lt (suc n) a b none la lb =
      let la' : a < 2 ^ n * 2 = rw (← pow-suc) la in
      let lb' : b < 2 ^ n * 2 = rw (← pow-suc) lb in
      let lt = small (a % 2) (b % 2) (omega arith) (omega arith) in
      let ih = each_lt n (a / 2) (b / 2) none (omega arith) (omega arith) in
      rw (step a b, pow-suc) (omega arith)

pub bit_and_lt : (n a b : ℕ) → a < 2 ^ n → b < 2 ^ n → bit_and a b < 2 ^ n
bit_and_lt n a b = each_lt bit_and min bit_and-digit (λ a b la lb. omega arith) n a b refl

pub bit_or_lt : (n a b : ℕ) → a < 2 ^ n → b < 2 ^ n → bit_or a b < 2 ^ n
bit_or_lt n a b = each_lt bit_or max bit_or-digit (λ a b la lb. omega arith) n a b refl

pub bit_xor_lt : (n a b : ℕ) → a < 2 ^ n → b < 2 ^ n → bit_xor a b < 2 ^ n
bit_xor_lt n a b = each_lt bit_xor differ bit_xor-digit differ_lt n a b refl

pub bit_and-bit : (a b i : ℕ) → bit (bit_and a b) i ≡ min (bit a i) (bit b i)
bit_and-bit = each_digit bit_and min bit_and-digit (λ a b la lb. omega arith)

pub bit_or-bit : (a b i : ℕ) → bit (bit_or a b) i ≡ max (bit a i) (bit b i)
bit_or-bit = each_digit bit_or max bit_or-digit (λ a b la lb. omega arith)

pub bit_xor-bit : (a b i : ℕ) → bit (bit_xor a b) i ≡ differ (bit a i) (bit b i)
bit_xor-bit = each_digit bit_xor differ bit_xor-digit differ_lt

pub pow-bit_same : (s : ℕ) → bit (2 ^ s) s ≡ 1
unfolding bit
pow-bit_same zero = refl
pow-bit_same (suc s) =
    let half : 2 ^ suc s / 2 ≡ 2 ^ s = rw pow-suc (omega arith) in rw half (pow-bit_same s)

pub pow-bit_other : (s i : ℕ) → (s == i) ≡ false → bit (2 ^ s) i ≡ 0
unfolding bit
pow-bit_other zero zero ne = absurd (ground arith)
pow-bit_other zero (suc i) ne = zero-bit i
pow-bit_other (suc s) zero ne = rw pow-suc (omega arith)
pow-bit_other (suc s) (suc i) ne =
    let half : 2 ^ suc s / 2 ≡ 2 ^ s = rw pow-suc (omega arith) in
    rw half (pow-bit_other s i (ground arith))

-- Digits of `a + b * 2 ^ n` for `a < 2 ^ n`.
pub join-bit_low : (n a b i : ℕ) → i < n → bit (a + b * 2 ^ n) i ≡ bit a i
unfolding bit
join-bit_low zero a b i lt = absurd (omega arith)
join-bit_low (suc n) a b zero lt =
    let e : b * 2 ^ suc n ≡ b * 2 ^ n * 2 = rw (pow-suc, mul_assoc) refl in omega (arith, e)
join-bit_low (suc n) a b (suc i) lt =
    let e : b * 2 ^ suc n ≡ b * 2 ^ n * 2 = rw (pow-suc, mul_assoc) refl in
    let half : (a + b * 2 ^ suc n) / 2 ≡ a / 2 + b * 2 ^ n = omega (arith, e) in
    rw half (join-bit_low n (a / 2) b i (omega arith))

pub join-bit_high : (n a b i : ℕ) → a < 2 ^ n → bit (a + b * 2 ^ n) (n + i) ≡ bit b i
unfolding bit
join-bit_high zero a b i lt =
    let e : a + b * 1 ≡ b = omega arith in let at : 0 + i ≡ i = omega arith in rw (at, e) refl
join-bit_high (suc n) a b i lt =
    let lt' : a < 2 ^ n * 2 = rw (← pow-suc) lt in
    let e : b * 2 ^ suc n ≡ b * 2 ^ n * 2 = rw (pow-suc, mul_assoc) refl in
    let half : (a + b * 2 ^ suc n) / 2 ≡ a / 2 + b * 2 ^ n = omega (arith, e) in
    let at : suc n + i ≡ suc (n + i) = omega arith in
    rw at (ap (λ t. bit t (n + i)) half ∙ join-bit_high n (a / 2) b i (omega arith))

-- The digits of a quotient by a power, and of its remainder.
pub quotient-bit : (k x i : ℕ) → bit (x / 2 ^ k) i ≡ bit x (k + i)
quotient-bit k x i =
    let e : x % 2 ^ k + x / 2 ^ k * 2 ^ k ≡ x = omega (arith, div-add-mod' x (2 ^ k)) in
    let h = join-bit_high k (x % 2 ^ k) (x / 2 ^ k) i (mod-lt x (pow_pos k)) in sym (rw e at h)

pub remainder-bit : (k x i : ℕ) → i < k → bit (x % 2 ^ k) i ≡ bit x i
remainder-bit k x i lt =
    let e : x % 2 ^ k + x / 2 ^ k * 2 ^ k ≡ x = omega (arith, div-add-mod' x (2 ^ k)) in
    let h = join-bit_low k (x % 2 ^ k) (x / 2 ^ k) i lt in sym (rw e at h)

-- The complement of a word has the other digits.
pub complement-bit : (n m i : ℕ) → m < 2 ^ n → i < n → bit (2 ^ n - 1 - m) i ≡ 1 - bit m i
unfolding bit
complement-bit zero m i lt at = absurd (omega arith)
complement-bit (suc n) m zero lt at =
    let lt' : m < 2 ^ n * 2 = rw (← pow-suc) lt in rw pow-suc (omega arith)
complement-bit (suc n) m (suc i) lt at =
    let lt' : m < 2 ^ n * 2 = rw (← pow-suc) lt in
    let half : (2 ^ n * 2 - 1 - m) / 2 ≡ 2 ^ n - 1 - m / 2 = omega arith in
    rw (pow-suc, half) (complement-bit n (m / 2) i (omega arith) (omega arith))
