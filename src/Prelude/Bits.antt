-- ===== src/Prelude/Bits.antt =====
-- Laws of the bitwise operations at variables: one binary digit at a time, then a word whose low
-- five bits are flags, as `32 * q + r`.
pub use Prim.Native.Nat.{bit_and, bit_or, bit_xor}
use Prim.Native.Nat.{
  ℕ, zero, suc, ◌+◌, ◌-◌, ◌*◌, ◌/◌, ◌%◌, ◌^◌, ◌≤◌, ◌<◌, min, max, digits, bitwise, differ,
  bit_and-bitwise, bit_or-bitwise, bit_xor-bitwise,
}
use native.Mathlib.Nat.{pow-suc, mul_assoc}
use mathlib.Core.Path.{◌≡◌, refl, ap, ◌∙◌}
use native.Mathlib.Omega.{arith}

module _ (z : ℕ → ℕ) (f : ℕ → ℕ → ℕ) where
  spare_fuel : (k x y : ℕ) → x ≤ k → digits z f (suc k) x y ≡ digits z f k x y
  spare_fuel zero zero y le = refl
  spare_fuel (suc k) zero y le = refl
  spare_fuel zero (suc x) y le = absurd (omega arith)
  spare_fuel (suc k) (suc x) y le = rw (spare_fuel k (suc x / 2) (y / 2) (omega arith)) refl

  more_fuel : (extra k x y : ℕ) → x ≤ k → digits z f (extra + k) x y ≡ digits z f k x y
  more_fuel zero k x y le = let e : 0 + k ≡ k = omega arith in rw e refl
  more_fuel (suc extra) k x y le =
      let e : suc extra + k ≡ suc (extra + k) = omega arith in
      rw e (spare_fuel (extra + k) x y (omega arith) ∙ more_fuel extra k x y le)

  module _ (base : (y : ℕ) → z y ≡ z (y / 2) * 2 + f 0 (y % 2)) where
    low_digit : (x y : ℕ) → bitwise z f x y ≡ bitwise z f (x / 2) (y / 2) * 2 + f (x % 2) (y % 2)
    low_digit zero y = base y
    low_digit (suc x) y =
        let half = suc x / 2 in
        let enough : x - half + half ≡ x = omega arith in
        let same = more_fuel (x - half) half half (y / 2) (omega arith) in
        let same' : digits z f x half (y / 2) ≡ digits z f half half (y / 2) = rw enough at same in
        omega (arith, same')

pub bit_and-digit : (x y : ℕ) → bit_and x y ≡ bit_and (x / 2) (y / 2) * 2 + min (x % 2) (y % 2)
bit_and-digit x y =
    rw (bit_and-bitwise x y, bit_and-bitwise (x / 2) (y / 2))
      (low_digit (λ _. 0) min (λ y. omega arith) x y)

pub bit_or-digit : (x y : ℕ) → bit_or x y ≡ bit_or (x / 2) (y / 2) * 2 + max (x % 2) (y % 2)
bit_or-digit x y =
    rw (bit_or-bitwise x y, bit_or-bitwise (x / 2) (y / 2))
      (low_digit (λ y. y) max (λ y. omega arith) x y)

differ-none : (y : ℕ) → y < 2 → differ 0 y ≡ y
differ-none zero lt = refl
differ-none (suc zero) lt = refl
differ-none (suc (suc y)) lt = absurd (omega arith)

pub bit_xor-digit : (x y : ℕ) → bit_xor x y ≡ bit_xor (x / 2) (y / 2) * 2 + differ (x % 2) (y % 2)
bit_xor-digit x y =
    rw (bit_xor-bitwise x y, bit_xor-bitwise (x / 2) (y / 2))
      (low_digit (λ y. y) differ (λ y. omega (arith, differ-none (y % 2) (omega arith))) x y)

-- An operation that goes by digits, against zeros.
module _ (op d : ℕ → ℕ → ℕ)
    (by_digits : (x y : ℕ) → op x y ≡ op (x / 2) (y / 2) * 2 + d (x % 2) (y % 2)) (keep : ℕ → ℕ)
    (last : op 0 0 ≡ keep 0) (kept : (x : ℕ) → keep x ≡ keep (x / 2) * 2 + d (x % 2) 0) where
  against_zeros : (fuel x : ℕ) → x ≤ fuel → op x 0 ≡ keep x
  against_zeros fuel zero le = last
  against_zeros zero (suc x) le = absurd (omega arith)
  against_zeros (suc fuel) (suc x) le =
      let ih = against_zeros fuel (suc x / 2) (omega arith) in
      omega (arith, by_digits (suc x) 0, kept (suc x))

pub bit_and-zero : (x : ℕ) → bit_and x 0 ≡ 0
bit_and-zero x =
    against_zeros bit_and min bit_and-digit (λ _. 0) refl (λ x. omega arith) x x (omega arith)

bit_or-zero : (x : ℕ) → bit_or x 0 ≡ x
bit_or-zero x =
    against_zeros bit_or max bit_or-digit (λ x. x) refl (λ x. omega arith) x x (omega arith)

pub differ-zero : (x : ℕ) → x < 2 → differ x 0 ≡ x
differ-zero zero lt = refl
differ-zero (suc zero) lt = refl
differ-zero (suc (suc x)) lt = absurd (omega arith)

bit_xor-zero : (x : ℕ) → bit_xor x 0 ≡ x
bit_xor-zero x =
    against_zeros bit_xor differ bit_xor-digit (λ x. x) refl
      (λ x. omega (arith, differ-zero (x % 2) (omega arith))) x x (omega arith)

-- A word `2 ^ k * q + r`, whose low `k` digits are `r`.
module _ (k q r : ℕ) where
  half_word : (2 ^ suc k * q + r) / 2 ≡ 2 ^ k * q + r / 2
  half_word = rw (pow-suc, mul_assoc) (omega arith)

  odd_word : (2 ^ suc k * q + r) % 2 ≡ r % 2
  odd_word = rw (pow-suc, mul_assoc) (omega arith)

-- A mask below `2 ^ k` acts on the low digits alone; the rest meets zeros.
module _ (op d : ℕ → ℕ → ℕ) (step : (a b : ℕ) → op a b ≡ op (a / 2) (b / 2) * 2 + d (a % 2) (b % 2))
    (none : op 0 0 ≡ 0) where
  both_words :
      (k q r p m : ℕ)
      → r < 2 ^ k
      → m < 2 ^ k
      → op (2 ^ k * q + r) (2 ^ k * p + m) ≡ 2 ^ k * op q p + op r m
  both_words zero q r p m hr hm =
      let r0 : r ≡ 0 = omega arith in
      let m0 : m ≡ 0 = omega arith in
      let q0 : 1 * q + 0 ≡ q = omega arith in
      let p0 : 1 * p + 0 ≡ p = omega arith in rw (r0, m0, q0, p0, none) (omega arith)
  both_words (suc k) q r p m hr hm =
      let ih = both_words k q (r / 2) p (m / 2) (halve k r hr) (halve k m hm) in
      rw
        (
          step (2 ^ suc k * q + r) (2 ^ suc k * p + m),
          half_word k q r,
          odd_word k q r,
          half_word k p m,
          odd_word k p m,
          ih,
          step r m,
          pow-suc,
        )
        (omega arith)
    where
      halve : (k x : ℕ) → x < 2 ^ suc k → x / 2 < 2 ^ k
      halve k x h = let h' : x < 2 ^ k * 2 = rw (← pow-suc) h in omega arith

  low_word : (k q r m : ℕ) → r < 2 ^ k → m < 2 ^ k → op (2 ^ k * q + r) m ≡ 2 ^ k * op q 0 + op r m
  low_word k q r m hr hm =
      let e : 2 ^ k * 0 + m ≡ m = omega arith in let h = both_words k q r 0 m hr hm in rw e at h

pub bit_and-words :
    (k q r p m : ℕ)
    → r < 2 ^ k
    → m < 2 ^ k
    → bit_and (2 ^ k * q + r) (2 ^ k * p + m) ≡ 2 ^ k * bit_and q p + bit_and r m
bit_and-words = both_words bit_and min bit_and-digit refl

pub bit_and-low : (k q r m : ℕ) → r < 2 ^ k → m < 2 ^ k → bit_and (2 ^ k * q + r) m ≡ bit_and r m
bit_and-low k q r m hr hm = omega (
  arith,
  low_word bit_and min bit_and-digit refl k q r m hr hm,
  ap (λ (t : ℕ). 2 ^ k * t) (bit_and-zero q),
)

pub bit_or-low :
    (k q r m : ℕ) → r < 2 ^ k → m < 2 ^ k → bit_or (2 ^ k * q + r) m ≡ 2 ^ k * q + bit_or r m
bit_or-low k q r m hr hm = rw (low_word bit_or max bit_or-digit refl k q r m hr hm, bit_or-zero q)

pub bit_xor-low :
    (k q r m : ℕ) → r < 2 ^ k → m < 2 ^ k → bit_xor (2 ^ k * q + r) m ≡ 2 ^ k * q + bit_xor r m
bit_xor-low k q r m hr hm =
    rw (low_word bit_xor differ bit_xor-digit refl k q r m hr hm, bit_xor-zero q)

pub bit_and-ones : (k a : ℕ) → a < 2 ^ k → bit_and a (2 ^ k - 1) ≡ a
bit_and-ones zero a h = omega (arith, bit_and-zero a)
bit_and-ones (suc k) a h =
    let h' : a < 2 ^ k * 2 = rw (← pow-suc) h in
    let half : (2 ^ k * 2 - 1) / 2 ≡ 2 ^ k - 1 = omega arith in
    rw (bit_and-digit a (2 ^ suc k - 1), pow-suc, half, bit_and-ones k (a / 2) (omega arith))
      (omega arith)
