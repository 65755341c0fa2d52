-- ===== src/Prelude/Words/Zeros.antt =====
-- Rotation of a word by its digits, and the search for its lowest one.
use Prim.Native.Nat.{ℕ, zero, suc, ◌+◌, ◌-◌, ◌*◌, ◌/◌, ◌%◌, ◌^◌, ◌<◌}
use native.Mathlib.Nat.{pow-suc, mul_assoc, mod-lt, div-lt_iff_lt-mul, mul-le-mul_left, mul_comm}
use mathlib.Core.Path.{◌≡◌, refl, sym, ◌∙◌}
use mathlib.Core.Logic.{inl, inr, ◌≢◌}
use native.Mathlib.Omega.{arith}
use nirvana_dev.Prelude.Tests.{◌==◌, ltb, Bool-cases}
use nirvana_dev.Prelude.Words.{bit, rotate_right, trailing_zeros}
use nirvana_dev.Prelude.Words.Powers.{pow_pos}
use nirvana_dev.Prelude.Words.Digits.{
  zero-bit, join-bit_low, join-bit_high, quotient-bit, remainder-bit,
}

pub pow_add : (k n : ℕ) → 2 ^ (k + n) ≡ 2 ^ n * 2 ^ k
pow_add zero n = let e : 0 + n ≡ n = omega arith in rw e (omega arith)
pow_add (suc k) n =
    let e : suc k + n ≡ suc (k + n) = omega arith in
    rw (e, pow-suc, pow_add k n, pow-suc) (mul_assoc (2 ^ n) (2 ^ k) 2)

-- A rotated word has the digits of the word, further along.
pub rotate_right-bit :
    (x k i : ℕ) → x < 2 ^ 64 → i < 64 → bit (rotate_right x k) i ≡ bit x ((i + k) % 64)
unfolding rotate_right
rotate_right-bit x k i word lt =
    let r = k % 64 in
    let whole : r + (64 - r) ≡ 64 = omega arith in
    let word' : x < 2 ^ (64 - r) * 2 ^ r = rw (← pow_add r (64 - r), whole) word in
    let (into, high) = div-lt_iff_lt-mul (pow_pos r) in
    let high' = high word' in
    elim (Bool-cases (ltb i (64 - r))) [
      | inl e ↦
          let at : (i + k) % 64 ≡ r + i = ground arith in
          rw at
            (join-bit_low (64 - r) (x / 2 ^ r) (x % 2 ^ r) i (ground arith) ∙ quotient-bit r x i)
      | inr e ↦
          let at : (i + k) % 64 ≡ i - (64 - r) = ground arith in
          let from : 64 - r + (i - (64 - r)) ≡ i = ground arith in
          let h = join-bit_high (64 - r) (x / 2 ^ r) (x % 2 ^ r) (i - (64 - r)) high' in
          let h' = rw from at h in rw at (h' ∙ remainder-bit r x (i - (64 - r)) (ground arith))
    ]

pub rotate_right_lt : (x k : ℕ) → x < 2 ^ 64 → rotate_right x k < 2 ^ 64
unfolding rotate_right
rotate_right_lt x k word =
    let r = k % 64 in
    let whole : r + (64 - r) ≡ 64 = omega arith in
    let word' : x < 2 ^ (64 - r) * 2 ^ r = rw (← pow_add r (64 - r), whole) word in
    let (into, high) = div-lt_iff_lt-mul (pow_pos r) in
    let high' = high word' in
    let low = mod-lt x (pow_pos r) in
    let sum : 2 ^ 64 ≡ 2 ^ (64 - r) * 2 ^ r = rw (← pow_add r (64 - r), whole) refl in
    let le = mul-le-mul_left (2 ^ (64 - r)) low in
    rw sum (omega (arith, le, mul_comm (2 ^ (64 - r)) (x % 2 ^ r)))

-- The zeros below the lowest one.
pub trailing_zeros-cases :
    (n x : ℕ)
    → x < 2 ^ n
    → x ≢ 0
    → (trailing_zeros n x < n)
      × (bit x (trailing_zeros n x) ≡ 1)
      × ((i : ℕ) → i < trailing_zeros n x → bit x i ≡ 0)
unfolding trailing_zeros bit
trailing_zeros-cases zero x lt ne = absurd (ground arith)
trailing_zeros-cases (suc n) x lt ne =
    let lt' : x < 2 ^ n * 2 = rw (← pow-suc) lt in
    elim (Bool-cases (x % 2 == 1)) [
      | inl e ↦ rw e (omega arith, ground arith, λ i lt. absurd (omega arith))
      | inr e ↦
          let (less, one, zeros) = trailing_zeros-cases n (x / 2) (omega arith) (ground arith) in
          rw e (omega arith, one, below x (trailing_zeros n (x / 2)) zeros (ground arith))
    ]
  where
    below :
        (x z : ℕ)
        → ((i : ℕ) → i < z → bit (x / 2) i ≡ 0)
        → x % 2 ≡ 0
        → (i : ℕ) → i < suc z
        → bit x i ≡ 0
    below x z zeros even zero lt = even
    below x z zeros even (suc i) lt = zeros i (omega arith)

-- A word without a one is zero.
pub no-ones : (n x : ℕ) → x < 2 ^ n → ((i : ℕ) → i < n → bit x i ≡ 0) → x ≡ 0
unfolding bit
no-ones zero x lt zeros = omega arith
no-ones (suc n) x lt zeros =
    let lt' : x < 2 ^ n * 2 = rw (← pow-suc) lt in
    let first = zeros 0 (omega arith) in
    let rest = no-ones n (x / 2) (omega arith) (λ i lt. zeros (suc i) (omega arith)) in omega arith

pub rotate_right-none : (x k : ℕ) → x < 2 ^ 64 → rotate_right x k ≡ 0 → x ≡ 0
rotate_right-none x k word none = no-ones 64 x word (λ j lt.
    (let i = (j + (64 - k % 64)) % 64 in
      let back : (i + k) % 64 ≡ j = omega arith in
      let h = rotate_right-bit x k i word (omega arith) in
      let h' = rw (back, none, zero-bit i) at h in sym h'))
