-- ===== src/Prelude/Words.antt =====
-- Machine words by their binary digits: counting zeros, rotation, and single bits.
pub mod Powers
pub mod Digits
pub mod Zeros
pub mod Difference
use Prim.Native.Nat.{ℕ, zero, suc, ◌+◌, ◌-◌, ◌*◌, ◌/◌, ◌%◌, ◌^◌}
use nirvana_dev.Prelude.Tests.{◌==◌, if◌then◌else◌}

-- The bits of a number, at most the given ones.
unfoldable pub bit_length : (bits : ℕ) → ℕ → ℕ
bit_length zero x = 0
bit_length (suc n) x = let rest = bit_length n (x / 2) in if x == 0 then 0 else suc rest

-- `u64::leading_zeros`
abbrev pub leading_zeros : ℕ → ℕ
leading_zeros x = 64 - bit_length 64 x

-- `trailing_zeros` of a word of the given width
unfoldable pub trailing_zeros : (bits : ℕ) → ℕ → ℕ
trailing_zeros zero x = 0
trailing_zeros (suc n) x = let rest = trailing_zeros n (x / 2) in if x % 2 == 1 then 0 else suc rest

-- `u64::rotate_right`
unfoldable pub rotate_right : ℕ → ℕ → ℕ
rotate_right x k = x / 2 ^ (k % 64) + x % 2 ^ (k % 64) * 2 ^ (64 - k % 64)

-- The digit at an index.
unfoldable pub bit : ℕ → ℕ → ℕ
bit x zero = x % 2
bit x (suc i) = bit (x / 2) i
