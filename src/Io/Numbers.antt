-- ===== src/Io/Numbers.antt =====
-- The numbers of crates/monoio/src/io/async_read_rent_ext.rs, which a macro reads in one of two byte
-- orders. Signed numbers and floats are read as their words.
pub mod Bytes
use nirvana_dev.Prelude.{
  ℕ, zero, suc, ◌+◌, ◌*◌, ◌/◌, ◌%◌, ◌^◌, ◌≡◌, ◌≤◌, ◌<◌, refl, sym, ap, ◌∙◌, Option, none, some,
  List, [], ◌∷◌, ◌++◌, length, length-append, take, take-append, take-length, false, ◌⊎◌, inl, inr,
  arith,
}
use nirvana_dev.Io.Result.{Result, ErrorKind, is_interrupted, ok, err, panicked}
use nirvana_dev.Io.Buf.{IoBufMut, deref, bytes_total, fill, overwrite}
use nirvana_dev.Io.Buf.Fill.{boxed, deref-boxed, fill-boxed, take-overwrite, length-overwrite}
use nirvana_dev.Io.Reader.{Reader, Holds, filled, left_alone}
use nirvana_dev.Io.Reader.Exact.{read_exact}
use nirvana_dev.Io.Reader.Exact.Total.{ReadExact, complete, ended, broken}
use nirvana_dev.Io.BufReader.{zeros}
use nirvana_dev.Io.BufReader.Fine.{length-zeros}
use mathlib.Core.List.{reverse}
use mathlib.Core.Path.{subst}

-- `from_le_bytes` and `from_be_bytes` of the standard library, and their inverses.
unfoldable pub from_le_bytes : List ℕ → ℕ
from_le_bytes [] = 0
from_le_bytes (b ∷ bs) = b + 256 * from_le_bytes bs

unfoldable pub from_be_bytes : List ℕ → ℕ
unfolding from_le_bytes
from_be_bytes bytes = from_le_bytes (reverse bytes)

unfoldable pub to_le_bytes : ℕ → ℕ → List ℕ
to_le_bytes zero x = []
to_le_bytes (suc size) x = x % 256 ∷ to_le_bytes size (x / 256)

unfoldable pub to_be_bytes : ℕ → ℕ → List ℕ
unfolding to_le_bytes
to_be_bytes size x = reverse (to_le_bytes size x)

module _ {S : Type 0} where
  -- What follows `read_exact`: `res?`, and the conversion of the bytes.
  unfoldable pub after_exact : (List ℕ → ℕ) → S × Result ℕ × IoBufMut → S × Result ℕ
  after_exact from_bytes (s, ok n, buf) = (s, ok (from_bytes (deref buf)))
  after_exact from_bytes (s, err e, buf) = (s, err e)
  after_exact from_bytes (s, panicked, buf) = (s, panicked)

module _ {S : Type 0} (r : Reader S) where
  unfoldable pub read_number : (List ℕ → ℕ) → ℕ → ℕ → S → Option (S × Result ℕ)
  unfolding after_exact
  read_number from_bytes size fuel s = elim (read_exact r fuel s (boxed (zeros size) 0)) [
    | none ↦ none
    | some a ↦ some (after_exact from_bytes a)
  ]

  unfoldable pub read_u8 : ℕ → S → Option (S × Result ℕ)
  unfolding read_number
  read_u8 = read_number from_be_bytes 1

  unfoldable pub read_u16 : ℕ → S → Option (S × Result ℕ)
  unfolding read_number
  read_u16 = read_number from_be_bytes 2

  unfoldable pub read_u32 : ℕ → S → Option (S × Result ℕ)
  unfolding read_number
  read_u32 = read_number from_be_bytes 4

  unfoldable pub read_u64 : ℕ → S → Option (S × Result ℕ)
  unfolding read_number
  read_u64 = read_number from_be_bytes 8

  unfoldable pub read_u128 : ℕ → S → Option (S × Result ℕ)
  unfolding read_number
  read_u128 = read_number from_be_bytes 2

  unfoldable pub read_u16_le : ℕ → S → Option (S × Result ℕ)
  unfolding read_number
  read_u16_le = read_number from_le_bytes 2

  unfoldable pub read_u32_le : ℕ → S → Option (S × Result ℕ)
  unfolding read_number
  read_u32_le = read_number from_le_bytes 4

  unfoldable pub read_u64_le : ℕ → S → Option (S × Result ℕ)
  unfolding read_number
  read_u64_le = read_number from_le_bytes 8

  unfoldable pub read_u128_le : ℕ → S → Option (S × Result ℕ)
  unfolding read_number
  read_u128_le = read_number from_le_bytes 16

  unfoldable pub read_f32_le : ℕ → S → Option (S × Result ℕ)
  unfolding read_number
  read_f32_le = read_number from_be_bytes 4
