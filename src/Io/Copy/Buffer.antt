-- ===== src/Io/Copy/Buffer.antt =====
-- The vector that `copy` reads into (crates/monoio/src/io/util/copy.rs).
use nirvana_dev.Prelude.{ℕ, ◌≡◌, ◌≤◌, ◌∙◌, true, List, length, arith}
use nirvana_dev.Io.Buf.{
  IoBufMut, whole, deref, bytes_total, fill, overwrite, write_at, write_ptr, set_init,
}
use nirvana_dev.Io.Buf.Fill.{take-overwrite, length-overwrite}
use nirvana_dev.Io.BufReader.{zeros}
use nirvana_dev.Io.BufReader.Fine.{length-zeros}
use nirvana_dev.Io.Copy.{empty_vec}

-- A vector of some capacity.
pub data IsVec (capacity : ℕ) : IoBufMut → Type 0 where
  vec :
      (bytes : List ℕ) (init : ℕ)
      → length bytes ≡ capacity
      → IsVec capacity (whole (record { growable = true; bytes = bytes; init = init }))

pub IsVec-empty_vec : (n : ℕ) → IsVec n (empty_vec n)
unfolding empty_vec
IsVec-empty_vec n = vec (zeros n) 0 (length-zeros n)

-- A vector that was filled holds the bytes.
pub record Full (capacity : ℕ) (buf : IoBufMut) (chunk : List ℕ) : Type 0 where
  pub still : IsVec capacity buf
  pub held : deref buf ≡ chunk

pub IsVec-fill :
    (capacity : ℕ) (buf : IoBufMut) (chunk : List ℕ)
    → IsVec capacity buf
    → length chunk ≤ capacity
    → Full capacity (fill buf chunk) chunk
unfolding fill write_ptr set_init write_at deref
IsVec-fill capacity buf chunk (vec bytes init size) h = record {
  still = vec (overwrite bytes chunk) (length chunk) (length-overwrite bytes chunk ∙ size);
  held = take-overwrite bytes chunk (omega arith);
}

pub bytes_total-IsVec :
    (capacity : ℕ) (buf : IoBufMut) → IsVec capacity buf → bytes_total buf ≡ capacity
unfolding bytes_total
bytes_total-IsVec capacity buf (vec bytes init size) = size
