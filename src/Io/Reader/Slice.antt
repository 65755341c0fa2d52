-- ===== src/Io/Reader/Slice.antt =====
-- Reads from a byte slice and from a cursor (crates/monoio/src/io/async_read_rent.rs, the impls for
-- `&[u8]` and `Cursor`).
use nirvana_dev.Prelude.{
  ℕ, suc, ◌≡◌, refl, sym, ap, List, [], ◌∷◌, length, take, drop, take-append-drop, length-take, ltb,
  if◌then◌else◌, min, arith, inl, inr, ◌⊎◌,
}
use nirvana_dev.Io.Result.{Result, ok}
use nirvana_dev.Io.Buf.{IoBufMut, bytes_total, fill}
use nirvana_dev.Io.Reader.{Reader, filled, Answer, got}
use mathlib.Core.Path.{subst}

unfoldable pub read_slice : List ℕ → IoBufMut → List ℕ × Result ℕ × IoBufMut
unfolding fill
read_slice available buf =
    let to_read = min (length available) (bytes_total buf) in
    (drop to_read available, ok to_read, fill buf (take to_read available))

-- The cursor keeps its position.
unfoldable pub read_cursor : ℕ × List ℕ → IoBufMut → (ℕ × List ℕ) × Result ℕ × IoBufMut
unfolding read_slice
read_cursor (pos, bytes) buf =
    if ltb (length bytes) pos
    then ((pos, bytes), ok 0, buf)
    else (let (rest, result, buf') = read_slice (drop pos bytes) buf in
        ((pos, bytes), result, buf'))

abbrev pub InOrder : List ℕ → Type 0
InOrder available = Unit

pub none-taken :
    (available : List ℕ) (room : ℕ)
    → take (min (length available) room) available ≡ []
    → (room ≡ 0) ⊎ (available ≡ [])
none-taken [] room e = inr refl
none-taken (x ∷ xs) room e =
    inl (ground (arith, length-take (min (suc (length xs)) room) (x ∷ xs), ap length e))

pub read_slice-Answer :
    (available : List ℕ) (buf : IoBufMut)
    → InOrder available
    → Answer InOrder (λ s. s) (λ s. 0) available buf (read_slice available buf)
unfolding read_slice
read_slice-Answer available buf fine =
    let n : ℕ = min (length available) (bytes_total buf) in
    let bytes : List ℕ = take n available in
    let size : length bytes ≡ n = ground (arith, length-take n available) in
    subst
      (λ k. Answer InOrder (λ s. s) (λ s. 0) available buf (drop n available, ok k, fill buf bytes))
      size
      (got (drop n available) bytes (fill buf bytes)
        (record {
          fine = tt;
          taken = sym (take-append-drop n available);
          within = ground arith;
          at_end = none-taken available (bytes_total buf);
          patient = omega arith;
        })
        (filled refl))

unfoldable pub byte_slice : Reader (List ℕ)
byte_slice = record {
  read = read_slice;
  IsFine = InOrder;
  stream = λ s. s;
  interruptions = λ s. 0;
  read-Answer = read_slice-Answer;
}
