-- ===== src/Io/Buf.antt =====
-- Buffers that are rented out to a read (crates/monoio/src/buf/io_buf.rs and slice.rs): memory with
-- a count of initialized bytes, and slices of a buffer that own it. A write outside the memory,
-- which is undefined behaviour in the source, changes nothing here.
pub mod Fill
use nirvana_dev.Prelude.{
  ℕ, zero, suc, ◌+◌, ◌-◌, ◌≡◌, ◌≤◌, Bool, true, false, Option, none, some, List, [], ◌∷◌, length,
  take, drop, min, leb, if◌then◌else◌, ◌&&◌,
}

-- `growable` is set for a `Vec<u8>`, whose length is the count of initialized bytes, and not set for a
-- `Box<[u8]>` or an array, all of which is initialized. `BytesMut`, whose length never shrinks, is not
-- modelled.
pub record Memory : Type 0 where
  pub growable : Bool
  pub bytes : List ℕ
  pub init : ℕ

pub data IoBufMut : Type 0 where
  whole : Memory → IoBufMut
  slice_mut : IoBufMut → ℕ → ℕ → IoBufMut

unfoldable pub overwrite : List ℕ → List ℕ → List ℕ
overwrite xs [] = xs
overwrite [] (c ∷ cs) = []
overwrite (x ∷ xs) (c ∷ cs) = c ∷ overwrite xs cs

-- `copy_from_nonoverlapping` to an offset in the memory.
unfoldable pub write_at : List ℕ → ℕ → List ℕ → List ℕ
write_at xs zero chunk = overwrite xs chunk
write_at [] (suc offset) chunk = []
write_at (x ∷ xs) (suc offset) chunk = x ∷ write_at xs offset chunk

unfoldable pub bytes_total : IoBufMut → ℕ
bytes_total (whole m) = length m.bytes
bytes_total (slice_mut buf begin end) = end - begin

unfoldable pub bytes_init : Memory → ℕ
bytes_init m = if m.growable then m.init else length m.bytes

-- A copy to `write_ptr`, plus an offset.
unfoldable pub write_ptr : IoBufMut → ℕ → List ℕ → IoBufMut
write_ptr (whole m) offset chunk = whole (record m { bytes = write_at m.bytes offset chunk })
write_ptr (slice_mut buf begin end) offset chunk =
    slice_mut (write_ptr buf (begin + offset) chunk) begin end

unfoldable pub set_init : IoBufMut → ℕ → IoBufMut
set_init (whole m) n = whole (record m { init = if m.growable then n else m.init })
set_init (slice_mut buf begin end) n = slice_mut (set_init buf (begin + n)) begin end

unfoldable pub into_inner : IoBufMut → IoBufMut
into_inner (whole m) = whole m
into_inner (slice_mut buf begin end) = buf

-- What every read does with the bytes that it got.
unfoldable pub fill : IoBufMut → List ℕ → IoBufMut
fill buf chunk = set_init (write_ptr buf 0 chunk) (length chunk)

-- The initialized bytes of a buffer, by `Deref` of `SliceMut` for a slice.
unfoldable pub deref : IoBufMut → List ℕ
unfolding bytes_init
deref (whole m) = take (bytes_init m) m.bytes
deref (slice_mut buf begin end) =
    let bytes = deref buf in take (min end (length bytes) - begin) (drop begin bytes)

-- `SliceMut::new` on memory; `none` is a failed assertion.
unfoldable pub new_slice_mut : Memory → ℕ → ℕ → Option IoBufMut
unfolding bytes_init
new_slice_mut m begin end =
    if leb end (length m.bytes) && leb begin (bytes_init m) && leb begin end
    then some (slice_mut (whole m) begin end)
    else none
