-- ===== src/Io/Copy/Whole.antt =====
-- That `copy` moves all of the stream, and where an error leaves the bytes
-- (crates/monoio/src/io/util/copy.rs).
use nirvana_dev.Prelude.{ℕ, ◌+◌, ◌^◌, ◌%◌, ◌≡◌, ◌≢◌, ◌≤◌, ◌<◌, false, some, List, [], ◌++◌, length}
use nirvana_dev.Io.Result.{Result, ErrorKind, ok, err, is_interrupted}
use nirvana_dev.Io.Buf.{IoBufMut}
use nirvana_dev.Io.Reader.{Reader}
use nirvana_dev.Io.Writer.{Writer}
use nirvana_dev.Io.Copy.Buffer.{IsVec}
use nirvana_dev.Io.Copy.{Outcome}

module _ {R W : Type 0} (reader : Reader R) (writer : Writer W) (r0 : R) (w0 : W) where
  -- All of the stream is in the sink and its length returned; or the reader failed, and all that was
  -- read is in the sink; or the writer failed, and only a front of what was read is.
  pub data Copies : R × W × Result ℕ → Type 0 where
    copied :
        (r : R) (w : W)
        → reader.stream r ≡ []
        → writer.sink w ≡ writer.sink w0 ++ reader.stream r0
        → Copies (r, w, ok (length (reader.stream r0) % 2 ^ 64))
    read_failed :
        (r : R) (w : W) (bytes : List ℕ) (e : ErrorKind)
        → is_interrupted e ≡ false
        → reader.stream r0 ≡ bytes ++ reader.stream r
        → writer.sink w ≡ writer.sink w0 ++ bytes
        → Copies (r, w, err e)
    write_failed :
        (r : R) (w : W) (part rest : List ℕ) (e : ErrorKind)
        → is_interrupted e ≡ false
        → rest ≢ []
        → reader.stream r0 ≡ part ++ rest ++ reader.stream r
        → writer.sink w ≡ writer.sink w0 ++ part
        → Copies (r, w, err e)

  abbrev Ends : Outcome R W → Type 0
  Ends o = (a : R × W × Result ℕ) × (o ≡ some a) × Copies a

  -- The rounds so far: these bytes were moved.
  record Moved (bytes : List ℕ) (r : R) (w : W) : Type 0 where
    read_fine : reader.IsFine r
    write_fine : writer.IsFine w
    taken : reader.stream r0 ≡ bytes ++ reader.stream r
    put : writer.sink w ≡ writer.sink w0 ++ bytes
    patient : writer.interruptions w ≤ writer.interruptions w0

  module _ (capacity fuel : ℕ) (enough : capacity + writer.interruptions w0 < fuel) where
    abbrev Loops : (ℕ → R → W → IoBufMut → Outcome R W) → ℕ → Type 0
    Loops again rounds =
        (bytes : List ℕ) (r : R) (w : W) (buf : IoBufMut)
        → Moved bytes r w
        → IsVec capacity buf
        → length (reader.stream r) + reader.interruptions r < rounds
        → Ends (again (length bytes % 2 ^ 64) r w buf)
