-- ===== src/Io/RoundTrip.antt =====
-- What is written through a BufWriter is read back through a BufReader
-- (crates/monoio/src/io/util/buf_writer.rs and buf_reader.rs, io/async_read_rent_ext.rs).
use nirvana_dev.Prelude.{ℕ, ◌≡◌, false, List, length, ◌⊎◌}
use nirvana_dev.Io.Result.{Result, ErrorKind, is_interrupted, ok, err}
use nirvana_dev.Io.Buf.{IoBufMut}
use nirvana_dev.Io.Reader.{Reader, Holds}
use nirvana_dev.Io.Writer.{Writer}
use nirvana_dev.Io.BufReader
use nirvana_dev.Io.BufReader.{BufReader}
use nirvana_dev.Io.BufWriter.{BufWriter}

-- A read of all of the stream gives all of its bytes, unless the reader fails.
abbrev pub GivesAll : {R : Type 0} → List ℕ → IoBufMut → R × Result ℕ × IoBufMut → Type 0
GivesAll bytes mem a =
    ((a.1 ≡ ok (length bytes)) × Holds mem bytes a.2)
    ⊎ ((e : ErrorKind) × (a.1 ≡ err e) × (is_interrupted e ≡ false))
