-- ===== src/Io/Tests.antt =====
-- Readers and writers at concrete inputs.
pub mod Parameters
mod Streams
use nirvana_dev.Prelude.{
  ℕ, suc, ◌≡◌, ◌+◌, ◌-◌, ◌<◌, refl, Bool, true, false, Option, none, some, List, [], ◌∷◌, ◌++◌,
  length, ◌⊎◌, take, drop, min, ◌==◌, if◌then◌else◌, arith, inl, inr,
}
use nirvana_dev.Io.Tests.Parameters.{front, searching, find, read_front}
use nirvana_dev.Io.Result.{
  Result, ErrorKind, interrupted, unexpected_eof, write_zero, invalid_data, other, ok, err,
}
use nirvana_dev.Io.Buf.{
  IoBufMut, whole, slice_mut, deref, bytes_init, fill, set_init, write_ptr, write_at, overwrite,
  into_inner,
}
use nirvana_dev.Io.Buf.Fill.{boxed}
use nirvana_dev.Io.Reader.{Reader, Holds, Answer}
use nirvana_dev.Io.Reader.Slice.{byte_slice, read_slice, read_cursor}
use nirvana_dev.Io.Reader.Exact.{exact_loop, after_exact}
use nirvana_dev.Io.Writer
use nirvana_dev.Io.Writer.{Writer, owned, as_slice}
use nirvana_dev.Io.Writer.Memory.{byte_vec, write_vec, flush_vec}
use nirvana_dev.Io.Writer.All.{write_all, write_loop, after_write, WriteAll, write_all-WriteAll}
use nirvana_dev.Io.BufRead.Until.{read_until, read_line}
use nirvana_dev.Io.BufRead.Until.Lines.{ReadUntil, read_until-ReadUntil}
use nirvana_dev.Io.BufRead.Until.Text.{ReadLine, read_line-ReadLine}
use nirvana_dev.Io.BufReader
use nirvana_dev.Io.BufReader.{BufReader}
use nirvana_dev.Io.BufReader.Fine
use nirvana_dev.Io.BufReader.Fine.{with_capacity-IsFine}
use nirvana_dev.Io.BufReader.Reads.{read-Reads}
use nirvana_dev.Io.BufReader.Shows.{shown_reader}
use nirvana_dev.Io.Prefixed
use nirvana_dev.Io.Prefixed.{PrefixedReadIo}
use nirvana_dev.Io.Prefixed.Reads
use nirvana_dev.Io.Prefixed.Reads.{read-ReadsBoth}
use nirvana_dev.Io.BufWriter
use nirvana_dev.Io.BufWriter.{BufWriter}
use nirvana_dev.Io.BufWriter.Fine.{fine}
use nirvana_dev.Io.BufWriter.Writes.{WriteOut, write-WriteOut}
use nirvana_dev.Io.BufWriter.Flush.{Written, done, more, concat}
use nirvana_dev.Io.RoundTrip.{GivesAll}
use nirvana_dev.Io.Copy.{copy}
use nirvana_dev.Io.Copy.Whole.{Copies}
use nirvana_dev.Io.IoVec.{
  Iovec, IoVecMeta, read_vec_meta, consume, consume_from, entries, read_iovec_len, gather,
  bytes_from, total,
}
use nirvana_dev.Io.IoVec.Consume.{Consumed, consume-Consumed}
use nirvana_dev.Io.Numbers.{
  to_be_bytes, to_le_bytes, from_be_bytes, from_le_bytes, read_number, read_u128,
}
use nirvana_dev.Io.Numbers.Bytes.{GivesNumber}

abbrev blank : IoBufMut
blank = boxed (0 ∷ 0 ∷ 0 ∷ []) 0

abbrev five : List ℕ
five = 1 ∷ 2 ∷ 3 ∷ 4 ∷ 5 ∷ []

abbrev reader : BufReader (List ℕ)
reader = BufReader.with_capacity 2 five

read-Reads_example :
    Answer
      (Fine.IsFine byte_slice 2)
      (Fine.stream byte_slice 2)
      (Fine.interruptions byte_slice 2)
      reader
      blank
      (BufReader.read byte_slice reader blank)
unfolding byte_slice
read-Reads_example =
    read-Reads byte_slice 2 reader blank (with_capacity-IsFine byte_slice 2 five tt)

abbrev prefixed : PrefixedReadIo (List ℕ) (List ℕ)
prefixed = record { io = five; prefix = 8 ∷ 9 ∷ []; prefix_finished = false }

read-ReadsBoth_example :
    Answer
      (Reads.IsFine byte_slice front)
      (Reads.stream byte_slice front)
      (Reads.interruptions byte_slice front)
      prefixed
      blank
      (Prefixed.read byte_slice front prefixed blank)
unfolding byte_slice
read-ReadsBoth_example = read-ReadsBoth byte_slice front prefixed blank tt

write_all-WriteAll_example :
    (a : List ℕ × Result ℕ) × (write_all byte_vec 10 (7 ∷ []) (owned five) ≡ some a)
    × WriteAll byte_vec (7 ∷ []) (as_slice (owned five)) a
unfolding byte_vec Writer.bytes_init as_slice
write_all-WriteAll_example =
    write_all-WriteAll byte_vec (7 ∷ []) (owned five) 10 tt refl (omega arith)

abbrev writer : BufWriter (List ℕ)
writer = record { inner = []; buf = some (1 ∷ 2 ∷ 3 ∷ 0 ∷ []); cap = 3 }

write-WriteOut_example :
    (a : BufWriter (List ℕ) × Result ℕ) × (BufWriter.write byte_vec 10 writer (owned (4 ∷ 5 ∷ []))
      ≡ some a)
    × WriteOut byte_vec 4 writer (as_slice (owned (4 ∷ 5 ∷ []))) a
unfolding byte_vec Writer.bytes_init as_slice
write-WriteOut_example =
    write-WriteOut byte_vec 4 10 writer (owned (4 ∷ 5 ∷ []))
      (fine [] (1 ∷ 2 ∷ 3 ∷ 0 ∷ []) 3 tt refl (omega arith)) refl (omega arith)
