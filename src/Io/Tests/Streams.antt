-- ===== src/Io/Tests/Streams.antt =====
-- Lines, copies and lists of buffers at concrete inputs, and what goes from a BufWriter to a BufReader.
use nirvana_dev.Prelude.{
  ℕ, ◌≡◌, ◌<◌, refl, Bool, true, ◌&&◌, none, some, List, [], ◌∷◌, length, ◌⊎◌, ltb, arith,
}
use nirvana_dev.Io.Tests.Parameters.{searching}
use nirvana_dev.Io.Result.{Result}
use nirvana_dev.Io.Buf.{bytes_total}
use nirvana_dev.Io.Buf.Fill.{boxed}
use nirvana_dev.Io.Reader.Slice.{byte_slice, read_cursor, read_slice}
use nirvana_dev.Io.Writer
use nirvana_dev.Io.BufRead.Until.{read_until, read_line}
use nirvana_dev.Io.BufRead.Until.Lines.{ReadUntil, read_until-ReadUntil}
use nirvana_dev.Io.BufRead.Until.Text.{ReadLine, read_line-ReadLine}
use nirvana_dev.Io.BufReader
use nirvana_dev.Io.BufReader.{BufReader}
use nirvana_dev.Io.BufReader.Fine
use nirvana_dev.Io.BufReader.Fine.{with_capacity-IsFine}
use nirvana_dev.Io.BufReader.Shows.{shown_reader}
use nirvana_dev.Io.BufWriter
use nirvana_dev.Io.BufWriter.{BufWriter}
use mathlib.Core.Option
use nirvana_dev.Io.IoVec.{
  IoVecMeta, consume, consume_from, entries, read_iovec_len, gather, bytes_from, total,
}
use nirvana_dev.Io.IoVec.Consume.{Consumed, consume-Consumed}

room_for_two : 0 < 2
room_for_two = omega arith

abbrev lines : BufReader (List ℕ)
lines = BufReader.with_capacity 2 (1 ∷ 2 ∷ 3 ∷ 10 ∷ 4 ∷ [])

read_until-ReadUntil_example :
    (a : BufReader (List ℕ) × List ℕ × Result ℕ) × (read_until
        (shown_reader byte_slice 2 room_for_two)
        searching
        10
        9
        lines
        (0 ∷ [])
      ≡ some a)
    × ReadUntil (shown_reader byte_slice 2 room_for_two) 10 lines (0 ∷ []) a
unfolding byte_slice shown_reader Fine.stream Fine.interruptions Fine.available
    BufReader.with_capacity BufReader.zeros
read_until-ReadUntil_example =
    read_until-ReadUntil (shown_reader byte_slice 2 room_for_two) 10 lines (0 ∷ []) searching 9
      (with_capacity-IsFine byte_slice 2 (1 ∷ 2 ∷ 3 ∷ 10 ∷ 4 ∷ []) tt) (omega arith)

-- ASCII.
ascii : List ℕ → Bool
ascii [] = true
ascii (x ∷ xs) = ltb x 128 && ascii xs

read_line-ReadLine_example :
    (a : BufReader (List ℕ) × List ℕ × Result ℕ) × (read_line
        (shown_reader byte_slice 2 room_for_two)
        searching
        ascii
        9
        lines
        (0 ∷ [])
      ≡ some a)
    × ReadLine (shown_reader byte_slice 2 room_for_two) searching ascii lines (0 ∷ []) a
unfolding byte_slice shown_reader Fine.stream Fine.interruptions Fine.available
    BufReader.with_capacity BufReader.zeros
read_line-ReadLine_example =
    read_line-ReadLine (shown_reader byte_slice 2 room_for_two) searching ascii lines (0 ∷ []) 9
      (with_capacity-IsFine byte_slice 2 (1 ∷ 2 ∷ 3 ∷ 10 ∷ 4 ∷ []) tt) (omega arith)

abbrev two_iovecs : IoVecMeta
two_iovecs = record {
  items = record { iov_base = 100; iov_len = 4 } ∷ record { iov_base = 200; iov_len = 3 } ∷ [];
  offset = 0;
  len = 7;
}

consume-Consumed_example :
    ((consume two_iovecs 5 ≡ none) × (total (entries two_iovecs) < 5))
    ⊎ ((m' : IoVecMeta) × (consume two_iovecs 5 ≡ some m') × Consumed two_iovecs 5 m')
consume-Consumed_example = consume-Consumed two_iovecs 5 (omega arith)

-- After a write of two of four bytes the next write starts with the bytes that were written.
consume_partial :
    Option.map (λ m. gather (λ address. address) (entries m)) (consume two_iovecs 2)
    ≡ some (100 ∷ 101 ∷ 200 ∷ 201 ∷ 202 ∷ [])
unfolding consume consume_from entries gather bytes_from
consume_partial = refl

-- After a write of all of the first buffer two entries are handed out, of which one is there.
consume_whole :
    Option.map {B = ℕ × ℕ} (λ m. (read_iovec_len m, length (entries m))) (consume two_iovecs 4)
    ≡ some (2, 1)
unfolding consume consume_from entries read_iovec_len
consume_whole = refl

-- A cursor gives the same bytes again.
read_cursor_again : (read_cursor (1, 5 ∷ 6 ∷ 7 ∷ []) (boxed (0 ∷ []) 0)).0 ≡ (1, 5 ∷ 6 ∷ 7 ∷ [])
unfolding read_cursor read_slice bytes_total
read_cursor_again = refl

abbrev chunks : List (List ℕ)
chunks = (1 ∷ 2 ∷ []) ∷ (3 ∷ 4 ∷ 5 ∷ []) ∷ (6 ∷ []) ∷ []

abbrev fresh : BufWriter (List ℕ)
fresh = record { inner = []; buf = some (0 ∷ 0 ∷ 0 ∷ 0 ∷ []); cap = 0 }

abbrev last_written : BufWriter (List ℕ)
last_written = record { inner = 1 ∷ 2 ∷ []; buf = some (3 ∷ 4 ∷ 5 ∷ 6 ∷ []); cap = 4 }

abbrev all_flushed : BufWriter (List ℕ)
all_flushed = record {
  inner = 1 ∷ 2 ∷ 3 ∷ 4 ∷ 5 ∷ 6 ∷ [];
  buf = some (3 ∷ 4 ∷ 5 ∷ 6 ∷ []);
  cap = 0;
}
