-- ===== src/Io/BufReader/Shows.antt =====
-- A BufReader behind the interface of buffered readers (crates/monoio/src/io/util/buf_reader.rs).
use nirvana_dev.Prelude.{ℕ, ◌<◌}
use nirvana_dev.Io.Reader.{Reader}
use nirvana_dev.Io.BufRead.{BufRead}
use nirvana_dev.Io.BufReader.{BufReader, consume, fill_buf}
use nirvana_dev.Io.BufReader.Fine.{
  IsFine, available, stream, interruptions, fill_buf-Filling, consume-Consumed,
}

module _ {R : Type 0} (r : Reader R) (capacity : ℕ) (some_room : 0 < capacity) where
  unfoldable pub shown_reader : BufRead (BufReader R)
  shown_reader = record {
    fill_buf = fill_buf r;
    consume = consume;
    IsFine = IsFine r capacity;
    stream = stream r capacity;
    available = available r capacity;
    interruptions = interruptions r capacity;
    fill_buf-Filling = λ s. fill_buf-Filling r capacity s some_room;
    consume-Consumed = consume-Consumed r capacity;
  }
