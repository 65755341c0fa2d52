-- ===== src/Io/Writer/Memory.antt =====
-- Writes to a vector of bytes (crates/monoio/src/io/async_write_rent.rs, the impl for `Vec<u8>`).
use nirvana_dev.Prelude.{ℕ, refl, sym, ap, List, ◌++◌, length, take-length, arith}
use nirvana_dev.Io.Result.{Result, ok}
use nirvana_dev.Io.Writer.{IoBuf, as_slice, Writer, Answer, wrote, Flushed, flushed}

unfoldable pub write_vec : List ℕ → IoBuf → List ℕ × Result ℕ
unfolding as_slice
write_vec bytes buf = (bytes ++ as_slice buf, ok (length (as_slice buf)))

unfoldable pub flush_vec : List ℕ → List ℕ × Result (Unit {0})
flush_vec bytes = (bytes, ok tt)

abbrev pub InOrder : List ℕ → Type 0
InOrder bytes = Unit

pub write_vec-Answer :
    (bytes : List ℕ) (buf : IoBuf)
    → InOrder bytes
    → Answer InOrder (λ s. s) (λ s. 0) bytes (as_slice buf) (write_vec bytes buf)
unfolding write_vec
write_vec-Answer bytes buf fine = wrote (bytes ++ as_slice buf) (length (as_slice buf)) (record {
  fine = tt;
  put = ap (λ t. bytes ++ t) (sym (take-length (as_slice buf)));
  within = omega arith;
  patient = omega arith;
})

pub flush_vec-Flushed :
    (bytes : List ℕ) → InOrder bytes → Flushed InOrder (λ s. s) (λ s. 0) bytes (flush_vec bytes)
unfolding flush_vec
flush_vec-Flushed bytes fine = flushed bytes tt refl

unfoldable pub byte_vec : Writer (List ℕ)
byte_vec = record {
  write = write_vec;
  flush = flush_vec;
  IsFine = InOrder;
  sink = λ s. s;
  interruptions = λ s. 0;
  write-Answer = write_vec-Answer;
  flush-Flushed = flush_vec-Flushed;
}
