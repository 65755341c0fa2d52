-- ===== src/Io/Result.antt =====
-- The results of reads and writes: `std::io::Result` with the kinds of error that the code tells
-- apart, and a panic as a value.
use nirvana_dev.Prelude.{ℕ, ◌≡◌, Bool, true, false, arith}

pub data ErrorKind : Type 0 where
  interrupted : ErrorKind
  unexpected_eof : ErrorKind
  write_zero : ErrorKind
  invalid_data : ErrorKind
  other : ℕ → ErrorKind

pub data Result (A : Type 0) : Type 0 where
  ok : A → Result A
  err : ErrorKind → Result A
  panicked : Result A

abbrev pub is_interrupted : ErrorKind → Bool
is_interrupted interrupted = true
is_interrupted unexpected_eof = false
is_interrupted write_zero = false
is_interrupted invalid_data = false
is_interrupted (other code) = false

pub is_interrupted-interrupted : (e : ErrorKind) → is_interrupted e ≡ true → e ≡ interrupted
is_interrupted-interrupted e h = ground arith
