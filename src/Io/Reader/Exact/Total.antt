-- ===== src/Io/Reader/Exact/Total.antt =====
-- What `read_exact` gives on every branch, and that it ends.
use nirvana_dev.Prelude.{ℕ, ◌≡◌, ◌≤◌, ◌<◌, false, Option, some, List, [], ◌++◌, length}
use nirvana_dev.Io.Result.{Result, ErrorKind, unexpected_eof, ok, err, is_interrupted}
use nirvana_dev.Io.Buf.{IoBufMut, bytes_total}
use nirvana_dev.Io.Reader.{Reader, Holds}

module _ {S : Type 0} (r : Reader S) (s0 : S) (buf0 : IoBufMut) where
  -- The outcome of reading exactly as much as there is room for: all of it, or the whole of a stream
  -- that is too short and an error, or what came before an error of the reader.
  pub data ReadExact : S × Result ℕ × IoBufMut → Type 0 where
    complete :
        (s : S) (bytes : List ℕ) (buf : IoBufMut)
        → r.IsFine s
        → r.stream s0 ≡ bytes ++ r.stream s
        → length bytes ≡ bytes_total buf0
        → Holds buf0 bytes buf
        → ReadExact (s, ok (length bytes), buf)
    ended :
        (s : S) (buf : IoBufMut)
        → r.IsFine s
        → r.stream s ≡ []
        → length (r.stream s0) < bytes_total buf0
        → Holds buf0 (r.stream s0) buf
        → ReadExact (s, err unexpected_eof, buf)
    broken :
        (s : S) (bytes : List ℕ) (e : ErrorKind) (buf : IoBufMut)
        → r.IsFine s
        → is_interrupted e ≡ false
        → r.stream s0 ≡ bytes ++ r.stream s
        → length bytes < bytes_total buf0
        → Holds buf0 bytes buf
        → ReadExact (s, err e, buf)

  -- The rounds so far: they read these bytes.
  record Progress (bytes : List ℕ) (s : S) (buf : IoBufMut) : Type 0 where
    fine : r.IsFine s
    taken : r.stream s0 ≡ bytes ++ r.stream s
    within : length bytes ≤ bytes_total buf0
    holds : Holds buf0 bytes buf

  abbrev Ends : Option (S × Result ℕ × IoBufMut) → Type 0
  Ends o = (a : S × Result ℕ × IoBufMut) × (o ≡ some a) × ReadExact a
