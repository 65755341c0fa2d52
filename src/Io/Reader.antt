-- ===== src/Io/Reader.antt =====
-- The trait AsyncReadRent (crates/monoio/src/io/async_read_rent.rs) as an interface: a read takes the
-- reader and a buffer, and gives the reader afterwards, the result and the buffer.
pub mod Exact
pub mod Slice
use nirvana_dev.Prelude.{ℕ, suc, ◌≡◌, ◌≤◌, List, [], ◌++◌, length, ◌⊎◌}
use nirvana_dev.Io.Result.{Result, ErrorKind, interrupted, ok, err}
use nirvana_dev.Io.Buf.{IoBufMut, bytes_total, fill}

-- The buffer was filled with the bytes; where there are none it may have been left alone.
pub data Holds (buf : IoBufMut) (bytes : List ℕ) (buf' : IoBufMut) : Type 0 where
  filled : buf' ≡ fill buf bytes → Holds buf bytes buf'
  left_alone : bytes ≡ [] → buf' ≡ buf → Holds buf bytes buf'

module _ {S : Type 0} (IsFine : S → Type 0) (stream : S → List ℕ) (interruptions : S → ℕ) where
  -- A read that returned a count: these bytes were taken off the front of the stream, at most as
  -- many as there is room for, and none only if there is no room or the stream is at its end.
  pub record Got (s s' : S) (room : ℕ) (bytes : List ℕ) : Type 0 where
    pub fine : IsFine s'
    pub taken : stream s ≡ bytes ++ stream s'
    pub within : length bytes ≤ room
    pub at_end : bytes ≡ [] → (room ≡ 0) ⊎ (stream s ≡ [])
    pub patient : interruptions s' ≤ interruptions s

  -- A read that returned an error took nothing.
  pub record Failed (s s' : S) (e : ErrorKind) : Type 0 where
    pub fine : IsFine s'
    pub kept : stream s' ≡ stream s
    pub patient : interruptions s' ≤ interruptions s
    pub counted : e ≡ interrupted → suc (interruptions s') ≤ interruptions s

  pub data Answer (s : S) (buf : IoBufMut) : S × Result ℕ × IoBufMut → Type 0 where
    got :
        (s' : S) (bytes : List ℕ) (buf' : IoBufMut)
        → Got s s' (bytes_total buf) bytes
        → Holds buf bytes buf'
        → Answer s buf (s', ok (length bytes), buf')
    failed : (s' : S) (e : ErrorKind) → Failed s s' e → Answer s buf (s', err e, buf)

-- What the documentation of the trait promises of a reader in order: a read takes bytes off its
-- stream or fails and takes none, and it is interrupted only so often.
pub record Reader (S : Type 0) : Type 1 where
  pub read : S → IoBufMut → S × Result ℕ × IoBufMut
  pub IsFine : S → Type 0
  pub stream : S → List ℕ
  pub interruptions : S → ℕ
  pub read-Answer :
      (s : S) (buf : IoBufMut) → IsFine s → Answer IsFine stream interruptions s buf (read s buf)
