-- ===== src/Io/Writer.antt =====
-- The trait AsyncWriteRent (crates/monoio/src/io/async_write_rent.rs) as an interface, with the buffers
-- that are rented out to a write (crates/monoio/src/buf/io_buf.rs and slice.rs). A write does not change
-- its buffer.
pub mod All
pub mod Memory
use nirvana_dev.Prelude.{ℕ, suc, ◌-◌, ◌≡◌, ◌≤◌, List, [], ◌++◌, length, take, drop}
use nirvana_dev.Io.Result.{Result, ErrorKind, interrupted, ok, err}

-- Initialized bytes, or a slice that owns a buffer.
pub data IoBuf : Type 0 where
  owned : List ℕ → IoBuf
  slice : IoBuf → ℕ → ℕ → IoBuf

unfoldable pub bytes_init : IoBuf → ℕ
bytes_init (owned bytes) = length bytes
bytes_init (slice buf begin end) = end - begin

-- The bytes from `read_ptr` on.
unfoldable pub as_slice : IoBuf → List ℕ
as_slice (owned bytes) = bytes
as_slice (slice buf begin end) = take (end - begin) (drop begin (as_slice buf))

module _ {S : Type 0} (IsFine : S → Type 0) (sink : S → List ℕ) (interruptions : S → ℕ) where
  -- A write that returned a count: so many of the bytes were put at the end of the sink.
  pub record Wrote (s s' : S) (bytes : List ℕ) (n : ℕ) : Type 0 where
    pub fine : IsFine s'
    pub put : sink s' ≡ sink s ++ take n bytes
    pub within : n ≤ length bytes
    pub patient : interruptions s' ≤ interruptions s

  -- A write that returned an error put nothing.
  pub record Refused (s s' : S) (e : ErrorKind) : Type 0 where
    pub fine : IsFine s'
    pub kept : sink s' ≡ sink s
    pub patient : interruptions s' ≤ interruptions s
    pub counted : e ≡ interrupted → suc (interruptions s') ≤ interruptions s

  pub data Answer (s : S) (bytes : List ℕ) : S × Result ℕ → Type 0 where
    wrote : (s' : S) (n : ℕ) → Wrote s s' bytes n → Answer s bytes (s', ok n)
    refused : (s' : S) (e : ErrorKind) → Refused s s' e → Answer s bytes (s', err e)

  -- A flush moves nothing into the sink of the writer itself.
  pub data Flushed (s : S) : S × Result (Unit {0}) → Type 0 where
    flushed : (s' : S) → IsFine s' → sink s' ≡ sink s → Flushed s (s', ok tt)
    unflushed : (s' : S) (e : ErrorKind) → IsFine s' → sink s' ≡ sink s → Flushed s (s', err e)

-- What the documentation of the trait promises of a writer in order.
pub record Writer (S : Type 0) : Type 1 where
  pub write : S → IoBuf → S × Result ℕ
  pub flush : S → S × Result (Unit {0})
  pub IsFine : S → Type 0
  pub sink : S → List ℕ
  pub interruptions : S → ℕ
  pub write-Answer :
      (s : S) (buf : IoBuf)
      → IsFine s
      → Answer IsFine sink interruptions s (as_slice buf) (write s buf)
  pub flush-Flushed : (s : S) → IsFine s → Flushed IsFine sink interruptions s (flush s)
