-- ===== src/Io/BufWriter.antt =====
-- crates/monoio/src/io/util/buf_writer.rs: a writer with a buffer of its own, which is taken out while
-- it is written to the inner writer. `none` means that the fuel of `write_all` ran out.
pub mod Fine
pub mod Writes
pub mod Flush
use nirvana_dev.Prelude.{
  ℕ, zero, ◌+◌, ◌*◌, Bool, ◌&&◌, Option, none, some, List, [], length, take, ltb, leb, ◌==◌,
  if◌then◌else◌,
}
use nirvana_dev.Io.Result.{Result, ErrorKind, ok, err, panicked}
use nirvana_dev.Io.Buf.{write_at}
use nirvana_dev.Io.BufReader.{zeros}
use nirvana_dev.Io.Writer.{IoBuf, owned, slice, bytes_init, as_slice, Writer}
use nirvana_dev.Io.Writer.All.{write_all}

pub record BufWriter (W : Type 0) : Type 0 where
  pub inner : W
  pub buf : Option (List ℕ)
  pub cap : ℕ

abbrev pub default_buf_size : ℕ
default_buf_size = 8 * 1024

module _ {W : Type 0} where
  unfoldable pub with_capacity : ℕ → W → BufWriter W
  unfolding zeros
  with_capacity capacity inner = record { inner = inner; buf = some (zeros capacity); cap = 0 }

  unfoldable pub new : W → BufWriter W
  unfolding with_capacity
  new inner = with_capacity default_buf_size inner

  unfoldable pub discard_buffer : BufWriter W → BufWriter W
  discard_buffer s = record s { cap = 0 }

  -- What follows `write_all` in `flush_buf`: the buffer is moved back.
  unfoldable pub after_write_all :
      BufWriter W → List ℕ → W × Result ℕ → BufWriter W × Result (Unit {0})
  unfolding discard_buffer
  after_write_all s bytes (inner, ok n) =
      (discard_buffer (record s { inner = inner; buf = some bytes }), ok tt)
  after_write_all s bytes (inner, err e) = (record s { inner = inner; buf = some bytes }, err e)
  after_write_all s bytes (inner, panicked) = (record s { inner = inner; buf = none }, panicked)

  module _ (w : Writer W) where
    -- The slice of the buffer is checked, by `Slice::new`.
    unfoldable pub write_buffer :
        ℕ → BufWriter W → List ℕ → Option (BufWriter W × Result (Unit {0}))
    unfolding after_write_all
    write_buffer fuel s bytes =
        if leb s.cap (length bytes) && leb 0 s.cap
        then elim (write_all w fuel s.inner (slice (owned bytes) 0 s.cap)) [
          | none ↦ none
          | some a ↦ some (after_write_all s bytes a)
        ]
        else some (record s { buf = none }, panicked)

    unfoldable pub flush_buf : ℕ → BufWriter W → Option (BufWriter W × Result (Unit {0}))
    unfolding write_buffer
    flush_buf fuel s =
        if s.cap == 0
        then some (s, ok tt)
        else elim s.buf [ none ↦ some (s, panicked) | some bytes ↦ write_buffer fuel s bytes ]

    -- The inner writer's own write, for what does not fit.
    unfoldable pub pass_on : BufWriter W → IoBuf → BufWriter W × Result ℕ
    pass_on s buf =
        let (inner, result) = w.write s.inner buf in (record s { inner = inner }, result)

    unfoldable pub copy_in : BufWriter W → IoBuf → ℕ → BufWriter W × Result ℕ
    unfolding as_slice write_at
    copy_in s buf amt = elim s.buf [
      | none ↦ (s, panicked)
      | some bytes ↦ (
        record s { buf = some (write_at bytes s.cap (take amt (as_slice buf))); cap = s.cap + amt },
        ok amt,
      )
    ]

    -- What follows the flush in `write`.
    unfoldable pub after_flush :
        IoBuf → ℕ → ℕ → BufWriter W × Result (Unit {0}) → BufWriter W × Result ℕ
    unfolding pass_on copy_in
    after_flush buf amt owned_len (s, ok x) =
        if ltb owned_len amt then pass_on s buf else copy_in s buf amt
    after_flush buf amt owned_len (s, err e) = (s, err e)
    after_flush buf amt owned_len (s, panicked) = (s, panicked)

    unfoldable pub write : ℕ → BufWriter W → IoBuf → Option (BufWriter W × Result ℕ)
    unfolding after_flush flush_buf bytes_init
    write fuel s buf = elim s.buf [
      | none ↦ some (s, panicked)
      | some bytes ↦
          let amt = bytes_init buf in
          let owned_len = length bytes in
          if ltb owned_len (s.cap + amt)
          then elim (flush_buf fuel s) [
            | none ↦ none
            | some a ↦ some (after_flush buf amt owned_len a)
          ]
          else some (after_flush buf amt owned_len (s, ok tt))
    ]

    unfoldable pub flush_inner : BufWriter W × Result (Unit {0}) → BufWriter W × Result (Unit {0})
    flush_inner (s, ok x) =
        let (inner, result) = w.flush s.inner in (record s { inner = inner }, result)
    flush_inner (s, err e) = (s, err e)
    flush_inner (s, panicked) = (s, panicked)

    unfoldable pub flush : ℕ → BufWriter W → Option (BufWriter W × Result (Unit {0}))
    unfolding flush_buf flush_inner
    flush fuel s = elim (flush_buf fuel s) [ none ↦ none | some a ↦ some (flush_inner a) ]
