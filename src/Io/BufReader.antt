-- ===== src/Io/BufReader.antt =====
-- crates/monoio/src/io/util/buf_reader.rs: a reader with a buffer of its own. The buffer is taken out
-- while the inner reader fills it.
pub mod Fine
pub mod Reads
pub mod Shows
use nirvana_dev.Prelude.{
  ℕ, ◌+◌, ◌-◌, Bool, true, false, ◌&&◌, Option, none, some, List, [], ◌∷◌, length, take, drop, min,
  leb, ◌==◌, ◌*◌, zero, suc, if◌then◌else◌,
}
use nirvana_dev.Io.Result.{Result, ErrorKind, ok, err, panicked}
use nirvana_dev.Io.Buf.{Memory, IoBufMut, whole, bytes_total, deref, fill}
use nirvana_dev.Io.Reader.{Reader}

pub record BufReader (R : Type 0) : Type 0 where
  pub inner : R
  pub buf : Option IoBufMut
  pub pos : ℕ
  pub cap : ℕ

abbrev pub default_buf_size : ℕ
default_buf_size = 8 * 1024

-- `vec![0; n]`.
unfoldable pub zeros : ℕ → List ℕ
zeros zero = []
zeros (suc n) = 0 ∷ zeros n

-- `&bytes[begin..end]`, with its panic.
unfoldable pub range : List ℕ → ℕ → ℕ → Result (List ℕ)
range bytes begin end =
    if leb begin end && leb end (length bytes)
    then ok (take (end - begin) (drop begin bytes))
    else panicked

module _ {R : Type 0} where
  unfoldable pub with_capacity : ℕ → R → BufReader R
  unfolding zeros
  with_capacity capacity inner = record {
    inner = inner;
    buf = some (whole (record { growable = false; bytes = zeros capacity; init = 0 }));
    pos = 0;
    cap = 0;
  }

  unfoldable pub new : R → BufReader R
  unfolding with_capacity
  new inner = with_capacity default_buf_size inner

  unfoldable pub buffer : BufReader R → Result (List ℕ)
  unfolding range deref
  buffer s = elim s.buf [ none ↦ panicked | some b ↦ range (deref b) s.pos s.cap ]

  unfoldable pub discard_buffer : BufReader R → BufReader R
  discard_buffer s = record s { pos = 0; cap = 0 }

  unfoldable pub consume : BufReader R → ℕ → BufReader R
  consume s amt = record s { pos = min s.cap (s.pos + amt) }

  -- What follows the read of the inner reader in `fill_buf`.
  unfoldable pub after_fill : BufReader R → R × Result ℕ × IoBufMut → BufReader R × Result (List ℕ)
  unfolding range deref
  after_fill s (inner, ok n, b) =
      (record s { inner = inner; buf = some b; pos = 0; cap = n }, range (deref b) 0 n)
  after_fill s (inner, err e, b) = (record s { inner = inner; buf = some b }, err e)
  after_fill s (inner, panicked, b) = (record s { inner = inner; buf = none }, panicked)

  -- What follows `fill_buf` in `read`.
  unfoldable pub after_rem :
      IoBufMut → BufReader R × Result (List ℕ) → BufReader R × Result ℕ × IoBufMut
  unfolding consume fill bytes_total
  after_rem buf (s, ok rem) =
      let amt = min (length rem) (bytes_total buf) in
      (consume s amt, ok amt, fill buf (take amt rem))
  after_rem buf (s, err e) = (s, err e, buf)
  after_rem buf (s, panicked) = (s, panicked, buf)

  unfoldable pub bypassed :
      BufReader R → R × Result ℕ × IoBufMut → BufReader R × Result ℕ × IoBufMut
  unfolding discard_buffer
  bypassed s (inner, result, buf) = (record (discard_buffer s) { inner = inner }, result, buf)

  module _ (r : Reader R) where
    unfoldable pub fill_buf : BufReader R → BufReader R × Result (List ℕ)
    unfolding after_fill range deref
    fill_buf s = elim s.buf [
      | none ↦ (s, panicked)
      | some b ↦
          if s.pos == s.cap
          then after_fill s (r.read s.inner b)
          else (s, range (deref b) s.pos s.cap)
    ]

    unfoldable pub read : BufReader R → IoBufMut → BufReader R × Result ℕ × IoBufMut
    unfolding bypassed after_rem fill_buf deref bytes_total
    read s buf = elim s.buf [
      | none ↦ (s, panicked, buf)
      | some owned ↦
          if s.pos == s.cap && leb (length (deref owned)) (bytes_total buf)
          then bypassed s (r.read s.inner buf)
          else after_rem buf (fill_buf s)
    ]
