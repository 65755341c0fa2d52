-- ===== src/Io/BufWriter/Fine.antt =====
-- What holds of a BufWriter, and where the bytes are that it accepted
-- (crates/monoio/src/io/util/buf_writer.rs).
use nirvana_dev.Prelude.{
  ℕ, ◌+◌, ◌-◌, ◌≡◌, ◌≢◌, ◌≤◌, ◌<◌, refl, sym, ap, ◌∙◌, false, Bool-cases, none, some, List, [],
  ◌++◌, length, take, le→leb, ◌==◌, ==_iff, inl, inr, arith, length-take,
}
use nirvana_dev.Io.Result.{Result, ErrorKind, is_interrupted, ok, err}
use nirvana_dev.Io.Writer.{IoBuf, owned, slice, bytes_init, as_slice, Writer}
use nirvana_dev.Io.Writer.All.{WriteAll, complete, stopped, write_all-WriteAll}
use nirvana_dev.Io.BufWriter.{BufWriter, after_write_all, discard_buffer, write_buffer, flush_buf}
use mathlib.Core.List.{append-nil}
use mathlib.Core.Path.{subst}
use native.Mathlib.Nat.{sub-zero}

as_slice-front : (bytes : List ℕ) (cap : ℕ) → as_slice (slice (owned bytes) 0 cap) ≡ take cap bytes
unfolding as_slice
as_slice-front bytes cap = ap (λ (n : ℕ). take n bytes) (sub-zero cap)

bytes_init-front :
    (bytes : List ℕ) (cap : ℕ)
    → cap ≤ length bytes
    → bytes_init (slice (owned bytes) 0 cap) ≡ length (as_slice (slice (owned bytes) 0 cap))
unfolding bytes_init as_slice
bytes_init-front bytes cap h = ground (arith, length-take (cap - 0) bytes)

module _ {W : Type 0} (w : Writer W) (capacity : ℕ) where
  -- Between two calls the buffer is there, with its size, and the mark lies in it.
  pub data IsFine : BufWriter W → Type 0 where
    fine :
        (inner : W) (bytes : List ℕ) (cap : ℕ)
        → w.IsFine inner
        → length bytes ≡ capacity
        → cap ≤ capacity
        → IsFine (record { inner = inner; buf = some bytes; cap = cap })

  unfoldable pub buffered : BufWriter W → List ℕ
  buffered s = elim s.buf [ none ↦ [] | some bytes ↦ take s.cap bytes ]

  -- What was accepted: the bytes in the sink of the inner writer, then those in the buffer.
  unfoldable pub accepted : BufWriter W → List ℕ
  unfolding buffered
  accepted s = w.sink s.inner ++ buffered s

  -- All of the buffer is in the sink, or an error came after a proper front of it, and the buffer is as
  -- it was: what went into the sink is still in it.
  pub data FlushBuf (s : BufWriter W) : BufWriter W × Result (Unit {0}) → Type 0 where
    emptied :
        (s' : BufWriter W)
        → IsFine s'
        → s'.cap ≡ 0
        → w.sink s'.inner ≡ accepted s
        → w.interruptions s'.inner ≤ w.interruptions s.inner
        → FlushBuf s (s', ok tt)
    stuck :
        (s' : BufWriter W) (part rest : List ℕ) (e : ErrorKind)
        → IsFine s'
        → is_interrupted e ≡ false
        → buffered s ≡ part ++ rest
        → rest ≢ []
        → buffered s' ≡ buffered s
        → w.sink s'.inner ≡ w.sink s.inner ++ part
        → FlushBuf s (s', err e)

  after_write_all-FlushBuf :
      (inner : W) (bytes : List ℕ) (cap : ℕ) (a : W × Result ℕ)
      → length bytes ≡ capacity
      → cap ≤ capacity
      → WriteAll w inner (take cap bytes) a
      → FlushBuf
          (record { inner = inner; buf = some bytes; cap = cap })
          (after_write_all (record { inner = inner; buf = some bytes; cap = cap }) bytes a)
  unfolding after_write_all discard_buffer accepted buffered
  after_write_all-FlushBuf inner bytes cap a size le (complete s f e p) =
      emptied _ (fine s bytes 0 f size (omega arith)) refl e p
  after_write_all-FlushBuf inner bytes cap a size le
        (stopped s part rest e f stop split left put p) =
      stuck _ part rest e (fine s bytes cap f size le) stop split left refl put

  -- The slice of the buffer up to the mark is written.
  write_buffer-FlushBuf :
      (fuel : ℕ) (inner : W) (bytes : List ℕ) (cap : ℕ)
      → w.IsFine inner
      → length bytes ≡ capacity
      → cap ≤ capacity
      → capacity + w.interruptions inner < fuel
      → (a : BufWriter W × Result (Unit {0})) × (write_buffer w fuel
            (record { inner = inner; buf = some bytes; cap = cap })
            bytes
          ≡ some a)
        × FlushBuf (record { inner = inner; buf = some bytes; cap = cap }) a
  unfolding write_buffer
  write_buffer-FlushBuf fuel inner bytes cap f size le enough =
      let part : IoBuf = slice (owned bytes) 0 cap in
      let front : as_slice part ≡ take cap bytes = as_slice-front bytes cap in
      let whole : bytes_init part ≡ length (as_slice part) =
        bytes_init-front bytes cap (omega arith) in
      let (a, e, p) =
        write_all-WriteAll w inner part fuel f whole
          (omega (arith, whole, ap length front, length-take cap bytes)) in
      rw (le→leb cap (length bytes) (omega arith), le→leb 0 cap (omega arith), e)
        (
          _,
          refl,
          after_write_all-FlushBuf inner bytes cap a size le
              (subst (λ t. WriteAll w inner t a) front p),
        )

  -- Flushing the buffer ends, with fuel for each byte of it and each interruption.
  pub flush_buf-FlushBuf :
      (fuel : ℕ) (s : BufWriter W)
      → IsFine s
      → capacity + w.interruptions s.inner < fuel
      → (a : BufWriter W × Result (Unit {0})) × (flush_buf w fuel s ≡ some a) × FlushBuf s a
  unfolding flush_buf accepted buffered
  flush_buf-FlushBuf fuel s (fine inner bytes cap f size le) enough = elim (Bool-cases (cap == 0)) [
    | inl empty_ ↦
        let z : cap ≡ 0 = (==_iff cap 0).0 empty_ in
        rw empty_ (
          _,
          refl,
          emptied _ (fine inner bytes cap f size le) z
              (sym (append-nil (w.sink inner))
                ∙ ap (λ (n : ℕ). w.sink inner ++ take n bytes) (sym z))
              (omega arith),
        )
    | inr more ↦ rw more (write_buffer-FlushBuf fuel inner bytes cap f size le enough)
  ]
