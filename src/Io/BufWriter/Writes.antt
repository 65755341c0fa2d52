-- ===== src/Io/BufWriter/Writes.antt =====
-- The writes and the flush of a BufWriter (crates/monoio/src/io/util/buf_writer.rs).
use nirvana_dev.Prelude.{
  ℕ, ◌+◌, ◌≡◌, ◌≤◌, ◌<◌, ◌⊎◌, refl, sym, ap, ◌∙◌, Bool-cases, some, List, [], ◌++◌, length, take,
  ltb, ltb→lt, inl, inr, arith, take-length,
}
use nirvana_dev.Io.Result.{Result, ErrorKind, ok, err}
use nirvana_dev.Io.Buf.{write_at}
use nirvana_dev.Io.Buf.Fill.{take-write_at, length-write_at}
use nirvana_dev.Io.Writer.{IoBuf, bytes_init, as_slice, Writer, Answer, wrote, refused}
use nirvana_dev.Io.BufWriter.{BufWriter, pass_on, copy_in, after_flush, write}
use nirvana_dev.Io.BufWriter.Fine.{
  IsFine, fine, buffered, accepted, FlushBuf, emptied, stuck, flush_buf-FlushBuf,
}
use mathlib.Core.List.{append-nil, append_assoc}
use mathlib.Core.Path.{subst}

module _ {W : Type 0} (w : Writer W) (capacity : ℕ) where
  -- The outcome of a write: a front of the bytes is accepted, all of them if the buffer can hold
  -- them; or the inner writer refused bytes that the buffer cannot hold; or the flush before it was
  -- stuck.
  pub data WriteOut (s : BufWriter W) (bytes : List ℕ) : BufWriter W × Result ℕ → Type 0 where
    taken :
        (s' : BufWriter W) (n : ℕ)
        → IsFine w capacity s'
        → n ≤ length bytes
        → (length bytes ≤ capacity → n ≡ length bytes)
        → accepted w capacity s' ≡ accepted w capacity s ++ take n bytes
        → w.interruptions s'.inner ≤ w.interruptions s.inner
        → WriteOut s bytes (s', ok n)
    denied :
        (s' : BufWriter W) (e : ErrorKind)
        → IsFine w capacity s'
        → capacity < length bytes
        → accepted w capacity s' ≡ accepted w capacity s
        → WriteOut s bytes (s', err e)
    flush_stuck :
        (s' : BufWriter W) (e : ErrorKind)
        → FlushBuf w capacity s (s', err e)
        → WriteOut s bytes (s', err e)

  pass_on-WriteOut :
      (s : BufWriter W) (inner : W) (mem bytes : List ℕ) (a : W × Result ℕ)
      → accepted w capacity (record { inner = inner; buf = some mem; cap = 0 })
        ≡ accepted w capacity s
      → w.interruptions inner ≤ w.interruptions s.inner
      → length mem ≡ capacity
      → capacity < length bytes
      → Answer w.IsFine w.sink w.interruptions inner bytes a
      → WriteOut s bytes (record { inner = a.0; buf = some mem; cap = 0 }, a.1)
  unfolding accepted buffered
  pass_on-WriteOut s inner mem bytes a same le size big (wrote s' n g) =
      taken _ n (fine s' mem 0 g.fine size (omega arith)) g.within (λ h. absurd (omega arith))
        (append-nil (w.sink s')
          ∙ g.put
          ∙ ap (λ t. t ++ take n bytes) (sym (append-nil (w.sink inner)) ∙ same))
        (omega (arith, g.patient))
  pass_on-WriteOut s inner mem bytes a same le size big (refused s' e f) =
      denied _ e (fine s' mem 0 f.fine size (omega arith)) big (ap (λ t. t ++ []) f.kept ∙ same)

  copy_in-WriteOut :
      (s : BufWriter W) (inner : W) (mem : List ℕ) (cap : ℕ) (bytes : List ℕ)
      → accepted w capacity (record { inner = inner; buf = some mem; cap = cap })
        ≡ accepted w capacity s
      → w.interruptions inner ≤ w.interruptions s.inner
      → w.IsFine inner
      → length mem ≡ capacity
      → cap + length bytes ≤ capacity
      → WriteOut s bytes (
        record {
          inner = inner;
          buf = some (write_at mem cap (take (length bytes) bytes));
          cap = cap + length bytes;
        },
        ok (length bytes),
      )
  unfolding accepted buffered
  copy_in-WriteOut s inner mem cap bytes same le f size fits = rw (take-length bytes) (
      taken _ (length bytes)
        (fine inner (write_at mem cap bytes) (cap + length bytes) f
          (length-write_at mem cap bytes ∙ size) fits)
        (omega arith) (λ h. refl)
        (ap (λ t. w.sink inner ++ t) (take-write_at mem cap bytes (omega arith))
          ∙ sym (append_assoc (w.sink inner) (take cap mem) bytes)
          ∙ ap (λ t. t ++ bytes) same
          ∙ ap (λ t. accepted w capacity s ++ t) (sym (take-length bytes)))
        le)

  -- With room in the buffer, or an empty buffer, the write goes through.
  after_flush-WriteOut :
      (s s1 : BufWriter W) (buf : IoBuf) (owned_len : ℕ)
      → IsFine w capacity s1
      → accepted w capacity s1 ≡ accepted w capacity s
      → w.interruptions s1.inner ≤ w.interruptions s.inner
      → bytes_init buf ≡ length (as_slice buf)
      → owned_len ≡ capacity
      → (s1.cap ≡ 0) ⊎ (s1.cap + bytes_init buf ≤ capacity)
      → WriteOut s (as_slice buf) (after_flush w buf (bytes_init buf) owned_len (s1, ok tt))
  unfolding after_flush pass_on copy_in
  after_flush-WriteOut s s1 buf owned_len (fine inner mem cap f size c) same le whole len room =
      elim (Bool-cases (ltb owned_len (bytes_init buf))) [
        | inl big ↦
            let lt : owned_len < bytes_init buf = ltb→lt _ _ big in
            let z : cap ≡ 0 = elim room [ inl e ↦ e | inr h ↦ absurd (omega arith) ] in
            rw big (
              subst
                (λ k. WriteOut s (as_slice buf) (
                  record { inner = (w.write inner buf).0; buf = some mem; cap = k },
                  (w.write inner buf).1,
                ))
                (sym z)
                (pass_on-WriteOut s inner mem (as_slice buf) (w.write inner buf)
                  (ap
                      (λ (k : ℕ).
                        accepted w capacity (record { inner = inner; buf = some mem; cap = k }))
                      (sym z)
                    ∙ same)
                  le size (omega arith) (w.write-Answer inner buf f)))
        | inr small ↦
            let fits : cap + length (as_slice buf) ≤ capacity = elim room [
              | inl e ↦ ground arith
              | inr h ↦ omega arith
            ] in
            rw small (
              subst
                (λ (n : ℕ). WriteOut s (as_slice buf) (
                  record {
                    inner = inner;
                    buf = some (write_at mem cap (take n (as_slice buf)));
                    cap = cap + n;
                  },
                  ok n,
                ))
                (sym whole) (copy_in-WriteOut s inner mem cap (as_slice buf) same le f size fits))
      ]

  all_sunk :
      (s : BufWriter W) {seen : List ℕ}
      → IsFine w capacity s
      → s.cap ≡ 0
      → w.sink s.inner ≡ seen
      → accepted w capacity s ≡ seen
  unfolding accepted buffered
  all_sunk s (fine inner mem cap f size c) z e =
      ap (λ (n : ℕ). w.sink inner ++ take n mem) z ∙ append-nil (w.sink inner) ∙ e

  flushed-WriteOut :
      (s : BufWriter W) (buf : IoBuf) (owned_len : ℕ) (a : BufWriter W × Result (Unit {0}))
      → bytes_init buf ≡ length (as_slice buf)
      → owned_len ≡ capacity
      → FlushBuf w capacity s a
      → WriteOut s (as_slice buf) (after_flush w buf (bytes_init buf) owned_len a)
  flushed-WriteOut s buf owned_len a whole len (emptied s' f z e p) =
      after_flush-WriteOut s s' buf owned_len f (all_sunk s' f z e) p whole len (inl z)
  flushed-WriteOut s buf owned_len a whole len (stuck s' part rest e f stop split left same put) =
      unfold after_flush in flush_stuck s' e (stuck s' part rest e f stop split left same put)

  -- A write ends, with fuel for the buffer and each interruption. It accepts a front of the bytes, after
  -- all that was accepted before, and all of them if the buffer can hold them; otherwise nothing is
  -- accepted, unless the flush before it stopped half way.
  pub write-WriteOut :
      (fuel : ℕ) (s : BufWriter W) (buf : IoBuf)
      → IsFine w capacity s
      → bytes_init buf ≡ length (as_slice buf)
      → capacity + w.interruptions s.inner < fuel
      → (a : BufWriter W × Result ℕ) × (write w fuel s buf ≡ some a) × WriteOut s (as_slice buf) a
  unfolding write
  write-WriteOut fuel s buf (fine inner mem cap f size c) whole enough =
      let st : BufWriter W = record { inner = inner; buf = some mem; cap = cap } in
      let ok_ : IsFine w capacity st = fine inner mem cap f size c in
      elim (Bool-cases (ltb (length mem) (cap + bytes_init buf))) [
        | inl over ↦
            let (a, e, p) = flush_buf-FlushBuf w capacity fuel st ok_ enough in
            rw (over, e) (_, refl, flushed-WriteOut st buf (length mem) a whole size p)
        | inr room ↦ rw room (
          _,
          refl,
          after_flush-WriteOut st st buf (length mem) ok_ refl (omega arith) whole size
              (inr (ground arith)),
        )
      ]
