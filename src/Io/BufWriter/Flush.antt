-- ===== src/Io/BufWriter/Flush.antt =====
-- The flush of a BufWriter, and a sequence of writes before it
-- (crates/monoio/src/io/util/buf_writer.rs).
use nirvana_dev.Prelude.{
  ℕ, ◌+◌, ◌≡◌, ◌≤◌, ◌<◌, refl, sym, ap, ◌∙◌, some, List, [], ◌∷◌, ◌++◌, length, arith, take,
  take-length,
}
use nirvana_dev.Io.Result.{Result, ok}
use nirvana_dev.Io.Writer.{owned, bytes_init, as_slice, Writer, Flushed, flushed, unflushed}
use nirvana_dev.Io.BufWriter.{BufWriter, write, flush_inner, flush}
use nirvana_dev.Io.BufWriter.Fine.{
  IsFine, fine, accepted, FlushBuf, emptied, stuck, flush_buf-FlushBuf,
}
use nirvana_dev.Io.BufWriter.Writes.{WriteOut, taken, denied, flush_stuck, write-WriteOut}
use mathlib.Core.List.{append-nil, append_assoc}
use mathlib.Core.Path.{subst}

unfoldable pub concat : List (List ℕ) → List ℕ
concat [] = []
concat (x ∷ xs) = x ++ concat xs

-- Each of the chunks fits into the buffer.
abbrev pub Fit : ℕ → List (List ℕ) → Type 0
Fit capacity [] = Unit
Fit capacity (x ∷ xs) = (length x ≤ capacity) × Fit capacity xs

module _ {W : Type 0} (w : Writer W) (capacity : ℕ) where
  flush_inner-sunk :
      (s : BufWriter W) (a : BufWriter W × Result (Unit {0}))
      → FlushBuf w capacity s a
      → (flush_inner w a).1 ≡ ok tt
      → w.sink (flush_inner w a).0.inner ≡ accepted w capacity s
  unfolding flush_inner
  flush_inner-sunk s a (emptied s' f z e p) h =
      after_inner s' (w.flush s'.inner) (w.flush-Flushed s'.inner (inner_fine s' f)) ∙ e
    where
      inner_fine : (s : BufWriter W) → IsFine w capacity s → w.IsFine s.inner
      inner_fine s (fine inner mem cap f size c) = f

      after_inner :
          (s : BufWriter W) (b : W × Result (Unit {0}))
          → Flushed w.IsFine w.sink w.interruptions s.inner b
          → w.sink b.0 ≡ w.sink s.inner
      after_inner s b (flushed s' f e) = e
      after_inner s b (unflushed s' e f k) = k
  flush_inner-sunk s a (stuck s' part rest e f stop split left same put) h = cc

  -- When a flush returns without an error, every byte that was accepted is in the sink.
  pub flush-sunk :
      (fuel : ℕ) (s s' : BufWriter W)
      → IsFine w capacity s
      → capacity + w.interruptions s.inner < fuel
      → flush w fuel s ≡ some (s', ok tt)
      → w.sink s'.inner ≡ accepted w capacity s
  unfolding flush
  flush-sunk fuel s s' f enough h =
      let (a, e, p) = flush_buf-FlushBuf w capacity fuel s f enough in
      let opened : flush w fuel s ≡ some (flush_inner w a) = rw (flush, e) refl in
      let same : flush_inner w a ≡ (s', ok tt) = cc in
      subst (λ b. w.sink b.0.inner ≡ accepted w capacity s) same
        (flush_inner-sunk s a p (ap (λ b. b.1) same))

  -- The writes one after another, none of which returned an error.
  pub data Written (fuel : ℕ) : BufWriter W → List (List ℕ) → BufWriter W → Type 0 where
    done : {s : BufWriter W} → Written fuel s [] s
    more :
        {s s' s'' : BufWriter W} {chunk : List ℕ} {chunks : List (List ℕ)} {n : ℕ}
        → write w fuel s (owned chunk) ≡ some (s', ok n)
        → Written fuel s' chunks s''
        → Written fuel s (chunk ∷ chunks) s''

  record Accepted (s s' : BufWriter W) (bytes : List ℕ) : Type 0 where
    fine_after : IsFine w capacity s'
    put : accepted w capacity s' ≡ accepted w capacity s ++ bytes
    patient : w.interruptions s'.inner ≤ w.interruptions s.inner

  took :
      (s : BufWriter W) (bytes : List ℕ) (a : BufWriter W × Result ℕ) (n : ℕ)
      → length bytes ≤ capacity
      → a.1 ≡ ok n
      → WriteOut w capacity s bytes a
      → Accepted s a.0 bytes
  took s bytes a n fits h (taken s' k f le all put p) = record {
    fine_after = f;
    put =
        put
        ∙ ap (λ t. accepted w capacity s ++ t)
            (subst (λ (m : ℕ). take m bytes ≡ bytes) (sym (all fits)) (take-length bytes));
    patient = p;
  }
  took s bytes a n fits h (denied s' e f big k) = absurd (omega arith)
  took s bytes a n fits h (flush_stuck s' e f) = cc

  Written-Accepted :
      (fuel : ℕ) {s s' : BufWriter W} {chunks : List (List ℕ)}
      → Written fuel s chunks s'
      → IsFine w capacity s
      → Fit capacity chunks
      → capacity + w.interruptions s.inner < fuel
      → Accepted s s' (concat chunks)
  unfolding concat as_slice bytes_init
  Written-Accepted fuel done f fit enough = record {
    fine_after = f;
    put = sym (append-nil _);
    patient = omega arith;
  }
  Written-Accepted fuel (more {s} {s'} {s''} {chunk} {chunks} {n} e ws) f fit enough =
      let (a, e', p) = write-WriteOut w capacity fuel s (owned chunk) f refl enough in
      let same : a ≡ (s', ok n) = cc in
      let t : Accepted s s' chunk =
        subst (λ b. Accepted s b.0 chunk) same (took s chunk a n fit.0 (ap (λ b. b.1) same) p) in
      let rest = Written-Accepted fuel ws t.fine_after fit.1 (omega (arith, t.patient)) in
      record {
        fine_after = rest.fine_after;
        put = rest.put ∙ ap (λ b. b ++ concat chunks) t.put ∙ append_assoc _ chunk (concat chunks);
        patient = omega (arith, rest.patient, t.patient);
      }

  -- Bytes that were written in chunks and flushed are in the sink, in order and nothing else.
  pub writes_flush-sunk :
      (fuel : ℕ) {s s' s'' : BufWriter W} (chunks : List (List ℕ))
      → IsFine w capacity s
      → Fit capacity chunks
      → capacity + w.interruptions s.inner < fuel
      → Written fuel s chunks s'
      → flush w fuel s' ≡ some (s'', ok tt)
      → w.sink s''.inner ≡ accepted w capacity s ++ concat chunks
  writes_flush-sunk fuel {s} {s'} {s''} chunks f fit enough ws h =
      let t = Written-Accepted fuel ws f fit enough in
      flush-sunk fuel s' s'' t.fine_after (omega (arith, t.patient)) h ∙ t.put
