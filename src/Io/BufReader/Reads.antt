-- ===== src/Io/BufReader/Reads.antt =====
-- A BufReader over a reader in order is a reader in order of the same stream
-- (crates/monoio/src/io/util/buf_reader.rs).
use nirvana_dev.Prelude.{
  ℕ, ◌≡◌, ◌≤◌, ◌<◌, refl, sym, ap, ◌∙◌, Bool, true, false, ◌&&◌, Bool-cases, some, List, ◌++◌,
  length, take, min, leb, ◌==◌, inl, inr, arith, length-take, take-length,
}
use nirvana_dev.Io.Result.{Result, ok}
use nirvana_dev.Io.Buf.{IoBufMut, bytes_total, fill}
use nirvana_dev.Io.Buf.Fill.{boxed}
use nirvana_dev.Io.Reader.{Reader, filled, Answer, got, failed}
use nirvana_dev.Io.Reader.Slice.{none-taken}
use nirvana_dev.Io.BufRead.{Filling, shows, fails}
use nirvana_dev.Io.BufReader.{BufReader, consume, after_rem, bypassed, read, discard_buffer}
use nirvana_dev.Io.BufReader.Fine.{
  IsFine, fine, available, stream, interruptions, fill_buf-Filling, consume-Consumed,
  available-nothing,
}
use mathlib.Core.Path.{subst}

marks_meet : (b : Bool) (pos cap : ℕ) → (pos == cap) && b ≡ true → pos ≡ cap
marks_meet b pos cap h = ground arith

-- A read that goes through the buffer has a buffer to go through.
some_room :
    (pos cap capacity size room : ℕ)
    → pos ≤ cap
    → cap ≤ capacity
    → size ≡ capacity
    → pos == cap && leb size room ≡ false
    → 0 < capacity
some_room pos cap capacity size room p c e h = ground arith

module _ {R : Type 0} (r : Reader R) (capacity : ℕ) where
  abbrev Reads : BufReader R → IoBufMut → BufReader R × Result ℕ × IoBufMut → Type 0
  Reads = Answer (IsFine r capacity) (stream r capacity) (interruptions r capacity)

  bypassed-Answer :
      (inner : R) (bytes : List ℕ) (init pos : ℕ) (buf : IoBufMut) (a : R × Result ℕ × IoBufMut)
      → length bytes ≡ capacity
      → Answer r.IsFine r.stream r.interruptions inner buf a
      → Reads
          (record { inner = inner; buf = some (boxed bytes init); pos = pos; cap = pos })
          buf
          (bypassed
            (record { inner = inner; buf = some (boxed bytes init); pos = pos; cap = pos })
            a)
  unfolding bypassed discard_buffer stream interruptions
  bypassed-Answer inner bytes init pos buf a size (got s' chunk buf' g h) =
      let before = available-nothing r capacity inner (boxed bytes init) pos in
      got _ chunk buf'
        (record {
          fine = fine s' bytes init 0 0 g.fine size (omega arith) (omega arith);
          taken =
              ap (λ t. t ++ r.stream inner) before
              ∙ g.taken
              ∙ ap (λ t. chunk ++ (t ++ r.stream s'))
                  (sym (available-nothing r capacity s' (boxed bytes init) 0));
          within = g.within;
          at_end = λ e. elim (g.at_end e) [
            | inl full ↦ inl full
            | inr end ↦ inr (ap (λ t. t ++ r.stream inner) before ∙ end)
          ];
          patient = g.patient;
        })
        h
  bypassed-Answer inner bytes init pos buf a size (failed s' e f) = failed _ e (record {
    fine = fine s' bytes init 0 0 f.fine size (omega arith) (omega arith);
    kept =
        ap (λ t. t ++ r.stream s') (available-nothing r capacity s' (boxed bytes init) 0)
        ∙ f.kept
        ∙ ap (λ t. t ++ r.stream inner)
            (sym (available-nothing r capacity inner (boxed bytes init) pos));
    patient = f.patient;
    counted = f.counted;
  })

  after_rem-Answer :
      (s : BufReader R) (buf : IoBufMut) (a : BufReader R × Result (List ℕ))
      → Filling
          (IsFine r capacity)
          (stream r capacity)
          (available r capacity)
          (interruptions r capacity)
          s
          a
      → Reads s buf (after_rem buf a)
  unfolding after_rem
  after_rem-Answer s buf a (shows s' bytes w) =
      let amt : ℕ = min (length bytes) (bytes_total buf) in
      let size : length (take amt bytes) ≡ amt = ground (arith, length-take amt bytes) in
      let c = consume-Consumed r capacity s' amt w.fine (rw w.shown (omega arith)) in
      subst (λ k. Reads s buf (consume s' amt, ok k, fill buf (take amt bytes))) size
        (got (consume s' amt) (take amt bytes) (fill buf (take amt bytes))
          (record {
            fine = c.fine;
            taken =
                sym w.kept
                ∙ c.taken
                ∙ ap (λ t. take amt t ++ stream r capacity (consume s' amt)) w.shown;
            within = omega arith;
            at_end = λ e. elim (none-taken bytes (bytes_total buf) e) [
              | inl full ↦ inl full
              | inr end ↦ inr (w.at_end end)
            ];
            patient = omega (arith, c.patient, w.patient);
          })
          (filled refl))
  after_rem-Answer s buf a (fails s' e f) =
      failed s' e
        (record { fine = f.fine; kept = f.kept; patient = f.patient; counted = f.counted })

  -- A BufReader over a reader in order, whatever the size of its buffer, is a reader in order: a read
  -- takes bytes off the front of its stream, which is what is buffered and then the stream of the inner
  -- reader, and none only without room or at the end; an error takes none.
  pub read-Reads :
      (s : BufReader R) (buf : IoBufMut) → IsFine r capacity s → Reads s buf (read r s buf)
  unfolding read
  read-Reads s buf (fine inner bytes init pos cap f size p c) =
      let whole_read : Bool =
        pos == cap && leb (length (take (length bytes) bytes)) (bytes_total buf) in
      elim (Bool-cases whole_read) [
        | inl bypass ↦ rw bypass (
            subst
              (λ k.
                Reads (record { inner = inner; buf = some (boxed bytes init); pos = k; cap = cap })
                  buf
                  (bypassed
                    (record { inner = inner; buf = some (boxed bytes init); pos = k; cap = cap })
                    (r.read inner buf)))
              (sym (marks_meet _ pos cap bypass))
              (bypassed-Answer inner bytes init cap buf _ size (r.read-Answer inner buf f)))
        | inr refill ↦ rw refill (
            after_rem-Answer _ buf _ (
              fill_buf-Filling r capacity _
                (some_room pos cap capacity _ (bytes_total buf) p c
                  (ap length (take-length bytes) ∙ size) refill)
                (fine inner bytes init pos cap f size p c)))
      ]

  -- A BufReader behind the interface of readers, so that readers can be stacked.
  unfoldable pub buf_reader : Reader (BufReader R)
  buf_reader = record {
    read = read r;
    IsFine = IsFine r capacity;
    stream = stream r capacity;
    interruptions = interruptions r capacity;
    read-Answer = read-Reads;
  }
