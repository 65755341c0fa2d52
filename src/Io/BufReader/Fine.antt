-- ===== src/Io/BufReader/Fine.antt =====
-- What holds of a BufReader, and that it shows its stream (crates/monoio/src/io/util/buf_reader.rs).
use nirvana_dev.Prelude.{
  ℕ, zero, suc, ◌+◌, ◌-◌, ◌≡◌, ◌≤◌, ◌<◌, refl, sym, ap, ◌∙◌, Bool-cases, none, some, List, [], ◌++◌,
  length, take, drop, min, le→leb, ◌==◌, ==_iff, inl, inr, arith, take-length, take-split,
  drop-drop, length-take, length-drop,
}
use nirvana_dev.Io.Result.{Result, ok}
use nirvana_dev.Io.Buf.{
  IoBufMut, bytes_total, deref, fill, overwrite, write_ptr, write_at, set_init,
}
use nirvana_dev.Io.Buf.Fill.{boxed, deref-boxed, take-overwrite, length-overwrite}
use nirvana_dev.Io.Reader.{Reader, filled, left_alone, Got, Answer, got, failed}
use nirvana_dev.Io.BufRead.{Filling, shows, fails, Consumed}
use nirvana_dev.Io.BufReader.{BufReader, zeros, with_capacity, consume, after_fill, fill_buf, range}
use mathlib.Core.List.{append_assoc}
use mathlib.Core.Path.{subst}

pub length-zeros : (n : ℕ) → length (zeros n) ≡ n
unfolding zeros
length-zeros zero = refl
length-zeros (suc n) = omega (arith, length-zeros n)

module _ {R : Type 0} (r : Reader R) (capacity : ℕ) where
  -- Between two calls the buffer is there, with its size, and the marks lie in it.
  pub data IsFine : BufReader R → Type 0 where
    fine :
        (inner : R) (bytes : List ℕ) (init pos cap : ℕ)
        → r.IsFine inner
        → length bytes ≡ capacity
        → pos ≤ cap
        → cap ≤ capacity
        → IsFine (record { inner = inner; buf = some (boxed bytes init); pos = pos; cap = cap })

  unfoldable pub available : BufReader R → List ℕ
  unfolding deref
  available s = elim s.buf [ none ↦ [] | some b ↦ take (s.cap - s.pos) (drop s.pos (deref b)) ]

  -- What is still to be read: the bytes buffered, then those of the inner reader.
  unfoldable pub stream : BufReader R → List ℕ
  unfolding available
  stream s = available s ++ r.stream s.inner

  unfoldable pub interruptions : BufReader R → ℕ
  interruptions s = r.interruptions s.inner

  -- Without bytes between the marks, only the inner reader has some.
  pub available-nothing :
      (inner : R) (b : IoBufMut) (pos : ℕ)
      → available (record { inner = inner; buf = some b; pos = pos; cap = pos }) ≡ []
  unfolding available
  available-nothing inner b pos =
      let zero_ : pos - pos ≡ 0 = omega arith in ap (λ (n : ℕ). take n (drop pos (deref b))) zero_

  -- A new BufReader has the stream of its inner reader.
  pub with_capacity-IsFine : (inner : R) → r.IsFine inner → IsFine (with_capacity capacity inner)
  unfolding with_capacity
  with_capacity-IsFine inner f =
      fine inner (zeros capacity) 0 0 0 f (length-zeros capacity) (omega arith) (omega arith)

  pub stream-with_capacity : (inner : R) → stream (with_capacity capacity inner) ≡ r.stream inner
  unfolding stream with_capacity
  stream-with_capacity inner =
      ap (λ t. t ++ r.stream inner) (available-nothing inner (boxed (zeros capacity) 0) 0)

  -- The bytes behind the position, where the memory is known.
  available-boxed :
      (inner : R) (bytes : List ℕ) (init pos cap : ℕ)
      → available (record { inner = inner; buf = some (boxed bytes init); pos = pos; cap = cap })
        ≡ take (cap - pos) (drop pos bytes)
  unfolding available
  available-boxed inner bytes init pos cap =
      ap (λ t. take (cap - pos) (drop pos t)) (deref-boxed bytes init)

  range-front :
      (bytes : List ℕ) (init : ℕ) (chunk : List ℕ)
      → length chunk ≤ length bytes
      → take (length chunk) bytes ≡ chunk
      → range (deref (boxed bytes init)) 0 (length chunk) ≡ ok chunk
  unfolding range
  range-front bytes init chunk fits front =
      rw
        (
          deref-boxed bytes init,
          le→leb 0 (length chunk) (omega arith),
          le→leb (length chunk) (length bytes) fits,
        )
        (ap ok (ap (λ (n : ℕ). take n bytes) (omega arith) ∙ front))

  range-between :
      (bytes : List ℕ) (pos cap : ℕ)
      → pos ≤ cap
      → cap ≤ length bytes
      → range (take (length bytes) bytes) pos cap ≡ ok (take (cap - pos) (drop pos bytes))
  unfolding range
  range-between bytes pos cap p c =
      rw (take-length bytes, le→leb pos cap p, le→leb cap (length bytes) c) refl

  -- The inner reader put its bytes at the front of the memory.
  front-Filling :
      (s s' : R) (buf : IoBufMut) (bytes : List ℕ) (init pos : ℕ) (chunk : List ℕ)
      → 0 < capacity
      → length bytes ≡ capacity
      → take (length chunk) bytes ≡ chunk
      → Got r.IsFine r.stream r.interruptions s s' capacity chunk
      → Filling IsFine stream available interruptions
          (record { inner = s; buf = some buf; pos = pos; cap = pos })
          (
            record { inner = s'; buf = some (boxed bytes init); pos = 0; cap = length chunk },
            range (deref (boxed bytes init)) 0 (length chunk),
          )
  unfolding stream interruptions
  front-Filling s s' buf bytes init pos chunk some_room size front g =
      let inside : length chunk ≤ length bytes = ground (arith, g.within) in
      let after : BufReader R = record {
        inner = s';
        buf = some (boxed bytes init);
        pos = 0;
        cap = length chunk;
      } in
      let before : BufReader R = record { inner = s; buf = some buf; pos = pos; cap = pos } in
      let now : available after ≡ chunk =
        available-boxed s' bytes init 0 (length chunk)
        ∙ ap (λ (n : ℕ). take n bytes) (omega arith)
        ∙ front in
      subst (λ a. Filling IsFine stream available interruptions before (after, a))
        (sym (range-front bytes init chunk inside front))
        (shows after chunk (record {
          fine = fine s' bytes init 0 (length chunk) g.fine size (omega arith) (omega arith);
          shown = now;
          kept =
              ap (λ t. t ++ r.stream s') now
              ∙ sym g.taken
              ∙ ap (λ t. t ++ r.stream s) (sym (available-nothing s buf pos));
          at_end = λ e.
              ap (λ t. t ++ r.stream s) (available-nothing s buf pos)
              ∙ elim (g.at_end e) [ inl z ↦ absurd (omega arith) | inr z ↦ z ];
          patient = g.patient;
        }))

  after_fill-Filling :
      (s : R) (bytes : List ℕ) (init pos : ℕ) (a : R × Result ℕ × IoBufMut)
      → 0 < capacity
      → pos ≤ capacity
      → length bytes ≡ capacity
      → Answer r.IsFine r.stream r.interruptions s (boxed bytes init) a
      → Filling IsFine stream available interruptions
          (record { inner = s; buf = some (boxed bytes init); pos = pos; cap = pos })
          (after_fill (record { inner = s; buf = some (boxed bytes init); pos = pos; cap = pos }) a)
  unfolding after_fill bytes_total fill write_ptr write_at set_init stream interruptions available
  after_fill-Filling s bytes init pos a some_room inside size (got s' chunk b g (filled e)) =
      subst
        (λ t.
          Filling IsFine stream available interruptions
            (record { inner = s; buf = some (boxed bytes init); pos = pos; cap = pos })
            (
              record { inner = s'; buf = some t; pos = 0; cap = length chunk },
              range (deref t) 0 (length chunk),
            ))
        (sym e)
        (front-Filling s s' (boxed bytes init) (overwrite bytes chunk) init pos chunk some_room
          (length-overwrite bytes chunk ∙ size) (take-overwrite bytes chunk g.within)
          (subst (λ n. Got r.IsFine r.stream r.interruptions s s' n chunk) size g))
  after_fill-Filling s bytes init pos a some_room inside size (got s' chunk b g (left_alone n e)) =
      subst
        (λ t.
          Filling IsFine stream available interruptions
            (record { inner = s; buf = some (boxed bytes init); pos = pos; cap = pos })
            (
              record { inner = s'; buf = some t; pos = 0; cap = length chunk },
              range (deref t) 0 (length chunk),
            ))
        (sym e)
        (front-Filling s s' (boxed bytes init) bytes init pos chunk some_room size (rw n refl)
          (subst (λ k. Got r.IsFine r.stream r.interruptions s s' k chunk) size g))
  after_fill-Filling s bytes init pos a some_room inside size (failed s' e f) = fails _ e (record {
    fine = fine s' bytes init pos pos f.fine size (omega arith) inside;
    kept =
        ap
          (λ t.
            available (record { inner = s; buf = some (boxed bytes init); pos = pos; cap = pos })
            ++ t)
          f.kept;
    patient = f.patient;
    counted = f.counted;
  })

  -- A BufReader shows the front of its stream, refilling its buffer only when that is used up.
  pub fill_buf-Filling :
      (s : BufReader R)
      → 0 < capacity
      → IsFine s
      → Filling IsFine stream available interruptions s (fill_buf r s)
  unfolding fill_buf
  fill_buf-Filling s some_room (fine inner bytes init pos cap f size p c) =
      elim (Bool-cases (pos == cap)) [
        | inl used ↦
            let same : pos ≡ cap = (==_iff pos cap).0 used in
            rw used (
              subst
                (λ k.
                  Filling IsFine stream available interruptions
                    (record { inner = inner; buf = some (boxed bytes init); pos = k; cap = cap })
                    (after_fill
                      (record { inner = inner; buf = some (boxed bytes init); pos = k; cap = cap })
                      (r.read inner (boxed bytes init))))
                (sym same)
                (after_fill-Filling inner bytes init cap _ some_room c size
                  (r.read-Answer inner (boxed bytes init) f)))
        | inr left ↦
            rw (left, range-between bytes pos cap p (omega arith))
              (shows _ (take (cap - pos) (drop pos bytes)) (record {
                fine = fine inner bytes init pos cap f size p c;
                shown = available-boxed inner bytes init pos cap;
                kept = refl;
                at_end = λ e. absurd (
                    ground (
                      arith,
                      ap length e,
                      length-take (cap - pos) (drop pos bytes),
                      length-drop pos bytes,
                    ));
                patient = omega arith;
              }))
      ]

  -- The bytes between two marks are those up to a mark between them, and the rest.
  split_at :
      (pos amt cap : ℕ) (bytes : List ℕ)
      → amt ≤ cap - pos
      → take (cap - pos) (drop pos bytes)
        ≡ take amt (take (cap - pos) (drop pos bytes))
          ++ take (cap - (pos + amt)) (drop (pos + amt) bytes)
  split_at pos amt cap bytes h =
      let less : cap - (pos + amt) ≡ cap - pos - amt = omega arith in
      rw (less, ← drop-drop amt pos bytes) (sym (take-split amt (cap - pos) (drop pos bytes) h))

  pub consume-Consumed :
      (s : BufReader R) (amt : ℕ)
      → IsFine s
      → amt ≤ length (available s)
      → Consumed IsFine stream available interruptions s amt (consume s amt)
  unfolding consume stream interruptions available
  consume-Consumed s amt (fine inner bytes init pos cap f size p c) h =
      let unread : List ℕ = drop pos (take (length bytes) bytes) in
      let short : amt ≤ cap - pos = omega (arith, length-take (cap - pos) unread) in
      let next : min cap (pos + amt) ≡ pos + amt = omega arith in
      rw next (record {
        fine = fine inner bytes init (pos + amt) cap f size (omega arith) c;
        taken =
            ap (λ t. t ++ r.stream inner) (split_at pos amt cap (take (length bytes) bytes) short)
            ∙ append_assoc (take amt (take (cap - pos) unread)) _ _;
        patient = omega arith;
      })
