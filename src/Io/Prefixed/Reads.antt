-- ===== src/Io/Prefixed/Reads.antt =====
-- A reader with a prefix is a reader in order (crates/monoio/src/io/util/prefixed_io.rs).
use nirvana_dev.Prelude.{
  ℕ, ◌+◌, ◌≡◌, ◌≢◌, ◌≤◌, refl, ap, ◌∙◌, Bool, true, false, Bool-cases, List, [], ◌∷◌, ◌++◌, ◌==◌,
  ==_iff, if◌then◌else◌, inl, inr, arith,
}
use nirvana_dev.Io.Result.{Result, ok}
use nirvana_dev.Io.Buf.{IoBufMut, bytes_total}
use nirvana_dev.Io.Reader.{Reader, filled, left_alone, Answer, got, failed}
use nirvana_dev.Io.Prefixed.{
  Read, ReadInto, took, refused, PrefixedReadIo, read_io, after_prefix, read,
}
use mathlib.Core.List.{append_assoc}

module _ {I P : Type 0} (r : Reader I) (q : Read P) where
  unfoldable pub stream : PrefixedReadIo I P → List ℕ
  stream s = (if s.prefix_finished then [] else q.stream s.prefix) ++ r.stream s.io

  unfoldable pub interruptions : PrefixedReadIo I P → ℕ
  interruptions s = q.interruptions s.prefix + r.interruptions s.io

  abbrev pub IsFine : PrefixedReadIo I P → Type 0
  IsFine s = r.IsFine s.io

  abbrev ReadsBoth :
      PrefixedReadIo I P → IoBufMut → PrefixedReadIo I P × Result ℕ × IoBufMut → Type 0
  ReadsBoth = Answer IsFine stream interruptions

  -- A read behind a prefix that is at its end.
  behind-Answer :
      (io : I) (prefix prefix' : P) (finished : Bool) (buf : IoBufMut) (a : I × Result ℕ × IoBufMut)
      → (if finished then [] else q.stream prefix) ≡ []
      → q.interruptions prefix' ≤ q.interruptions prefix
      → Answer r.IsFine r.stream r.interruptions io buf a
      → ReadsBoth
          (record { io = io; prefix = prefix; prefix_finished = finished })
          buf
          (record { io = a.0; prefix = prefix'; prefix_finished = true }, a.1, a.2)
  unfolding stream interruptions
  behind-Answer io prefix prefix' finished buf a over le (got io' bytes buf' g h) =
      got _ bytes buf'
        (record {
          fine = g.fine;
          taken = rw over g.taken;
          within = g.within;
          at_end = rw over g.at_end;
          patient = omega (arith, g.patient);
        })
        h
  behind-Answer io prefix prefix' finished buf a over le (failed io' e f) = failed _ e (record {
    fine = f.fine;
    kept = rw over f.kept;
    patient = omega (arith, f.patient);
    counted = λ i. omega (arith, f.counted i);
  })

  after_prefix-Answer :
      (io : I) (prefix : P) (buf : IoBufMut) (a : P × Result (List ℕ))
      → r.IsFine io
      → bytes_total buf ≢ 0
      → ReadInto q.stream q.interruptions prefix (bytes_total buf) a
      → ReadsBoth
          (record { io = io; prefix = prefix; prefix_finished = false })
          buf
          (after_prefix r q (record { io = io; prefix = prefix; prefix_finished = false }) buf a)
  unfolding after_prefix read_io stream interruptions
  after_prefix-Answer io prefix buf a fine room (took p' [] t) =
      behind-Answer io prefix p' false buf (r.read io buf)
        (elim (t.at_end refl) [ inl none_ ↦ absurd (room none_) | inr end ↦ end ]) t.patient
        (r.read-Answer io buf fine)
  after_prefix-Answer io prefix buf a fine room (took p' (x ∷ xs) t) =
      got _ (x ∷ xs) _
        (record {
          fine = fine;
          taken =
              ap (λ u. u ++ r.stream io) t.taken
              ∙ append_assoc (x ∷ xs) (q.stream p') (r.stream io);
          within = t.within;
          at_end = λ e. cc;
          patient = omega (arith, t.patient);
        })
        (filled refl)
  after_prefix-Answer io prefix buf a fine room (refused p' e f) = failed _ e (record {
    fine = fine;
    kept = ap (λ u. u ++ r.stream io) f.kept;
    patient = omega (arith, f.patient);
    counted = λ i. omega (arith, f.counted i);
  })

  -- A buffer without room is left alone.
  no_room-Answer :
      (s : PrefixedReadIo I P) (buf : IoBufMut)
      → IsFine s
      → bytes_total buf ≡ 0
      → ReadsBoth s buf (s, ok 0, buf)
  no_room-Answer s buf fine z =
      got s [] buf
        (record {
          fine = fine;
          taken = refl;
          within = omega arith;
          at_end = λ e. inl z;
          patient = omega arith;
        })
        (left_alone refl refl)

  room-Answer :
      (io : I) (prefix : P) (finished : Bool) (buf : IoBufMut)
      → r.IsFine io
      → bytes_total buf ≢ 0
      → (bytes_total buf == 0) ≡ false
      → ReadsBoth
          (record { io = io; prefix = prefix; prefix_finished = finished })
          buf
          (read r q (record { io = io; prefix = prefix; prefix_finished = finished }) buf)
  unfolding read read_io
  room-Answer io prefix true buf fine room test = rw test (
      behind-Answer io prefix prefix true buf (r.read io buf) refl (omega arith)
        (r.read-Answer io buf fine))
  room-Answer io prefix false buf fine room test = rw test (
      after_prefix-Answer io prefix buf (q.read prefix (bytes_total buf)) fine room
        (q.read-ReadInto prefix (bytes_total buf)))

  -- A reader with a prefix, over a reader in order, is a reader in order of the bytes of the prefix and
  -- then those of the inner reader.
  pub read-ReadsBoth :
      (s : PrefixedReadIo I P) (buf : IoBufMut) → IsFine s → ReadsBoth s buf (read r q s buf)
  unfolding read read_io
  read-ReadsBoth s buf fine = elim (Bool-cases (bytes_total buf == 0)) [
    | inl zero_ ↦ rw zero_ (no_room-Answer s buf fine ((==_iff (bytes_total buf) 0).0 zero_))
    | inr room ↦
        room-Answer s.io s.prefix s.prefix_finished buf fine
          (λ e. cc ((==_iff (bytes_total buf) 0).1 e)) room
  ]

  -- A prefixed reader behind the interface of readers.
  unfoldable pub prefixed_reader : Reader (PrefixedReadIo I P)
  prefixed_reader = record {
    read = read r q;
    IsFine = IsFine;
    stream = stream;
    interruptions = interruptions;
    read-Answer = read-ReadsBoth;
  }
