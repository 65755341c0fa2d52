-- ===== src/Io/BufRead/Until/Lines.antt =====
-- That `read_until` takes one line off the stream (crates/monoio/src/io/async_buf_read_ext.rs).
use nirvana_dev.Prelude.{
  ℕ, zero, suc, ◌+◌, ◌≡◌, ◌≤◌, ◌<◌, refl, sym, ap, ◌∙◌, true, false, Bool-cases, Option, some, List,
  [], ◌∷◌, ◌++◌, length, length-append, take, take-append, take-length, ◌==◌, inl, inr, arith,
}
use nirvana_dev.Io.Result.{Result, ErrorKind, ok, err, is_interrupted, is_interrupted-interrupted}
use nirvana_dev.Io.BufRead.{BufRead, Shown, Filling, shows, fails}
use nirvana_dev.Io.BufRead.Until.{
  Lacks, IsFirst, Search, scan, after_scan, after_fill_buf, until_loop, read_until,
}
use mathlib.Core.List.{append-nil, append_assoc}
use native.Mathlib.Nat.{add-zero}
use mathlib.Core.Path.{subst}

Lacks-append :
    (delim : ℕ) (xs ys : List ℕ) → Lacks delim xs → Lacks delim ys → Lacks delim (xs ++ ys)
Lacks-append delim [] ys h k = k
Lacks-append delim (x ∷ xs) ys h k = (h.0, Lacks-append delim xs ys h.1 k)

module _ {S : Type 0} (b : BufRead S) (delim : ℕ) (s0 : S) (buf0 : List ℕ) where
  -- A line with its delimiter, the rest of a stream without one, or what came before an error.
  pub data ReadUntil : S × List ℕ × Result ℕ → Type 0 where
    delimited :
        (s : S) (line : List ℕ)
        → b.IsFine s
        → b.stream s0 ≡ (line ++ delim ∷ []) ++ b.stream s
        → Lacks delim line
        → ReadUntil (s, buf0 ++ (line ++ delim ∷ []), ok (length (line ++ delim ∷ [])))
    at_end :
        (s : S)
        → b.IsFine s
        → b.stream s ≡ []
        → Lacks delim (b.stream s0)
        → ReadUntil (s, buf0 ++ b.stream s0, ok (length (b.stream s0)))
    broken :
        (s : S) (part : List ℕ) (e : ErrorKind)
        → b.IsFine s
        → is_interrupted e ≡ false
        → b.stream s0 ≡ part ++ b.stream s
        → Lacks delim part
        → ReadUntil (s, buf0 ++ part, err e)

  record Progress (part : List ℕ) (s : S) : Type 0 where
    fine : b.IsFine s
    taken : b.stream s0 ≡ part ++ b.stream s
    lacks : Lacks delim part

  record Taken (s s' : S) (bytes : List ℕ) : Type 0 where
    fine : b.IsFine s'
    taken : b.stream s ≡ bytes ++ b.stream s'
    patient : b.interruptions s' ≤ b.interruptions s

  abbrev Ends : Option (S × List ℕ × Result ℕ) → Type 0
  Ends o = (a : S × List ℕ × Result ℕ) × (o ≡ some a) × ReadUntil a

  -- Bytes shown are the front of the stream that was there before.
  consumed :
      (s s' : S) (bytes : List ℕ)
      → Shown b.IsFine b.stream b.available b.interruptions s s' bytes
      → (used : ℕ) → used ≤ length bytes
      → Taken s (b.consume s' used) (take used bytes)
  consumed s s' bytes w used h =
      let c = b.consume-Consumed s' used w.fine (rw w.shown h) in
      record {
        fine = c.fine;
        taken =
            sym w.kept ∙ c.taken ∙ ap (λ t. take used t ++ b.stream (b.consume s' used)) w.shown;
        patient = omega (arith, c.patient, w.patient);
      }

  module _ (search_byte : Search) where
    abbrev Loops : (S → ℕ → List ℕ → Option (S × List ℕ × Result ℕ)) → ℕ → Type 0
    Loops again fuel =
        (part : List ℕ) (s : S)
        → Progress part s
        → length (b.stream s) + b.interruptions s < fuel
        → Ends (again s (length part) (buf0 ++ part))

    -- The delimiter is among the bytes shown.
    found-Ends :
        (again : S → ℕ → List ℕ → Option (S × List ℕ × Result ℕ)) (part : List ℕ) (s : S)
        → Progress part s
        → (s' : S) (bytes : List ℕ) → Shown b.IsFine b.stream b.available b.interruptions s s' bytes
        → (i : ℕ) → IsFirst delim bytes i
        → Ends (
            after_scan b search_byte delim again
              (length part)
              (buf0 ++ part)
              s'
              bytes
              (true, i + 1))
    unfolding after_scan
    found-Ends again part s p s' bytes w i first =
        let line : List ℕ = first.before ++ delim ∷ [] in
        let whole : bytes ≡ line ++ first.after =
          first.split ∙ sym (append_assoc first.before (delim ∷ []) first.after) in
        let size : length line ≡ i + 1 =
          omega (arith, first.index, length-append first.before (delim ∷ [])) in
        let front : take (i + 1) bytes ≡ line =
          (λ j. take (sym size j) (whole j)) ∙ take-append line first.after in
        let c =
          consumed s s' bytes w (i + 1)
            (omega (arith, ap length whole, length-append line first.after)) in
        let all : List ℕ = (part ++ first.before) ++ delim ∷ [] in
        let same : part ++ line ≡ all = sym (append_assoc part first.before (delim ∷ [])) in
        (
          _,
          ap some (
              (λ j. (b.consume s' (i + 1), (buf0 ++ part) ++ front j, ok (length part + (i + 1))))
              ∙ (λ j. (
                b.consume s' (i + 1),
                append_assoc buf0 part line j,
                ok (length part + sym size j),
              ))
              ∙ (λ j. (b.consume s' (i + 1), buf0 ++ same j, ok (sym (length-append part line) j)))
              ∙ (λ j. (b.consume s' (i + 1), buf0 ++ all, ok (length (same j))))),
          delimited (b.consume s' (i + 1)) (part ++ first.before) c.fine
              (p.taken
                ∙ ap (λ t. part ++ t)
                    (c.taken ∙ ap (λ t. t ++ b.stream (b.consume s' (i + 1))) front)
                ∙ sym (append_assoc part line _)
                ∙ ap (λ t. t ++ b.stream (b.consume s' (i + 1))) same)
              (Lacks-append delim part first.before p.lacks first.lacks),
        )

    -- The delimiter is not among the bytes shown, which are used up.
    absent-Ends :
        (again : S → ℕ → List ℕ → Option (S × List ℕ × Result ℕ)) (fuel : ℕ)
        → Loops again fuel
        → (part : List ℕ) (s : S) → Progress part s
        → length (b.stream s) + b.interruptions s < suc fuel
        → (s' : S) (bytes : List ℕ) → Shown b.IsFine b.stream b.available b.interruptions s s' bytes
        → Lacks delim bytes
        → Ends (
            after_scan b search_byte delim again
              (length part)
              (buf0 ++ part)
              s'
              bytes
              (false, length bytes))
    unfolding after_scan
    absent-Ends again fuel next part s p enough s' [] w absent =
        let c = consumed s s' [] w 0 (omega arith) in
        let end : b.stream s ≡ [] = w.at_end refl in
        let whole : part ≡ b.stream s0 =
          sym (p.taken ∙ ap (λ t. part ++ t) end ∙ append-nil part) in
        (
          _,
          ap some (
              (λ j. (b.consume s' 0, append-nil (buf0 ++ part) j, ok (length part + 0)))
              ∙ (λ j. (b.consume s' 0, buf0 ++ whole j, ok (add-zero (length part) j)))
              ∙ (λ j. (b.consume s' 0, buf0 ++ b.stream s0, ok (length (whole j))))),
          at_end (b.consume s' 0) c.fine (sym c.taken ∙ end) (subst (Lacks delim) whole p.lacks),
        )
    absent-Ends again fuel next part s p enough s' (x ∷ xs) w absent =
        let bytes : List ℕ = x ∷ xs in
        let c = consumed s s' bytes w (length bytes) (omega arith) in
        let rest : S = b.consume s' (length bytes) in
        let used : b.stream s ≡ bytes ++ b.stream rest =
          c.taken ∙ ap (λ t. t ++ b.stream rest) (take-length bytes) in
        let more : (suc (length xs) == 0) ≡ false = ground arith in
        rw more (
          subst (λ t. Ends (again rest (length part + length bytes) t))
            (sym (append_assoc buf0 part bytes)
              ∙ ap (λ t. (buf0 ++ part) ++ t) (sym (take-length bytes)))
            (subst (λ (n : ℕ). Ends (again rest n (buf0 ++ (part ++ bytes))))
              (length-append part bytes)
              (next (part ++ bytes) rest
                (record {
                  fine = c.fine;
                  taken = p.taken ∙ ap (λ t. part ++ t) used ∙ sym (append_assoc part bytes _);
                  lacks = Lacks-append delim part bytes p.lacks absent;
                })
                (omega (arith, ap length used, length-append bytes (b.stream rest), c.patient)))))

    after_fill_buf-Ends :
        (again : S → ℕ → List ℕ → Option (S × List ℕ × Result ℕ)) (fuel : ℕ)
        → Loops again fuel
        → (part : List ℕ) (s : S) → Progress part s
        → length (b.stream s) + b.interruptions s < suc fuel
        → (a : S × Result (List ℕ)) → Filling b.IsFine b.stream b.available b.interruptions s a
        → Ends (after_fill_buf b search_byte delim again (length part) (buf0 ++ part) a)
    unfolding after_fill_buf scan
    after_fill_buf-Ends again fuel next part s p enough a (shows s' bytes w) =
        elim (search_byte.memchr-cases delim bytes) [
          | inl (e, absent) ↦
              rw (e, scan) (absent-Ends again fuel next part s p enough s' bytes w absent)
          | inr (i, e, first) ↦ rw (e, scan) (found-Ends again part s p s' bytes w i first)
        ]
    after_fill_buf-Ends again fuel next part s p enough a (fails s' e f) =
        elim (Bool-cases (is_interrupted e)) [
          | inl retry ↦ rw retry (
              next part s'
                (record {
                  fine = f.fine;
                  taken = p.taken ∙ ap (λ t. part ++ t) (sym f.kept);
                  lacks = p.lacks;
                })
                (omega (arith, ap length f.kept, f.counted (is_interrupted-interrupted e retry))))
          | inr stop ↦ rw stop (
            _,
            refl,
            broken s' part e f.fine stop (p.taken ∙ ap (λ t. part ++ t) (sym f.kept)) p.lacks,
          )
        ]

    until_loop-Ends : (fuel : ℕ) → Loops (until_loop b search_byte delim fuel) fuel
    unfolding until_loop
    until_loop-Ends zero part s p enough = absurd (omega arith)
    until_loop-Ends (suc fuel) part s p enough =
        after_fill_buf-Ends (until_loop b search_byte delim fuel) fuel (until_loop-Ends fuel) part s
          p enough (b.fill_buf s) (b.fill_buf-Filling s p.fine)

    -- Reading up to a delimiter takes exactly the first line off the stream and appends it, with the
    -- delimiter; if there is none, it takes all of the stream. An error that is not an interruption
    -- comes after bytes without a delimiter, which are appended. Fuel for each byte and interruption
    -- is enough.
    pub read_until-ReadUntil :
        (fuel : ℕ)
        → b.IsFine s0
        → length (b.stream s0) + b.interruptions s0 < fuel
        → (a : S × List ℕ × Result ℕ) × (read_until b search_byte delim fuel s0 buf0 ≡ some a)
          × ReadUntil a
    unfolding read_until
    read_until-ReadUntil fuel fine_ enough =
        subst (λ t. Ends (until_loop b search_byte delim fuel s0 0 t)) (append-nil buf0)
          (until_loop-Ends fuel [] s0 (record { fine = fine_; taken = refl; lacks = tt }) enough)
