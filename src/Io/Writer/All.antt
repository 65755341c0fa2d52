-- ===== src/Io/Writer/All.antt =====
-- `write_all` of crates/monoio/src/io/async_write_rent_ext.rs: what it does on every branch, and that it
-- ends.
use nirvana_dev.Prelude.{
  ℕ, zero, suc, ◌+◌, ◌-◌, ◌≡◌, ◌≢◌, ◌≤◌, ◌<◌, refl, sym, ap, ◌∙◌, false, Bool-cases, Option, none,
  some, List, [], ◌∷◌, ◌++◌, length, take, drop, take-append-drop, take-length, take-nil,
  length-drop, length-take, ltb, ltb→lt, if◌then◌else◌, inl, inr, arith,
}
use nirvana_dev.Io.Result.{
  Result, ErrorKind, write_zero, ok, err, panicked, is_interrupted, is_interrupted-interrupted,
}
use nirvana_dev.Io.Writer.{IoBuf, slice, bytes_init, as_slice, Writer, Answer, wrote, refused}
use mathlib.Core.List.{append-nil, append_assoc}
use mathlib.Core.Path.{subst}
use native.Mathlib.Nat.{zero-add, suc-add, sub-zero}

module _ {S : Type 0} where
  -- What follows the write of one round.
  unfoldable pub after_write :
      (S → ℕ → Option (S × Result ℕ)) → ℕ → S × Result ℕ → Option (S × Result ℕ)
  after_write again written (s, ok zero) = some (s, err write_zero)
  after_write again written (s, ok (suc n)) = again s (written + suc n)
  after_write again written (s, err e) =
      if is_interrupted e then again s written else some (s, err e)
  after_write again written (s, panicked) = some (s, panicked)

module _ {S : Type 0} (w : Writer S) where
  -- The loop, with fuel for its rounds.
  unfoldable pub write_loop : ℕ → IoBuf → ℕ → S → ℕ → Option (S × Result ℕ)
  unfolding after_write
  write_loop zero buf len s written = none
  write_loop (suc fuel) buf len s written =
      if ltb written len
      then after_write (write_loop fuel buf len) written (w.write s (slice buf written len))
      else some (s, ok written)

  unfoldable pub write_all : ℕ → S → IoBuf → Option (S × Result ℕ)
  unfolding write_loop bytes_init
  write_all fuel s buf = write_loop fuel buf (bytes_init buf) s 0

-- What was written so far and what a write adds to it are again a front of the bytes.
take-further :
    (written n : ℕ) (bytes : List ℕ)
    → n ≤ length bytes - written
    → take written bytes ++ take n (take (length bytes - written) (drop written bytes))
      ≡ take (written + n) bytes
take-further zero n bytes h = rw (sub-zero, take-length, zero-add) refl
take-further (suc k) n [] h = rw suc-add (ap (take n) (take-nil (0 - suc k)) ∙ take-nil n)
take-further (suc k) n (x ∷ xs) h =
    let e : suc (length xs) - suc k ≡ length xs - k = omega arith in
    rw (e, suc-add) (ap (λ t. x ∷ t) (take-further k n xs (omega arith)))

module _ {S : Type 0} (w : Writer S) (s0 : S) (bytes : List ℕ) where
  -- All bytes are in the sink, or only a proper front of them and an error is returned.
  pub data WriteAll : S × Result ℕ → Type 0 where
    complete :
        (s : S)
        → w.IsFine s
        → w.sink s ≡ w.sink s0 ++ bytes
        → w.interruptions s ≤ w.interruptions s0
        → WriteAll (s, ok (length bytes))
    stopped :
        (s : S) (part rest : List ℕ) (e : ErrorKind)
        → w.IsFine s
        → is_interrupted e ≡ false
        → bytes ≡ part ++ rest
        → rest ≢ []
        → w.sink s ≡ w.sink s0 ++ part
        → w.interruptions s ≤ w.interruptions s0
        → WriteAll (s, err e)

  -- The rounds so far.
  record Progress (written : ℕ) (s : S) : Type 0 where
    fine : w.IsFine s
    put : w.sink s ≡ w.sink s0 ++ take written bytes
    patient : w.interruptions s ≤ w.interruptions s0

  abbrev Ends : Option (S × Result ℕ) → Type 0
  Ends o = (a : S × Result ℕ) × (o ≡ some a) × WriteAll a

  -- An error after a part of the bytes.
  stopped_at :
      (written : ℕ) (s : S) (e : ErrorKind)
      → Progress written s
      → written < length bytes
      → is_interrupted e ≡ false
      → Ends (some (s, err e))
  stopped_at written s e p lt stop = (
    _,
    refl,
    stopped s (take written bytes) (drop written bytes) e p.fine stop
        (sym (take-append-drop written bytes))
        (λ n. omega (arith, ap length n, length-drop written bytes)) p.put p.patient,
  )

  after_write-Ends :
      (again : S → ℕ → Option (S × Result ℕ)) (fuel : ℕ)
      → ((written : ℕ) (s : S)
          → Progress written s
          → written ≤ length bytes
          → length bytes - written + w.interruptions s < fuel
          → Ends (again s written))
      → (written : ℕ) (s : S) → Progress written s
      → written < length bytes
      → length bytes - written + w.interruptions s < suc fuel
      → (a : S × Result ℕ)
      → Answer w.IsFine w.sink w.interruptions s
          (take (length bytes - written) (drop written bytes))
          a
      → Ends (after_write again written a)
  unfolding after_write
  after_write-Ends again fuel next written s p lt enough a (wrote s' zero g) =
      stopped_at written s' write_zero
        (record {
          fine = g.fine;
          put = g.put ∙ append-nil (w.sink s) ∙ p.put;
          patient = omega (arith, g.patient, p.patient);
        })
        lt refl
  after_write-Ends again fuel next written s p lt enough a (wrote s' (suc n) g) =
      let rest : List ℕ = take (length bytes - written) (drop written bytes) in
      let short : suc n ≤ length bytes - written =
        omega (arith, g.within, length-take (length bytes - written) (drop written bytes)) in
      next (written + suc n) s'
        (record {
          fine = g.fine;
          put =
              g.put
              ∙ ap (λ t. t ++ take (suc n) rest) p.put
              ∙ append_assoc (w.sink s0) (take written bytes) (take (suc n) rest)
              ∙ ap (λ t. w.sink s0 ++ t) (take-further written (suc n) bytes short);
          patient = omega (arith, g.patient, p.patient);
        })
        (omega arith) (omega (arith, g.patient))
  after_write-Ends again fuel next written s p lt enough a (refused s' e f) =
      let here : Progress written s' = record {
        fine = f.fine;
        put = f.kept ∙ p.put;
        patient = omega (arith, f.patient, p.patient);
      } in
      elim (Bool-cases (is_interrupted e)) [
        | inl retry ↦ rw retry (
            next written s' here (omega arith)
              (omega (arith, f.counted (is_interrupted-interrupted e retry))))
        | inr stop ↦ rw stop (stopped_at written s' e here lt stop)
      ]

module _ {S : Type 0} (w : Writer S) (s0 : S) (buf : IoBuf) where
  write_loop-Ends :
      (fuel written : ℕ) (s : S)
      → Progress w s0 (as_slice buf) written s
      → written ≤ length (as_slice buf)
      → length (as_slice buf) - written + w.interruptions s < fuel
      → Ends w s0 (as_slice buf) (write_loop w fuel buf (length (as_slice buf)) s written)
  unfolding write_loop as_slice
  write_loop-Ends zero written s p le enough = absurd (omega arith)
  write_loop-Ends (suc fuel) written s p le enough =
      let len : ℕ = length (as_slice buf) in
      elim (Bool-cases (ltb written len)) [
        | inl more ↦ rw more (
            after_write-Ends w s0 (as_slice buf) (write_loop w fuel buf len) fuel
              (write_loop-Ends fuel) written s p (ltb→lt _ _ more) enough _
              (w.write-Answer s (slice buf written len) p.fine))
        | inr full ↦
            let end : written ≡ len = ground arith in
            rw full (
              _,
              ap (λ (n : ℕ). some (s, ok n)) end,
              complete s p.fine
                  (p.put
                    ∙ ap (λ t. w.sink s0 ++ t)
                        (ap (λ (n : ℕ). take n (as_slice buf)) end ∙ take-length (as_slice buf)))
                  p.patient,
            )
      ]

  -- Writing all of a buffer puts all of its bytes into the sink, or else only a proper front of them
  -- and returns an error that is not an interruption. Fuel for each byte and interruption is enough.
  pub write_all-WriteAll :
      (fuel : ℕ)
      → w.IsFine s0
      → bytes_init buf ≡ length (as_slice buf)
      → bytes_init buf + w.interruptions s0 < fuel
      → (a : S × Result ℕ) × (write_all w fuel s0 buf ≡ some a) × WriteAll w s0 (as_slice buf) a
  unfolding write_all
  write_all-WriteAll fuel fine whole enough =
      subst (λ n. Ends w s0 (as_slice buf) (write_loop w fuel buf n s0 0)) (sym whole)
        (write_loop-Ends fuel 0 s0
          (record { fine = fine; put = sym (append-nil (w.sink s0)); patient = omega arith })
          (omega arith) (omega (arith, whole)))
