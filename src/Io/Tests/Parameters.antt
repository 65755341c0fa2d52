-- ===== src/Io/Tests/Parameters.antt =====
-- Concrete functions for the parameters: a prefix in memory for `std::io::Read`, and a search for
-- `memchr`.
use nirvana_dev.Prelude.{
  ℕ, suc, ◌≡◌, ◌≢◌, refl, sym, ap, Bool-cases, Option, none, some, List, [], ◌∷◌, length, take,
  drop, take-append-drop, length-take, min, ◌==◌, ==_iff, if◌then◌else◌, ◌⊎◌, inl, inr, arith,
}
use nirvana_dev.Io.Result.{Result, ok}
use nirvana_dev.Io.Prefixed.{Read, ReadInto, took}
use nirvana_dev.Io.Reader.Slice.{none-taken}
use nirvana_dev.Io.BufRead.Until.{Search, Lacks, IsFirst}

pub read_front : List ℕ → ℕ → List ℕ × Result (List ℕ)
read_front bytes room = let n = min (length bytes) room in (drop n bytes, ok (take n bytes))

pub read_front-ReadInto :
    (bytes : List ℕ) (room : ℕ) → ReadInto (λ p. p) (λ p. 0) bytes room (read_front bytes room)
unfolding read_front
read_front-ReadInto bytes room =
    let n : ℕ = min (length bytes) room in
    took (drop n bytes) (take n bytes) (record {
      taken = sym (take-append-drop n bytes);
      within = ground (arith, length-take n bytes);
      at_end = none-taken bytes room;
      patient = omega arith;
    })

unfoldable pub front : Read (List ℕ)
front = record {
  read = read_front;
  stream = λ p. p;
  interruptions = λ p. 0;
  read-ReadInto = read_front-ReadInto;
}

pub find : ℕ → List ℕ → Option ℕ
find delim [] = none
find delim (x ∷ xs) =
    if x == delim then some 0 else (elim (find delim xs) [ none ↦ none | some i ↦ some (suc i) ])

pub find-cases :
    (delim : ℕ) (bytes : List ℕ)
    → ((find delim bytes ≡ none) × Lacks delim bytes)
      ⊎ ((i : ℕ) × (find delim bytes ≡ some i) × IsFirst delim bytes i)
unfolding find
find-cases delim [] = inl (refl, tt)
find-cases delim (x ∷ xs) = elim (Bool-cases (x == delim)) [
  | inl here ↦ inr (
    0,
    rw here refl,
    record {
      before = [];
      after = xs;
      split = ap (λ y. y ∷ xs) ((==_iff x delim).0 here);
      index = refl;
      lacks = tt;
    },
  )
  | inr other ↦
      let differs : x ≢ delim = λ e. cc ((==_iff x delim).1 e) in
      elim (find-cases delim xs) [
        | inl (e, absent) ↦ inl (rw (find, other, e) refl, (differs, absent))
        | inr (i, e, first) ↦ inr (
          suc i,
          rw (find, other, e) refl,
          record {
            before = x ∷ first.before;
            after = first.after;
            split = ap (λ t. x ∷ t) first.split;
            index = omega (arith, first.index);
            lacks = (differs, first.lacks);
          },
        )
      ]
]

unfoldable pub searching : Search
searching = record { memchr = find; memchr-cases = find-cases }
