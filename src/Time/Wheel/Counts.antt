-- ===== src/Time/Wheel/Counts.antt =====
-- crates/monoio/src/utils/linked_list.rs, as sequences: how often a timer is linked in a list.
use nirvana_dev.Prelude.{
  ℕ, ◌+◌, ◌≤◌, Bool, true, false, none, some, List, [], ◌∷◌, ◌==◌, if◌then◌else◌, Option-cases, ◌≡◌,
  refl, inl, inr, arith,
}
use nirvana_dev.Time.Wheel.EntryList.{pop_back, remove, is_empty}

abbrev pub one_if : Bool → ℕ
one_if b = if b then 1 else 0

unfoldable pub count : ℕ → List ℕ → ℕ
count i [] = 0
count i (x ∷ xs) = one_if (i == x) + count i xs

pub count-empty : (xs : List ℕ) (i : ℕ) → is_empty xs ≡ true → count i xs ≡ 0
unfolding count
count-empty [] i e = refl
count-empty (x ∷ xs) i e = absurd (ground arith)

pub count-some : (xs : List ℕ) → is_empty xs ≡ false → (i : ℕ) × (1 ≤ count i xs)
unfolding count
count-some [] e = absurd (ground arith)
count-some (x ∷ xs) e = (x, ground arith)

pub count-is_empty : (xs : List ℕ) (i : ℕ) → 1 ≤ count i xs → is_empty xs ≡ false
unfolding count
count-is_empty [] i le = absurd (omega arith)
count-is_empty (x ∷ xs) i le = refl

pub pop_back-none : (xs : List ℕ) → pop_back xs ≡ none → xs ≡ []
unfolding pop_back
pop_back-none [] e = refl
pop_back-none (x ∷ []) e = absurd (ground arith)
pop_back-none (x ∷ y ∷ ys) e = elim (Option-cases (pop_back (y ∷ ys))) [
  | inl n ↦ let no = pop_back-none (y ∷ ys) n in absurd (ground arith)
  | inr (p, s) ↦ let e' = rw s at e in absurd (ground arith)
]

pub count-pop_back :
    (xs rest : List ℕ) (last i : ℕ)
    → pop_back xs ≡ some (rest, last)
    → count i xs ≡ count i rest + one_if (i == last)
unfolding pop_back count
count-pop_back [] rest last i e = absurd (ground arith)
count-pop_back (x ∷ []) rest last i e = ground arith
count-pop_back (x ∷ y ∷ ys) rest last i e = elim (Option-cases (pop_back (y ∷ ys))) [
  | inl n ↦ let e' = rw n at e in absurd (ground arith)
  | inr ((more, last'), s) ↦
      let ih = count-pop_back (y ∷ ys) more last' i s in let e' = rw s at e in ground arith
]

pub count-remove :
    (item i : ℕ) (xs : List ℕ) → count i (remove item xs) ≡ (if i == item then 0 else count i xs)
unfolding remove count
count-remove item i [] = ground arith
count-remove item i (x ∷ xs) = let ih = count-remove item i xs in ground arith
