-- ===== src/Time/Wheel/EntryList.antt =====
-- The intrusive list of timers, crates/monoio/src/utils/linked_list.rs, as the sequence of the
-- timers it links, the head first.
use nirvana_dev.Prelude.{
  ℕ, Bool, true, false, Option, none, some, List, [], ◌∷◌, ◌==◌, if◌then◌else◌,
}

abbrev pub push_front : ℕ → List ℕ → List ℕ
push_front item items = item ∷ items

unfoldable pub pop_back : List ℕ → Option (List ℕ × ℕ)
pop_back [] = none
pop_back (x ∷ []) = some ([], x)
pop_back (x ∷ y ∷ ys) = elim (pop_back (y ∷ ys)) [
  | none ↦ none
  | some (rest, last) ↦ some (x ∷ rest, last)
]

unfoldable pub remove : ℕ → List ℕ → List ℕ
remove item [] = []
remove item (x ∷ xs) = let rest = remove item xs in if x == item then rest else x ∷ rest

abbrev pub is_empty : List ℕ → Bool
is_empty [] = true
is_empty (x ∷ xs) = false
