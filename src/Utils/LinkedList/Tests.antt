-- ===== src/Utils/LinkedList/Tests.antt =====
-- crates/monoio/src/utils/linked_list.rs on a list of three nodes.
use nirvana_dev.Prelude.{ℕ, ◌==◌, if◌then◌else◌, List, [], ◌∷◌, none, some, ◌≡◌, refl, arith}
use nirvana_dev.Time.Wheel.Counts.{count}
use nirvana_dev.Time.Wheel.EntryList
use nirvana_dev.Utils.LinkedList.{Pointers, pop_back, remove}
use nirvana_dev.Utils.LinkedList.Segment.{nil, cons, first}
use nirvana_dev.Utils.LinkedList.Refine.{IsLinked, list_of}
use nirvana_dev.Utils.LinkedList.Remove.{remove-IsLinked}
use nirvana_dev.Utils.LinkedList.PopBack.{pop_back-IsLinked}

abbrev heap : ℕ → Pointers
heap i =
    if i == 3
    then record { prev = none; next = some 2 }
    else if i == 2
    then record { prev = some 3; next = some 1 }
    else record { prev = some 2; next = none }

abbrev three : List ℕ
three = 3 ∷ 2 ∷ 1 ∷ []

heap-IsLinked : IsLinked heap three
unfolding first count
heap-IsLinked = record {
  chain = cons refl refl (cons refl refl (cons refl refl nil));
  once = λ i. ground arith;
}

remove-IsLinked_example :
    (h' : ℕ → Pointers) × (remove heap (list_of three) 2
      ≡ some (h', list_of (EntryList.remove 2 three), some 2))
    × IsLinked h' (EntryList.remove 2 three)
remove-IsLinked_example = remove-IsLinked heap (3 ∷ []) (1 ∷ []) 2 heap-IsLinked

pop_back-IsLinked_example :
    (h' : ℕ → Pointers) × (pop_back heap (list_of three) ≡ (h', list_of (3 ∷ 2 ∷ []), some 1))
    × IsLinked h' (3 ∷ 2 ∷ [])
unfolding EntryList.pop_back
pop_back-IsLinked_example = pop_back-IsLinked heap three (3 ∷ 2 ∷ []) 1 heap-IsLinked refl
