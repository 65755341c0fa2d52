-- ===== src/Utils/LinkedList.antt =====
-- crates/monoio/src/utils/linked_list.rs: an intrusive doubly linked list. Nodes are numbers, and the
-- heap gives the pointers that each node holds. An outer `none` is a failed assertion.
pub mod Segment
pub mod Refine
pub mod Remove
pub mod PopBack
mod Tests
use nirvana_dev.Prelude.{ℕ, Bool, true, false, not, Option, none, some, ◌==◌, if◌then◌else◌}

pub record Pointers : Type 0 where
  pub prev : Option ℕ
  pub next : Option ℕ

pub record LinkedList : Type 0 where
  pub head : Option ℕ
  pub tail : Option ℕ

unfoldable pub new : LinkedList
new = record { head = none; tail = none }

abbrev pub is_ptr : Option ℕ → ℕ → Bool
is_ptr none i = false
is_ptr (some j) i = j == i

abbrev pub set_prev : ℕ → Option ℕ → (ℕ → Pointers) → ℕ → Pointers
set_prev n value h i = if i == n then record (h i) { prev = value } else h i

abbrev pub set_next : ℕ → Option ℕ → (ℕ → Pointers) → ℕ → Pointers
set_next n value h i = if i == n then record (h i) { next = value } else h i

unfoldable pub push_front :
    (ℕ → Pointers) → LinkedList → (ptr : ℕ) → Option ((ℕ → Pointers) × LinkedList)
push_front h l ptr =
    if is_ptr l.head ptr
    then none
    else (let h' = set_prev ptr none (set_next ptr l.head h) in
        some (
          elim l.head [ none ↦ h' | some head ↦ set_prev head (some ptr) h' ],
          record { head = some ptr; tail = elim l.tail [ none ↦ some ptr | some t ↦ some t ] },
        ))

unfoldable pub pop_back : (ℕ → Pointers) → LinkedList → (ℕ → Pointers) × LinkedList × Option ℕ
pop_back h l = elim l.tail [
  | none ↦ (h, l, none)
  | some last ↦
      let prev = (h last).prev in
      (
        set_next last none
            (set_prev last none (elim prev [ none ↦ h | some p ↦ set_next p none h ])),
        record { head = elim prev [ none ↦ none | some p ↦ l.head ]; tail = prev },
        some last,
      )
]

unfoldable pub is_empty : LinkedList → Option Bool
is_empty l = elim l.head [
  | some head ↦ some false
  | none ↦ elim l.tail [ none ↦ some true | some tail ↦ none ]
]

-- The second half of `remove`, from the list whose head is right.
abbrev pub remove_tail :
    (ℕ → Pointers) → LinkedList → (node : ℕ) → Option ((ℕ → Pointers) × LinkedList × Option ℕ)
remove_tail h l node = elim (h node).next [
  | some next ↦
      if is_ptr (h next).prev node
      then some
          (set_prev node none (set_next node none (set_prev next (h node).prev h)), l, some node)
      else none
  | none ↦
      if is_ptr l.tail node
      then some
          (set_prev node none (set_next node none h), record l { tail = (h node).prev }, some node)
      else some (h, l, none)
]

unfoldable pub remove :
    (ℕ → Pointers) → LinkedList → (node : ℕ) → Option ((ℕ → Pointers) × LinkedList × Option ℕ)
remove h l node = elim (h node).prev [
  | some prev ↦
      if is_ptr (h prev).next node then remove_tail (set_next prev (h node).next h) l node else none
  | none ↦
      if is_ptr l.head node
      then remove_tail h (record l { head = (h node).next }) node
      else some (h, l, none)
]
