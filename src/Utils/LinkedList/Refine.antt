-- ===== src/Utils/LinkedList/Refine.antt =====
-- crates/monoio/src/utils/linked_list.rs: the pointers carry a sequence, on which the list acts as
-- the sequence operations of the timer wheel do.
use nirvana_dev.Prelude.{ℕ, ◌≤◌, true, false, List, [], ◌∷◌, none, some, ◌==◌, ◌≡◌, refl, arith}
use nirvana_dev.Time.Wheel.Counts.{count}
use nirvana_dev.Time.Wheel.EntryList
use nirvana_dev.Utils.LinkedList.{Pointers, LinkedList, set_prev, set_next, push_front}
use nirvana_dev.Utils.LinkedList.Segment.{IsSegment, nil, cons, first, last, outside, relink_prev}

-- The head and the tail of the list of a sequence.
unfoldable pub list_of : List ℕ → LinkedList
list_of xs = record { head = first xs none; tail = last none xs }

-- The pointers link the nodes of a sequence, each once.
pub record IsLinked (h : ℕ → Pointers) (xs : List ℕ) : Type 0 where
  pub chain : IsSegment h none none xs
  pub once : (i : ℕ) → count i xs ≤ 1

last-some : (y : ℕ) (ys : List ℕ) → (t : ℕ) × (last (some y) ys ≡ some t)
unfolding last
last-some y [] = (y, refl)
last-some y (z ∷ zs) = last-some z zs

-- A node that is not in the list becomes its first one.
pub push_front-IsLinked :
    (h : ℕ → Pointers) (xs : List ℕ) (x : ℕ)
    → IsLinked h xs
    → count x xs ≡ 0
    → (h' : ℕ → Pointers) × (push_front h (list_of xs) x
        ≡ some (h', list_of (EntryList.push_front x xs)))
      × IsLinked h' (EntryList.push_front x xs)
unfolding push_front first last count list_of
push_front-IsLinked h [] x rep clear =
    let self : (x == x) ≡ true = ground arith in
    (
      set_prev x none (set_next x none h),
      refl,
      record { chain = cons (rw self refl) (rw self refl) nil; once = λ i. ground arith },
    )
push_front-IsLinked h (y ∷ ys) x rep clear =
    let self : (x == x) ≡ true = ground arith in
    let other : (y == x) ≡ false = ground arith in
    let other' : (x == y) ≡ false = ground arith in
    let h1 = set_next x (some y) h in
    let h2 = set_prev x none h1 in
    let c1 = outside h x (λ i. record (h i) { next = some y }) none none (y ∷ ys) clear rep.chain in
    let c2 = outside h1 x (λ i. record (h1 i) { prev = none }) none none (y ∷ ys) clear c1 in
    let c3 = relink_prev h2 none (some x) none y ys (ground (arith, rep.once y)) c2 in
    let (t, tail) = last-some y ys in
    (
      set_prev y (some x) h2,
      rw (other, tail) refl,
      record {
        chain = cons (rw (other', self) refl) (rw (other', self) refl) c3;
        once = λ i. ground (arith, rep.once i);
      },
    )
