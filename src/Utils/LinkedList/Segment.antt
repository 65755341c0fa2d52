-- ===== src/Utils/LinkedList/Segment.antt =====
-- crates/monoio/src/utils/linked_list.rs: a chain of nodes in the heap.
use nirvana_dev.Prelude.{
  ℕ, ◌+◌, ◌≤◌, true, List, [], ◌∷◌, ◌++◌, Option, some, ◌==◌, if◌then◌else◌, Bool-cases, ◌≡◌, refl,
  sym, ap, ◌∙◌, inl, inr, arith,
}
use nirvana_dev.Time.Wheel.Counts.{count}
use nirvana_dev.Utils.LinkedList.{Pointers, set_prev, set_next}

unfoldable pub first : List ℕ → Option ℕ → Option ℕ
first [] q = q
first (x ∷ xs) q = some x

unfoldable pub last : Option ℕ → List ℕ → Option ℕ
last p [] = p
last p (x ∷ xs) = last (some x) xs

-- The nodes of a list follow each other between two pointers.
pub data IsSegment (h : ℕ → Pointers) (q : Option ℕ) : Option ℕ → List ℕ → Type 0 where
  nil : {p : Option ℕ} → IsSegment h q p []
  cons :
      {p : Option ℕ} {x : ℕ} {xs : List ℕ}
      → (h x).prev ≡ p
      → (h x).next ≡ first xs q
      → IsSegment h q (some x) xs
      → IsSegment h q p (x ∷ xs)

-- Nodes that are not changed stay in their segment.
pub keep :
    (h h' : ℕ → Pointers) (p q : Option ℕ) (xs : List ℕ)
    → ((i : ℕ) → 1 ≤ count i xs → h' i ≡ h i)
    → IsSegment h q p xs
    → IsSegment h' q p xs
unfolding count
keep h h' p q [] same nil = nil
keep h h' p q (x ∷ xs) same (cons prev next rest) =
    let here = same x (ground arith) in
    cons (ap (λ (r : Pointers). r.prev) here ∙ prev) (ap (λ (r : Pointers). r.next) here ∙ next)
      (keep h h' (some x) q xs (λ i linked. same i (omega arith)) rest)

-- A node that is not in a segment may be changed.
pub outside :
    (h : ℕ → Pointers) (n : ℕ) (r : ℕ → Pointers) (p q : Option ℕ) (xs : List ℕ)
    → count n xs ≡ 0
    → IsSegment h q p xs
    → IsSegment (λ i. if i == n then r i else h i) q p xs
outside h n r p q xs clear s =
    keep h (λ i. if i == n then r i else h i) p q xs
      (λ i linked. elim (Bool-cases (i == n)) [
        | inl e ↦
            let same : i ≡ n = ground arith in
            let linked' : 1 ≤ count n xs = rw (← same) linked in absurd (omega arith)
        | inr e ↦ rw e refl
      ])
      s

pub first-append : (xs ys : List ℕ) (q : Option ℕ) → first (xs ++ ys) q ≡ first xs (first ys q)
unfolding first
first-append [] ys q = refl
first-append (a ∷ xs) ys q = refl

pub last-append : (p : Option ℕ) (xs ys : List ℕ) → last p (xs ++ ys) ≡ last (last p xs) ys
unfolding last
last-append p [] ys = refl
last-append p (a ∷ xs) ys = last-append (some a) xs ys

pub count-append : (i : ℕ) (xs ys : List ℕ) → count i (xs ++ ys) ≡ count i xs + count i ys
unfolding count
count-append i [] ys = omega arith
count-append i (a ∷ xs) ys = omega (arith, count-append i xs ys)

pub split :
    (h : ℕ → Pointers) (p q : Option ℕ) (xs ys : List ℕ)
    → IsSegment h q p (xs ++ ys)
    → IsSegment h (first ys q) p xs × IsSegment h q (last p xs) ys
unfolding last
split h p q [] ys s = (nil, s)
split h p q (a ∷ xs) ys (cons prev next rest) =
    let (left, right) = split h (some a) q xs ys rest in
    (cons prev (next ∙ first-append xs ys q) left, right)

pub join :
    (h : ℕ → Pointers) (p q : Option ℕ) (xs ys : List ℕ)
    → IsSegment h (first ys q) p xs
    → IsSegment h q (last p xs) ys
    → IsSegment h q p (xs ++ ys)
unfolding last
join h p q [] ys left right = right
join h p q (a ∷ xs) ys (cons prev next rest) right =
    cons prev (next ∙ sym (first-append xs ys q)) (join h (some a) q xs ys rest right)

-- The last node of a segment may be given another successor.
pub relink_next :
    (h : ℕ → Pointers) (p q q' : Option ℕ) (xs : List ℕ) (a : ℕ)
    → count a xs ≡ 0
    → IsSegment h q p (xs ++ a ∷ [])
    → IsSegment (set_next a q' h) q' p (xs ++ a ∷ [])
unfolding last first count
relink_next h p q q' xs a clear s =
    let (left, right) = split h p q xs (a ∷ []) s in
    join (set_next a q' h) p q' xs (a ∷ [])
      (outside h a (λ i. record (h i) { next = q' }) p (some a) xs clear left) (alone right)
  where
    alone : IsSegment h q (last p xs) (a ∷ []) → IsSegment (set_next a q' h) q' (last p xs) (a ∷ [])
    alone (cons prev next nil) =
        let self : (a == a) ≡ true = ground arith in cons (rw self prev) (rw self refl) nil

-- The first node of a segment may be given another predecessor.
pub relink_prev :
    (h : ℕ → Pointers) (p p' q : Option ℕ) (b : ℕ) (ys : List ℕ)
    → count b ys ≡ 0
    → IsSegment h q p (b ∷ ys)
    → IsSegment (set_prev b p' h) q p' (b ∷ ys)
relink_prev h p p' q b ys clear (cons prev next rest) =
    let self : (b == b) ≡ true = ground arith in
    cons (rw self refl) (rw self next)
      (outside h b (λ i. record (h i) { prev = p' }) (some b) q ys clear rest)
