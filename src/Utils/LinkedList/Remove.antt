-- ===== src/Utils/LinkedList/Remove.antt =====
-- crates/monoio/src/utils/linked_list.rs, `remove`: a node is taken out of the list.
use nirvana_dev.Prelude.{
  ℕ, ◌+◌, ◌≤◌, true, false, List, [], ◌∷◌, ◌++◌, Option, none, some, ◌==◌, ◌≡◌, refl, sym, ap, ◌∙◌,
  arith,
}
use mathlib.Core.Path.{subst}
use nirvana_dev.Time.Wheel.Counts.{count}
use nirvana_dev.Time.Wheel.EntryList
use nirvana_dev.Utils.LinkedList.{Pointers, LinkedList, set_prev, set_next, remove, remove_tail}
use nirvana_dev.Utils.LinkedList.Segment.{
  IsSegment, nil, cons, first, last, outside, split, join, relink_next, relink_prev, last-append,
  count-append,
}
use nirvana_dev.Utils.LinkedList.Refine.{IsLinked, list_of}

missing : (x : ℕ) (xs : List ℕ) → count x xs ≡ 0 → EntryList.remove x xs ≡ xs
unfolding EntryList.remove count
missing x [] clear = refl
missing x (y ∷ ys) clear =
    let other : (y == x) ≡ false = ground arith in rw (other, missing x ys (ground arith)) refl

-- Removing from a sequence in which the node is once.
EntryList_remove :
    (x : ℕ) (xs ys : List ℕ)
    → count x xs ≡ 0
    → count x ys ≡ 0
    → EntryList.remove x (xs ++ x ∷ ys) ≡ xs ++ ys
unfolding EntryList.remove count
EntryList_remove x [] ys clear clear' =
    let self : (x == x) ≡ true = ground arith in rw self (missing x ys clear')
EntryList_remove x (z ∷ zs) ys clear clear' =
    let other : (z == x) ≡ false = ground arith in
    rw (other, EntryList_remove x zs ys (ground arith) clear') refl

pub snoc : (x : ℕ) (xs : List ℕ) → (zs : List ℕ) × (a : ℕ) × (x ∷ xs ≡ zs ++ a ∷ [])
snoc x [] = ([], x, refl)
snoc x (y ∷ ys) = let (zs, a, e) = snoc y ys in (x ∷ zs, a, ap (λ (t : List ℕ). x ∷ t) e)

-- A node between two segments.
pub record IsBetween (h : ℕ → Pointers) (xs ys : List ℕ) (x : ℕ) : Type 0 where
  pub left : IsSegment h (some x) none xs
  pub prev : (h x).prev ≡ last none xs
  pub next : (h x).next ≡ first ys none
  pub right : IsSegment h none (some x) ys
  pub not_left : count x xs ≡ 0
  pub not_right : count x ys ≡ 0
  pub apart : (i : ℕ) → count i xs + count i ys ≤ 1

-- The first half of `remove` leads past the node from the left.
pub record IsPassed (h : ℕ → Pointers) (xs ys : List ℕ) (x : ℕ) (h' : ℕ → Pointers) : Type 0 where
  pub left : IsSegment h' (first ys none) none xs
  pub right : IsSegment h' none (some x) ys
  pub node : h' x ≡ h x
  pub runs :
      (tail : Option ℕ)
      → remove h (record { head = first (xs ++ x ∷ ys) none; tail = tail }) x
        ≡ remove_tail h' (record { head = first (xs ++ ys) none; tail = tail }) x

pub pass_first :
    (h : ℕ → Pointers) (ys : List ℕ) (x : ℕ) → IsBetween h [] ys x → IsPassed h [] ys x h
unfolding first last remove
pass_first h ys x b =
    let self : (x == x) ≡ true = ground arith in
    record {
      left = nil;
      right = b.right;
      node = refl;
      runs = λ tail. rw (remove, b.prev, self, b.next) refl;
    }

same_head :
    (zs : List ℕ) (a : ℕ) (us vs : List ℕ)
    → first ((zs ++ a ∷ []) ++ us) none ≡ first ((zs ++ a ∷ []) ++ vs) none
unfolding first
same_head [] a us vs = refl
same_head (z ∷ zs) a us vs = refl

unlink :
    (h : ℕ → Pointers) (a x : ℕ) (l : LinkedList)
    → (h x).prev ≡ some a
    → (h a).next ≡ some x
    → remove h l x ≡ remove_tail (set_next a (h x).next h) l x
unfolding remove
unlink h a x l before next =
    let self : (x == x) ≡ true = ground arith in rw (remove, before, next, self) refl

pub pass_after :
    (h : ℕ → Pointers) (zs ys : List ℕ) (a x : ℕ)
    → IsBetween h (zs ++ a ∷ []) ys x
    → IsPassed h (zs ++ a ∷ []) ys x (set_next a (first ys none) h)
unfolding first last remove count
pass_after h zs ys a x b =
    let c = count-append a zs (a ∷ []) in
    let cx = count-append x zs (a ∷ []) in
    let apart = b.apart a in
    let other : (x == a) ≡ false = ground (arith, cx, b.not_left) in
    let other' : (a == x) ≡ false = ground (arith, cx, b.not_left) in
    let before : (h x).prev ≡ some a = b.prev ∙ last-append none zs (a ∷ []) in
    let (front, end) = split h none (some x) zs (a ∷ []) b.left in
    let next = alone end in
    record {
      left = relink_next h none (some x) (first ys none) zs a (ground (arith, c, apart)) b.left;
      right =
          outside h a (λ i. record (h i) { next = first ys none }) (some x) none ys
            (ground (arith, c, apart)) b.right;
      node = rw other refl;
      runs = λ tail.
          unlink h a x (record { head = first ((zs ++ a ∷ []) ++ x ∷ ys) none; tail = tail }) before
            next
          ∙ ap
              (λ q.
                remove_tail (set_next a q h)
                  (record { head = first ((zs ++ a ∷ []) ++ x ∷ ys) none; tail = tail }) x)
              b.next
          ∙ ap
              (λ hd.
                remove_tail (set_next a (first ys none) h) (record { head = hd; tail = tail }) x)
              (same_head zs a (x ∷ ys) ys);
    }
  where
    alone : {p : Option ℕ} → IsSegment h (some x) p (a ∷ []) → (h a).next ≡ some x
    alone (cons prev next rest) = next

pass :
    (h : ℕ → Pointers) (xs ys : List ℕ) (x : ℕ)
    → IsBetween h xs ys x
    → (h' : ℕ → Pointers) × IsPassed h xs ys x h'
pass h [] ys x b = (h, pass_first h ys x b)
pass h (z ∷ zs) ys x b =
    let (us, a, e) = snoc z zs in
    subst (λ ws. (h' : ℕ → Pointers) × IsPassed h ws ys x h') (sym e)
      (set_next a (first ys none) h, pass_after h us ys a x (subst (λ ws. IsBetween h ws ys x) e b))

-- The second half leads past it from the right.
relink :
    (h h1 : ℕ → Pointers) (xs ys : List ℕ) (x : ℕ)
    → IsBetween h xs ys x
    → IsPassed h xs ys x h1
    → (h2 : ℕ → Pointers) × (remove_tail h1
          (record { head = first (xs ++ ys) none; tail = last none (xs ++ x ∷ ys) })
          x
        ≡ some (set_prev x none (set_next x none h2), list_of (xs ++ ys), some x))
      × IsSegment h2 (first ys none) none xs
      × IsSegment h2 none (last none xs) ys
unfolding first last list_of count
relink h h1 xs [] x b p =
    let self : (x == x) ≡ true = ground arith in
    let before : (h1 x).prev ≡ last none xs = ap (λ (r : Pointers). r.prev) p.node ∙ b.prev in
    let after : (h1 x).next ≡ none = ap (λ (r : Pointers). r.next) p.node ∙ b.next in
    let ends = last-append none xs (x ∷ []) in
    let ends' = last-append none xs [] in
    (h1, rw (remove_tail, after, ends, self, before, ends') refl, p.left, nil)
relink h h1 xs (y ∷ ys) x b p =
    let self : (x == x) ≡ true = ground arith in
    let before : (h1 x).prev ≡ last none xs = ap (λ (r : Pointers). r.prev) p.node ∙ b.prev in
    let after : (h1 x).next ≡ some y = ap (λ (r : Pointers). r.next) p.node ∙ b.next in
    let back : (h1 y).prev ≡ some x = first_prev p.right in
    let ends = last-append none xs (x ∷ y ∷ ys) ∙ sym (last-append none xs (y ∷ ys)) in
    (
      set_prev y (last none xs) h1,
      rw (remove_tail, after, back, self, before, ends) refl,
      outside h1 y (λ i. record (h1 i) { prev = last none xs }) none (some y) xs
          (ground (arith, b.apart y)) p.left,
      relink_prev h1 (some x) (last none xs) none y ys (ground (arith, b.apart y)) p.right,
    )
  where
    first_prev : {p : Option ℕ} → IsSegment h1 none p (y ∷ ys) → (h1 y).prev ≡ p
    first_prev (cons prev next rest) = prev

pub between :
    (h : ℕ → Pointers) (xs ys : List ℕ) (x : ℕ) → IsLinked h (xs ++ x ∷ ys) → IsBetween h xs ys x
unfolding first count
between h xs ys x rep =
    let (left, end) = split h none none xs (x ∷ ys) rep.chain in
    let (prev, next, right) = parts end in
    let c = λ (i : ℕ). count-append i xs (x ∷ ys) in
    record {
      left = left;
      prev = prev;
      next = next;
      right = right;
      not_left = ground (arith, c x, rep.once x);
      not_right = ground (arith, c x, rep.once x);
      apart = λ i. ground (arith, c i, rep.once i);
    }
  where
    parts :
        {p : Option ℕ}
        → IsSegment h none p (x ∷ ys)
        → ((h x).prev ≡ p) × ((h x).next ≡ first ys none) × IsSegment h none (some x) ys
    parts (cons prev next rest) = (prev, next, rest)

-- A node that is linked is taken out of the list, wherever it is: no assertion fails, and the list is
-- that of the sequence without the node.
pub remove-IsLinked :
    (h : ℕ → Pointers) (xs ys : List ℕ) (x : ℕ)
    → IsLinked h (xs ++ x ∷ ys)
    → (h' : ℕ → Pointers) × (remove h (list_of (xs ++ x ∷ ys)) x
        ≡ some (h', list_of (EntryList.remove x (xs ++ x ∷ ys)), some x))
      × IsLinked h' (EntryList.remove x (xs ++ x ∷ ys))
unfolding list_of
remove-IsLinked h xs ys x rep =
    let b = between h xs ys x rep in
    let (h1, p) = pass h xs ys x b in
    let (h2, run, left, right) = relink h h1 xs ys x b p in
    let h3 = set_next x none h2 in
    let rest = EntryList_remove x xs ys b.not_left b.not_right in
    let off = λ (p q : Option ℕ) (zs : List ℕ) (clear : count x zs ≡ 0) (s : IsSegment h2 q p zs).
      outside h3 x (λ i. record (h3 i) { prev = none }) p q zs clear
        (outside h2 x (λ i. record (h2 i) { next = none }) p q zs clear s) in
    (
      set_prev x none h3,
      p.runs (last none (xs ++ x ∷ ys))
          ∙ run
          ∙ ap (λ zs. some (set_prev x none h3, list_of zs, some x)) (sym rest),
      rw rest (record {
        chain =
            join (set_prev x none h3) none none xs ys (off none (first ys none) xs b.not_left left)
              (off (last none xs) none ys b.not_right right);
        once = λ i. omega (arith, count-append i xs ys, b.apart i);
      }),
    )
