-- ===== src/Utils/LinkedList/PopBack.antt =====
-- crates/monoio/src/utils/linked_list.rs, `pop_back`: the last node is taken off the list.
use nirvana_dev.Prelude.{
  ℕ, List, [], ◌∷◌, ◌++◌, Option, none, some, Option-cases, ◌≡◌, refl, sym, ap, ◌∙◌, inl, inr,
  arith,
}
use mathlib.Core.Path.{subst}
use nirvana_dev.Time.Wheel.EntryList
use nirvana_dev.Utils.LinkedList.{Pointers, set_prev, set_next, pop_back}
use nirvana_dev.Utils.LinkedList.Segment.{IsSegment, first, last, outside, last-append}
use nirvana_dev.Utils.LinkedList.Refine.{IsLinked, list_of}
use nirvana_dev.Utils.LinkedList.Remove.{IsBetween, between, pass_first, pass_after, snoc}

abbrev whole : Option (List ℕ × ℕ) → List ℕ
whole none = []
whole (some (rest, x)) = rest ++ x ∷ []

pop_back-snoc :
    (xs rest : List ℕ) (x : ℕ) → EntryList.pop_back xs ≡ some (rest, x) → xs ≡ rest ++ x ∷ []
unfolding EntryList.pop_back
pop_back-snoc [] rest x e = absurd (ground arith)
pop_back-snoc (y ∷ []) rest x e = ground arith
pop_back-snoc (y ∷ z ∷ zs) rest x e = elim (Option-cases (EntryList.pop_back (z ∷ zs))) [
  | inl n ↦ let e' = rw n at e in absurd (ground arith)
  | inr ((more, x'), s) ↦
      let ih = pop_back-snoc (z ∷ zs) more x' s in
      let e' = rw s at e in ap (λ (t : List ℕ). y ∷ t) ih ∙ ap whole e'
]

head_append :
    (zs : List ℕ) (a : ℕ) (us : List ℕ)
    → first ((zs ++ a ∷ []) ++ us) none ≡ first (zs ++ a ∷ []) none
unfolding first
head_append [] a us = refl
head_append (z ∷ zs) a us = refl

-- The nodes but the last one, in a heap where the last of them is followed by nothing.
finish :
    (h h1 : ℕ → Pointers) (xs : List ℕ) (x : ℕ)
    → IsBetween h xs [] x
    → IsSegment h1 none none xs
    → IsLinked (set_next x none (set_prev x none h1)) xs
finish h h1 xs x b left = record {
  chain =
      let h2 = set_prev x none h1 in
      outside h2 x (λ i. record (h2 i) { next = none }) none none xs b.not_left
        (outside h1 x (λ i. record (h1 i) { prev = none }) none none xs b.not_left left);
  once = λ i. omega (arith, b.apart i);
}

take_last :
    (h : ℕ → Pointers) (xs : List ℕ) (x : ℕ)
    → IsBetween h xs [] x
    → (h' : ℕ → Pointers) × (pop_back h (list_of (xs ++ x ∷ [])) ≡ (h', list_of xs, some x))
      × IsLinked h' xs
unfolding pop_back list_of first last
take_last h [] x b = (
  set_next x none (set_prev x none h),
  rw b.prev refl,
  finish h h [] x b (pass_first h [] x b).left,
)
take_last h (z ∷ zs) x b =
    let (us, a, e) = snoc z zs in
    subst
      (λ ws.
        (h' : ℕ → Pointers) × (pop_back h (list_of (ws ++ x ∷ [])) ≡ (h', list_of ws, some x))
        × IsLinked h' ws)
      (sym e) (ending us a (subst (λ ws. IsBetween h ws [] x) e b))
  where
    ending :
        (us : List ℕ) (a : ℕ)
        → IsBetween h (us ++ a ∷ []) [] x
        → (h' : ℕ → Pointers) × (pop_back h (list_of ((us ++ a ∷ []) ++ x ∷ []))
            ≡ (h', list_of (us ++ a ∷ []), some x))
          × IsLinked h' (us ++ a ∷ [])
    ending us a b =
        let tail = last-append none (us ++ a ∷ []) (x ∷ []) in
        let ends = last-append none us (a ∷ []) in
        let before : (h x).prev ≡ some a = b.prev ∙ ends in
        let h1 = set_next a none h in
        (
          set_next x none (set_prev x none h1),
          rw (pop_back, tail, before, head_append us a (x ∷ []), ends) refl,
          finish h h1 (us ++ a ∷ []) x b (pass_after h us [] a x b).left,
        )

-- Where the sequence has a last node, it is taken off the list.
pub pop_back-IsLinked :
    (h : ℕ → Pointers) (xs rest : List ℕ) (x : ℕ)
    → IsLinked h xs
    → EntryList.pop_back xs ≡ some (rest, x)
    → (h' : ℕ → Pointers) × (pop_back h (list_of xs) ≡ (h', list_of rest, some x))
      × IsLinked h' rest
pop_back-IsLinked h xs rest x rep e =
    let same = pop_back-snoc xs rest x e in
    let rep' = subst (λ ws. IsLinked h ws) same rep in
    subst
      (λ ws.
        (h' : ℕ → Pointers) × (pop_back h (list_of ws) ≡ (h', list_of rest, some x))
        × IsLinked h' rest)
      (sym same) (take_last h rest x (between h rest [] x rep'))
