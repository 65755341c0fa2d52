-- ===== src/Io/IoVec/Consume.antt =====
-- How much `consume` takes off a list of buffers, and what it leaves of them
-- (crates/monoio/src/buf/vec_wrapper.rs).
use nirvana_dev.Prelude.{
  ℕ, ◌+◌, ◌-◌, ◌≡◌, ◌≤◌, ◌<◌, refl, sym, ap, ◌∙◌, ◌⊎◌, inl, inr, none, some, List, [], ◌∷◌, ◌++◌,
  length, length-append, take, drop, length-take, length-drop, drop-append, ◌==◌, Bool-cases,
  ==_iff, arith,
}
use nirvana_dev.Io.IoVec.{Iovec, IoVecMeta, total, consume_from, consume, read_iovec_len, entries}
use Prim.Native.Nat.{compare, Ordering}
use native.Mathlib.Omega.{compare-lt, compare-eq, compare-gt}
use native.Mathlib.Nat.{sub_self}
use mathlib.Core.Path.{subst}
use mathlib.Core.List.{append_assoc}

-- The addresses of entries.
abbrev pub bases : List Iovec → List ℕ
bases [] = []
bases (v ∷ vs) = v.iov_base ∷ bases vs

-- The bytes are taken off in order: `used` are the first entries, all of whose bytes are consumed; what
-- is left are the entries behind them, of which the first is shorter by the rest, which is not all of
-- it.
pub data InOrder (vs : List Iovec) (amt : ℕ) (used left : List Iovec) : Type 0 where
  whole_entries : vs ≡ used ++ left → total used ≡ amt → InOrder vs amt used left
  part_of_next :
      (v : Iovec) (behind_ : List Iovec) (part : ℕ)
      → vs ≡ used ++ v ∷ behind_
      → total used + part ≡ amt
      → 0 < part
      → part < v.iov_len
      → left ≡ record v { iov_len = v.iov_len - part } ∷ behind_
      → InOrder vs amt used left

-- One more entry in front, which is used up.
InOrder-cons :
    (v : Iovec) (vs : List Iovec) (amt : ℕ) (used left : List Iovec)
    → v.iov_len ≤ amt
    → InOrder vs (amt - v.iov_len) used left
    → InOrder (v ∷ vs) amt (v ∷ used) left
InOrder-cons v vs amt used left le (whole_entries e t) =
    whole_entries (ap (λ u. v ∷ u) e) (omega (arith, t, le))
InOrder-cons v vs amt used left le (part_of_next w b part e t pos lt q) =
    part_of_next w b part (ap (λ u. v ∷ u) e) (omega (arith, t, le)) pos lt q

-- The entries in front of the new offset are used up, and of the first entry behind it the length is
-- shorter, but its address is the old one.
pub record Kept (vs : List Iovec) (offset amt : ℕ) (a : ℕ × List Iovec) : Type 0 where
  pub used : List Iovec
  pub left : List Iovec
  pub split : a.1 ≡ used ++ left
  pub moved : a.0 ≡ offset + length used
  pub same : length a.1 ≡ length vs
  pub taken : total left + amt ≡ total vs
  pub based : bases left ≡ drop (length used) (bases vs)
  pub ordered : InOrder vs amt (take (length used) vs) left

order :
    (a b : ℕ)
    → ((compare a b ≡ Ordering.lt) × (a < b))
      ⊎ (((compare a b ≡ Ordering.eq) × (a ≡ b)) ⊎ ((compare a b ≡ Ordering.gt) × (b < a)))
order a b = by_order (compare a b) refl
  where
    by_order :
        (o : Ordering)
        → compare a b ≡ o
        → ((compare a b ≡ Ordering.lt) × (a < b))
          ⊎ (((compare a b ≡ Ordering.eq) × (a ≡ b)) ⊎ ((compare a b ≡ Ordering.gt) × (b < a)))
    by_order Ordering.lt e = inl (e, compare-lt a b e)
    by_order Ordering.eq e = inr (inl (e, compare-eq a b e))
    by_order Ordering.gt e = inr (inr (e, compare-gt a b e))

consume_from-cases :
    (vs : List Iovec) (offset amt : ℕ)
    → 0 < amt
    → ((consume_from vs offset amt ≡ none) × (total vs < amt))
      ⊎ ((a : ℕ × List Iovec) × (consume_from vs offset amt ≡ some a) × Kept vs offset amt a)
unfolding consume_from
consume_from-cases [] offset amt h = inl (refl, omega arith)
consume_from-cases (v ∷ vs) offset amt h = elim (order v.iov_len amt) [
  | inl (e, lt) ↦ elim (consume_from-cases vs (offset + 1) (amt - v.iov_len) (omega arith)) [
    | inl (e', short) ↦ inl (rw (consume_from, e, e') refl, omega arith)
    | inr (a, e', k) ↦ inr (
      (a.0, v ∷ a.1),
      rw (consume_from, e, e') refl,
      record {
        used = v ∷ k.used;
        left = k.left;
        split = ap (λ t. v ∷ t) k.split;
        moved = omega (arith, k.moved);
        same = omega (arith, k.same);
        taken = omega (arith, k.taken);
        based = k.based;
        ordered = InOrder-cons v vs amt (take (length k.used) vs) k.left (omega arith) k.ordered;
      },
    )
  ]
  | inr (inl (e, eq)) ↦ inr (
    (offset + 1, v ∷ vs),
    rw (consume_from, e) refl,
    record {
      used = v ∷ [];
      left = vs;
      split = refl;
      moved = refl;
      same = refl;
      taken = omega arith;
      based = refl;
      ordered = whole_entries refl (omega arith);
    },
  )
  | inr (inr (e, gt)) ↦ inr (
    (offset, record v { iov_len = v.iov_len - amt } ∷ vs),
    rw (consume_from, e) refl,
    record {
      used = [];
      left = record v { iov_len = v.iov_len - amt } ∷ vs;
      split = refl;
      moved = omega arith;
      same = refl;
      taken = omega arith;
      based = refl;
      ordered = part_of_next v vs amt refl (omega arith) h gt refl;
    },
  )
]

-- What is left to hand out after so much was consumed: the entries behind the used ones, with their
-- old addresses, and shorter by what was consumed. The count for system calls is the old one.
pub record Consumed (m : IoVecMeta) (amt : ℕ) (m' : IoVecMeta) : Type 0 where
  pub taken : total (entries m') + amt ≡ total (entries m)
  pub forward : m.offset ≤ m'.offset
  pub inside : m'.offset ≤ length m'.items
  pub based : bases (entries m') ≡ drop (m'.offset - m.offset) (bases (entries m))
  pub ordered : InOrder (entries m) amt (take (m'.offset - m.offset) (entries m)) (entries m')
  pub counted : read_iovec_len m' ≡ m'.offset + length (entries m')

behind :
    (front used left vs : List Iovec) (offset o : ℕ)
    → length front ≡ offset
    → vs ≡ used ++ left
    → o ≡ offset + length used
    → drop o (front ++ vs) ≡ left
behind front used left vs offset o size split moved =
    let n : ℕ = length (front ++ used) in
    let e : o ≡ n = omega (arith, length-append front used) in
    (λ i. drop (e i) (front ++ split i))
    ∙ ap (drop n) (sym (append_assoc front used left))
    ∙ drop-append (front ++ used) left

module _ (m : IoVecMeta) (amt : ℕ) where
  nothing-Consumed : m.offset ≤ length m.items → amt ≡ 0 → Consumed m amt m
  unfolding entries read_iovec_len
  nothing-Consumed inside z = record {
    taken = omega arith;
    forward = omega arith;
    inside = inside;
    based = ap (λ (n : ℕ). drop n (bases (drop m.offset m.items))) (sym (sub_self m.offset));
    ordered =
        subst (λ (n : ℕ). InOrder (entries m) amt (take n (entries m)) (entries m))
          (sym (sub_self m.offset)) (whole_entries refl (omega (arith, z)));
    counted = omega (arith, length-drop m.offset m.items);
  }

  some-Consumed :
      (a : ℕ × List Iovec)
      → m.offset ≤ length m.items
      → Kept (entries m) m.offset amt a
      → Consumed m amt (record m { items = take m.offset m.items ++ a.1; offset = a.0 })
  unfolding entries read_iovec_len
  some-Consumed a inside k =
      let front : List Iovec = take m.offset m.items in
      let size : length front ≡ m.offset = ground (arith, length-take m.offset m.items) in
      let rest : drop a.0 (front ++ a.1) ≡ k.left =
        behind front k.used k.left a.1 m.offset a.0 size k.split k.moved in
      let all : length a.1 ≡ length k.used + length k.left =
        ap length k.split ∙ length-append k.used k.left in
      record {
        taken = ap (λ t. total t + amt) rest ∙ k.taken;
        forward = omega (arith, k.moved);
        inside = omega (arith, length-append front a.1, k.moved);
        based =
            ap bases rest
            ∙ k.based
            ∙ ap (λ (n : ℕ). drop n (bases (drop m.offset m.items))) (omega (arith, k.moved));
        ordered =
            let n_ : length k.used ≡ a.0 - m.offset = omega (arith, k.moved) in
            subst
              (λ (n : ℕ). InOrder (entries m) amt (take n (entries m)) (drop a.0 (front ++ a.1))) n_
              (subst (λ l. InOrder (entries m) amt (take (length k.used) (entries m)) l) (sym rest)
                k.ordered);
        counted = omega (arith, length-append front a.1, k.moved, ap length rest);
      }

  -- Consuming more than there is panics. Otherwise so many bytes are taken off the entries, in order:
  -- the first ones are used up, and the next is shorter by the rest; but every entry that is left keeps
  -- its address, and the count that is given to system calls is that of all entries, used ones included.
  pub consume-Consumed :
      m.offset ≤ length m.items
      → ((consume m amt ≡ none) × (total (entries m) < amt))
        ⊎ ((m' : IoVecMeta) × (consume m amt ≡ some m') × Consumed m amt m')
  unfolding consume entries
  consume-Consumed inside = elim (Bool-cases (amt == 0)) [
    | inl zero_ ↦
        inr (m, rw (consume, zero_) refl, nothing-Consumed inside ((==_iff amt 0).0 zero_))
    | inr more ↦ elim (consume_from-cases (drop m.offset m.items) m.offset amt (ground arith)) [
      | inl (e, short) ↦ inl (rw (consume, more, e) refl, short)
      | inr (a, e, k) ↦ inr (_, rw (consume, more, e) refl, some-Consumed a inside k)
    ]
  ]
