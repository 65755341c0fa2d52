-- ===== src/Slab/Page/Chain.antt =====
-- crates/monoio/src/utils/slab.rs, `Page::next` and `Entry::Vacant`: the list of vacant slots.
use nirvana_dev.Prelude.{
  ℕ, zero, suc, ◌+◌, ◌<◌, ◌≡◌, ◌≢◌, refl, ap, sym, ◌∙◌, Option, some, arith, ◌==◌, Bool-cases, inl,
  inr, ◌⊎◌,
}
use nirvana_dev.Slab.Page.{Entry, vacant, occupied, put}

module _ {ℓ} {A : Type ℓ} (s : ℕ → A) (i : ℕ) (x : A) where
  pub put-same : put s i x i ≡ x
  unfolding put
  put-same = ground arith

  pub put-other : (j : ℕ) → j ≢ i → put s i x j ≡ s j
  unfolding put
  put-other j ne = ground arith

module _ {T : Type 0} where
  -- From `i`, `k` vacant slots lead to `end`.
  unfoldable pub Chain : (ℕ → Option (Entry T)) → ℕ → ℕ → ℕ → Type 0
  Chain s end i zero = i ≡ end
  Chain s end i (suc k) = (i < end) × ((n : ℕ) × (s i ≡ some (vacant n)) × Chain s end n k)

  -- The number of occupied slots below a bound.
  abbrev pub one_if_occupied : Option (Entry T) → ℕ
  one_if_occupied (some (occupied _)) = 1
  one_if_occupied _ = 0

  unfoldable pub count : (ℕ → Option (Entry T)) → ℕ → ℕ
  count s zero = 0
  count s (suc n) = one_if_occupied (s n) + count s n

  next_of : Option (Entry T) → ℕ
  next_of (some (vacant n)) = n
  next_of _ = 0

  vacant_inj : {s : Option (Entry T)} {m n : ℕ} → s ≡ some (vacant m) → s ≡ some (vacant n) → m ≡ n
  unfolding next_of
  vacant_inj a b = ap next_of (sym a ∙ b)

  pub Chain-length :
      (s : ℕ → Option (Entry T)) (end i k l : ℕ) → Chain s end i k → Chain s end i l → k ≡ l
  unfolding Chain
  Chain-length s end i zero zero c d = refl
  Chain-length s end i zero (suc l) c (lt, _) = absurd (omega arith)
  Chain-length s end i (suc k) zero (lt, _) d = absurd (omega arith)
  Chain-length s end i (suc k) (suc l) (_, (n, e, c)) (_, (m, e', d)) =
      let same : n ≡ m = vacant_inj e e' in ap suc (Chain-length s end n k l c (rw same d))

  -- A slot that is not on the list may be written.
  Chain-put :
      (s : ℕ → Option (Entry T)) (end x : ℕ) (v : Option (Entry T)) (i k : ℕ)
      → ((j l : ℕ) → Chain s end j (suc l) → l < k → j ≢ x)
      → Chain s end i k
      → Chain (put s x v) end i k
  unfolding Chain
  Chain-put s end x v i zero off c = c
  Chain-put s end x v i (suc k) off (lt, (n, e, c)) = (
    lt,
    (
      n,
      put-other s x v i (off i k (lt, (n, e, c)) (omega arith)) ∙ e,
      Chain-put s end x v n k (λ j l d b. off j l d (omega arith)) c,
    ),
  )

  -- The first slot of a list is not on the rest of it.
  pub Chain-pop :
      (s : ℕ → Option (Entry T)) (end i n k : ℕ) (v : Option (Entry T))
      → i < end
      → s i ≡ some (vacant n)
      → Chain s end n k
      → Chain (put s i v) end n k
  unfolding Chain
  Chain-pop s end i n k v lt e c =
      Chain-put s end i v n k
        (λ j l d b same_slot.
          let whole : Chain s end j (suc k) = rw same_slot (lt, (n, e, c)) in
          let equal : suc l ≡ suc k = Chain-length s end j (suc l) (suc k) d whole in omega arith)
        c

  -- An occupied slot, or one that was never written, is on no list.
  pub Chain-off :
      (s : ℕ → Option (Entry T)) (end x i k : ℕ) (v : Option (Entry T))
      → ((n : ℕ) → s x ≢ some (vacant n))
      → Chain s end i k
      → Chain (put s x v) end i k
  unfolding Chain
  Chain-off s end x i k v off c =
      Chain-put s end x v i k (λ j l (_, (n, e, _)) b same_slot. off n (rw (sym same_slot) e)) c

  -- A longer initialized part: the list that ended there now ends after the slot just written.
  pub count-other :
      (s : ℕ → Option (Entry T)) (i n : ℕ) (v : Option (Entry T))
      → n < suc i
      → count (put s i v) n ≡ count s n
  unfolding count
  count-other s i zero v lt = refl
  count-other s i (suc n) v lt =
      rw (put-other s i v n (omega arith), count-other s i n v (omega arith)) refl

  pub count-put :
      (s : ℕ → Option (Entry T)) (i n : ℕ) (v : Option (Entry T))
      → i < n
      → count (put s i v) n + one_if_occupied (s i) ≡ count s n + one_if_occupied v
  unfolding count
  count-put s i zero v lt = absurd (omega arith)
  count-put s i (suc n) v lt = elim (Bool-cases (i == n)) [
    | inl e ↦
        let same : n ≡ i = ground arith in
        rw (same, put-same s i v, count-other s i i v (omega arith)) (omega arith)
    | inr e ↦
        let rest = count-put s i n v (ground arith) in
        rw (put-other s i v n (ground arith)) (omega arith)
  ]

  pub count-append :
      (s : ℕ → Option (Entry T)) (i : ℕ) (v : T)
      → count (put s i (some (occupied v))) (i + 1) ≡ count s i + 1
  unfolding count
  count-append s i v =
      let same = put-same s i (some (occupied v)) in
      let below = count-other s i i (some (occupied v)) (omega arith) in ground arith

  -- A list is empty, or starts with a vacant slot.
  pub Chain-cases :
      (s : ℕ → Option (Entry T)) (end i k : ℕ)
      → Chain s end i k
      → ((k ≡ 0) × (i ≡ end))
        ⊎ ((n : ℕ) × (l : ℕ) × (k ≡ suc l) × (i < end) × (s i ≡ some (vacant n)) × Chain s end n l)
  unfolding Chain
  Chain-cases s end i zero e = inl (refl, e)
  Chain-cases s end i (suc l) (lt, (n, e, c)) = inr (n, l, refl, lt, e, c)
