-- ===== src/Slab/Page/Fine.antt =====
-- crates/monoio/src/utils/slab.rs, `Page`: what holds of a page between the operations of a slab,
-- and what the operations do to it.
use nirvana_dev.Prelude.{
  ℕ, zero, suc, ◌+◌, ◌≤◌, ◌<◌, ◌≡◌, refl, ◌∙◌, Option, none, some, arith, ◌⊎◌, ltb, ◌==◌,
  Bool-cases, inl, inr,
}
use nirvana_dev.Slab.Page.{Entry, vacant, occupied, as_ref, Page, put, new}
use nirvana_dev.Slab.Page.Chain.{Chain, count, one_if_occupied}

module _ {T : Type 0} where
  pub record IsFine (p : Page T) : Type 0 where
    pub unused : ℕ
    pub chain : Chain p.slots p.initialized p.next unused
    pub full : p.used + unused ≡ p.initialized
    pub bound : p.initialized ≤ p.size
    pub counted : count p.slots p.initialized ≡ p.used
    pub written : (i : ℕ) → i < p.initialized → (e : Entry T) × (p.slots i ≡ some e)
    pub untouched : (i : ℕ) → p.initialized ≤ i → p.slots i ≡ none

  -- The element that a page holds at a slot.
  unfoldable pub at : Page T → ℕ → Option T
  at p i = elim (p.slots i) [ none ↦ none | some e ↦ as_ref e ]

  pub new-IsFine : (size prev_len : ℕ) → IsFine (new {T = T} size prev_len)
  unfolding new Chain count
  new-IsFine size prev_len = record {
    unused = 0;
    chain = refl;
    full = refl;
    bound = omega arith;
    counted = refl;
    written = λ i lt. absurd (omega arith);
    untouched = λ i le. refl;
  }

  pub written-put :
      (s : ℕ → Option (Entry T)) (i n : ℕ) (e : Entry T)
      → ((j : ℕ) → j < n → (e : Entry T) × (s j ≡ some e))
      → (j : ℕ) → j < n ⊎ (j ≡ i)
      → (d : Entry T) × (put s i (some e) j ≡ some d)
  unfolding put
  written-put s i n e w j (inl lt) = elim (Bool-cases (j == i)) [
    | inl q ↦ (e, rw q refl)
    | inr q ↦ rw q (w j lt)
  ]
  written-put s i n e w j (inr same) = (e, ground arith)

  -- Where no slot is counted, no element is held.
  count-zero :
      (s : ℕ → Option (Entry T)) (n : ℕ)
      → count s n ≡ 0
      → (i : ℕ) → i < n
      → one_if_occupied (s i) ≡ 0
  unfolding count
  count-zero s zero e i lt = absurd (omega arith)
  count-zero s (suc n) e i lt = elim (Bool-cases (i == n)) [
    | inl q ↦ let same : i ≡ n = ground arith in rw same (omega arith)
    | inr q ↦ count-zero s n (omega arith) i (ground arith)
  ]

  not_occupied :
      (o : Option (Entry T))
      → one_if_occupied o ≡ 0
      → elim o [ none ↦ none | some e ↦ as_ref e ] ≡ none
  not_occupied none e = refl
  not_occupied (some (vacant n)) e = refl
  not_occupied (some (occupied v)) e = absurd (omega arith)

  pub at-empty : (p : Page T) → IsFine p → p.used ≡ 0 → (i : ℕ) → at p i ≡ none
  unfolding at
  at-empty p f e i = elim (Bool-cases (ltb i p.initialized)) [
    | inl lt ↦
        not_occupied (p.slots i) (count-zero p.slots p.initialized (f.counted ∙ e) i (ground arith))
    | inr ge ↦ rw (at, f.untouched i (ground arith)) refl
  ]
