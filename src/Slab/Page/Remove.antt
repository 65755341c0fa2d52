-- ===== src/Slab/Page/Remove.antt =====
-- crates/monoio/src/utils/slab.rs, `Page::get` and `Page::remove` on a page in order.
use nirvana_dev.Prelude.{
  ℕ, suc, ◌+◌, ◌-◌, ◌<◌, ◌≡◌, ◌≢◌, refl, ◌∙◌, true, Option, none, some, arith, ltb, leb, Bool-cases,
  inl, inr,
}
use nirvana_dev.Slab.Page.{
  Entry, vacant, occupied, Page, put, get, get_entry, read_entry, remove, assume_init,
}
use nirvana_dev.Slab.Page.Chain.{
  Chain, count, Chain-off, count-put, one_if_occupied, put-same, put-other,
}
use nirvana_dev.Slab.Page.Fine.{IsFine, at, written-put}

module _ {T : Type 0} where
  -- A read of a page in order gives the element at the slot, if there is one.
  pub get-at : (p : Page T) (i : ℕ) → IsFine p → get p i ≡ some (at p i)
  unfolding get at assume_init
  get-at p i f = elim (Bool-cases (leb p.initialized i)) [
    | inl e ↦ rw (e, at, f.untouched i (ground arith)) refl
    | inr e ↦
        let (d, q) = f.written i (ground arith) in
        let inside : ltb i p.size ≡ true = ground arith in rw (e, inside, at, q) refl
  ]

  pub get_entry-at : (p : Page T) (i : ℕ) → IsFine p → read_entry (get_entry p i) ≡ some (at p i)
  unfolding get_entry at assume_init
  get_entry-at p i f = elim (Bool-cases (leb p.initialized i)) [
    | inl e ↦ rw (e, at, f.untouched i (ground arith)) refl
    | inr e ↦
        let (d, q) = f.written i (ground arith) in
        let inside : ltb i p.size ≡ true = ground arith in rw (e, inside, at, q) refl
  ]

  -- The element left its slot, which is the next one to be used, and nothing else changed.
  pub record Removed (p : Page T) (i : ℕ) (p' : Page T) : Type 0 where
    pub fine : IsFine p'
    pub gone : at p' i ≡ none
    pub keeps : (j : ℕ) → j ≢ i → at p' j ≡ at p j
    pub same_size : p'.size ≡ p.size
    pub same_prev : p'.prev_len ≡ p.prev_len
    pub one_less : p'.used + 1 ≡ p.used

  pub data RemovePost (p : Page T) (i : ℕ) : Option T → Page T → Type 0 where
    nothing : at p i ≡ none → RemovePost p i none p
    removed : (v : T) (p' : Page T) → at p i ≡ some v → Removed p i p' → RemovePost p i (some v) p'

  freed : Page T → ℕ → Page T
  freed p i = record p { slots = put p.slots i (some (vacant p.next)); next = i; used = p.used - 1 }

  -- An occupied slot is counted.
  counted_once :
      (p : Page T) (i : ℕ) (v : T)
      → i < p.initialized
      → p.slots i ≡ some (occupied v)
      → count (freed p i).slots p.initialized + 1 ≡ count p.slots p.initialized
  unfolding freed
  counted_once p i v lt e =
      let less = count-put p.slots i p.initialized (some (vacant p.next)) lt in
      let one : one_if_occupied (p.slots i) ≡ 1 = rw e refl in omega arith

  freed-Removed :
      (p : Page T) (i : ℕ) (v : T)
      → IsFine p
      → i < p.initialized
      → p.slots i ≡ some (occupied v)
      → Removed p i (freed p i)
  unfolding freed at Chain
  freed-Removed p i v f lt e =
      let less = counted_once p i v lt e in
      record {
        fine = record {
          unused = suc f.unused;
          chain = (
            lt,
            (
              p.next,
              put-same p.slots i (some (vacant p.next)),
              Chain-off p.slots p.initialized i p.next f.unused (some (vacant p.next)) (λ n q. cc)
                  f.chain,
            ),
          );
          full = omega arith;
          bound = f.bound;
          counted = omega arith;
          written = λ j b. written-put p.slots i p.initialized (vacant p.next) f.written j (inl b);
          untouched =
              λ j le. put-other p.slots i (some (vacant p.next)) j (omega arith) ∙ f.untouched j le;
        };
        gone = rw (at, put-same p.slots i (some (vacant p.next))) refl;
        keeps = λ j ne. rw (at, put-other p.slots i (some (vacant p.next)) j ne) refl;
        same_size = refl;
        same_prev = refl;
        one_less = omega arith;
      }

  remove-occupied :
      (p : Page T) (i : ℕ) (v : T)
      → i < p.initialized
      → i < p.size
      → 0 < p.used
      → p.slots i ≡ some (occupied v)
      → remove p i ≡ some (some v, freed p i)
  unfolding remove assume_init freed
  remove-occupied p i v lt le pos e = ground arith

  remove-initialized :
      (p : Page T) (i : ℕ)
      → IsFine p
      → i < p.initialized
      → (d : Entry T) → p.slots i ≡ some d
      → (o : Option T) × (p' : Page T) × (remove p i ≡ some (o, p')) × RemovePost p i o p'
  unfolding remove assume_init at
  remove-initialized p i f lt (vacant n) q = (none, p, ground arith, nothing (rw (at, q) refl))
  remove-initialized p i f lt (occupied v) q =
      let less = counted_once p i v lt q in
      (
        some v,
        freed p i,
        remove-occupied p i v lt (omega arith) (omega arith) q,
        removed v (freed p i) (rw (at, q) refl) (freed-Removed p i v f lt q),
      )

  pub remove-Post :
      (p : Page T) (i : ℕ)
      → IsFine p
      → (o : Option T) × (p' : Page T) × (remove p i ≡ some (o, p')) × RemovePost p i o p'
  unfolding remove at
  remove-Post p i f = elim (Bool-cases (leb p.initialized i)) [
    | inl e ↦
        let q : p.slots i ≡ none = f.untouched i (ground arith) in
        (none, p, rw e refl, nothing (rw (at, q) refl))
    | inr e ↦
        let lt : i < p.initialized = ground arith in
        let (d, q) = f.written i lt in remove-initialized p i f lt d q
  ]
