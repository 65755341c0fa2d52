-- ===== src/Slab/Remove.antt =====
-- crates/monoio/src/utils/slab.rs, `Slab::remove` and `Slab::mark_remove`: what they do to the map
-- of keys and elements.
use nirvana_dev.Prelude.{
  ℕ, zero, suc, ◌+◌, ◌-◌, ◌%◌, ◌^◌, ◌≤◌, ◌<◌, ◌≡◌, ◌≢◌, refl, sym, ◌∙◌, true, ◌&&◌, Option, none,
  some, arith, ltb, leb, ◌==◌, Bool-cases, Option-cases, inl, inr, ◌⊎◌,
}
use nirvana_dev.Slab.Page.{Page, is_empty}
use nirvana_dev.Slab.Page.Chain.{put-other, put-same}
use nirvana_dev.Slab.Page.Fine.{at}
use nirvana_dev.Slab.Page.Remove.{RemovePost, nothing, removed, remove-Post}
use nirvana_dev.Slab.{
  Slab, num_pages, compact_interval, get_page_id, with_page, drop_page, last_page, compact,
  mark_remove, remove_in, remove,
}
use nirvana_dev.Slab.PageId.{get_page_id-le}
use nirvana_dev.Slab.Fine.{
  absent, PlaceFine-IsPlaced, in_page-empty, IsFine, in_page, in_page-at, in_page-keeps, lookup,
  put-PlaceFine, with_page-IsFine, lookup-with_page_other, lookup-with_page_same,
}

module _ {T : Type 0} where
  -- Two slabs in order that hold the same elements under the same keys.
  pub record Alike (s s' : Slab T) : Type 0 where
    pub fine : IsFine s'
    pub same : (k : ℕ) → lookup s' k ≡ lookup s k

  last_page-found :
      (n : ℕ) (s : Slab T)
      → (last_page n s ≡ none)
        ⊎ ((i : ℕ) × (p : Page T) × (last_page n s ≡ some (i, p)) × (s.pages i ≡ some p))
  unfolding last_page
  last_page-found zero s = inl refl
  last_page-found (suc n) s = elim (Option-cases (s.pages n)) [
    | inl e ↦ rw (last_page, e) (last_page-found n s)
    | inr (p, e) ↦ inr (n, p, rw (last_page, e) refl, e)
  ]

  used_none : (p : Page T) → is_empty p ≡ true → p.used ≡ 0
  unfolding is_empty
  used_none p e = ground arith

  -- A page without elements may be dropped.
  drop-Alike :
      (s : Slab T) (i : ℕ) (p : Page T)
      → IsFine s
      → s.pages i ≡ some p
      → is_empty p ≡ true
      → Alike s (drop_page s i)
  unfolding drop_page lookup in_page
  drop-Alike s i p f e empty = record {
    fine = record { places = put-PlaceFine s.pages i none f.places absent; start = f.start };
    same = λ k. elim (Bool-cases (get_page_id k == i)) [
      | inl q ↦
          let id : get_page_id k ≡ i = ground arith in
          let (_, placed) = PlaceFine-IsPlaced i (s.pages i) p (f.places i) e in
          rw (id, put-same s.pages i none, e)
            (sym (in_page-empty p k placed.fine (used_none p empty)))
      | inr q ↦ rw (put-other s.pages i none (get_page_id k) (ground arith)) refl
    ];
  }

  compact-Alike : (s : Slab T) → IsFine s → Alike s (compact s)
  unfolding compact
  compact-Alike s f = elim (last_page-found num_pages s) [
    | inl none_left ↦ rw (compact, none_left) (record { fine = f; same = λ k. refl })
    | inr (i, p, last, e) ↦ elim (Bool-cases (is_empty p && ltb 0 i)) [
      | inl q ↦ rw (compact, last, q) (drop-Alike s i p f e (ground arith))
      | inr q ↦ rw (compact, last, q) (record { fine = f; same = λ k. refl })
    ]
  ]

  pub mark_remove-Alike : (s : Slab T) → IsFine s → Alike s (mark_remove s)
  unfolding mark_remove lookup
  mark_remove-Alike s f =
      let g = (s.generation + 1) % 2 ^ 32 in
      elim (Bool-cases (g % compact_interval == 0)) [
        | inl e ↦
            let s₀ = record s { generation = g; w_page_id = 0 } in
            let a = compact-Alike s₀ (record { places = f.places; start = omega arith }) in
            rw e (record { fine = a.fine; same = a.same })
        | inr e ↦
            rw e (record { fine = record { places = f.places; start = f.start }; same = λ k. refl })
      ]

  -- The element is gone, and no other key is concerned.
  pub record Taken (s : Slab T) (key : ℕ) (o : Option T) (s' : Slab T) : Type 0 where
    pub fine : IsFine s'
    pub found : lookup s key ≡ o
    pub gone : lookup s' key ≡ none
    pub keeps : (k : ℕ) → k ≢ key → lookup s' k ≡ lookup s k

  lookup-page :
      (s : Slab T) (key : ℕ) (p : Page T)
      → s.pages (get_page_id key) ≡ some p
      → lookup s key ≡ in_page (some p) key
  unfolding lookup
  lookup-page s key p e = rw e refl

  write-keeps :
      (s : Slab T) (id slot k : ℕ) (p p' : Page T)
      → s.pages id ≡ some p
      → p'.prev_len ≡ p.prev_len
      → ((j : ℕ) → j ≢ slot → at p' j ≡ at p j)
      → k ≢ slot + p.prev_len
      → lookup (with_page s id p') k ≡ lookup s k
  write-keeps s id slot k p p' e same keeps ne = elim (Bool-cases (get_page_id k == id)) [
    | inl q ↦
        let here : get_page_id k ≡ id = ground arith in
        lookup-with_page_same s id k p' here
        ∙ in_page-keeps p p' slot k same keeps ne
        ∙ sym (lookup-page s k p (rw here e))
    | inr q ↦ lookup-with_page_other s id k p' (ground arith)
  ]

  module _ (s : Slab T) (key : ℕ) (p : Page T) (f : IsFine s)
      (e : s.pages (get_page_id key) ≡ some p) (le : p.prev_len ≤ key) where
    written-Taken :
        (o : Option T) (p' : Page T)
        → RemovePost p (key - p.prev_len) o p'
        → Taken s key o (with_page s (get_page_id key) p')
    written-Taken none p' (nothing absent_there) =
        let id = get_page_id key in
        let slot = key - p.prev_len in
        let at_slot : key ≡ slot + p.prev_len = omega arith in
        let (lt, placed) = PlaceFine-IsPlaced id (s.pages id) p (f.places id) e in
        record {
          fine = with_page-IsFine s id p f lt placed;
          found = lookup-page s key p e ∙ in_page-at p slot key at_slot ∙ absent_there;
          gone =
              lookup-with_page_same s id key p refl ∙ in_page-at p slot key at_slot ∙ absent_there;
          keeps = λ k ne. write-keeps s id slot k p p e refl (λ j _. refl) (λ q. ne (omega arith));
        }
    written-Taken (some v) p' (removed _ _ present_there r) =
        let id = get_page_id key in
        let slot = key - p.prev_len in
        let same = r.same_prev in
        let at_slot : key ≡ slot + p.prev_len = omega arith in
        let at_slot' : key ≡ slot + p'.prev_len = omega arith in
        let (lt, placed) = PlaceFine-IsPlaced id (s.pages id) p (f.places id) e in
        let begins = placed.begins in
        record {
          fine = with_page-IsFine s id p' f lt (record {
            fine = r.fine;
            sized = r.same_size ∙ placed.sized;
            begins = rw same begins;
          });
          found = lookup-page s key p e ∙ in_page-at p slot key at_slot ∙ present_there;
          gone = lookup-with_page_same s id key p' refl ∙ in_page-at p' slot key at_slot' ∙ r.gone;
          keeps = λ k ne. write-keeps s id slot k p p' e same r.keeps (λ q. ne (omega arith));
        }

    remove_page-Taken :
        (o : Option T) × (s' : Slab T) × (remove s key ≡ some (o, s')) × Taken s key o s'
    unfolding remove remove_in
    remove_page-Taken =
        let id = get_page_id key in
        let inside : leb p.prev_len key ≡ true = ground arith in
        let (lt, placed) = PlaceFine-IsPlaced id (s.pages id) p (f.places id) e in
        let (o, p', run, post) = remove-Post p (key - p.prev_len) placed.fine in
        let s₁ = with_page s id p' in
        let t = written-Taken o p' post in
        let a = mark_remove-Alike s₁ t.fine in
        (
          o,
          mark_remove s₁,
          rw (e, remove_in, inside, run) refl,
          record {
            fine = a.fine;
            found = t.found;
            gone = a.same key ∙ t.gone;
            keeps = λ k ne. a.same k ∙ t.keeps k ne;
          },
        )

  -- From a slab in order, removing by a key of 64 bits returns the element under it, if there is
  -- one, and leaves the slab in order without it, with all other keys as they were.
  pub remove-Taken :
      (s : Slab T) (key : ℕ)
      → IsFine s
      → key < 2 ^ 64
      → (o : Option T) × (s' : Slab T) × (remove s key ≡ some (o, s')) × Taken s key o s'
  unfolding remove remove_in lookup in_page
  remove-Taken s key f lt =
      let id = get_page_id key in
      elim (Option-cases (s.pages id)) [
        | inl e ↦
            let free : lookup s key ≡ none = rw (lookup, e) refl in
            (
              none,
              s,
              rw (remove, e) refl,
              record { fine = f; found = free; gone = free; keeps = λ k ne. refl },
            )
        | inr (p, e) ↦
            let (small, placed) = PlaceFine-IsPlaced id (s.pages id) p (f.places id) e in
            let le = get_page_id-le key lt in
            let begins = placed.begins in remove_page-Taken s key p f e (omega arith)
      ]
