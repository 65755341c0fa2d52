-- ===== src/Slab/Insert.antt =====
-- crates/monoio/src/utils/slab.rs, `Slab::insert`: what it does to the map of keys and elements.
use nirvana_dev.Prelude.{
  ℕ, zero, suc, ◌+◌, ◌-◌, ◌≤◌, ◌<◌, ◌≡◌, ◌≢◌, refl, sym, ◌∙◌, Option, none, some, arith, ◌==◌,
  Bool-cases, inl, inr,
}
use mathlib.Core.Path.{subst}
use nirvana_dev.Slab.Page.{Page, alloc_set}
use nirvana_dev.Slab.Page.Chain.{put-other}
use nirvana_dev.Slab.Page.Fine.{at}
use nirvana_dev.Slab.Page.Alloc.{AllocPost, no_room, stored, Stored, alloc_set-Post}
use nirvana_dev.Slab.{Slab, num_pages, get_page_id, page_or_new, with_page, insert_from, insert}
use nirvana_dev.Slab.PageId.{get_page_id-inside}
use nirvana_dev.Slab.Fine.{
  IsPlaced, IsFine, in_page-at, in_page-keeps, lookup, page_or_new-IsPlaced, with_page-IsFine,
  lookup-with_page_other, lookup-with_page_same, in_page-page_or_new,
}

module _ {T : Type 0} where
  -- The element is under a key that was free, and no other key is concerned.
  pub record Inserted (s : Slab T) (v : T) (key : ℕ) (s' : Slab T) : Type 0 where
    pub fine : IsFine s'
    pub was_free : lookup s key ≡ none
    pub holds : lookup s' key ≡ some v
    pub keeps : (k : ℕ) → k ≢ key → lookup s' k ≡ lookup s k

  -- Every page from the one where the search began is full.
  pub data InsertPost (begin : ℕ) (s : Slab T) (v : T) : Option (ℕ × Slab T) → Type 0 where
    out_of_slot :
        ((i : ℕ) → begin ≤ i → i < num_pages → (page_or_new s i).used ≡ (page_or_new s i).size)
        → InsertPost begin s v none
    inserted : (key : ℕ) (s' : Slab T) → Inserted s v key s' → InsertPost begin s v (some (key, s'))

  insert_at : Slab T → ℕ → Page T → Slab T
  insert_at s i p = record (with_page s i p) { w_page_id = i }

  -- A page written at one slot, seen from the slab.
  pub with_page-keeps :
      (s : Slab T) (i slot key : ℕ) (p' : Page T)
      → p'.prev_len ≡ (page_or_new s i).prev_len
      → ((j : ℕ) → j ≢ slot → at p' j ≡ at (page_or_new s i) j)
      → key ≢ slot + p'.prev_len
      → lookup (with_page s i p') key ≡ lookup s key
  with_page-keeps s i slot key p' same keeps ne = elim (Bool-cases (get_page_id key == i)) [
    | inl e ↦
        let id : get_page_id key ≡ i = ground arith in
        lookup-with_page_same s i key p' id
        ∙ in_page-keeps (page_or_new s i) p' slot key same keeps (λ q. ne (omega arith))
        ∙ in_page-page_or_new s i key id
    | inr e ↦ lookup-with_page_other s i key p' (ground arith)
  ]

  Stored-Inserted :
      (s : Slab T) (v : T) (i slot : ℕ) (p' : Page T)
      → IsFine s
      → i < num_pages
      → Stored (page_or_new s i) v slot p'
      → Inserted s v (slot + p'.prev_len) (insert_at s i p')
  unfolding insert_at lookup with_page
  Stored-Inserted s v i slot p' f lt st =
      let q = page_or_new-IsPlaced s i f in
      let key = slot + p'.prev_len in
      let same = st.same_prev in
      let begins = q.begins in
      let sized = q.sized in
      let id : get_page_id key ≡ i = get_page_id-inside key i lt (omega arith) (omega arith) in
      let placed : IsPlaced i p' = record {
        fine = st.fine;
        sized = st.same_size ∙ q.sized;
        begins = rw same begins;
      } in
      let whole = with_page-IsFine s i p' f lt placed in
      record {
        fine = record { places = whole.places; start = lt };
        was_free =
            sym (in_page-page_or_new s i key id)
            ∙ in_page-at (page_or_new s i) slot key (rw same refl)
            ∙ st.was_vacant;
        holds = lookup-with_page_same s i key p' id ∙ in_page-at p' slot key refl ∙ st.holds;
        keeps = λ k ne. with_page-keeps s i slot k p' same st.keeps ne;
      }

  -- A full page was there before, and the loop leaves it as it is.
  skip-lookup : (s : Slab T) (i k : ℕ) → lookup (with_page s i (page_or_new s i)) k ≡ lookup s k
  skip-lookup s i k =
      with_page-keeps s i (k + 1) k (page_or_new s i) refl (λ j ne. refl) (λ e. omega arith)

  skip-page :
      (s : Slab T) (i j : ℕ)
      → i < j
      → page_or_new (with_page s i (page_or_new s i)) j ≡ page_or_new s j
  unfolding with_page
  skip-page s i j lt = rw (put-other s.pages i (some (page_or_new s i)) j (λ e. omega arith)) refl

  later :
      (s : Slab T) (v : T) (i : ℕ) (o : Option (ℕ × Slab T))
      → (page_or_new s i).used ≡ (page_or_new s i).size
      → InsertPost (i + 1) (with_page s i (page_or_new s i)) v o
      → InsertPost i s v o
  later s v i none full (out_of_slot rest) = out_of_slot (λ j le lt. elim (Bool-cases (j == i)) [
    | inl e ↦ let same : j ≡ i = ground arith in rw same full
    | inr e ↦
        let after : i < j = ground arith in
        rw (sym (skip-page s i j after)) (rest j (omega arith) lt)
  ])
  later s v i (some _) full (inserted key s' r) = inserted key s' (record {
    fine = r.fine;
    was_free = sym (skip-lookup s i key) ∙ r.was_free;
    holds = r.holds;
    keeps = λ k ne. r.keeps k ne ∙ skip-lookup s i k;
  })

  -- One turn of the loop, where the later turns do what they promise.
  insert_turn :
      (n i : ℕ) (s : Slab T) (v : T) (o : Option ℕ) (p' : Page T)
      → IsFine s
      → i < num_pages
      → alloc_set (page_or_new s i) v ≡ some (o, p')
      → AllocPost (page_or_new s i) v o p'
      → ((s' : Slab T)
          → IsFine s'
          → (o : Option (ℕ × Slab T)) × (insert_from n (i + 1) s' v ≡ some o)
            × InsertPost (i + 1) s' v o)
      → (o : Option (ℕ × Slab T)) × (insert_from (suc n) i s v ≡ some o) × InsertPost i s v o
  unfolding insert_from insert_at
  insert_turn n i s v none p' f lt run (no_room full) rest =
      let s' = with_page s i (page_or_new s i) in
      let whole = with_page-IsFine s i (page_or_new s i) f lt (page_or_new-IsPlaced s i f) in
      let (o, go, post) = rest s' whole in (o, rw (insert_from, run) go, later s v i o full post)
  insert_turn n i s v (some slot) p' f lt run (stored _ _ room st) rest = (
    some (slot + p'.prev_len, insert_at s i p'),
    rw (insert_from, run) refl,
    inserted (slot + p'.prev_len) (insert_at s i p') (Stored-Inserted s v i slot p' f lt st),
  )

  insert_from-Post :
      (left i : ℕ) (s : Slab T) (v : T)
      → left + i ≡ num_pages
      → IsFine s
      → (o : Option (ℕ × Slab T)) × (insert_from left i s v ≡ some o) × InsertPost i s v o
  unfolding insert_from
  insert_from-Post zero i s v e f = (none, refl, out_of_slot (λ j le lt. absurd (omega arith)))
  insert_from-Post (suc n) i s v e f =
      let q = page_or_new-IsPlaced s i f in
      let (o, p', run, post) = alloc_set-Post (page_or_new s i) v q.fine in
      insert_turn n i s v o p' f (omega arith) run post
        (λ s' f'. insert_from-Post n (i + 1) s' v (omega arith) f')

  -- In a slab in order, an insertion does not fault. It either finds every page from the cached one
  -- on full, or puts the element under a free key and leaves all other keys as they were; the slab
  -- stays in order.
  pub insert-Post :
      (s : Slab T) (v : T)
      → IsFine s
      → (o : Option (ℕ × Slab T)) × (insert s v ≡ some o) × InsertPost s.w_page_id s v o
  unfolding insert
  insert-Post s v f =
      let start = f.start in
      insert_from-Post (num_pages - s.w_page_id) s.w_page_id s v (omega arith) f

  inserted-IsFine :
      {s : Slab T} {v : T} {begin key : ℕ} {s' : Slab T}
      → InsertPost begin s v (some (key, s'))
      → IsFine s'
  inserted-IsFine (inserted _ _ r) = r.fine

  -- A slab is in order after an insertion.
  pub insert-IsFine :
      (s : Slab T) (v : T) (key : ℕ) (s' : Slab T)
      → IsFine s
      → insert s v ≡ some (some (key, s'))
      → IsFine s'
  insert-IsFine s v key s' f e =
      let (o, run, post) = insert-Post s v f in
      let same : o ≡ some (key, s') = cc in
      inserted-IsFine (subst (λ o. InsertPost s.w_page_id s v o) same post)
