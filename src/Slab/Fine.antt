-- ===== src/Slab/Fine.antt =====
-- crates/monoio/src/utils/slab.rs: what holds of a slab between its operations, and what each
-- operation does to the elements.
use nirvana_dev.Prelude.{
  ℕ, ◌+◌, ◌-◌, ◌*◌, ◌^◌, ◌≤◌, ◌<◌, ◌≡◌, ◌≢◌, refl, sym, true, Option, none, some, arith, leb, ◌==◌,
  Bool-cases, inl, inr,
}
use nirvana_dev.Slab.Page.{Page, put, alloc_set}
use nirvana_dev.Slab.Page
use nirvana_dev.Slab.Page.Chain.{put-same, put-other}
use nirvana_dev.Slab.Page.Fine.{at, at-empty, new-IsFine}
use nirvana_dev.Slab.Page.Remove.{get_entry-at}
use nirvana_dev.Slab.{
  Slab, new, num_pages, get_page_id, or_new, page_or_new, with_page, get, get_in, index_in,
}
use nirvana_dev.Slab.PageId.{get_page_id-le}
use nirvana_dev.Prelude.Words.Powers.{pow_pos}

module _ {T : Type 0} where
  -- A page stands at its place, with its size.
  pub record IsPlaced (i : ℕ) (p : Page T) : Type 0 where
    pub fine : Page.Fine.IsFine p
    pub sized : p.size ≡ 64 * 2 ^ i
    pub begins : p.prev_len + 64 ≡ 64 * 2 ^ i

  pub data PlaceFine (i : ℕ) : Option (Page T) → Type 0 where
    absent : PlaceFine i none
    present : (p : Page T) → i < num_pages → IsPlaced i p → PlaceFine i (some p)

  pub record IsFine (s : Slab T) : Type 0 where
    pub places : (i : ℕ) → PlaceFine i (s.pages i)
    pub start : s.w_page_id < num_pages

  unfoldable pub in_page : Option (Page T) → ℕ → Option T
  in_page none key = none
  in_page (some p) key = elim (index_in p key) [ none ↦ none | some i ↦ at p i ]

  -- The element under a key: the map that the slab stands for.
  unfoldable pub lookup : Slab T → ℕ → Option T
  lookup s key = in_page (s.pages (get_page_id key)) key

  new-IsPlaced : (i : ℕ) → IsPlaced i (Page.new {T = T} (64 * 2 ^ i) (64 * 2 ^ i - 64))
  unfolding Page.new
  new-IsPlaced i =
      let pos = pow_pos i in
      record {
        fine = new-IsFine (64 * 2 ^ i) (64 * 2 ^ i - 64);
        sized = refl;
        begins = omega arith;
      }

  pub PlaceFine-IsPlaced :
      (i : ℕ) (o : Option (Page T)) (p : Page T)
      → PlaceFine i o
      → o ≡ some p
      → (i < num_pages) × IsPlaced i p
  PlaceFine-IsPlaced i none p f e = cc
  PlaceFine-IsPlaced i (some q) p (present _ lt placed) e =
      let same : q ≡ p = cc in rw (sym same) (lt, placed)

  pub in_page-empty :
      (p : Page T) (key : ℕ) → Page.Fine.IsFine p → p.used ≡ 0 → in_page (some p) key ≡ none
  unfolding in_page
  in_page-empty p key f e = elim (Bool-cases (leb p.prev_len key)) [
    | inl q ↦ rw (in_page, q) (at-empty p f e (key - p.prev_len))
    | inr q ↦ rw (in_page, q) refl
  ]

  pub in_page-at : (p : Page T) (i key : ℕ) → key ≡ i + p.prev_len → in_page (some p) key ≡ at p i
  unfolding in_page
  in_page-at p i key e =
      let inside : leb p.prev_len key ≡ true = ground arith in
      let same : key - p.prev_len ≡ i = omega arith in rw (in_page, inside, same) refl

  -- Two pages at one place that differ at one slot.
  pub in_page-keeps :
      (p p' : Page T) (i key : ℕ)
      → p'.prev_len ≡ p.prev_len
      → ((j : ℕ) → j ≢ i → at p' j ≡ at p j)
      → key ≢ i + p.prev_len
      → in_page (some p') key ≡ in_page (some p) key
  unfolding in_page
  in_page-keeps p p' i key same keeps ne = elim (Bool-cases (leb p.prev_len key)) [
    | inl e ↦ rw (in_page, same, e) (keeps (key - p.prev_len) (λ q. ne (ground arith)))
    | inr e ↦ rw (in_page, same, e) refl
  ]

  or_new-IsPlaced : (i : ℕ) (o : Option (Page T)) → PlaceFine i o → IsPlaced i (or_new i o)
  unfolding or_new
  or_new-IsPlaced i none _ = new-IsPlaced i
  or_new-IsPlaced i (some p) (present _ lt q) = q

  pub page_or_new-IsPlaced : (s : Slab T) (i : ℕ) → IsFine s → IsPlaced i (page_or_new s i)
  page_or_new-IsPlaced s i f = or_new-IsPlaced i (s.pages i) (f.places i)

  -- A place after its page was written.
  pub put-PlaceFine :
      (pages : ℕ → Option (Page T)) (i : ℕ) (o : Option (Page T))
      → ((j : ℕ) → PlaceFine j (pages j))
      → PlaceFine i o
      → (j : ℕ) → PlaceFine j (put pages i o j)
  unfolding put
  put-PlaceFine pages i o f q j = elim (Bool-cases (j == i)) [
    | inl e ↦ let same : j ≡ i = ground arith in rw (e, same) q
    | inr e ↦ rw e (f j)
  ]

  pub with_page-IsFine :
      (s : Slab T) (i : ℕ) (p : Page T)
      → IsFine s
      → i < num_pages
      → IsPlaced i p
      → IsFine (with_page s i p)
  unfolding with_page
  with_page-IsFine s i p f lt q = record {
    places = put-PlaceFine s.pages i (some p) f.places (present p lt q);
    start = f.start;
  }

  -- A key of another page is not concerned.
  pub lookup-with_page_other :
      (s : Slab T) (i key : ℕ) (p : Page T)
      → get_page_id key ≢ i
      → lookup (with_page s i p) key ≡ lookup s key
  unfolding lookup with_page
  lookup-with_page_other s i key p ne = rw (put-other s.pages i (some p) (get_page_id key) ne) refl

  pub lookup-with_page_same :
      (s : Slab T) (i key : ℕ) (p : Page T)
      → get_page_id key ≡ i
      → lookup (with_page s i p) key ≡ in_page (some p) key
  unfolding lookup with_page
  lookup-with_page_same s i key p e = rw (e, put-same s.pages i (some p)) refl

  in_page-or_new :
      (i key : ℕ) (o : Option (Page T)) → in_page (some (or_new i o)) key ≡ in_page o key
  unfolding in_page or_new Page.new at
  in_page-or_new i key none = ground arith
  in_page-or_new i key (some p) = refl

  -- A page that is created holds nothing.
  pub in_page-page_or_new :
      (s : Slab T) (i key : ℕ)
      → get_page_id key ≡ i
      → in_page (some (page_or_new s i)) key ≡ lookup s key
  unfolding lookup
  in_page-page_or_new s i key e = rw e (in_page-or_new i key (s.pages i))

  get_in-in_page :
      (i key : ℕ) (o : Option (Page T))
      → PlaceFine i o
      → 64 * 2 ^ i ≤ key + 64
      → get_in o key ≡ some (in_page o key)
  unfolding get_in in_page
  get_in-in_page i key none f le = refl
  get_in-in_page i key (some p) (present _ lt q) le =
      let inside : leb p.prev_len key ≡ true = ground arith in
      rw (get_in, in_page, inside) (get_entry-at p (key - p.prev_len) q.fine)

  -- In a slab in order, a read by a key of 64 bits gives the element under it, and never goes out
  -- of bounds.
  pub get-lookup :
      (s : Slab T) (key : ℕ) → IsFine s → key < 2 ^ 64 → get s key ≡ some (lookup s key)
  unfolding get lookup
  get-lookup s key f lt =
      let id = get_page_id key in
      get_in-in_page id key (s.pages id) (f.places id) (get_page_id-le key lt)

  pub new_slab-IsFine : IsFine (new {T = T})
  unfolding new
  new_slab-IsFine = record { places = λ i. absent; start = omega arith }
