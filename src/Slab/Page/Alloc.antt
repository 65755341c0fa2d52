-- ===== src/Slab/Page/Alloc.antt =====
-- crates/monoio/src/utils/slab.rs, `Page::alloc` and `Page::set` on a page in order.
use nirvana_dev.Prelude.{
  ℕ, suc, ◌+◌, ◌<◌, ◌≡◌, ◌≢◌, refl, ◌∙◌, Option, none, some, arith, ◌==◌, Bool-cases, inl, inr,
}
use nirvana_dev.Slab.Page.{vacant, occupied, Page, put, alloc, set, is_full, assume_init}
use nirvana_dev.Slab.Page.Chain.{
  Chain, Chain-pop, count-put, count-append, Chain-length, Chain-cases, one_if_occupied, put-same,
  put-other,
}
use nirvana_dev.Slab.Page.{alloc_set}
use nirvana_dev.Slab.Page.Fine.{IsFine, at, written-put}

module _ {T : Type 0} where
  -- An element came to be at a vacant slot, and nothing else changed.
  pub record Stored (p : Page T) (v : T) (i : ℕ) (p' : Page T) : Type 0 where
    pub fine : IsFine p'
    pub inside : i < p.size
    pub was_vacant : at p i ≡ none
    pub holds : at p' i ≡ some v
    pub keeps : (j : ℕ) → j ≢ i → at p' j ≡ at p j
    pub same_size : p'.size ≡ p.size
    pub same_prev : p'.prev_len ≡ p.prev_len
    pub one_more : p'.used ≡ p.used + 1

  pub data AllocPost (p : Page T) (v : T) : Option ℕ → Page T → Type 0 where
    no_room : p.used ≡ p.size → AllocPost p v none p
    stored : (i : ℕ) (p' : Page T) → p.used < p.size → Stored p v i p' → AllocPost p v (some i) p'

  -- The slot written is the first that was never written.
  grown : (p : Page T) → T → Page T
  grown p v = record p {
    slots = put p.slots p.next (some (occupied v));
    initialized = p.initialized + 1;
    next = p.next + 1;
    used = p.used + 1;
  }

  grown-Stored :
      (p : Page T) (v : T)
      → IsFine p
      → p.used < p.size
      → p.next ≡ p.initialized
      → Stored p v p.next (grown p v)
  unfolding grown at Chain
  grown-Stored p v f room e =
      let s = put p.slots p.next (some (occupied v)) in
      let done : f.unused ≡ 0 = Chain-length p.slots p.initialized p.next f.unused 0 f.chain e in
      let empty : p.slots p.next ≡ none = f.untouched p.next (omega arith) in
      record {
        fine = record {
          unused = 0;
          chain = omega arith;
          full = omega arith;
          bound = omega arith;
          counted = rw (e, count-append p.slots p.initialized v) (omega arith);
          written = λ j lt.
              written-put p.slots p.next p.initialized (occupied v) f.written j (ground arith);
          untouched = λ i le.
              put-other p.slots p.next (some (occupied v)) i (omega arith)
              ∙ f.untouched i (omega arith);
        };
        inside = omega arith;
        was_vacant = rw (at, empty) refl;
        holds = rw (at, put-same p.slots p.next (some (occupied v))) refl;
        keeps = λ j ne. rw (at, put-other p.slots p.next (some (occupied v)) j ne) refl;
        same_size = refl;
        same_prev = refl;
        one_more = refl;
      }

  reused : (p : Page T) → T → ℕ → Page T
  reused p v n = record p {
    slots = put p.slots p.next (some (occupied v));
    next = n;
    used = p.used + 1;
  }

  reused-Stored :
      (p : Page T) (v : T) (n k : ℕ)
      → (f : IsFine p) → f.unused ≡ suc k
      → p.next < p.initialized
      → p.slots p.next ≡ some (vacant n)
      → Chain p.slots p.initialized n k
      → Stored p v p.next (reused p v n)
  unfolding reused at
  reused-Stored p v n k f u lt e c = record {
    fine = record {
      unused = k;
      chain = Chain-pop p.slots p.initialized p.next n k (some (occupied v)) lt e c;
      full = omega arith;
      bound = f.bound;
      counted =
          let added = count-put p.slots p.next p.initialized (some (occupied v)) lt in
          let empty : one_if_occupied (p.slots p.next) ≡ 0 = rw e refl in omega arith;
      written = λ j lt. written-put p.slots p.next p.initialized (occupied v) f.written j (inl lt);
      untouched =
          λ i le. put-other p.slots p.next (some (occupied v)) i (omega arith) ∙ f.untouched i le;
    };
    inside = omega arith;
    was_vacant = rw (at, e) refl;
    holds = rw (at, put-same p.slots p.next (some (occupied v))) refl;
    keeps = λ j ne. rw (at, put-other p.slots p.next (some (occupied v)) j ne) refl;
    same_size = refl;
    same_prev = refl;
    one_more = refl;
  }

  alloc_set-full :
      (p : Page T) (v : T) → p.used ≡ p.size → p.next ≡ p.size → alloc_set p v ≡ some (none, p)
  unfolding alloc_set alloc is_full
  alloc_set-full p v e last = ground arith

  alloc_set-grown :
      (p : Page T) (v : T)
      → p.used < p.size
      → p.next ≡ p.initialized
      → p.next < p.size
      → alloc_set p v ≡ some (some p.next, grown p v)
  unfolding alloc_set alloc set grown is_full
  alloc_set-grown p v room e lt = ground arith

  alloc_set-reused :
      (p : Page T) (v : T) (n : ℕ)
      → p.used < p.size
      → p.next < p.initialized
      → p.next < p.size
      → p.slots p.next ≡ some (vacant n)
      → alloc_set p v ≡ some (some p.next, reused p v n)
  unfolding alloc_set alloc set reused is_full assume_init
  alloc_set-reused p v n room lt within e = ground arith

  pub alloc_set-Post :
      (p : Page T) (v : T)
      → IsFine p
      → (o : Option ℕ) × (p' : Page T) × (alloc_set p v ≡ some (o, p')) × AllocPost p v o p'
  alloc_set-Post p v f = elim (Chain-cases p.slots p.initialized p.next f.unused f.chain) [
    | inl (none_left, last) ↦ elim (Bool-cases (p.used == p.size)) [
      | inl e ↦ (none, p, alloc_set-full p v (ground arith) (ground arith), no_room (ground arith))
      | inr e ↦ (
        some p.next,
        grown p v,
        alloc_set-grown p v (ground arith) last (ground arith),
        stored p.next (grown p v) (ground arith) (grown-Stored p v f (ground arith) last),
      )
    ]
    | inr (n, l, count_free, lt, e, c) ↦ (
      some p.next,
      reused p v n,
      alloc_set-reused p v n (omega arith) lt (omega arith) e,
      stored p.next (reused p v n) (omega arith) (reused-Stored p v n l f count_free lt e c),
    )
  ]
