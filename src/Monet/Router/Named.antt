-- ===== src/Monet/Router/Named.antt =====
-- crates/monet/src/routing/router.rs: the endpoints of paths, and what a registration changes of them.
use nirvana_dev.Prelude.{
  ℕ, zero, suc, ◌<◌, ◌≡◌, ◌≢◌, refl, sym, ap, ◌∙◌, true, false, Option, none, some, List, [], ◌∷◌,
  ◌++◌, length, get_elem?, set, length-append, length-set, get_elem?-append_left,
  get_elem?-append_end, get_elem?-set, get_elem?-set_other, arith, ◌==◌, if◌then◌else◌, Bool-cases,
  Option-cases, inl, inr,
}
use nirvana_dev.Monet.MethodRouter.{MethodRouter}
use nirvana_dev.Monet.Router.{UriTree, Endpoint, method_router, route_endpoint, Router}

module _ {Req Res S : Type 0} where
  -- No endpoint is a plain route.
  abbrev pub AllMethods : List (Endpoint Req Res S) → Type 0
  AllMethods [] = Unit
  AllMethods (method_router mr ∷ es) = AllMethods es
  AllMethods (route_endpoint f ∷ es) = ⊥

  AllMethods-append :
      (es : List (Endpoint Req Res S)) (mr : MethodRouter Req Res S)
      → AllMethods es
      → AllMethods (es ++ method_router mr ∷ [])
  AllMethods-append [] mr h = tt
  AllMethods-append (method_router m ∷ es) mr h = AllMethods-append es mr h
  AllMethods-append (route_endpoint f ∷ es) mr h = h

  AllMethods-set :
      (es : List (Endpoint Req Res S)) (id : ℕ) (mr : MethodRouter Req Res S)
      → AllMethods es
      → AllMethods (set es id (method_router mr))
  AllMethods-set [] id mr h = tt
  AllMethods-set (method_router m ∷ es) zero mr h = h
  AllMethods-set (method_router m ∷ es) (suc id) mr h = AllMethods-set es id mr h
  AllMethods-set (route_endpoint f ∷ es) id mr h = elim h [ ]

  pub AllMethods-get :
      (es : List (Endpoint Req Res S)) (id : ℕ)
      → AllMethods es
      → id < length es
      → (mr : MethodRouter Req Res S) × (get_elem? es id ≡ some (method_router mr))
  AllMethods-get [] id h lt = absurd (omega arith)
  AllMethods-get (method_router m ∷ es) zero h lt = (m, refl)
  AllMethods-get (method_router m ∷ es) (suc id) h lt = AllMethods-get es id h (omega arith)
  AllMethods-get (route_endpoint f ∷ es) id h lt = elim h [ ]

-- The test for keys of the hash map is equality.
pub record IsEquality {Uri Tree : Type 0} (tree : UriTree Uri Tree) : Type 0 where
  pub equal : (p q : Uri) → tree.same p q ≡ true → p ≡ q
  pub reflexive : (p : Uri) → tree.same p p ≡ true

module _ {Uri Tree Req Res S : Type 0} (tree : UriTree Uri Tree) where
  -- The identifiers of two paths differ, and each is that of a method router.
  pub record IsNamed (r : Router Uri Tree Req Res S) : Type 0 where
    pub within : (p : Uri) (j : ℕ) → r.node.path_to_route_id p ≡ some j → j < length r.routes
    pub apart :
        (p q : Uri) (j : ℕ)
        → r.node.path_to_route_id p ≡ some j
        → r.node.path_to_route_id q ≡ some j
        → p ≡ q
    pub methods : AllMethods r.routes

  -- The endpoint of a path.
  pub endpoint_at : Router Uri Tree Req Res S → Uri → Option (Endpoint Req Res S)
  endpoint_at r p = elim (r.node.path_to_route_id p) [
    | none ↦ none
    | some id ↦ get_elem? r.routes id
  ]

  -- The path p has this method router now, and all other paths have what they had.
  pub record IsRegistered (r : Router Uri Tree Req Res S) (p : Uri) (mr : MethodRouter Req Res S)
      (r' : Router Uri Tree Req Res S) : Type 0 where
    pub here : endpoint_at r' p ≡ some (method_router mr)
    pub others : (q : Uri) → q ≢ p → endpoint_at r' q ≡ endpoint_at r q

  pub endpoint_at-named :
      (r : Router Uri Tree Req Res S) (p : Uri) (o : Option ℕ)
      → r.node.path_to_route_id p ≡ o
      → endpoint_at r p ≡ (elim o as (λ _. Option (Endpoint Req Res S)) [
        | none ↦ none
        | some id ↦ get_elem? r.routes id
      ])
  unfolding endpoint_at
  endpoint_at-named r p o e = rw (endpoint_at, e) refl

module _ {Uri Tree Req Res S : Type 0} (tree : UriTree Uri Tree) (law : IsEquality tree) where
  -- A path that is new gets the next identifier.
  module _ (r : Router Uri Tree Req Res S) (p : Uri) (mr : MethodRouter Req Res S) (t : Tree)
      (f : IsNamed tree r) (fresh : r.node.path_to_route_id p ≡ none) where
    abbrev pub grown : Router Uri Tree Req Res S
    grown = record r {
      node = record {
        inner = t;
        route_id_to_path =
            λ id. if id == length r.routes then some p else r.node.route_id_to_path id;
        path_to_route_id =
            λ q. if tree.same q p then some (length r.routes) else r.node.path_to_route_id q;
      };
      routes = r.routes ++ (method_router mr ∷ []);
    }

    grown-here : grown.node.path_to_route_id p ≡ some (length r.routes)
    grown-here = rw (law.reflexive p) refl

    grown-same :
        (q : Uri) → tree.same q p ≡ true → grown.node.path_to_route_id q ≡ some (length r.routes)
    grown-same q s = rw s refl

    grown-other :
        (q : Uri)
        → tree.same q p ≡ false
        → grown.node.path_to_route_id q ≡ r.node.path_to_route_id q
    grown-other q s = rw s refl

    old_id :
        (q : Uri) (j : ℕ)
        → tree.same q p ≡ false
        → grown.node.path_to_route_id q ≡ some j
        → (r.node.path_to_route_id q ≡ some j) × (j < length r.routes)
    old_id q j s e = let old = sym (grown-other q s) ∙ e in (old, f.within q j old)

    new_id :
        (q : Uri) (j : ℕ)
        → tree.same q p ≡ true
        → grown.node.path_to_route_id q ≡ some j
        → (q ≡ p) × (j ≡ length r.routes)
    new_id q j s e = let n = grown-same q s in (law.equal q p s, cc)

    pub grown-IsNamed : IsNamed tree grown
    grown-IsNamed = record {
      within = λ q j e. elim (Bool-cases (tree.same q p)) [
        | inl s ↦
            let n = new_id q j s e in
            omega (arith, n.1, length-append r.routes (method_router mr ∷ []))
        | inr s ↦
            let n = old_id q j s e in
            omega (arith, n.1, length-append r.routes (method_router mr ∷ []))
      ];
      apart = λ q q' j e e'. elim (Bool-cases (tree.same q p)) [
        | inl s ↦
            let n = new_id q j s e in
            elim (Bool-cases (tree.same q' p)) [
              | inl s' ↦ n.0 ∙ sym (new_id q' j s' e').0
              | inr s' ↦ let o = old_id q' j s' e' in absurd (omega (arith, n.1, o.1))
            ]
        | inr s ↦
            let o = old_id q j s e in
            elim (Bool-cases (tree.same q' p)) [
              | inl s' ↦ let n = new_id q' j s' e' in absurd (omega (arith, n.1, o.1))
              | inr s' ↦ f.apart q q' j o.0 (old_id q' j s' e').0
            ]
      ];
      methods = AllMethods-append r.routes mr f.methods;
    }

    grown-others : (q : Uri) → q ≢ p → endpoint_at tree grown q ≡ endpoint_at tree r q
    grown-others q n = elim (Bool-cases (tree.same q p)) [
      | inl s ↦ absurd (n (law.equal q p s))
      | inr s ↦ elim (Option-cases (r.node.path_to_route_id q)) [
        | inl e ↦
            endpoint_at-named tree grown q none (grown-other q s ∙ e)
            ∙ sym (endpoint_at-named tree r q none e)
        | inr (j, e) ↦
            endpoint_at-named tree grown q (some j) (grown-other q s ∙ e)
            ∙ get_elem?-append_left r.routes (method_router mr ∷ []) j (f.within q j e)
            ∙ sym (endpoint_at-named tree r q (some j) e)
      ]
    ]

    pub grown-IsRegistered : IsRegistered tree r p mr grown
    grown-IsRegistered = record {
      here =
          endpoint_at-named tree grown p (some (length r.routes)) grown-here
          ∙ get_elem?-append_end r.routes (method_router mr);
      others = grown-others;
    }

  -- A path that is known keeps its identifier.
  module _ (r : Router Uri Tree Req Res S) (p : Uri) (id : ℕ) (mr : MethodRouter Req Res S)
      (f : IsNamed tree r) (known : r.node.path_to_route_id p ≡ some id) where
    abbrev pub replaced : Router Uri Tree Req Res S
    replaced = record r { routes = set r.routes id (method_router mr) }

    pub replaced-IsNamed : IsNamed tree replaced
    replaced-IsNamed = record {
      within = λ q j e.
          let lt = f.within q j e in omega (arith, lt, length-set r.routes id (method_router mr));
      apart = λ q q' j e e'. f.apart q q' j e e';
      methods = AllMethods-set r.routes id mr f.methods;
    }

    replaced-others : (q : Uri) → q ≢ p → endpoint_at tree replaced q ≡ endpoint_at tree r q
    replaced-others q n = elim (Option-cases (r.node.path_to_route_id q)) [
      | inl e ↦ endpoint_at-named tree replaced q none e ∙ sym (endpoint_at-named tree r q none e)
      | inr (j, e) ↦
          let differs : j ≢ id = λ s. n (f.apart q p id (e ∙ ap some s) known) in
          endpoint_at-named tree replaced q (some j) e
          ∙ get_elem?-set_other r.routes id j (method_router mr) differs
          ∙ sym (endpoint_at-named tree r q (some j) e)
    ]

    pub replaced-IsRegistered : IsRegistered tree r p mr replaced
    replaced-IsRegistered = record {
      here =
          endpoint_at-named tree replaced p (some id) known
          ∙ get_elem?-set r.routes id (method_router mr) (f.within p id known);
      others = replaced-others;
    }
