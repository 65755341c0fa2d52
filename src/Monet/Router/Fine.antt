-- ===== src/Monet/Router/Fine.antt =====
-- crates/monet/src/routing/router.rs: a router that was built by its own operations answers every
-- request.
use nirvana_dev.Prelude.{
  ℕ, ◌+◌, ◌<◌, ◌≡◌, refl, sym, ◌∙◌, Option, none, some, List, [], ◌∷◌, ◌++◌, length, get_elem?, set,
  length-append, length-set, arith, ◌==◌, if◌then◌else◌, Bool-cases, Option-cases, inl, inr, ◌⊎◌,
}
use mathlib.Core.Path.{subst}
use nirvana_dev.Monet.MethodRouter.{MethodRouter, Result, ok, err, merge_for_path, fallback_merge}
use nirvana_dev.Monet.Router.{
  UriTree, Endpoint, method_router, route_endpoint, Router, new, node_insert, new_route, merge_at,
  process_route, merge_endpoint, merge_routes, merge_default, merge,
}

-- What is relied on of the tree of paths: nothing matches in the empty tree, and an insertion lets
-- nothing be found but its own value and values that could be found before.
pub record IsTree {Uri Tree : Type 0} (tree : UriTree Uri Tree) : Type 0 where
  pub none_at_first : (x : Uri) → tree.at tree.empty x ≡ none
  pub only_inserted :
      (t t' : Tree) (p x : Uri) (i j : ℕ)
      → tree.insert t p i ≡ some t'
      → tree.at t' x ≡ some j
      → (j ≡ i) ⊎ ((y : Uri) × (tree.at t y ≡ some j))

pub data Gives {A : Type 0} (P : A → Type 0) : Option A → Type 0 where
  stops : Gives P none
  gives : {a : A} → P a → Gives P (some a)

pub given : {A : Type 0} {P : A → Type 0} {o : Option A} {a : A} → o ≡ some a → Gives P o → P a
given e stops = cc
given {P = P} e (gives {a = b} p) = let same : b ≡ _ = cc in subst (λ a. P a) same p

pub Result-cases :
    {E A : Type 0} (x : Result E A) → ((e : E) × (x ≡ err e)) ⊎ ((a : A) × (x ≡ ok a))
Result-cases (ok a) = inr (a, refl)
Result-cases (err e) = inl (e, refl)

module _ {Uri Tree Req Res S : Type 0} (tree : UriTree Uri Tree) (law : IsTree tree) where
  -- Every identifier that a request or a path leads to is that of a route, and every route has a
  -- path.
  pub record IsFine (r : Router Uri Tree Req Res S) : Type 0 where
    pub matched : (x : Uri) (j : ℕ) → tree.at r.node.inner x ≡ some j → j < length r.routes
    pub named : (p : Uri) (j : ℕ) → r.node.path_to_route_id p ≡ some j → j < length r.routes
    pub listed : (j : ℕ) → j < length r.routes → (p : Uri) × (r.node.route_id_to_path j ≡ some p)

  pub new-IsFine : (not_found : Req → Res) → IsFine (new tree not_found)
  unfolding new
  new-IsFine not_found = record {
    matched = λ x j e. let no = law.none_at_first x in cc;
    named = λ p j e. cc;
    listed = λ j lt. absurd (omega arith);
  }

  grown : Router Uri Tree Req Res S → Uri → Endpoint Req Res S → Tree → Router Uri Tree Req Res S
  grown r p e t = record r {
    node = record {
      inner = t;
      route_id_to_path = λ id. if id == length r.routes then some p else r.node.route_id_to_path id;
      path_to_route_id =
          λ q. if tree.same q p then some (length r.routes) else r.node.path_to_route_id q;
    };
    routes = r.routes ++ (e ∷ []);
  }

  grown-IsFine :
      (r : Router Uri Tree Req Res S) (p : Uri) (e : Endpoint Req Res S) (t : Tree)
      → IsFine r
      → tree.insert r.node.inner p (length r.routes) ≡ some t
      → IsFine (grown r p e t)
  unfolding grown
  grown-IsFine r p e t f q =
      let more = length-append r.routes (e ∷ []) in
      record {
        matched = λ x j found.
            elim (law.only_inserted r.node.inner t p x (length r.routes) j q found) [
              | inl same ↦ omega arith
              | inr (y, old) ↦ let lt = f.matched y j old in omega arith
            ];
        named = λ x j found. elim (Bool-cases (tree.same x p)) [
          | inl s ↦ ground arith
          | inr s ↦
              let here : (if tree.same x p
                    then some (length r.routes)
                    else r.node.path_to_route_id x)
                  ≡ r.node.path_to_route_id x =
                rw s refl in
              let lt = f.named x j (sym here ∙ found) in omega arith
        ];
        listed = λ j lt. elim (Bool-cases (j == length r.routes)) [
          | inl s ↦ (p, rw s refl)
          | inr s ↦ let (x, known) = f.listed j (ground arith) in (x, rw s known)
        ];
      }

  new_route-Gives :
      (r : Router Uri Tree Req Res S) (p : Uri) (e : Endpoint Req Res S)
      → IsFine r
      → Gives IsFine (new_route tree r p e)
  unfolding new_route node_insert grown
  new_route-Gives r p e f = elim (Option-cases (tree.insert r.node.inner p (length r.routes))) [
    | inl q ↦ rw (new_route, node_insert, q) stops
    | inr (t, q) ↦ rw (new_route, node_insert, q) (gives (grown-IsFine r p e t f q))
  ]

  set-IsFine :
      (r : Router Uri Tree Req Res S) (id : ℕ) (e : Endpoint Req Res S)
      → IsFine r
      → IsFine (record r { routes = set r.routes id e })
  set-IsFine r id e f =
      let same = length-set r.routes id e in
      record {
        matched = λ x j found. rw same (f.matched x j found);
        named = λ x j found. rw same (f.named x j found);
        listed = λ j lt. f.listed j (omega arith);
      }

  merge_at-Gives :
      (r : Router Uri Tree Req Res S) (id : ℕ) (o : Option (Endpoint Req Res S))
      (mr : MethodRouter Req Res S)
      → IsFine r
      → Gives IsFine (merge_at tree r id o mr)
  unfolding merge_at
  merge_at-Gives r id none mr f = gives f
  merge_at-Gives r id (some (route_endpoint _)) mr f = gives f
  merge_at-Gives r id (some (method_router prev)) mr f =
      elim (Result-cases (merge_for_path prev mr)) [
        | inl (x, q) ↦ rw (merge_at, q) stops
        | inr (merged, q) ↦ rw (merge_at, q) (gives (set-IsFine r id (method_router merged) f))
      ]

  pub process_route-Gives :
      (r : Router Uri Tree Req Res S) (p : Uri) (mr : MethodRouter Req Res S)
      → IsFine r
      → Gives IsFine (process_route tree r p mr)
  unfolding process_route
  process_route-Gives r p mr f = elim (Option-cases (r.node.path_to_route_id p)) [
    | inl q ↦ rw (process_route, q) (new_route-Gives r p (method_router mr) f)
    | inr (id, q) ↦ rw (process_route, q) (merge_at-Gives r id (get_elem? r.routes id) mr f)
  ]

  merge_endpoint-Gives :
      (r : Router Uri Tree Req Res S) (p : Uri) (e : Endpoint Req Res S)
      → IsFine r
      → Gives IsFine (merge_endpoint tree r p e)
  unfolding merge_endpoint
  merge_endpoint-Gives r p (method_router mr) f = process_route-Gives r p mr f
  merge_endpoint-Gives r p (route_endpoint h) f = new_route-Gives r p (route_endpoint h) f

  merge_routes-Gives :
      (paths : ℕ → Option Uri) (id : ℕ) (es : List (Endpoint Req Res S))
      (r : Router Uri Tree Req Res S)
      → IsFine r
      → Gives IsFine (merge_routes tree paths id es r)
  unfolding merge_routes
  merge_routes-Gives paths id [] r f = gives f
  merge_routes-Gives paths id (e ∷ es) r f = elim (Option-cases (paths id)) [
    | inl q ↦ rw (merge_routes, q) stops
    | inr (p, q) ↦
        let turn = merge_endpoint-Gives r p e f in
        elim (Option-cases (merge_endpoint tree r p e)) [
          | inl s ↦ rw (merge_routes, q, s) stops
          | inr (r', s) ↦
              rw (merge_routes, q, s) (merge_routes-Gives paths (id + 1) es r' (given s turn))
        ]
  ]

  pub merge-Gives :
      (r other : Router Uri Tree Req Res S) → IsFine r → Gives IsFine (merge tree r other)
  unfolding merge
  merge-Gives r other f =
      let loop = merge_routes-Gives other.node.route_id_to_path 0 other.routes r f in
      elim (Option-cases (merge_default r.default_fallback other.default_fallback)) [
        | inl q ↦ rw (merge, q) stops
        | inr (d, q) ↦
            elim (Option-cases (fallback_merge r.catch_all_fallback other.catch_all_fallback)) [
              | inl s ↦ rw (merge, q, s) stops
              | inr (g, s) ↦
                  elim (Option-cases
                    (merge_routes tree other.node.route_id_to_path 0 other.routes r)) [
                      | inl m ↦ rw (merge, q, s, m) stops
                      | inr (r', m) ↦
                          let f' = given m loop in
                          rw (merge, q, s, m)
                            (gives (record {
                              matched = f'.matched;
                              named = f'.named;
                              listed = f'.listed;
                            }))
                    ]
            ]
      ]
