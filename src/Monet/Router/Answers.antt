-- ===== src/Monet/Router/Answers.antt =====
-- crates/monet/src/routing/router.rs, `call_with_state`: what a router answers, and which routers
-- there are.
use nirvana_dev.Prelude.{
  ℕ, zero, suc, ◌<◌, ◌≡◌, refl, ap, some, List, [], ◌∷◌, length, get_elem?, map, Option-cases, inl,
  inr, arith,
}
use nirvana_dev.Monet.MethodRouter.{Method, MethodRouter, call_with_state, fallback_call}
use nirvana_dev.Monet.MethodRouter.Dispatch.{call_with_state-with_state, fallback-with_state}
use nirvana_dev.Monet.Router.{
  UriTree, Endpoint, method_router, route_endpoint, Router, new, process_route, merge, fallback,
  endpoint_call, endpoint_with_state, answer_to, router_with_state,
}
use nirvana_dev.Monet.Router.Fine.{
  IsTree, IsFine, given, new-IsFine, process_route-Gives, merge-Gives,
}

in_range : {A : Type 0} (xs : List A) (i : ℕ) → i < length xs → (a : A) × (get_elem? xs i ≡ some a)
in_range [] i lt = absurd (omega arith)
in_range (x ∷ xs) zero lt = (x, refl)
in_range (x ∷ xs) (suc i) lt = in_range xs i (omega arith)

module _ {Uri Tree Req Res S : Type 0} (tree : UriTree Uri Tree) where
  -- The routers that the operations build.
  pub data Built : Router Uri Tree Req Res S → Type 0 where
    made : (not_found : Req → Res) → Built (new tree not_found)
    routed :
        {r : Router Uri Tree Req Res S} (r' : Router Uri Tree Req Res S) (p : Uri)
        (mr : MethodRouter Req Res S)
        → Built r
        → process_route tree r p mr ≡ some r'
        → Built r'
    merged :
        {r other : Router Uri Tree Req Res S} (r' : Router Uri Tree Req Res S)
        → Built r
        → Built other
        → merge tree r other ≡ some r'
        → Built r'
    fell_back :
        {r : Router Uri Tree Req Res S} (handler : S → Req → Res)
        → Built r
        → Built (fallback tree r handler)

  Built-IsFine : (law : IsTree tree) (r : Router Uri Tree Req Res S) → Built r → IsFine tree law r
  unfolding fallback
  Built-IsFine law r (made not_found) = new-IsFine tree law not_found
  Built-IsFine law r (routed {r = r₀} _ p mr b e) =
      given e (process_route-Gives tree law r₀ p mr (Built-IsFine law r₀ b))
  Built-IsFine law r (merged {r = r₀} {other = other} _ b c e) =
      given e (merge-Gives tree law r₀ other (Built-IsFine law r₀ b))
  Built-IsFine law r (fell_back {r = r₀} handler b) =
      let f = Built-IsFine law r₀ b in
      record { matched = f.matched; named = f.named; listed = f.listed }

  module _ (method : Req → Method) (path : Req → Uri) where
    endpoint_call-answers :
        (e : Endpoint Req Res S) (req : Req) (state : S)
        → (res : Res) × (endpoint_call tree method (some e) req state ≡ some res)
    endpoint_call-answers (method_router mr) req state = (call_with_state method mr req state, refl)
    endpoint_call-answers (route_endpoint r) req state = (r req, refl)

    -- Over a path tree that finds only what was inserted, a router that was built by its own
    -- operations answers every request: no identifier that the tree of
    -- paths gives for the path of a request is without a route.
    pub answer_to-Built :
        IsTree tree
        → (r : Router Uri Tree Req Res S) → Built r
        → (req : Req) (state : S)
        → (res : Res) × (answer_to tree method path r req state ≡ some res)
    unfolding answer_to
    answer_to-Built law r b req state =
        let f = Built-IsFine law r b in
        elim (Option-cases (tree.at r.node.inner (path req))) [
          | inl e ↦ (fallback_call r.catch_all_fallback req state, rw (answer_to, e) refl)
          | inr (id, e) ↦
              let (endpoint, q) = in_range r.routes id (f.matched (path req) id e) in
              let (res, answered) = endpoint_call-answers endpoint req state in
              (res, rw (answer_to, e, q) answered)
        ]

module _ {Uri Tree Req Res S : Type 0} (tree : UriTree Uri Tree) (method : Req → Method)
    (path : Req → Uri) where
  endpoint_call-with_state :
      {S₂ : Type 0} (routes : List (Endpoint Req Res S)) (id : ℕ) (req : Req) (state : S)
      (other : S₂)
      → endpoint_call tree method
          (get_elem? (map (endpoint_with_state tree {S₂ = S₂} state) routes) id)
          req
          other
        ≡ endpoint_call tree method (get_elem? routes id) req state
  endpoint_call-with_state [] id req state other = refl
  endpoint_call-with_state (method_router mr ∷ es) zero req state other =
      ap some (call_with_state-with_state method mr req state other)
  endpoint_call-with_state (route_endpoint r ∷ es) zero req state other = refl
  endpoint_call-with_state (e ∷ es) (suc id) req state other =
      endpoint_call-with_state es id req state other

  -- A router that was given its state answers every request as the router does with that state.
  pub answer_to-router_with_state :
      {S₂ : Type 0} (r : Router Uri Tree Req Res S) (req : Req) (state : S) (other : S₂)
      → answer_to tree method path (router_with_state tree {S₂ = S₂} r state) req other
        ≡ answer_to tree method path r req state
  unfolding answer_to router_with_state
  answer_to-router_with_state r req state other =
      elim (Option-cases (tree.at r.node.inner (path req))) [
        | inl e ↦
            rw (answer_to, e) (ap some (fallback-with_state r.catch_all_fallback req state other))
        | inr (id, e) ↦ rw (answer_to, e) (endpoint_call-with_state r.routes id req state other)
      ]
