-- ===== src/Monet/Tests.antt =====
-- crates/monet/src/routing on concrete routers. A request is a method and a path, a response and a
-- state are numbers, and the tree of paths matches them as they are.
use nirvana_dev.Prelude.{
  ℕ, ◌+◌, ◌≡◌, refl, Bool, true, Option, none, some, [], ◌∷◌, ◌==◌, if◌then◌else◌, Bool-cases, inl,
  inr,
}
use mathlib.Core.Path.{ap, sym, ◌∙◌}
use nirvana_dev.Monet.MethodRouter.{
  Method, m_get, m_post, MethodEndpoint, boxed_handler, route, no_endpoint, Fallback, default,
  MethodRouter, call_with_state, with_state, merge_for_path, merge_inner, ◌>>=◌, Result, ok,
}
use nirvana_dev.Monet.MethodRouter
use nirvana_dev.Monet.MethodRouter.Dispatch.{
  answer, call_with_state-answer, call_with_state-with_state,
}
use nirvana_dev.Monet.MethodRouter.Merge.{IsMerged, merge_for_path-IsMerged}
use nirvana_dev.Monet.Router.{
  UriTree, Endpoint, method_router, Router, new, node_insert, new_route, process_route, answer_to,
  router_with_state,
}
use nirvana_dev.Monet.Router.Fine.{IsTree}
use nirvana_dev.Monet.Router.Registers.{Registers}
use nirvana_dev.Monet.Router.Answers.{made, routed, answer_to-Built, answer_to-router_with_state}

abbrev Request : Type 0
Request = Method × ℕ

abbrev method : Request → Method
method r = r.0

abbrev path : Request → ℕ
path r = r.1

abbrev tree : UriTree ℕ (ℕ → Option ℕ)
tree = record {
  empty = λ _. none;
  insert = λ t p i. some (λ x. if x == p then some i else t x);
  at = λ t x. t x;
  same = λ a b. a == b;
}

tree-IsTree : IsTree tree
tree-IsTree = record {
  none_at_first = λ x. refl;
  only_inserted = λ t t' p x i j e found.
      let same : (λ x. if x == p then some i else t x) ≡ t' = cc in
      let here : (if x == p then some i else t x) ≡ t' x = ap (λ f. f x) same in
      elim (Bool-cases (x == p)) [
        | inl q ↦ let v : (if x == p then some i else t x) ≡ some i = rw q refl in inl cc
        | inr q ↦
            let v : (if x == p then some i else t x) ≡ t x = rw q refl in
            inr (x, sym v ∙ here ∙ found)
      ];
}

abbrev not_allowed : Request → ℕ
not_allowed _ = 405

abbrev not_found : Request → ℕ
not_found _ = 404

abbrev getter : MethodRouter Request ℕ ℕ
getter = record (MethodRouter.new not_allowed) { get = boxed_handler (λ s r. s + r.1) }

abbrev poster : MethodRouter Request ℕ ℕ
poster = record (MethodRouter.new not_allowed) { post = route (λ _. 201) }

call_with_state-answer_example :
    call_with_state method getter (m_get, 3) 10 ≡ answer getter m_get (m_get, 3) 10
call_with_state-answer_example = call_with_state-answer method getter (m_get, 3) 10

call_with_state-with_state_example :
    call_with_state method (with_state {S₂ = Bool} getter 10) (m_get, 3) true
    ≡ call_with_state method getter (m_get, 3) 10
call_with_state-with_state_example = call_with_state-with_state method getter (m_get, 3) 10 true

abbrev both : MethodRouter Request ℕ ℕ
both = record getter { post = route (λ _. 201) }

getter_and_poster : merge_for_path getter poster ≡ ok both
unfolding merge_for_path merge_inner ◌>>=◌ MethodRouter.new
getter_and_poster = refl

merge_for_path-IsMerged_example : IsMerged getter poster both
merge_for_path-IsMerged_example = merge_for_path-IsMerged getter poster both getter_and_poster

abbrev routes_at_five : Endpoint Request ℕ ℕ → Router ℕ (ℕ → Option ℕ) Request ℕ ℕ
routes_at_five e = record {
  routes = e ∷ [];
  node = record {
    inner = λ x. if x == 5 then some 0 else none;
    route_id_to_path = λ id. if id == 0 then some 5 else none;
    path_to_route_id = λ p. if p == 5 then some 0 else none;
  };
  default_fallback = true;
  catch_all_fallback = default not_found;
}

abbrev one_route : Router ℕ (ℕ → Option ℕ) Request ℕ ℕ
one_route = routes_at_five (method_router getter)

one_route_run : process_route tree (new tree not_found) 5 getter ≡ some one_route
unfolding process_route new_route node_insert new
one_route_run = refl

answer_to-Built_example :
    (res : ℕ) × (answer_to tree method path one_route (m_get, 5) 10 ≡ some res)
answer_to-Built_example =
    answer_to-Built tree method path tree-IsTree one_route
      (routed one_route 5 getter (made not_found) one_route_run) (m_get, 5) 10

answer_to-router_with_state_example :
    answer_to tree method path (router_with_state tree {S₂ = Bool} one_route 10) (m_get, 5) true
    ≡ answer_to tree method path one_route (m_get, 5) 10
answer_to-router_with_state_example =
    answer_to-router_with_state tree method path one_route (m_get, 5) 10 true
