-- ===== src/Monet/Router.antt =====
-- crates/monet/src/routing/router.rs: paths, and the endpoint of each. The tree of paths is that of
-- the `matchit` package: its two operations are parameters. The hash maps of `Node` are functions.
-- `none` is a panic.
pub mod Fine
pub mod Answers
pub mod Named
pub mod Registers
use nirvana_dev.Prelude.{
  ℕ, zero, suc, ◌+◌, Bool, true, false, ◌&&◌, not, Option, none, some, List, [], ◌∷◌, ◌++◌, length,
  get_elem?, set, map, if◌then◌else◌, ◌==◌,
}
use nirvana_dev.Monet.MethodRouter.{
  Method, MethodRouter, Fallback, default, service, boxed, ok, err, merge_for_path, call_with_state,
  fallback_merge, fallback_call, with_state, fallback_with_state,
}

-- `matchit::Router<RouteId>`, by its operations: `insert`, where `none` is an insertion error, and
-- `at`, where `none` says that nothing matches.
pub record UriTree (Uri Tree : Type 0) : Type 0 where
  pub empty : Tree
  pub insert : Tree → Uri → ℕ → Option Tree
  pub at : Tree → Uri → Option ℕ
  pub same : Uri → Uri → Bool

pub record Node (Uri Tree : Type 0) : Type 0 where
  pub inner : Tree
  pub route_id_to_path : ℕ → Option Uri
  pub path_to_route_id : Uri → Option ℕ

pub data Endpoint (Req Res S : Type 0) : Type 0 where
  method_router : MethodRouter Req Res S → Endpoint Req Res S
  route_endpoint : (Req → Res) → Endpoint Req Res S

pub record Router (Uri Tree Req Res S : Type 0) : Type 0 where
  pub routes : List (Endpoint Req Res S)
  pub node : Node Uri Tree
  pub default_fallback : Bool
  pub catch_all_fallback : Fallback Req Res S

module _ {Uri Tree : Type 0} (tree : UriTree Uri Tree) where
  abbrev pub new_node : Node Uri Tree
  new_node = record {
    inner = tree.empty;
    route_id_to_path = λ _. none;
    path_to_route_id = λ _. none;
  }

  unfoldable pub node_insert : Node Uri Tree → Uri → ℕ → Option (Node Uri Tree)
  node_insert n path val = elim (tree.insert n.inner path val) [
    | none ↦ none
    | some inner ↦ some (record {
      inner = inner;
      route_id_to_path = λ id. if id == val then some path else n.route_id_to_path id;
      path_to_route_id = λ p. if tree.same p path then some val else n.path_to_route_id p;
    })
  ]

-- Which router decides whether there is a fallback of its own.
abbrev pub merge_default : (this other : Bool) → Option Bool
merge_default this true = some this
merge_default true false = some false
merge_default false false = none

module _ {Uri Tree Req Res : Type 0} (tree : UriTree Uri Tree) where
  -- `new`, with the route that answers "not found".
  unfoldable pub new : {S : Type 0} → (Req → Res) → Router Uri Tree Req Res S
  new not_found = record {
    routes = [];
    node = new_node tree;
    default_fallback = true;
    catch_all_fallback = default not_found;
  }

  module _ {S : Type 0} where
    -- `set_node`, and the new endpoint after the others.
    unfoldable pub new_route :
        Router Uri Tree Req Res S → Uri → Endpoint Req Res S → Option (Router Uri Tree Req Res S)
    new_route r path endpoint = elim (node_insert tree r.node path (length r.routes)) [
      | none ↦ none
      | some n ↦ some (record r { node = n; routes = r.routes ++ (endpoint ∷ []) })
    ]

    unfoldable pub merge_at :
        Router Uri Tree Req Res S
        → ℕ
        → Option (Endpoint Req Res S)
        → MethodRouter Req Res S
        → Option (Router Uri Tree Req Res S)
    merge_at r id (some (method_router prev)) mr = elim (merge_for_path prev mr) [
      | err _ ↦ none
      | ok merged ↦ some (record r { routes = set r.routes id (method_router merged) })
    ]
    merge_at r id (some (route_endpoint _)) mr = some r
    merge_at r id none mr = some r

    unfoldable pub process_route :
        Router Uri Tree Req Res S
        → Uri
        → MethodRouter Req Res S
        → Option (Router Uri Tree Req Res S)
    process_route r path mr = elim (r.node.path_to_route_id path) [
      | some id ↦ merge_at r id (get_elem? r.routes id) mr
      | none ↦ new_route r path (method_router mr)
    ]

    -- One turn of the loop of `merge`.
    unfoldable pub merge_endpoint :
        Router Uri Tree Req Res S → Uri → Endpoint Req Res S → Option (Router Uri Tree Req Res S)
    merge_endpoint r path (method_router mr) = process_route r path mr
    merge_endpoint r path (route_endpoint f) = new_route r path (route_endpoint f)

    unfoldable pub merge_routes :
        (paths : ℕ → Option Uri)
        → (id : ℕ) → List (Endpoint Req Res S)
        → Router Uri Tree Req Res S
        → Option (Router Uri Tree Req Res S)
    merge_routes paths id [] r = some r
    merge_routes paths id (e ∷ es) r = elim (paths id) [
      | none ↦ none
      | some path ↦ elim (merge_endpoint r path e) [
        | none ↦ none
        | some r' ↦ merge_routes paths (id + 1) es r'
      ]
    ]

    unfoldable pub merge :
        Router Uri Tree Req Res S → Router Uri Tree Req Res S → Option (Router Uri Tree Req Res S)
    merge this other = elim (merge_default this.default_fallback other.default_fallback) [
      | none ↦ none
      | some d ↦ elim (fallback_merge this.catch_all_fallback other.catch_all_fallback) [
        | none ↦ none
        | some f ↦ elim (merge_routes other.node.route_id_to_path 0 other.routes this) [
          | none ↦ none
          | some r ↦ some (record r { default_fallback = d; catch_all_fallback = f })
        ]
      ]
    ]

    unfoldable pub fallback :
        Router Uri Tree Req Res S → (S → Req → Res) → Router Uri Tree Req Res S
    fallback r handler = record r { catch_all_fallback = boxed handler }

    abbrev pub endpoint_call : (Req → Method) → Option (Endpoint Req Res S) → Req → S → Option Res
    endpoint_call method none req state = none
    endpoint_call method (some (method_router mr)) req state =
        some (call_with_state method mr req state)
    endpoint_call method (some (route_endpoint r)) req state = some (r req)

    unfoldable pub answer_to :
        (Req → Method) → (Req → Uri) → Router Uri Tree Req Res S → Req → S → Option Res
    answer_to method path r req state = elim (tree.at r.node.inner (path req)) [
      | some id ↦ endpoint_call method (get_elem? r.routes id) req state
      | none ↦ some (fallback_call r.catch_all_fallback req state)
    ]

  abbrev pub endpoint_with_state : {S S₂ : Type 0} → S → Endpoint Req Res S → Endpoint Req Res S₂
  endpoint_with_state state (method_router mr) = method_router (with_state mr state)
  endpoint_with_state state (route_endpoint r) = route_endpoint r

  unfoldable pub router_with_state :
      {S S₂ : Type 0} → Router Uri Tree Req Res S → S → Router Uri Tree Req Res S₂
  router_with_state r state = record {
    routes = map (endpoint_with_state state) r.routes;
    node = r.node;
    default_fallback = r.default_fallback;
    catch_all_fallback = fallback_with_state state r.catch_all_fallback;
  }
