-- ===== src/Monet/MethodRouter.antt =====
-- crates/monet/src/routing/method_router.rs, and `Fallback` of router.rs: the handlers of one path,
-- one for each method. A route is what it answers to a request; a boxed handler is a route once it
-- is given the state.
pub mod Dispatch
pub mod Merge
use nirvana_dev.Prelude.{
  ℕ, Bool, true, false, Option, none, some, List, [], ◌∷◌, if◌then◌else◌, ◌==◌, ◌&&◌,
}

-- `http::Method`
pub data Method : Type 0 where
  m_options m_get m_post m_put m_delete m_head m_trace m_connect m_patch : Method
  m_extension : ℕ → Method

pub data MethodEndpoint (Req Res S : Type 0) : Type 0 where
  boxed_handler : (S → Req → Res) → MethodEndpoint Req Res S
  route : (Req → Res) → MethodEndpoint Req Res S
  no_endpoint : MethodEndpoint Req Res S

pub data Fallback (Req Res S : Type 0) : Type 0 where
  default : (Req → Res) → Fallback Req Res S
  service : (Req → Res) → Fallback Req Res S
  boxed : (S → Req → Res) → Fallback Req Res S

pub record MethodRouter (Req Res S : Type 0) : Type 0 where
  pub get : MethodEndpoint Req Res S
  pub head : MethodEndpoint Req Res S
  pub delete : MethodEndpoint Req Res S
  pub options : MethodEndpoint Req Res S
  pub patch : MethodEndpoint Req Res S
  pub post : MethodEndpoint Req Res S
  pub put : MethodEndpoint Req Res S
  pub trace : MethodEndpoint Req Res S
  pub connect : MethodEndpoint Req Res S
  pub fallback : Fallback Req Res S

pub data MergeError : Type 0 where
  overlapping_method two_fallbacks : MergeError

pub data Result (E A : Type 0) : Type 0 where
  ok : A → Result E A
  err : E → Result E A

infixl 2 ◌>>=◌
unfoldable pub ◌>>=◌ : {E A B : Type 0} → Result E A → (A → Result E B) → Result E B
ok a >>= f = f a
err e >>= f = err e

-- The index of each method, for the test of equality.
abbrev method_code : Method → ℕ × ℕ
method_code m_options = (0, 0)
method_code m_get = (1, 0)
method_code m_post = (2, 0)
method_code m_put = (3, 0)
method_code m_delete = (4, 0)
method_code m_head = (5, 0)
method_code m_trace = (6, 0)
method_code m_connect = (7, 0)
method_code m_patch = (8, 0)
method_code (m_extension n) = (9, n)

unfoldable pub same_method : Method → Method → Bool
same_method m n = (method_code m).0 == (method_code n).0 && (method_code m).1 == (method_code n).1

module _ {Req Res S : Type 0} where
  abbrev pub is_some : MethodEndpoint Req Res S → Bool
  is_some no_endpoint = false
  is_some (route _) = true
  is_some (boxed_handler _) = true

  abbrev pub endpoint_with_state :
      {S₂ : Type 0} → S → MethodEndpoint Req Res S → MethodEndpoint Req Res S₂
  endpoint_with_state state no_endpoint = no_endpoint
  endpoint_with_state state (route r) = route r
  endpoint_with_state state (boxed_handler h) = route (h state)

  abbrev pub fallback_merge : Fallback Req Res S → Fallback Req Res S → Option (Fallback Req Res S)
  fallback_merge (default _) pick = some pick
  fallback_merge pick (default _) = some pick
  fallback_merge _ _ = none

  abbrev pub fallback_with_state : {S₂ : Type 0} → S → Fallback Req Res S → Fallback Req Res S₂
  fallback_with_state state (default r) = default r
  fallback_with_state state (service r) = service r
  fallback_with_state state (boxed h) = service (h state)

  abbrev pub fallback_call : Fallback Req Res S → Req → S → Res
  fallback_call (default r) req state = r req
  fallback_call (service r) req state = r req
  fallback_call (boxed h) req state = h state req

  -- `new`, with the route that answers "method not allowed".
  unfoldable pub new : (Req → Res) → MethodRouter Req Res S
  new not_allowed = record {
    get = no_endpoint;
    head = no_endpoint;
    delete = no_endpoint;
    options = no_endpoint;
    patch = no_endpoint;
    post = no_endpoint;
    put = no_endpoint;
    trace = no_endpoint;
    connect = no_endpoint;
    fallback = default not_allowed;
  }

  -- `none` is the panic on a second route for `GET`.
  unfoldable pub get_service :
      MethodRouter Req Res S → (Req → Res) → Option (MethodRouter Req Res S)
  get_service r svc = if is_some r.get then none else some (record r { get = route svc })

  unfoldable pub get_handler :
      MethodRouter Req Res S → (S → Req → Res) → Option (MethodRouter Req Res S)
  get_handler r handler =
      if is_some r.get then none else some (record r { get = boxed_handler handler })

  unfoldable pub with_state : {S₂ : Type 0} → MethodRouter Req Res S → S → MethodRouter Req Res S₂
  with_state r state = record {
    get = endpoint_with_state state r.get;
    head = endpoint_with_state state r.head;
    delete = endpoint_with_state state r.delete;
    options = endpoint_with_state state r.options;
    patch = endpoint_with_state state r.patch;
    post = endpoint_with_state state r.post;
    put = endpoint_with_state state r.put;
    trace = endpoint_with_state state r.trace;
    connect = endpoint_with_state state r.connect;
    fallback = fallback_with_state state r.fallback;
  }

  abbrev pub call_branches : MethodRouter Req Res S → List (Method × MethodEndpoint Req Res S)
  call_branches r =
      (m_head, r.head)
      ∷ (m_head, r.get)
      ∷ (m_get, r.get)
      ∷ (m_post, r.post)
      ∷ (m_patch, r.patch)
      ∷ (m_put, r.put)
      ∷ (m_delete, r.delete)
      ∷ (m_trace, r.trace)
      ∷ (m_connect, r.connect)
      ∷ []

  -- What an endpoint answers, or else what comes after it.
  abbrev pub or_else : MethodEndpoint Req Res S → Req → S → Res → Res
  or_else (boxed_handler h) req state other = h state req
  or_else (route r) req state other = r req
  or_else no_endpoint req state other = other

  -- The loop over the branches, with the answer where it falls through.
  unfoldable pub try_branches :
      Method → List (Method × MethodEndpoint Req Res S) → Req → S → (fallen_through : Res) → Res
  try_branches m [] req state other = other
  try_branches m ((n, e) ∷ branches) req state other =
      let rest = try_branches m branches req state other in
      if same_method m n then or_else e req state rest else rest

  unfoldable pub call_with_state : (Req → Method) → MethodRouter Req Res S → Req → S → Res
  call_with_state method r req state =
      try_branches (method req) (call_branches r) req state (fallback_call r.fallback req state)

  unfoldable pub merge_inner :
      MethodEndpoint Req Res S
      → MethodEndpoint Req Res S
      → Result MergeError (MethodEndpoint Req Res S)
  merge_inner pick no_endpoint = ok pick
  merge_inner no_endpoint pick = ok pick
  merge_inner _ _ = err overlapping_method

  abbrev ok_or : Option (Fallback Req Res S) → Result MergeError (Fallback Req Res S)
  ok_or none = err two_fallbacks
  ok_or (some f) = ok f

  unfoldable pub merge_for_path :
      MethodRouter Req Res S → MethodRouter Req Res S → Result MergeError (MethodRouter Req Res S)
  merge_for_path self other = merge_inner self.get other.get >>= λ get.
      merge_inner self.head other.head >>= λ head.
      merge_inner self.delete other.delete >>= λ delete.
      merge_inner self.options other.options >>= λ options.
      merge_inner self.patch other.patch >>= λ patch. merge_inner self.post other.post >>= λ post.
      merge_inner self.put other.put >>= λ put. merge_inner self.trace other.trace >>= λ trace.
      merge_inner self.connect other.connect >>= λ connect.
      ok_or (fallback_merge self.fallback other.fallback) >>= λ fallback. ok (record {
        get = get;
        head = head;
        delete = delete;
        options = options;
        patch = patch;
        post = post;
        put = put;
        trace = trace;
        connect = connect;
        fallback = fallback;
      })
