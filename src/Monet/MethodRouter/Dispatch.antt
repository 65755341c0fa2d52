-- ===== src/Monet/MethodRouter/Dispatch.antt =====
-- crates/monet/src/routing/method_router.rs, `call_with_state` and `with_state`.
use nirvana_dev.Prelude.{◌≡◌, refl, sym, ◌∙◌}
use nirvana_dev.Monet.MethodRouter.{
  Method, m_options, m_get, m_post, m_put, m_delete, m_head, m_trace, m_connect, m_patch,
  m_extension, MethodEndpoint, boxed_handler, route, no_endpoint, Fallback, default, service, boxed,
  MethodRouter, same_method, endpoint_with_state, fallback_with_state, fallback_call, call_branches,
  or_else, call_with_state, try_branches, with_state,
}

module _ {Req Res S : Type 0} where
  -- Which endpoint answers which method; `HEAD` is answered by `GET` where it has no endpoint.
  abbrev pub answer : MethodRouter Req Res S → Method → Req → S → Res
  answer r m_get req state = or_else r.get req state (fallback_call r.fallback req state)
  answer r m_head req state =
      or_else r.head req state (or_else r.get req state (fallback_call r.fallback req state))
  answer r m_post req state = or_else r.post req state (fallback_call r.fallback req state)
  answer r m_put req state = or_else r.put req state (fallback_call r.fallback req state)
  answer r m_patch req state = or_else r.patch req state (fallback_call r.fallback req state)
  answer r m_delete req state = or_else r.delete req state (fallback_call r.fallback req state)
  answer r m_trace req state = or_else r.trace req state (fallback_call r.fallback req state)
  answer r m_connect req state = or_else r.connect req state (fallback_call r.fallback req state)
  answer r m_options req state = fallback_call r.fallback req state
  answer r (m_extension _) req state = fallback_call r.fallback req state

  dispatch :
      (m : Method) (r : MethodRouter Req Res S) (req : Req) (state : S)
      → try_branches m (call_branches r) req state (fallback_call r.fallback req state)
        ≡ answer r m req state
  unfolding try_branches same_method
  dispatch m_get r req state = refl
  dispatch m_head r req state = refl
  dispatch m_post r req state = refl
  dispatch m_put r req state = refl
  dispatch m_patch r req state = refl
  dispatch m_delete r req state = refl
  dispatch m_trace r req state = refl
  dispatch m_connect r req state = refl
  dispatch m_options r req state = refl
  dispatch (m_extension _) r req state = refl

module _ {Req Res S : Type 0} (method : Req → Method) where
  -- A request is answered by the endpoint of its method; `HEAD` falls back to the endpoint of
  -- `GET`, and what has no endpoint, `OPTIONS` and extension methods always, to the fallback.
  pub call_with_state-answer :
      (r : MethodRouter Req Res S) (req : Req) (state : S)
      → call_with_state method r req state ≡ answer r (method req) req state
  unfolding call_with_state
  call_with_state-answer r req state = dispatch (method req) r req state

module _ {Req Res S : Type 0} where
  or_else-with_state :
      {S₂ : Type 0} (e : MethodEndpoint Req Res S) (req : Req) (state : S) (other : S₂) (res : Res)
      → or_else (endpoint_with_state {S₂ = S₂} state e) req other res ≡ or_else e req state res
  or_else-with_state (boxed_handler h) req state other res = refl
  or_else-with_state (route r) req state other res = refl
  or_else-with_state no_endpoint req state other res = refl

  pub fallback-with_state :
      {S₂ : Type 0} (f : Fallback Req Res S) (req : Req) (state : S) (other : S₂)
      → fallback_call (fallback_with_state {S₂ = S₂} state f) req other ≡ fallback_call f req state
  fallback-with_state (default r) req state other = refl
  fallback-with_state (service r) req state other = refl
  fallback-with_state (boxed h) req state other = refl

  answer-with_state :
      {S₂ : Type 0} (m : Method) (r : MethodRouter Req Res S) (req : Req) (state : S) (other : S₂)
      → answer (with_state {S₂ = S₂} r state) m req other ≡ answer r m req state
  unfolding with_state
  answer-with_state m_get r req state other =
      rw (fallback-with_state r.fallback req state other)
        (or_else-with_state r.get req state other (fallback_call r.fallback req state))
  answer-with_state m_post r req state other =
      rw (fallback-with_state r.fallback req state other)
        (or_else-with_state r.post req state other (fallback_call r.fallback req state))
  answer-with_state m_put r req state other =
      rw (fallback-with_state r.fallback req state other)
        (or_else-with_state r.put req state other (fallback_call r.fallback req state))
  answer-with_state m_patch r req state other =
      rw (fallback-with_state r.fallback req state other)
        (or_else-with_state r.patch req state other (fallback_call r.fallback req state))
  answer-with_state m_delete r req state other =
      rw (fallback-with_state r.fallback req state other)
        (or_else-with_state r.delete req state other (fallback_call r.fallback req state))
  answer-with_state m_trace r req state other =
      rw (fallback-with_state r.fallback req state other)
        (or_else-with_state r.trace req state other (fallback_call r.fallback req state))
  answer-with_state m_connect r req state other =
      rw (fallback-with_state r.fallback req state other)
        (or_else-with_state r.connect req state other (fallback_call r.fallback req state))
  answer-with_state m_head r req state other =
      rw
        (
          fallback-with_state r.fallback req state other,
          or_else-with_state r.get req state other (fallback_call r.fallback req state),
        )
        (or_else-with_state r.head req state other
          (or_else r.get req state (fallback_call r.fallback req state)))
  answer-with_state m_options r req state other = fallback-with_state r.fallback req state other
  answer-with_state (m_extension _) r req state other =
      fallback-with_state r.fallback req state other

module _ {Req Res S : Type 0} (method : Req → Method) where
  -- A router that was given its state answers as the router does with that state, whatever state it
  -- is called with.
  pub call_with_state-with_state :
      {S₂ : Type 0} (r : MethodRouter Req Res S) (req : Req) (state : S) (other : S₂)
      → call_with_state method (with_state r state) req other ≡ call_with_state method r req state
  call_with_state-with_state r req state other =
      call_with_state-answer method (with_state r state) req other
      ∙ answer-with_state (method req) r req state other
      ∙ sym (call_with_state-answer method r req state)
