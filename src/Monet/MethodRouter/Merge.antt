-- ===== src/Monet/MethodRouter/Merge.antt =====
-- crates/monet/src/routing/method_router.rs, `merge_for_path`.
use nirvana_dev.Prelude.{◌≡◌, refl, ◌⊎◌, inl, inr}
use mathlib.Core.Path.{subst}
use nirvana_dev.Monet.MethodRouter.{
  MethodEndpoint, boxed_handler, route, no_endpoint, Fallback, default, service, boxed,
  MethodRouter, Result, ok, err, ◌>>=◌, merge_inner, ok_or, fallback_merge, merge_for_path,
}

bind-ok :
    {E A B : Type 0} (x : Result E A) (f : A → Result E B) (c : B)
    → (x >>= f) ≡ ok c
    → (a : A) × (x ≡ ok a) × (f a ≡ ok c)
unfolding ◌>>=◌
bind-ok (ok a) f c e = (a, refl, e)
bind-ok (err r) f c e = cc

ok-inj : {E A : Type 0} (a b : A) → ◌≡◌ {A = Result E A} (ok a) (ok b) → a ≡ b
ok-inj a b e = cc

module _ {Req Res S : Type 0} where
  -- One side has no endpoint, and the other one's is taken.
  abbrev pub IsPick : (a b c : MethodEndpoint Req Res S) → Type 0
  IsPick a b c = ((b ≡ no_endpoint) × (c ≡ a)) ⊎ ((a ≡ no_endpoint) × (c ≡ b))

  merge_inner-IsPick : (a b c : MethodEndpoint Req Res S) → merge_inner a b ≡ ok c → IsPick a b c
  unfolding merge_inner
  merge_inner-IsPick a no_endpoint c e = inl (refl, cc)
  merge_inner-IsPick no_endpoint (route r) c e = inr (refl, cc)
  merge_inner-IsPick no_endpoint (boxed_handler h) c e = inr (refl, cc)
  merge_inner-IsPick (route _) (route r) c e = cc
  merge_inner-IsPick (route _) (boxed_handler h) c e = cc
  merge_inner-IsPick (boxed_handler _) (route r) c e = cc
  merge_inner-IsPick (boxed_handler _) (boxed_handler h) c e = cc

  -- The default fallback gives way.
  abbrev pub IsFallbackPick : (a b c : Fallback Req Res S) → Type 0
  IsFallbackPick a b c =
      ((f : Req → Res) × (a ≡ default f) × (c ≡ b)) ⊎ ((f : Req → Res) × (b ≡ default f) × (c ≡ a))

  fallback_merge-IsFallbackPick :
      (a b c : Fallback Req Res S) → ok_or (fallback_merge a b) ≡ ok c → IsFallbackPick a b c
  fallback_merge-IsFallbackPick (default f) b c e = inl (f, refl, cc)
  fallback_merge-IsFallbackPick (service f) (default g) c e = inr (g, refl, cc)
  fallback_merge-IsFallbackPick (boxed f) (default g) c e = inr (g, refl, cc)
  fallback_merge-IsFallbackPick (service f) (service g) c e = cc
  fallback_merge-IsFallbackPick (service f) (boxed g) c e = cc
  fallback_merge-IsFallbackPick (boxed f) (service g) c e = cc
  fallback_merge-IsFallbackPick (boxed f) (boxed g) c e = cc

  pub record IsMerged (a b c : MethodRouter Req Res S) : Type 0 where
    pub of_get : IsPick a.get b.get c.get
    pub of_head : IsPick a.head b.head c.head
    pub of_delete : IsPick a.delete b.delete c.delete
    pub of_options : IsPick a.options b.options c.options
    pub of_patch : IsPick a.patch b.patch c.patch
    pub of_post : IsPick a.post b.post c.post
    pub of_put : IsPick a.put b.put c.put
    pub of_trace : IsPick a.trace b.trace c.trace
    pub of_connect : IsPick a.connect b.connect c.connect
    pub of_fallback : IsFallbackPick a.fallback b.fallback c.fallback

  -- Where two method routers merge, no method has an endpoint in both, each keeps the endpoint that
  -- it has in one of them, and of two fallbacks one was the default.
  pub merge_for_path-IsMerged :
      (a b c : MethodRouter Req Res S) → merge_for_path a b ≡ ok c → IsMerged a b c
  unfolding merge_for_path
  merge_for_path-IsMerged a b c e₀ =
      let (get, q0, e1) = bind-ok (merge_inner a.get b.get) _ c e₀ in
      let (head, q1, e2) = bind-ok (merge_inner a.head b.head) _ c e1 in
      let (delete, q2, e3) = bind-ok (merge_inner a.delete b.delete) _ c e2 in
      let (options, q3, e4) = bind-ok (merge_inner a.options b.options) _ c e3 in
      let (patch, q4, e5) = bind-ok (merge_inner a.patch b.patch) _ c e4 in
      let (post, q5, e6) = bind-ok (merge_inner a.post b.post) _ c e5 in
      let (put, q6, e7) = bind-ok (merge_inner a.put b.put) _ c e6 in
      let (trace, q7, e8) = bind-ok (merge_inner a.trace b.trace) _ c e7 in
      let (connect, q8, e9) = bind-ok (merge_inner a.connect b.connect) _ c e8 in
      let (fallback, q, e) = bind-ok (ok_or (fallback_merge a.fallback b.fallback)) _ c e9 in
      subst (λ d. IsMerged a b d) (ok-inj _ c e)
        (record {
          of_get = merge_inner-IsPick a.get b.get get q0;
          of_head = merge_inner-IsPick a.head b.head head q1;
          of_delete = merge_inner-IsPick a.delete b.delete delete q2;
          of_options = merge_inner-IsPick a.options b.options options q3;
          of_patch = merge_inner-IsPick a.patch b.patch patch q4;
          of_post = merge_inner-IsPick a.post b.post post q5;
          of_put = merge_inner-IsPick a.put b.put put q6;
          of_trace = merge_inner-IsPick a.trace b.trace trace q7;
          of_connect = merge_inner-IsPick a.connect b.connect connect q8;
          of_fallback = fallback_merge-IsFallbackPick a.fallback b.fallback fallback q;
        })
