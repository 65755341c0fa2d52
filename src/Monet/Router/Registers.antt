-- ===== src/Monet/Router/Registers.antt =====
-- crates/monet/src/routing/router.rs, `process_route`: what a router keeps for each path.
use nirvana_dev.Prelude.{◌≡◌, Option, none, some, length}
use nirvana_dev.Monet.MethodRouter.{MethodRouter, MergeError, err, merge_for_path}
use nirvana_dev.Monet.MethodRouter.Merge.{IsMerged}
use nirvana_dev.Monet.Router.{UriTree, method_router, Router}
use nirvana_dev.Monet.Router.Fine.{Gives}
use nirvana_dev.Monet.Router.Named.{IsEquality, IsNamed, endpoint_at, IsRegistered}

module _ {Uri Tree Req Res S : Type 0} (tree : UriTree Uri Tree) where
  pub data Registers (r : Router Uri Tree Req Res S) (p : Uri) (mr : MethodRouter Req Res S)
      : Option (Router Uri Tree Req Res S) → Type 0 where
    added :
        (r' : Router Uri Tree Req Res S)
        → endpoint_at tree r p ≡ none
        → IsRegistered tree r p mr r'
        → Registers r p mr (some r')
    combined :
        (r' : Router Uri Tree Req Res S) (prev both : MethodRouter Req Res S)
        → endpoint_at tree r p ≡ some (method_router prev)
        → IsMerged prev mr both
        → IsRegistered tree r p both r'
        → Registers r p mr (some r')
    refused :
        endpoint_at tree r p ≡ none
        → tree.insert r.node.inner p (length r.routes) ≡ none
        → Registers r p mr none
    overlaps :
        (prev : MethodRouter Req Res S) (e : MergeError)
        → endpoint_at tree r p ≡ some (method_router prev)
        → merge_for_path prev mr ≡ err e
        → Registers r p mr none

module _ {Uri Tree Req Res S : Type 0} (tree : UriTree Uri Tree) (law : IsEquality tree) where
  -- What a registration gives, and that it keeps the names in order.
  record Registration (r : Router Uri Tree Req Res S) (p : Uri) (mr : MethodRouter Req Res S)
      (o : Option (Router Uri Tree Req Res S)) : Type 0 where
    result : Registers tree r p mr o
    named : Gives (IsNamed tree) o
