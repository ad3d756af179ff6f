-- ===== src/Kubeconfig/Current.antt =====
-- The pair that `resolve` picks is one pair: what the exact description of it is for.
use argocd_cluster_registrar.Common.{
  ◌≡◌, subst, true, List, [], ◌∷◌, Bytes, ==_iff, nonempty, In, here, there,
}
use argocd_cluster_registrar.Common.Result.{ok}
use argocd_cluster_registrar.Kubeconfig.{
  Kubeconfig, KubeconfigCluster, KubeconfigUser, ContextEntry, resolve,
}
use argocd_cluster_registrar.Kubeconfig.Named.{IsNamed, IsContext, found_here, further}
use argocd_cluster_registrar.Kubeconfig.Picked
use argocd_cluster_registrar.Kubeconfig.Picked.{IsPicked, resolve_iff}

-- The pair is the only one, or the entries that one context names, and the current context has
-- the name of that context.
pub data IsCurrent (kc : Kubeconfig) (r : KubeconfigCluster × KubeconfigUser) : Type 0 where
  only_pair :
      (cluster_name user_name : Bytes)
      → kc.clusters ≡ (cluster_name, r.0) ∷ []
      → kc.users ≡ (user_name, r.1) ∷ []
      → IsCurrent kc r
  of_context :
      (ctx : ContextEntry)
      → In ctx kc.contexts
      → ctx.name ≡ kc.current_context
      → nonempty kc.current_context ≡ true
      → In (ctx.cluster, r.0) kc.clusters
      → In (ctx.user, r.1) kc.users
      → IsCurrent kc r

IsNamed-In :
    {A : Type 0} (name : Bytes) (a : A) (entries : List (Bytes × A))
    → IsNamed name a entries
    → In (name, a) entries
IsNamed-In name a [] k = elim k [ ]
IsNamed-In name a ((n, b) ∷ rest) (found_here e v) =
    subst (λ x. In (name, x) ((n, b) ∷ rest)) v
      (subst (λ x. In (x, b) ((n, b) ∷ rest)) ((==_iff n name).0 e) here)
IsNamed-In name a (x ∷ rest) (further e k) = there (IsNamed-In name a rest k)

IsContext-In :
    (name : Bytes) (ctx : ContextEntry) (entries : List ContextEntry)
    → IsContext name ctx entries
    → In ctx entries × (ctx.name ≡ name)
IsContext-In name ctx [] k = elim k [ ]
IsContext-In name ctx (c ∷ rest) (found_here e v) =
    subst (λ x. In x (c ∷ rest) × (x.name ≡ name)) v (here, (==_iff c.name name).0 e)
IsContext-In name ctx (c ∷ rest) (further e k) =
    let (i, same) = IsContext-In name ctx rest k in (there i, same)

IsPicked-IsCurrent :
    (kc : Kubeconfig) (r : KubeconfigCluster × KubeconfigUser) → IsPicked kc r → IsCurrent kc r
IsPicked-IsCurrent kc r (Picked.only_pair n m hc hu) = only_pair n m hc hu
IsPicked-IsCurrent kc r (Picked.of_context ctx many full k c u) =
    let (i, same) = IsContext-In kc.current_context ctx kc.contexts k in
    of_context ctx i same full (IsNamed-In ctx.cluster r.0 kc.clusters c)
      (IsNamed-In ctx.user r.1 kc.users u)

-- The pair that resolve picks is the only cluster with the only user, or the cluster and the user
-- that one and the same context names, and the current context, which is not empty, has the name
-- of that context.
resolve-IsCurrent :
    (kc : Kubeconfig) (r : KubeconfigCluster × KubeconfigUser) → resolve kc ≡ ok r → IsCurrent kc r
resolve-IsCurrent kc r h = IsPicked-IsCurrent kc r ((resolve_iff kc r).0 h)
