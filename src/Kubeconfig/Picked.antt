-- ===== src/Kubeconfig/Picked.antt =====
-- `resolve` described without its loops: exactly when a pair is picked, and which.
use argocd_cluster_registrar.Common.{
  some_injective, ◌≡◌, ◌≢◌, ◌↔◌, refl, sym, subst, ap, ◌∙◌, Bool, true, false, ◌&&◌, Option, none,
  some, List, [], ◌∷◌, Bytes, nonempty, if◌then◌else◌,
}
use mathlib.Core.Bool.{false≢true}
use argocd_cluster_registrar.Common.Result.{Outcome, ok, err, ok_injective}
use argocd_cluster_registrar.Kubeconfig.{
  Kubeconfig, KubeconfigCluster, KubeconfigUser, ContextEntry, ResolveError, unknown_cluster,
  unknown_user, no_current_context, find_named, find_context, resolve_context, resolve_current,
  resolve_lists, resolve,
}
use argocd_cluster_registrar.Kubeconfig.Named.{
  IsNamed, IsContext, found_here, further, find_named_iff, find_context_iff,
}

abbrev is_single : {A : Type 0} → List A → Bool
is_single [] = false
is_single (x ∷ []) = true
is_single (x ∷ y ∷ rest) = false

-- One cluster and one user.
abbrev pub is_only_pair : Kubeconfig → Bool
is_only_pair kc = is_single kc.clusters && is_single kc.users

-- The pair is the only one; or there is another, and the current context is named and its first
-- entry names the pair, by the first cluster and the first user of their names.
pub data IsPicked (kc : Kubeconfig) (r : KubeconfigCluster × KubeconfigUser) : Type 0 where
  only_pair :
      (cluster_name user_name : Bytes)
      → kc.clusters ≡ (cluster_name, r.0) ∷ []
      → kc.users ≡ (user_name, r.1) ∷ []
      → IsPicked kc r
  of_context :
      (ctx : ContextEntry)
      → is_only_pair kc ≡ false
      → nonempty kc.current_context ≡ true
      → IsContext kc.current_context ctx kc.contexts
      → IsNamed ctx.cluster r.0 kc.clusters
      → IsNamed ctx.user r.1 kc.users
      → IsPicked kc r

both : {A B : Type 0} {a : A} {b : B} {r : A × B} → a ≡ r.0 → b ≡ r.1 → (a, b) ≡ r
both {b} {r} e f = ap (λ x. (x, b)) e ∙ ap (λ y. (r.0, y)) f

-- The entries that a context names.
abbrev Pair : Kubeconfig → ContextEntry → KubeconfigCluster × KubeconfigUser → Type 0
Pair kc ctx r = IsNamed ctx.cluster r.0 kc.clusters × IsNamed ctx.user r.1 kc.users

resolve_context_iff :
    (kc : Kubeconfig) (ctx : ContextEntry) (r : KubeconfigCluster × KubeconfigUser)
    → (resolve_context kc (some ctx) ≡ ok r) ↔ Pair kc ctx r
unfolding resolve_context
resolve_context_iff kc ctx r =
    by_entries (find_named ctx.cluster kc.clusters) (find_named ctx.user kc.users)
      (find_named_iff ctx.cluster kc.clusters r.0) (find_named_iff ctx.user kc.users r.1)
  where
    by_entries :
        (c : Option KubeconfigCluster) (u : Option KubeconfigUser)
        → (c ≡ some r.0) ↔ IsNamed ctx.cluster r.0 kc.clusters
        → (u ≡ some r.1) ↔ IsNamed ctx.user r.1 kc.users
        → (elim c [
          | none ↦ err unknown_cluster
          | some cluster ↦ elim u [ none ↦ err unknown_user | some user ↦ ok (cluster, user) ]
        ]
            ≡ ok r)
          ↔ Pair kc ctx r
    by_entries none u hc hu = (λ h. cc, λ p. cc (hc.1 p.0))
    by_entries (some c) none hc hu = (λ h. cc, λ p. cc (hu.1 p.1))
    by_entries (some c) (some u) hc hu = (
      λ h. let e = ok_injective h in (hc.0 (ap (λ p. some p.0) e), hu.0 (ap (λ p. some p.1) e)),
      λ p. ap ok (both (some_injective (hc.1 p.0)) (some_injective (hu.1 p.1))),
    )

-- The context that is current, and its pair.
abbrev Current : Kubeconfig → KubeconfigCluster × KubeconfigUser → Type 0
Current kc r =
    (nonempty kc.current_context ≡ true)
    × (ctx : ContextEntry) × IsContext kc.current_context ctx kc.contexts
    × Pair kc ctx r

resolve_current_iff :
    (kc : Kubeconfig) (r : KubeconfigCluster × KubeconfigUser)
    → (resolve_current kc ≡ ok r) ↔ Current kc r
unfolding resolve_current
resolve_current_iff kc r = by_named (nonempty kc.current_context) refl
  where
    by_context :
        nonempty kc.current_context ≡ true
        → (o : Option ContextEntry)
        → ((ctx : ContextEntry) → (o ≡ some ctx) ↔ IsContext kc.current_context ctx kc.contexts)
        → (resolve_context kc o ≡ ok r) ↔ Current kc r
    by_context full none h = (λ e. cc, λ p. cc ((h p.1).1 p.2))
    by_context full (some ctx) h = (
      λ e. (full, ctx, (h ctx).0 refl, (resolve_context_iff kc ctx r).0 e),
      λ p.
          (resolve_context_iff kc ctx r).1
            (subst (λ x. Pair kc x r) (sym (some_injective ((h p.1).1 p.2))) p.3),
    )

    by_named :
        (b : Bool)
        → nonempty kc.current_context ≡ b
        → ((if b
              then resolve_context kc (find_context kc.current_context kc.contexts)
              else err no_current_context)
            ≡ ok r)
          ↔ Current kc r
    by_named true full =
        by_context full (find_context kc.current_context kc.contexts)
          (find_context_iff kc.current_context kc.contexts)
    by_named false empty = (λ e. cc, λ p. cc (p.0))

-- Where the pair is not the only one, it is that of the current context.
by_current :
    (kc : Kubeconfig) (r : KubeconfigCluster × KubeconfigUser)
    → is_only_pair kc ≡ false
    → (resolve_current kc ≡ ok r) ↔ IsPicked kc r
by_current kc r many = (
  λ e. let p = (resolve_current_iff kc r).0 e in of_context p.1 many p.0 p.2 p.3.0 p.3.1,
  λ p. (resolve_current_iff kc r).1 (current p),
)
  where
    current : IsPicked kc r → Current kc r
    current (only_pair n m hc hu) = absurd (false≢true (sym many ∙ rw (hc, hu) refl))
    current (of_context ctx e full k c u) = (full, ctx, k, (c, u))

-- A pair that is picked is from both lists.
IsNamed-entries :
    {A : Type 0} {name : Bytes} {a : A} {entries : List (Bytes × A)}
    → IsNamed name a entries
    → entries ≢ []
IsNamed-entries (found_here e v) f = cc
IsNamed-entries (further e k) f = cc

IsPicked-entries :
    (kc : Kubeconfig) (r : KubeconfigCluster × KubeconfigUser)
    → IsPicked kc r
    → (kc.clusters ≢ []) × (kc.users ≢ [])
IsPicked-entries kc r (only_pair n m hc hu) = (λ e. cc, λ e. cc)
IsPicked-entries kc r (of_context ctx many full k c u) = (IsNamed-entries c, IsNamed-entries u)

single_injective :
    {A : Type 0} {n m : Bytes} {a b : A}
    → ◌≡◌ {A = List (Bytes × A)} ((n, a) ∷ []) ((m, b) ∷ [])
    → a ≡ b
single_injective e = cc

-- The only pair is picked.
by_only_pair :
    (kc : Kubeconfig) (n m : Bytes) (c : KubeconfigCluster) (u : KubeconfigUser)
    (r : KubeconfigCluster × KubeconfigUser)
    → kc.clusters ≡ (n, c) ∷ []
    → kc.users ≡ (m, u) ∷ []
    → (◌≡◌ {A = Outcome ResolveError (KubeconfigCluster × KubeconfigUser)} (ok (c, u)) (ok r))
      ↔ IsPicked kc r
by_only_pair kc n m c u r hc hu = (
  λ e.
      let same = ok_injective e in
      only_pair n m (hc ∙ ap (λ p. (n, p.0) ∷ []) same) (hu ∙ ap (λ p. (m, p.1) ∷ []) same),
  λ p. ap ok (same_pair p),
)
  where
    same_pair : IsPicked kc r → (c, u) ≡ r
    same_pair (only_pair n' m' hc' hu') =
        both (single_injective (sym hc ∙ hc')) (single_injective (sym hu ∙ hu'))
    same_pair (of_context ctx many full k c' u') = absurd (false≢true (sym many ∙ rw (hc, hu) refl))

resolve_lists_iff :
    (kc : Kubeconfig) (cs : List (Bytes × KubeconfigCluster)) (us : List (Bytes × KubeconfigUser))
    (r : KubeconfigCluster × KubeconfigUser)
    → kc.clusters ≡ cs
    → kc.users ≡ us
    → (resolve_lists kc cs us ≡ ok r) ↔ IsPicked kc r
unfolding resolve_lists
resolve_lists_iff kc [] us r hc hu = (λ e. cc, λ p. absurd ((IsPicked-entries kc r p).0 hc))
resolve_lists_iff kc (c ∷ cs) [] r hc hu = (λ e. cc, λ p. absurd ((IsPicked-entries kc r p).1 hu))
resolve_lists_iff kc ((n, c) ∷ []) ((m, u) ∷ []) r hc hu = by_only_pair kc n m c u r hc hu
resolve_lists_iff kc (c ∷ d ∷ cs) (u ∷ us) r hc hu = by_current kc r (rw hc refl)
resolve_lists_iff kc (c ∷ []) (u ∷ v ∷ us) r hc hu = by_current kc r (rw (hc, hu) refl)

-- The resolution picks a pair exactly if it is the only cluster with the only user, or if there
-- are others and the current context is not empty and its first entry names the pair, the cluster
-- and the user each as the first entry of its name; so the cluster of one context is never paired
-- with the user of another.
pub resolve_iff :
    (kc : Kubeconfig) (r : KubeconfigCluster × KubeconfigUser) → (resolve kc ≡ ok r) ↔ IsPicked kc r
unfolding resolve
resolve_iff kc r = resolve_lists_iff kc kc.clusters kc.users r refl refl
