-- ===== src/Apply/Takeover.antt =====
-- The security boundary of `apply`: which Secrets it may write, by what it has read.
use argocd_cluster_registrar.Common.{
  ◌≡◌, ◌≢◌, refl, ◌↔◌, ◌⊎◌, inl, inr, true, false, not, ◌&&◌, ◌||◌, some, List, [], ◌∷◌, ◌==◌,
  ==_iff, nonempty, nonempty_iff, All, arith,
}
use argocd_cluster_registrar.Labels.{argo_secret_type_label, argo_secret_type_value}
use argocd_cluster_registrar.Api.{
  Op, found, not_found, create_secret, update_secret, delete_secret, get_namespace, get_secret,
  list_namespaces, list_secrets, count_adoption, Selector, Prog, ret,
}
use argocd_cluster_registrar.Api.Safe.{
  History, Saw, Safe, done, Anything, Safe-perform, Safe-bind, Safe-if,
}
use argocd_cluster_registrar.Kube.{Namespace, Secret}
use argocd_cluster_registrar.Config.{Config}
use argocd_cluster_registrar.Registrar.{
  Child, Verdict, allowed, conflict, broken, and_then, owner_of, source_of, cluster_of, is_pinned,
  claimant_selector, secret_name,
}
use argocd_cluster_registrar.Ownership.{award, check_ownership, holds_server}
use argocd_cluster_registrar.Apply.{wanted, merge}

abbrev pub argo_selector : Selector
argo_selector = (argo_secret_type_label, argo_secret_type_value) ∷ []

pub Verdict-cases : (v : Verdict) → (v ≡ allowed) ⊎ (v ≢ allowed)
Verdict-cases allowed = inl refl
Verdict-cases (conflict r) = inr (λ e. cc)
Verdict-cases (broken f) = inr (λ e. cc)

module _ (cfg : Config) (c : Child) where
  -- The Secret is this registrar's, and it records the child's namespace, or no namespace and
  -- the child's cluster.
  abbrev pub MayTake : Secret → Type 0
  MayTake s =
      (owner_of cfg s ≡ cfg.managed_by_value)
      × ((source_of cfg s ≡ c.namespace)
          ⊎ ((source_of cfg s ≡ []) × (cluster_of cfg s ≡ c.cluster)))

  -- An unpinned holder of the address whose namespace was read as not found.
  abbrev pub Released : Secret → History → Type 0
  Released s h =
      (is_pinned cfg s ≡ false)
      × (nonempty (source_of cfg s) ≡ true)
      × Saw (get_namespace (source_of cfg s)) not_found h

  -- Of the clusters that ArgoCD sees none holds the child's address, but for released ones.
  abbrev pub AddressFree : History → Type 0
  AddressFree h =
      (items : List Secret) × Saw (list_secrets cfg.target_namespace argo_selector) (some items) h
      × All (λ s. (holds_server cfg s c ≡ false) ⊎ Released s h) items

  -- The claimants of the name were listed, and the child's namespace has it.
  abbrev pub NameAwarded : History → Type 0
  NameAwarded h =
      (items : List Namespace) × Saw (list_namespaces (claimant_selector cfg c.cluster))
        (some items) h
      × (award items c ≡ allowed)

  -- What a write must meet at its history. A create is of the wanted Secret, where its name was
  -- free. An update merges what is wanted into the Secret that was read, where it may be taken.
  abbrev pub MayWrite : History → Op → Type 0
  MayWrite h (create_secret ns s) =
      (ns ≡ cfg.target_namespace)
      × (s ≡ wanted cfg c)
      × Saw (get_secret cfg.target_namespace (secret_name c.cluster)) not_found h
      × NameAwarded h
      × AddressFree h
  MayWrite h (update_secret ns s) =
      (ns ≡ cfg.target_namespace)
      × (existing : Secret) × Saw (get_secret cfg.target_namespace (secret_name c.cluster))
          (found existing) h
      × MayTake existing
      × (s ≡ merge existing (wanted cfg c) cfg.label_prefix)
  MayWrite h (delete_secret _ _ _) = ⊥
  MayWrite h _ = Unit {0}

  pub and_then-MayWrite :
      {Q : History → Verdict → Type 0} (h : History) (m n : Prog Verdict)
      → Safe MayWrite Q h m
      → ((h' : History) → Q h' allowed → Safe MayWrite Anything h' n)
      → Safe MayWrite Anything h (and_then m n)
  unfolding and_then
  and_then-MayWrite {Q} h m n hm hn = Safe-bind hm by_verdict
    where
      by_verdict :
          (h' : History) (v : Verdict)
          → Q h' v
          → Safe MayWrite Anything h'
              (elim v [ allowed ↦ n | conflict r ↦ ret (conflict r) | broken f ↦ ret (broken f) ])
      by_verdict h' allowed q = hn h' q
      by_verdict h' (conflict r) q = done tt
      by_verdict h' (broken f) q = done tt

  MayTake-iff :
      (s : Secret)
      → MayTake s ↔ (
          (owner_of cfg s == cfg.managed_by_value
            && (source_of cfg s == c.namespace
                || not (nonempty (source_of cfg s)) && cluster_of cfg s == c.cluster))
          ≡ true)
  MayTake-iff s = ground (
    arith,
    ==_iff (owner_of cfg s) cfg.managed_by_value,
    ==_iff (source_of cfg s) c.namespace,
    ==_iff (cluster_of cfg s) c.cluster,
    nonempty_iff (source_of cfg s),
  )

  -- Whatever was called before, checkOwnership makes no write and answers yes exactly where the
  -- Secret is this registrar's and records the child's namespace, or no namespace and the child's
  -- cluster.
  pub check_ownership-MayTake :
      (h : History) (s : Secret)
      → Safe MayWrite (λ h' v. (v ≡ allowed) ↔ MayTake s) h (check_ownership cfg s c)
  unfolding check_ownership
  check_ownership-MayTake h s =
      Safe-if (not (owner_of cfg s == cfg.managed_by_value))
        (λ e. done (ground (arith, MayTake-iff s)))
        λ e.
          Safe-if (source_of cfg s == c.namespace) (λ e'. done (ground (arith, MayTake-iff s)))
            λ e'.
              Safe-if (nonempty (source_of cfg s)) (λ e''. done (ground (arith, MayTake-iff s)))
                λ e''.
                  Safe-if (not (cluster_of cfg s == c.cluster))
                    (λ e3. done (ground (arith, MayTake-iff s)))
                    λ e3.
                      Safe-bind (Safe-perform h count_adoption tt)
                        (λ h' r q. done (ground (arith, MayTake-iff s)))
