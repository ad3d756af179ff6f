-- ===== src/Controller/Seeding.antt =====
-- The seeder ends: it needs one poll more than there are failed ones.
use argocd_cluster_registrar.Common.{
  ℕ, zero, suc, ◌<◌, ◌≡◌, refl, Option, none, some, List, [], ◌∷◌, ◌++◌, arith,
}
use argocd_cluster_registrar.Api.{Op, Answer, list_namespaces, list_secrets, ◌>>=◌, perform, run}
use argocd_cluster_registrar.Kube.{Namespace, Secret}
use argocd_cluster_registrar.Libraries.{Libraries}
use argocd_cluster_registrar.Config.{Config}
use argocd_cluster_registrar.Registrar.{owned_selector}
use argocd_cluster_registrar.Reconcile.{no_faults, keys_of, reconcile_keys}
use argocd_cluster_registrar.Controller.{audit_key}
use argocd_cluster_registrar.Controller.Seed.{poll_keys, seed}

module _ (lib : Libraries) (cfg : Config) {W : Type 0} (handle : (o : Op) → W → Answer o × W) where
  -- What the server answers to the two lists of a poll, and where it is then.
  abbrev namespaces_at : W → Answer (list_namespaces (owned_selector cfg)) × W
  namespaces_at w = handle (list_namespaces (owned_selector cfg)) w

  abbrev secrets_at : W → Option (List Secret) × W
  secrets_at w = handle (list_secrets cfg.target_namespace (owned_selector cfg)) w

  -- The server fails one of the lists of so many polls, and then answers both.
  pub data Recovers (nss : List Namespace) (ss : List Secret) : ℕ → W → Type 0 where
    lists :
        {w : W}
        → (namespaces_at w).0 ≡ some nss
        → (secrets_at (namespaces_at w).1).0 ≡ some ss
        → Recovers nss ss 0 w
    no_namespaces :
        {n : ℕ} {w : W}
        → (namespaces_at w).0 ≡ none
        → Recovers nss ss n (namespaces_at w).1
        → Recovers nss ss (suc n) w
    no_secrets :
        {n : ℕ} {w : W} (some_nss : List Namespace)
        → (namespaces_at w).0 ≡ some some_nss
        → (secrets_at (namespaces_at w).1).0 ≡ none
        → Recovers nss ss n (secrets_at (namespaces_at w).1).1
        → Recovers nss ss (suc n) w

  -- Against a server that fails one of the two lists of the first n polls and then answers both,
  -- and where the context lasts for more than n polls, the seeder sends the keys of those answers
  -- and then the key of the audit.
  pub seed-Recovers :
      (nss : List Namespace) (ss : List Secret) (n polls : ℕ) (w : W)
      → Recovers nss ss n w
      → n < polls
      → (run handle (seed lib cfg polls) w).0 ≡ keys_of lib cfg nss ss ++ audit_key ∷ []
  unfolding seed poll_keys reconcile_keys no_faults run ◌>>=◌ perform
  seed-Recovers nss ss n zero w r b = absurd (ground arith)
  seed-Recovers nss ss zero (suc polls) w (lists a b') b = rw (a, run, keys_of) (rw (b', run) refl)
  seed-Recovers nss ss (suc n) (suc polls) w (no_namespaces a r) b =
      rw (a, run) (seed-Recovers nss ss n polls _ r (ground arith))
  seed-Recovers nss ss (suc n) (suc polls) w (no_secrets some_nss a b' r) b =
      rw (a, run) (rw (b', run) (seed-Recovers nss ss n polls _ r (ground arith)))
