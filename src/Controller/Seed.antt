-- ===== src/Controller/Seed.antt =====
-- The seeding of the queue: the seeder in `Start` of internal/registrar/controller.go.
use argocd_cluster_registrar.Common.{
  ℕ, zero, suc, Option, none, some, List, [], ◌∷◌, ◌++◌, Bytes, if◌then◌else◌,
}
use argocd_cluster_registrar.Api.{Prog, ret, ◌>>=◌}
use argocd_cluster_registrar.Libraries.{Libraries}
use argocd_cluster_registrar.Config.{Config}
use argocd_cluster_registrar.Reconcile.{no_faults, reconcile_keys}
use argocd_cluster_registrar.Controller.{audit_key}

module _ (lib : Libraries) (cfg : Config) where
  -- The condition of wait.PollUntilContextCancel: the keys, or another try.
  unfoldable pub poll_keys : Prog (Option (List Bytes))
  unfolding reconcile_keys no_faults
  poll_keys = reconcile_keys lib cfg >>= λ r. ret (if no_faults r.1 then some r.0 else none)

  -- The keys that the seeder sends, where the context is cancelled after so many polls and not
  -- while it sends.
  unfoldable pub seed : ℕ → Prog (List Bytes)
  unfolding poll_keys
  seed zero = ret []
  seed (suc polls) =
      poll_keys >>= λ keys. elim keys [ none ↦ seed polls | some ks ↦ ret (ks ++ audit_key ∷ []) ]
