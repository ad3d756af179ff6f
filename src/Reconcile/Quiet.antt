-- ===== src/Reconcile/Quiet.antt =====
-- The steps that neither create nor update, but for what they delete.
use argocd_cluster_registrar.Common.{ℕ, Bool, not, List, [], ◌∷◌, Bytes, nonempty}
use argocd_cluster_registrar.Api.{Op, create_secret, update_secret, delete_secret, list_secrets}
use argocd_cluster_registrar.Api.Calls.{
  Calls, returns, Calls-perform, Calls-bind, Calls-if, Calls-option, calls_rules,
}
use argocd_cluster_registrar.Kube.{Secret}
use argocd_cluster_registrar.Libraries.{Libraries}
use argocd_cluster_registrar.Config.{Config}
use argocd_cluster_registrar.Registrar.{Faults, list_cluster_secrets}
use argocd_cluster_registrar.Collect.{
  delete_orphan_secret, collect_orphan, collect_stale_secret, collect_stale_secrets,
  collect_stale_uid, collect_secret, collect_secrets, collect_one,
}
use argocd_cluster_registrar.Reconcile.Reads.{IsRead}
use argocd_cluster_registrar.Reconcile.Hidden.{NoWrite}

pub IsRead-NoWrite : (o : Op) → IsRead o → NoWrite o
IsRead-NoWrite (create_secret _ _) k = k
IsRead-NoWrite (update_secret _ _) k = k
IsRead-NoWrite (delete_secret _ _ _) k = tt
IsRead-NoWrite _ k = tt

module _ (cfg : Config) where
  collect_orphan-NoWrite :
      (s : Secret) (n : ℕ) (errs : Faults) → Calls NoWrite (collect_orphan cfg s n errs)
  unfolding collect_orphan delete_orphan_secret
  collect_orphan-NoWrite s n errs = search (calls_rules, tt) depth 8

  collect_stale_secret-NoWrite :
      (uid : Bytes) (s : Secret) (errs : Faults)
      → Calls NoWrite (collect_stale_secret cfg uid s errs)
  unfolding collect_stale_secret delete_orphan_secret
  collect_stale_secret-NoWrite uid s errs = search (calls_rules, tt) depth 12

  collect_stale_secrets-NoWrite :
      (uid : Bytes) (items : List Secret) (errs : Faults)
      → Calls NoWrite (collect_stale_secrets cfg uid items errs)
  unfolding collect_stale_secrets
  collect_stale_secrets-NoWrite uid [] errs = returns errs
  collect_stale_secrets-NoWrite uid (s ∷ rest) errs =
      Calls-bind (collect_stale_secret-NoWrite uid s errs)
        (λ errs'. collect_stale_secrets-NoWrite uid rest errs')

  pub collect_stale_uid-NoWrite :
      (ns_name uid : Bytes) → Calls NoWrite (collect_stale_uid cfg ns_name uid)
  unfolding collect_stale_uid
  collect_stale_uid-NoWrite ns_name uid =
      Calls-if (not (nonempty uid)) (λ e. returns [])
        λ e. Calls-bind (Calls-perform (list_secrets _ _) tt) λ answer.
          Calls-option answer (returns (list_cluster_secrets ∷ []))
            (λ items. collect_stale_secrets-NoWrite uid items [])

module _ (lib : Libraries) (cfg : Config) where
  -- Without a registration that was applied, nothing is hidden in favour of it.
  collect_secret-NoWrite :
      (exists : Bool) (s : Secret) (n : ℕ) (errs : Faults)
      → Calls NoWrite (collect_secret lib cfg exists [] s n errs)
  unfolding collect_secret
  collect_secret-NoWrite exists s n errs = search (calls_rules, collect_orphan-NoWrite) depth 12

  collect_secrets-NoWrite :
      (exists : Bool) (items : List Secret) (n : ℕ) (errs : Faults)
      → Calls NoWrite (collect_secrets lib cfg exists [] items n errs)
  unfolding collect_secrets
  collect_secrets-NoWrite exists [] n errs = returns (n, errs)
  collect_secrets-NoWrite exists (s ∷ rest) n errs =
      Calls-bind (collect_secret-NoWrite exists s n errs)
        (λ r. collect_secrets-NoWrite exists rest r.0 r.1)

  pub collect_one-NoWrite :
      (ns_name : Bytes) (exists : Bool) → Calls NoWrite (collect_one lib cfg ns_name exists [])
  unfolding collect_one
  collect_one-NoWrite ns_name exists =
      Calls-bind (Calls-perform (list_secrets _ _) tt) λ answer.
        Calls-option answer (returns _) (λ items. collect_secrets-NoWrite exists items _ [])
