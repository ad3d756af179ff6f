-- ===== src/Reconcile/DryRun.antt =====
-- With `DryRun` set, a sweep writes nothing, whatever the API server answers.
use argocd_cluster_registrar.Common.{◌≡◌, true}
use argocd_cluster_registrar.Api.{Op, create_secret, update_secret, delete_secret}
use argocd_cluster_registrar.Api.Calls.{Calls-weaken}
use argocd_cluster_registrar.Libraries.{Libraries}
use argocd_cluster_registrar.Config.{Config}
use argocd_cluster_registrar.Reconcile.{reconcile}
use argocd_cluster_registrar.Reconcile.Reads.{IsRead, Reads}
use argocd_cluster_registrar.Reconcile.Within.{IsWithin, reconcile-Within}

module _ (lib : Libraries) (cfg : Config) where
  IsWithin-IsRead : cfg.dry_run ≡ true → (o : Op) → IsWithin cfg o → IsRead o
  IsWithin-IsRead dry (create_secret _ _) k = cc
  IsWithin-IsRead dry (update_secret _ _) k = cc
  IsWithin-IsRead dry (delete_secret _ _ _) k = cc
  IsWithin-IsRead dry _ k = k

  -- With dry-run set, a full sweep makes no call that creates, updates or deletes, whatever the
  -- API server answers.
  pub reconcile-Reads : cfg.dry_run ≡ true → Reads (reconcile lib cfg)
  reconcile-Reads dry = Calls-weaken (IsWithin-IsRead dry) (reconcile-Within lib cfg)
