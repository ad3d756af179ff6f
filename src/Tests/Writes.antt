-- ===== src/Tests/Writes.antt =====
-- The theorems on what is written, at the concrete objects.
use argocd_cluster_registrar.Common.{◌≡◌, refl, [], codes, has_key, lookup, ◌==◌}
use argocd_cluster_registrar.Labels.{argo_secret_type_label}
use argocd_cluster_registrar.Api.Calls.{Calls}
use argocd_cluster_registrar.Api.Safe.{Safe, Anything}
use argocd_cluster_registrar.Apply.{
  wanted, merge, apply, demoted_labels, merge_keys, computed_labels,
}
use argocd_cluster_registrar.Apply.Merge.{IsMerged, merge-IsMerged}
use argocd_cluster_registrar.Apply.Demotion.{merge_keys-demoted_labels}
use argocd_cluster_registrar.Apply.Takeover.{MayWrite}
use argocd_cluster_registrar.Apply.Boundary.{apply-Bounded}
use argocd_cluster_registrar.Collect.Evidence.{Justified}
use argocd_cluster_registrar.Reconcile.{reconcile, reconcile_one}
use argocd_cluster_registrar.Reconcile.Reads.{IsRead}
use argocd_cluster_registrar.Reconcile.DryRun.{reconcile-Reads}
use argocd_cluster_registrar.Reconcile.Deletion.{reconcile_one-Justified}
use argocd_cluster_registrar.Tests.Data.{table, config, dry_config, child, registration}

reconcile_one-Justified_example :
    Safe
      (Justified table config (codes "team-a"))
      Anything
      []
      (reconcile_one table config (codes "team-a"))
reconcile_one-Justified_example = reconcile_one-Justified table config (codes "team-a") []

reconcile-Reads_example : Calls IsRead (reconcile table dry_config)
reconcile-Reads_example = reconcile-Reads table dry_config refl

apply-Bounded_example : Safe (MayWrite config child) Anything [] (apply config child)
apply-Bounded_example = apply-Bounded config child []

merge-IsMerged_example :
    IsMerged registration
      (wanted config child)
      config.label_prefix
      (merge registration (wanted config child) config.label_prefix)
merge-IsMerged_example = merge-IsMerged registration (wanted config child) config.label_prefix

merge_keys-demoted_labels_example :
    lookup (codes "team") (
      merge_keys config.label_prefix
        (demoted_labels table config registration.labels (codes "cluster-two") 0)
        (wanted config child).labels)
    ≡ lookup
        (codes "team")
        (merge_keys config.label_prefix registration.labels (wanted config child).labels)
unfolding has_key lookup wanted computed_labels argo_secret_type_label ◌==◌
merge_keys-demoted_labels_example =
    merge_keys-demoted_labels table config (codes "team") registration.labels
      (wanted config child).labels (codes "cluster-two") 0 refl
