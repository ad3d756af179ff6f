-- ===== src/Tests/Copies.antt =====
-- The theorems on what is copied from a source namespace, at a concrete map.
use argocd_cluster_registrar.Common.{[], ◌∷◌, Assoc, codes}
use argocd_cluster_registrar.Labels.{default_label_prefix}
use argocd_cluster_registrar.Propagate.{annotation_limits, propagate}
use argocd_cluster_registrar.Propagate.Limits.{IsPropagated, propagate-IsPropagated}

abbrev source_labels : Assoc
source_labels =
    (codes "argocd-cluster-registrar/tier", codes "gold")
    ∷ (codes "argocd-cluster-registrar/cluster", codes "two")
    ∷ (codes "team", codes "a")
    ∷ []

propagate-IsPropagated_example :
    IsPropagated source_labels default_label_prefix annotation_limits
      (propagate source_labels default_label_prefix annotation_limits).0
propagate-IsPropagated_example =
    propagate-IsPropagated source_labels default_label_prefix annotation_limits
