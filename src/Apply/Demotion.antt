-- ===== src/Apply/Demotion.antt =====
-- A demotion hides a registration from ArgoCD, keeps everything else of it, and is undone by the
-- next write of `apply`.
use argocd_cluster_registrar.Common.{
  ℕ, ◌≡◌, refl, true, false, ◌&&◌, none, some, ◌++◌, Bytes, Assoc, ◌==◌, ==_iff, ==_ne, ==_refl, ap,
  lookup, has_key, has_prefix, arith, lookup-insert, lookup-remove, or_else, Bool-cases,
  Option-cases, inl, inr, if◌then◌else◌,
}
use argocd_cluster_registrar.Labels
use argocd_cluster_registrar.Labels.{
  argo_secret_type_label, key-ne, key-ne_of_prefix, has_prefix-append,
}
use argocd_cluster_registrar.Libraries.{Libraries}
use argocd_cluster_registrar.Config.{Config}
use argocd_cluster_registrar.Apply.{park, demoted_labels, is_swept, merge_keys}
use argocd_cluster_registrar.Apply.Merge.{lookup-merge_keys}

module _ (lib : Libraries) (cfg : Config) where
  lookup-park :
      (k : Bytes) (labels : Assoc)
      → lookup k (park lib cfg labels) ≡ (
          if argo_secret_type_label == k
          then none
          else if Labels.orphaned_secret_type_label cfg.label_prefix == k
          then or_else (lookup argo_secret_type_label labels) (lookup k labels)
          else lookup k labels)
  unfolding park
  lookup-park k labels = elim (Option-cases (lookup argo_secret_type_label labels)) [
    | inl e ↦ rw (e, park) (ground (arith, ==_iff argo_secret_type_label k, e))
    | inr (v, e) ↦ rw (e, park) (simp (lookup-remove, lookup-insert))
  ]

  -- The labels of a demoted Secret, key by key: the stamp, the successor where it is a valid
  -- label value, the secret-type label gone and parked, and every other label as it was.
  lookup-demoted_labels :
      (k : Bytes) (labels : Assoc) (by : Bytes) (at : ℕ)
      → lookup k (demoted_labels lib cfg labels by at) ≡ (
          if Labels.stale_since_label cfg.label_prefix == k
          then some (lib.format_stale_since at)
          else if lib.is_valid_label_value by && Labels.superseded_by_label cfg.label_prefix == k
          then some by
          else if argo_secret_type_label == k
          then none
          else if Labels.orphaned_secret_type_label cfg.label_prefix == k
          then or_else (lookup argo_secret_type_label labels) (lookup k labels)
          else lookup k labels)
  unfolding demoted_labels
  lookup-demoted_labels k labels by at = elim (Bool-cases (lib.is_valid_label_value by)) [
    | inl e ↦ rw e (simp (lookup-insert, lookup-park))
    | inr e ↦ rw e (simp (lookup-insert, lookup-park))
  ]

  -- With a prefix that ArgoCD's key does not start with, a demoted Secret does not carry the
  -- label by which ArgoCD finds clusters.
  demoted_labels_hidden :
      (labels : Assoc) (by : Bytes) (at : ℕ)
      → has_prefix argo_secret_type_label cfg.label_prefix ≡ false
      → lookup argo_secret_type_label (demoted_labels lib cfg labels by at) ≡ none
  unfolding Labels.stale_since_label Labels.superseded_by_label
  demoted_labels_hidden labels by at h = rw lookup-demoted_labels (
      ground (
        arith,
        key-ne_of_prefix argo_secret_type_label cfg.label_prefix Labels.suffix_stale_since h,
        key-ne_of_prefix argo_secret_type_label cfg.label_prefix Labels.suffix_superseded_by h,
        ==_refl argo_secret_type_label,
      ))

-- A label that the merge leaves alone is none of the marks of a demotion.
unmarked :
    (p k s : Bytes) (want : Assoc)
    → is_swept p want k ≡ false
    → lookup k want ≡ none
    → (s == Labels.suffix_prune) ≡ false
    → (p ++ s == k) ≡ false
unfolding is_swept has_key Labels.prune_label
unmarked p k s want swept absent other = ==_ne (p ++ s) k λ e. ground (
  arith,
  has_prefix-append p s,
  ap (λ t. has_prefix t p) e,
  key-ne p s Labels.suffix_prune other,
  ap (λ t. t == p ++ Labels.suffix_prune) e,
)

module _ (lib : Libraries) (cfg : Config) where
  -- What the merge leaves alone, the demotion has left alone.
  lookup-demoted_labels_unswept :
      (k : Bytes) (labels want : Assoc) (by : Bytes) (at : ℕ)
      → has_key argo_secret_type_label want ≡ true
      → is_swept cfg.label_prefix want k ≡ false
      → lookup k want ≡ none
      → lookup k (demoted_labels lib cfg labels by at) ≡ lookup k labels
  unfolding Labels.stale_since_label Labels.superseded_by_label Labels.orphaned_secret_type_label
      has_key ◌==◌
  lookup-demoted_labels_unswept k labels want by at argo swept absent = rw lookup-demoted_labels (
      ground (
        arith,
        unmarked cfg.label_prefix k Labels.suffix_stale_since want swept absent refl,
        unmarked cfg.label_prefix k Labels.suffix_superseded_by want swept absent refl,
        unmarked cfg.label_prefix k Labels.suffix_orphaned_secret_type want swept absent refl,
        ==_iff argo_secret_type_label k,
        ap (λ j. lookup j want) {x = argo_secret_type_label} {y = k},
      ))

  -- Writing what is wanted over a demoted Secret leaves the same labels as writing it over the
  -- Secret from before the demotion, if what is wanted has the label by which ArgoCD finds
  -- clusters.
  pub merge_keys-demoted_labels :
      (k : Bytes) (labels want : Assoc) (by : Bytes) (at : ℕ)
      → has_key argo_secret_type_label want ≡ true
      → lookup k (merge_keys cfg.label_prefix (demoted_labels lib cfg labels by at) want)
        ≡ lookup k (merge_keys cfg.label_prefix labels want)
  merge_keys-demoted_labels k labels want by at argo =
      rw (lookup-merge_keys cfg.label_prefix k (demoted_labels lib cfg labels by at) want) (
        rw (lookup-merge_keys cfg.label_prefix k labels want)
          (elim (Bool-cases (is_swept cfg.label_prefix want k)) [
            | inl e ↦ rw e refl
            | inr e ↦ rw e (elim (Option-cases (lookup k want)) [
              | inr (v, f) ↦ rw f refl
              | inl f ↦ rw f (lookup-demoted_labels_unswept k labels want by at argo e f)
            ])
          ]))
