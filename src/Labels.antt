-- ===== src/Labels.antt =====
-- The label keys of internal/registrar/registrar.go: every key is the configured prefix in front
-- of a suffix.
use argocd_cluster_registrar.Common.{
  ◌≡◌, ◌≢◌, refl, Bytes, codes, List, [], ◌∷◌, ◌++◌, ap, true, false, ==_iff, ==_ne, ◌==◌, arith,
  has_prefix,
}

abbrev pub default_label_prefix : Bytes
default_label_prefix = codes "argocd-cluster-registrar/"

abbrev pub suffix_managed_by : Bytes
suffix_managed_by = codes "managed-by"

abbrev pub suffix_cluster : Bytes
suffix_cluster = codes "cluster"

abbrev pub suffix_source_namespace : Bytes
suffix_source_namespace = codes "source-namespace"

abbrev pub suffix_source_namespace_uid : Bytes
suffix_source_namespace_uid = codes "source-namespace-uid"

abbrev pub suffix_provider : Bytes
suffix_provider = codes "provider"

abbrev pub suffix_orphaned_secret_type : Bytes
suffix_orphaned_secret_type = codes "orphaned-secret-type"

abbrev pub suffix_superseded_by : Bytes
suffix_superseded_by = codes "superseded-by"

abbrev pub suffix_stale_since : Bytes
suffix_stale_since = codes "stale-since"

abbrev pub suffix_prune : Bytes
suffix_prune = codes "prune"

abbrev pub prune_disabled : Bytes
prune_disabled = codes "disabled"

-- Shut, so that no proof computes the literals by accident.
unfoldable pub argo_secret_type_label : Bytes
argo_secret_type_label = codes "argocd.argoproj.io/secret-type"

abbrev pub argo_secret_type_value : Bytes
argo_secret_type_value = codes "cluster"

unfoldable pub argo_domain : Bytes
argo_domain = codes "argocd.argoproj.io/"

module _ (prefix : Bytes) where
  unfoldable pub managed_by_label : Bytes
  managed_by_label = prefix ++ suffix_managed_by

  unfoldable pub cluster_label : Bytes
  cluster_label = prefix ++ suffix_cluster

  unfoldable pub source_namespace_label : Bytes
  source_namespace_label = prefix ++ suffix_source_namespace

  unfoldable pub source_namespace_uid_label : Bytes
  source_namespace_uid_label = prefix ++ suffix_source_namespace_uid

  unfoldable pub orphaned_secret_type_label : Bytes
  orphaned_secret_type_label = prefix ++ suffix_orphaned_secret_type

  unfoldable pub superseded_by_label : Bytes
  superseded_by_label = prefix ++ suffix_superseded_by

  unfoldable pub stale_since_label : Bytes
  stale_since_label = prefix ++ suffix_stale_since

  unfoldable pub prune_label : Bytes
  prune_label = prefix ++ suffix_prune

  unfoldable pub provider_label : Bytes
  provider_label = prefix ++ suffix_provider

abbrev pub reserved_suffixes : List Bytes
reserved_suffixes =
    suffix_managed_by ∷ suffix_cluster ∷ suffix_source_namespace ∷ suffix_source_namespace_uid
    ∷ suffix_provider ∷ suffix_orphaned_secret_type ∷ suffix_superseded_by ∷ suffix_stale_since
    ∷ suffix_prune ∷ []

append_cancel_left : (p s t : Bytes) → p ++ s ≡ p ++ t → s ≡ t
append_cancel_left [] s t h = h
append_cancel_left (c ∷ p) s t h = append_cancel_left p s t (cc)

-- Keys with different suffixes differ.
append-ne : (p s t : Bytes) → (s == t) ≡ false → p ++ s ≢ p ++ t
append-ne p s t h e = ground (arith, ==_iff s t, append_cancel_left p s t e)

-- A key that starts with the prefix is recognised as such.
pub has_prefix-append : (p s : Bytes) → has_prefix (p ++ s) p ≡ true
unfolding has_prefix
has_prefix-append [] s = has_prefix_nil s
  where
    has_prefix_nil : (t : Bytes) → has_prefix t [] ≡ true
    has_prefix_nil [] = refl
    has_prefix_nil (x ∷ t) = refl
has_prefix-append (c ∷ p) s = ground (arith, has_prefix-append p s)

pub key-ne : (p s t : Bytes) → (s == t) ≡ false → (p ++ s == p ++ t) ≡ false
key-ne p s t h = ==_ne (p ++ s) (p ++ t) (append-ne p s t h)

-- A text that does not start with the prefix is none of the prefixed keys.
pub key-ne_of_prefix : (k p s : Bytes) → has_prefix k p ≡ false → (p ++ s == k) ≡ false
key-ne_of_prefix k p s h =
    ==_ne (p ++ s) k λ e. cc (h, has_prefix-append p s, ap (λ t. has_prefix t p) e)
