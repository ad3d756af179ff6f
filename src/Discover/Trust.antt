-- ===== src/Discover/Trust.antt =====
-- What a source namespace can put on its cluster Secret by its own labels.
use argocd_cluster_registrar.Common.{
  Assoc, ◌≡◌, refl, sym, ◌∙◌, true, false, some, List, [], ◌∷◌, ◌++◌, Bytes, codes, ◌==◌, ==_iff,
  ==_ne, ==_refl, lookup, get, member, In, here, there, has_prefix, contains_byte, lookup-copy,
  arith,
}
use mathlib.Core.List.{map}
use argocd_cluster_registrar.Common.Result.{ok}
use argocd_cluster_registrar.Labels
use argocd_cluster_registrar.Labels.{
  key-ne, key-ne_of_prefix, reserved_suffixes, argo_domain, argo_secret_type_label,
  argo_secret_type_value,
}
use argocd_cluster_registrar.Kube.{Namespace}
use argocd_cluster_registrar.Kubeconfig.Parse.{ParsedKubeconfig}
use argocd_cluster_registrar.Libraries.{Libraries}
use argocd_cluster_registrar.Config.{Config, validate}
use argocd_cluster_registrar.Config.Prefix.{validate-argo_key}
use argocd_cluster_registrar.Propagate.{eligible, reserved_keys, propagated_labels}
use argocd_cluster_registrar.Propagate.Limits.{lookup-propagated_labels}
use argocd_cluster_registrar.Discover.{Candidate, child_of}
use argocd_cluster_registrar.Apply.{wanted, computed_labels}

-- A reserved key is never copied.
reserved_keys-member :
    (prefix s : Bytes) (suffixes : List Bytes)
    → In s suffixes
    → member (prefix ++ s) (map (λ t. prefix ++ t) suffixes) ≡ true
unfolding member
reserved_keys-member prefix s [] i = elim i [ ]
reserved_keys-member prefix s (t ∷ ts) here = ground (arith, ==_refl (prefix ++ s))
reserved_keys-member prefix s (t ∷ ts) (there i) =
    ground (arith, reserved_keys-member prefix s ts i)

eligible-reserved :
    (prefix s : Bytes) → In s reserved_suffixes → eligible prefix (prefix ++ s) ≡ false
unfolding eligible reserved_keys
eligible-reserved prefix s i = ground (arith, reserved_keys-member prefix s reserved_suffixes i)

eligible-unprefixed : (prefix k : Bytes) → has_prefix k prefix ≡ false → eligible prefix k ≡ false
unfolding eligible
eligible-unprefixed prefix k h = ground arith

-- The keys of computed labels, told apart.
==_swap : (s t : Bytes) → (s == t) ≡ false → (t == s) ≡ false
==_swap s t h = ==_ne t s λ e. cc (h, (==_iff s t).1 (sym e))

-- ArgoCD's label does not start with a prefix that Validate accepts.
validate-argo_label :
    (lib : Libraries) (cfg : Config)
    → validate lib cfg ≡ ok tt
    → has_prefix argo_secret_type_label cfg.label_prefix ≡ false
unfolding argo_secret_type_label argo_domain contains_byte
validate-argo_label lib cfg h = validate-argo_key lib cfg (codes "secret-type") h refl

module _ (lib : Libraries) (cfg : Config) (ns : Namespace) (c : Candidate)
    (pk : ParsedKubeconfig) where
  -- A key that may not be copied has the computed value.
  lookup-wanted :
      (k : Bytes)
      → eligible cfg.label_prefix k ≡ false
      → lookup k (wanted cfg (child_of lib cfg ns c pk)).labels
        ≡ lookup k (computed_labels cfg (child_of lib cfg ns c pk))
  unfolding wanted child_of
  lookup-wanted k h = ground (
    arith,
    lookup-copy k (computed_labels cfg (child_of lib cfg ns c pk))
        (propagated_labels ns.labels cfg.label_prefix),
    lookup-propagated_labels ns.labels cfg.label_prefix k,
  )

  -- The six labels that the registrar computes, on the Secret that is wanted for a namespace.
  pub record IsComputed (labels : Assoc) : Type 0 where
    pub visible : lookup argo_secret_type_label labels ≡ some argo_secret_type_value
    pub owner : lookup (Labels.managed_by_label cfg.label_prefix) labels ≡ some cfg.managed_by_value
    pub cluster :
        lookup (Labels.cluster_label cfg.label_prefix) labels
        ≡ some (get ns.labels (Labels.cluster_label cfg.label_prefix))
    pub source : lookup (Labels.source_namespace_label cfg.label_prefix) labels ≡ some ns.name
    pub source_uid :
        lookup (Labels.source_namespace_uid_label cfg.label_prefix) labels ≡ some ns.uid
    pub provider : lookup (Labels.provider_label cfg.label_prefix) labels ≡ some c.provider

  computed_labels-IsComputed :
      has_prefix argo_secret_type_label cfg.label_prefix ≡ false
      → IsComputed (computed_labels cfg (child_of lib cfg ns c pk))
  unfolding computed_labels child_of lookup ◌==◌ Labels.managed_by_label Labels.cluster_label
      Labels.source_namespace_label Labels.source_namespace_uid_label Labels.provider_label
  computed_labels-IsComputed h =
      let p = cfg.label_prefix in
      let not_argo = λ (s : Bytes).
        ==_swap (p ++ s) argo_secret_type_label (key-ne_of_prefix argo_secret_type_label p s h) in
      record {
        visible = ground (arith, ==_refl argo_secret_type_label);
        owner =
            ground
              (arith, not_argo Labels.suffix_managed_by, ==_refl (p ++ Labels.suffix_managed_by));
        cluster = ground (
          arith,
          not_argo Labels.suffix_cluster,
          ==_refl (p ++ Labels.suffix_cluster),
          key-ne p Labels.suffix_managed_by Labels.suffix_cluster refl,
        );
        source = ground (
          arith,
          not_argo Labels.suffix_source_namespace,
          ==_refl (p ++ Labels.suffix_source_namespace),
          key-ne p Labels.suffix_managed_by Labels.suffix_source_namespace refl,
          key-ne p Labels.suffix_cluster Labels.suffix_source_namespace refl,
        );
        source_uid = ground (
          arith,
          not_argo Labels.suffix_source_namespace_uid,
          ==_refl (p ++ Labels.suffix_source_namespace_uid),
          key-ne p Labels.suffix_managed_by Labels.suffix_source_namespace_uid refl,
          key-ne p Labels.suffix_cluster Labels.suffix_source_namespace_uid refl,
          key-ne p Labels.suffix_source_namespace Labels.suffix_source_namespace_uid refl,
        );
        provider = ground (
          arith,
          not_argo Labels.suffix_provider,
          ==_refl (p ++ Labels.suffix_provider),
          key-ne p Labels.suffix_managed_by Labels.suffix_provider refl,
          key-ne p Labels.suffix_cluster Labels.suffix_provider refl,
          key-ne p Labels.suffix_source_namespace Labels.suffix_provider refl,
          key-ne p Labels.suffix_source_namespace_uid Labels.suffix_provider refl,
        );
      }

  of_reserved :
      (suffix : Bytes)
      → In suffix reserved_suffixes
      → lookup (cfg.label_prefix ++ suffix) (wanted cfg (child_of lib cfg ns c pk)).labels
        ≡ lookup (cfg.label_prefix ++ suffix) (computed_labels cfg (child_of lib cfg ns c pk))
  of_reserved suffix i =
      lookup-wanted (cfg.label_prefix ++ suffix) (eligible-reserved cfg.label_prefix suffix i)

  -- Under a configuration that Validate accepts, and whatever labels a source namespace has, the
  -- Secret that is wanted for it carries the computed values of ArgoCD's secret-type label and of
  -- the labels for the owner, the cluster, the source namespace, its UID and the provider.
  pub child_of-IsComputed :
      validate lib cfg ≡ ok tt → IsComputed (wanted cfg (child_of lib cfg ns c pk)).labels
  unfolding Labels.managed_by_label Labels.cluster_label Labels.source_namespace_label
      Labels.source_namespace_uid_label Labels.provider_label
  child_of-IsComputed h =
      let hidden = validate-argo_label lib cfg h in
      let r = computed_labels-IsComputed hidden in
      record {
        visible =
            lookup-wanted argo_secret_type_label
              (eligible-unprefixed cfg.label_prefix argo_secret_type_label hidden)
            ∙ r.visible;
        owner = of_reserved Labels.suffix_managed_by here ∙ r.owner;
        cluster = of_reserved Labels.suffix_cluster (there here) ∙ r.cluster;
        source = of_reserved Labels.suffix_source_namespace (there (there here)) ∙ r.source;
        source_uid =
            of_reserved Labels.suffix_source_namespace_uid (there (there (there here)))
            ∙ r.source_uid;
        provider =
            of_reserved Labels.suffix_provider (there (there (there (there here)))) ∙ r.provider;
      }
