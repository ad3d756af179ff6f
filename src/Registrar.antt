-- ===== src/Registrar.antt =====
-- What the steps of the registrar share: the discovered child, the errors, and the label keys of
-- a configuration (internal/registrar/registrar.go).
use argocd_cluster_registrar.Common.{
  Bool, List, [], ◌∷◌, ◌++◌, Bytes, codes, Assoc, ◌==◌, get, nonempty,
}
use argocd_cluster_registrar.Labels
use argocd_cluster_registrar.Labels.{prune_disabled}
use argocd_cluster_registrar.Api.{Selector, Reason, Prog, ret, ◌>>=◌}
use argocd_cluster_registrar.Kube.{Secret}
use argocd_cluster_registrar.Config.{Config}

pub record Child : Type 0 where
  pub cluster : Bytes
  pub namespace : Bytes
  pub namespace_uid : Bytes
  pub server : Bytes
  pub config : Bytes
  pub provider : Bytes
  pub labels : Assoc
  pub annotations : Assoc

-- The call whose failure an error reports.
pub data Fault : Type 0 where
  confirm_namespace list_claimants list_cluster_secrets list_namespaces : Fault
  get_existing create update demote delete_expired delete_orphan : Fault

-- A joined error; the empty list is nil.
abbrev pub Faults : Type 0
Faults = List Fault

-- The error of a step of `apply`: nil, a conflictError, or another.
pub data Verdict : Type 0 where
  allowed : Verdict
  conflict : Reason → Verdict
  broken : Fault → Verdict

-- `if err := ...; err != nil { return err }`
unfoldable pub and_then : Prog Verdict → Prog Verdict → Prog Verdict
and_then m n =
    m >>= λ v. elim v [ allowed ↦ n | conflict r ↦ ret (conflict r) | broken f ↦ ret (broken f) ]

-- secretName
unfoldable pub secret_name : Bytes → Bytes
secret_name cluster = codes "cluster-" ++ cluster

module _ (cfg : Config) where
  -- What a Secret records: the value of a prefixed label, "" where it is missing.
  unfoldable pub owner_of : Secret → Bytes
  owner_of s = get s.labels (Labels.managed_by_label cfg.label_prefix)

  unfoldable pub source_of : Secret → Bytes
  source_of s = get s.labels (Labels.source_namespace_label cfg.label_prefix)

  unfoldable pub source_uid_of : Secret → Bytes
  source_uid_of s = get s.labels (Labels.source_namespace_uid_label cfg.label_prefix)

  unfoldable pub cluster_of : Secret → Bytes
  cluster_of s = get s.labels (Labels.cluster_label cfg.label_prefix)

  unfoldable pub stale_since_of : Secret → Bytes
  stale_since_of s = get s.labels (Labels.stale_since_label cfg.label_prefix)

  unfoldable pub is_demoted : Secret → Bool
  is_demoted s = nonempty (get s.labels (Labels.orphaned_secret_type_label cfg.label_prefix))

  unfoldable pub is_pinned : Secret → Bool
  is_pinned s = get s.labels (Labels.prune_label cfg.label_prefix) == prune_disabled

  -- The selectors by which the registrar lists what it owns.
  unfoldable pub owned_selector : Selector
  owned_selector = (Labels.managed_by_label cfg.label_prefix, cfg.managed_by_value) ∷ []

  unfoldable pub source_selector : Bytes → Selector
  source_selector ns_name =
      (Labels.managed_by_label cfg.label_prefix, cfg.managed_by_value)
      ∷ (Labels.source_namespace_label cfg.label_prefix, ns_name)
      ∷ []

  unfoldable pub claimant_selector : Bytes → Selector
  claimant_selector cluster =
      (Labels.managed_by_label cfg.label_prefix, cfg.managed_by_value)
      ∷ (Labels.cluster_label cfg.label_prefix, cluster)
      ∷ []
