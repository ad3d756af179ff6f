-- ===== src/Apply.antt =====
-- `apply`, `changed` and `demote` of internal/registrar/registrar.go. A nil map and an empty one
-- are not told apart: the source makes a map before it writes to a nil one.
pub mod Swept
pub mod Merge
pub mod Demotion
pub mod Takeover
pub mod Claims
pub mod Boundary
pub mod Outcomes
pub mod Verdicts
pub mod Lasting
pub mod Writes
pub mod Drift
pub mod Stored
pub mod Live
pub mod Settled
use argocd_cluster_registrar.Common.{
  ℕ, Bool, true, false, not, ◌&&◌, ◌||◌, Option, none, some, List, [], ◌∷◌, Bytes, codes, Assoc,
  ◌==◌, get, lookup, has_key, insert, remove, copy, keep_keys, any, has_prefix, trim_right,
  if◌then◌else◌,
}
use argocd_cluster_registrar.Labels
use argocd_cluster_registrar.Labels.{argo_secret_type_label, argo_secret_type_value}
use argocd_cluster_registrar.Api.{
  Prog, ret, ◌>>=◌, perform, Found, found, not_found, failed, Created, created, already_exists,
  create_failed, get_secret, create_secret, update_secret, now, create_race,
}
use argocd_cluster_registrar.Kube.{Secret}
use argocd_cluster_registrar.Libraries.{Libraries}
use argocd_cluster_registrar.Config.{Config}
use argocd_cluster_registrar.Registrar.{
  Child, Fault, Faults, demote, Verdict, allowed, conflict, broken, get_existing, create, update,
  and_then, secret_name,
}
use argocd_cluster_registrar.Ownership.{check_ownership, claim_contested_name, claim_server}

-- The test of the loop over one map of what is wanted: some key has another value.
unfoldable pub differs : Assoc → Assoc → Bool
unfolding any
differs existing want = any (λ e. not (get existing e.0 == get want e.0)) want

-- A prefixed key, other than the prune opt-out, that is not wanted.
unfoldable pub is_swept : Bytes → Assoc → Bytes → Bool
is_swept prefix want k =
    not (k == Labels.prune_label prefix) && has_prefix k prefix && not (has_key k want)

unfoldable pub has_swept : Bytes → Assoc → Assoc → Bool
unfolding any is_swept
has_swept prefix existing want = any (λ e. is_swept prefix want e.0) existing

unfoldable pub changed : Secret → Secret → Bytes → Bool
unfolding differs has_swept
changed existing want prefix =
    differs existing.data' want.string_data
    || differs existing.labels want.labels
    || has_swept prefix existing.labels want.labels
    || differs existing.annotations want.annotations
    || has_swept prefix existing.annotations want.annotations

-- Copy what is wanted over what is there, and sweep.
unfoldable pub merge_keys : Bytes → Assoc → Assoc → Assoc
unfolding copy keep_keys is_swept
merge_keys prefix existing want = keep_keys (λ k. not (is_swept prefix want k)) (copy existing want)

-- The read-modify-write.
unfoldable pub merge : Secret → Secret → Bytes → Secret
unfolding merge_keys copy
merge existing want prefix = record existing {
  data' = copy existing.data' want.string_data;
  labels = merge_keys prefix existing.labels want.labels;
  annotations = merge_keys prefix existing.annotations want.annotations;
}

module _ (cfg : Config) where
  -- What `apply` computes itself.
  unfoldable pub computed_labels : Child → Assoc
  computed_labels c =
      (argo_secret_type_label, argo_secret_type_value)
      ∷ (Labels.managed_by_label cfg.label_prefix, cfg.managed_by_value)
      ∷ (Labels.cluster_label cfg.label_prefix, c.cluster)
      ∷ (Labels.source_namespace_label cfg.label_prefix, c.namespace)
      ∷ (Labels.source_namespace_uid_label cfg.label_prefix, c.namespace_uid)
      ∷ (Labels.provider_label cfg.label_prefix, c.provider)
      ∷ []

  unfoldable pub wanted_data : Child → Assoc
  wanted_data c =
      (codes "name", c.cluster) ∷ (codes "server", c.server) ∷ (codes "config", c.config) ∷ []

  unfoldable pub wanted : Child → Secret
  unfolding copy computed_labels wanted_data
  wanted c = record {
    name = secret_name c.cluster;
    namespace = cfg.target_namespace;
    uid = [];
    resource_version = [];
    labels = copy (computed_labels c) c.labels;
    annotations = c.annotations;
    owner_references = [];
    type = codes "Opaque";
    data' = [];
    string_data = wanted_data c;
  }

  unfoldable pub create_wanted : Child → Prog Verdict
  create_wanted c = do
    answer ← perform (create_secret cfg.target_namespace (wanted c))
    ret (elim answer [
      | created ↦ allowed
      | already_exists ↦ conflict create_race
      | create_failed ↦ broken create
    ])

  -- Nobody holds the name.
  unfoldable pub register : Child → Prog Verdict
  unfolding and_then create_wanted
  register c =
      and_then (claim_contested_name cfg c)
        (and_then (claim_server cfg c) (if cfg.dry_run then ret allowed else create_wanted c))

  unfoldable pub update_merged : Secret → Child → Prog Verdict
  update_merged existing c = do
    accepted ←
        perform (update_secret cfg.target_namespace (merge existing (wanted c) cfg.label_prefix))
    ret (if accepted then allowed else broken update)

  -- The address is checked only where it moves.
  unfoldable pub claim_if_moved : Secret → Child → Prog Verdict
  claim_if_moved existing c =
      if not (trim_right (get existing.data' (codes "server")) b'/' == c.server)
      then claim_server cfg c
      else ret allowed

  unfoldable pub refresh : Secret → Child → Prog Verdict
  unfolding and_then claim_if_moved update_merged
  refresh existing c = and_then (check_ownership cfg existing c) (
      if not (changed existing (wanted c) cfg.label_prefix)
      then ret allowed
      else and_then (claim_if_moved existing c)
          (if cfg.dry_run then ret allowed else update_merged existing c))

  unfoldable pub apply : Child → Prog Verdict
  unfolding register refresh
  apply c = do
    answer ← perform (get_secret cfg.target_namespace (secret_name c.cluster))
    elim answer [
      | not_found ↦ register c
      | failed ↦ ret (broken get_existing)
      | found existing ↦ refresh existing c
    ]

module _ (lib : Libraries) (cfg : Config) where
  -- The secret-type label parked under its own key.
  unfoldable pub park : Assoc → Assoc
  park labels = elim (lookup argo_secret_type_label labels) [
    | none ↦ labels
    | some v ↦
        remove argo_secret_type_label
          (insert (Labels.orphaned_secret_type_label cfg.label_prefix) v labels)
  ]

  unfoldable pub demoted_labels : Assoc → Bytes → ℕ → Assoc
  demoted_labels labels superseded_by at =
      insert (Labels.stale_since_label cfg.label_prefix) (lib.format_stale_since at) (
        if lib.is_valid_label_value superseded_by
        then insert (Labels.superseded_by_label cfg.label_prefix) superseded_by (park labels)
        else park labels)

  unfoldable pub demote_secret : Secret → Bytes → Prog Faults
  unfolding demoted_labels
  demote_secret s superseded_by = if cfg.dry_run then ret [] else do
    at ← perform now
    accepted ← perform (
        update_secret cfg.target_namespace
          (record s { labels = demoted_labels s.labels superseded_by at }))
    ret (if accepted then [] else demote ∷ [])
