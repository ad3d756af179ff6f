-- ===== src/Controller/Manager.antt =====
-- The options of the manager: `managerOptions` and what `Start` of
-- internal/registrar/controller.go decides about it.
use argocd_cluster_registrar.Common.{
  true, not, List, [], ◌∷◌, Bytes, codes, nonempty, ℤ, pos, ltb_ℤ, if◌then◌else◌,
}
use argocd_cluster_registrar.Common.Result.{Outcome, ok, ◌>>◌, refuse_if}
use argocd_cluster_registrar.Labels
use argocd_cluster_registrar.Runtime.{
  ManagerOptions, Probe, namespace_kind, secret_kind, healthz, readyz,
}
use argocd_cluster_registrar.Config.{Config}
use argocd_cluster_registrar.Options.{ControllerOptions}

abbrev pub metrics_disabled : Bytes
metrics_disabled = codes "0"

unfoldable pub manager_options : Config → ControllerOptions → ManagerOptions
unfolding nonempty
manager_options cfg opts = record {
  reader_fail_on_missing_informer = true;
  cached =
      (namespace_kind, (Labels.managed_by_label cfg.label_prefix, cfg.managed_by_value) ∷ []) ∷ [];
  uncached = secret_kind ∷ [];
  metrics_bind_address =
      if nonempty opts.metrics_bind_address then opts.metrics_bind_address else metrics_disabled;
  health_probe_bind_address = opts.health_probe_bind_address;
  leader_election = opts.leader_election;
  leader_election_id = opts.leader_election_id;
  leader_election_namespace = cfg.target_namespace;
  leader_election_release_on_cancel = true;
}

pub data StartError : Type 0 where
  interval_not_positive : StartError

-- What `Start` asks of controller-runtime, where each of its calls succeeds.
pub record Plan : Type 0 where
  pub manager : ManagerOptions
  pub probes : List Probe
  pub interval : ℤ

-- What follows the check of the interval.
unfoldable pub plan_of : Config → ControllerOptions → Plan
unfolding manager_options nonempty
plan_of cfg opts = record {
  manager = manager_options cfg opts;
  probes = if nonempty opts.health_probe_bind_address then healthz ∷ readyz ∷ [] else [];
  interval = opts.interval;
}

unfoldable pub start : Config → ControllerOptions → Outcome StartError Plan
unfolding plan_of
start cfg opts = do
  refuse_if (not (ltb_ℤ (pos 0) opts.interval)) interval_not_positive
  ok (plan_of cfg opts)
