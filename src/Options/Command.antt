-- ===== src/Options/Command.antt =====
-- The defaults of the flags and what the root command runs (cmd/root.go). Logging is left out,
-- and so is the client that `New` builds.
use argocd_cluster_registrar.Common.{false, List, [], codes, ◌*◌, pos, if◌then◌else◌}
use argocd_cluster_registrar.Common.Result.{Outcome, ok, ◌>>=◌}
use argocd_cluster_registrar.Labels.{default_label_prefix}
use argocd_cluster_registrar.Libraries.{Libraries}
use argocd_cluster_registrar.Config.{Config, with_default_prefix}
use argocd_cluster_registrar.Options.{
  Flags, ControllerOptions, Warning, OptionsError, build_options,
}

-- registerFlags, where the user sets nothing.
abbrev pub default_flags : Flags
default_flags = record {
  debug = false;
  once = false;
  dry_run = false;
  interval = pos (60 * 1000000000);
  target_namespace = codes "argocd";
  managed_by_value = codes "cluster-registrar";
  provider_specs = [];
  secret_name_pattern = codes "k3k-*-kubeconfig";
  secret_name_pattern_changed = false;
  secret_key = codes "kubeconfig.yaml";
  secret_key_changed = false;
  label_prefix = default_label_prefix;
  demoted_ttl = pos 0;
  exec_credentials = false;
  leader_elect = false;
  leader_election_id = [];
  leader_election_id_changed = false;
  health_probe_bind_address = codes ":8081";
  metrics_bind_address = codes "0";
}

-- What the command goes on to, with the configuration of its registrar.
pub data Command : Type 0 where
  sweep : Config → Command
  start : Config → ControllerOptions → Command

-- The warnings come first on either way.
unfoldable pub run_command : Libraries → Flags → Outcome OptionsError (List Warning × Command)
unfolding build_options with_default_prefix
run_command lib f = do
  opts ← build_options lib f
  ok (
    opts.warnings,
    if f.once
        then sweep (with_default_prefix opts.cfg)
        else start (with_default_prefix opts.cfg) opts.ctrl,
  )
