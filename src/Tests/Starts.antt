-- ===== src/Tests/Starts.antt =====
-- The theorems on the flags and on the audit, at concrete ones.
use argocd_cluster_registrar.Common.{true, false, none, [], ◌∷◌, codes, pos}
use argocd_cluster_registrar.Provider.{Provider}
use argocd_cluster_registrar.Options.{Options, election_off}
use argocd_cluster_registrar.Tests.Data.{config}

abbrev k3k : Provider
k3k = record {
  name = codes "k3k";
  secret_name_pattern = codes "k3k-*-kubeconfig";
  secret_keys = codes "kubeconfig.yaml" ∷ [];
  secret_type = [];
  allow_exec = false;
}

abbrev pub options : Options
options = record {
  cfg = record config {
    managed_by_value = codes "cluster-registrar";
    providers = k3k ∷ [];
    dry_run = true;
    demoted_ttl = pos 0;
  };
  ctrl = record {
    interval = pos 60000000000;
    leader_election = false;
    leader_election_id = codes "acr-0123456789abcdef";
    health_probe_bind_address = codes ":8081";
    rest_config = none;
    metrics_bind_address = codes "0";
  };
  warnings = election_off ∷ [];
}
