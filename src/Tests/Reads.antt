-- ===== src/Tests/Reads.antt =====
-- The theorems on kubeconfigs and configurations, at concrete ones.
use argocd_cluster_registrar.Common.{
  ◌≡◌, ◌↔◌, refl, false, none, some, [], ◌∷◌, codes, nonempty, has_prefix, has_suffix,
  contains_byte, cut_prefix, member, trim_space, trim_right, base, insert, remove, keep_keys, ◌==◌,
}
use argocd_cluster_registrar.Labels
use argocd_cluster_registrar.Labels.{argo_domain}
use argocd_cluster_registrar.Kubeconfig.{
  Kubeconfig, KubeconfigCluster, KubeconfigUser, KubeconfigExec, find_named, resolve,
}
use argocd_cluster_registrar.Common.Result.{ok}
use argocd_cluster_registrar.Kubeconfig.Picked.{IsPicked, resolve_iff}
use argocd_cluster_registrar.Kubeconfig.Parse.{
  ParsedKubeconfig, base_config, is_in_cluster_server, parse_proxy_url, with_credentials,
  refuse_uncarried, parse_kubeconfig, to_lower,
}
use argocd_cluster_registrar.Kubeconfig.Parse.Carried.{IsAccepted, parse_kubeconfig-IsAccepted}
use argocd_cluster_registrar.Libraries.{Libraries}
use argocd_cluster_registrar.Exec.{
  ExecCredential, argo_auth_command, exec_api_version, exec_flag, translator, translate_kubelogin,
  translate_exec,
}
use argocd_cluster_registrar.Exec.Shape.{IsArgo, translate_exec-IsArgo}
use argocd_cluster_registrar.Config.{validate, validate_provider}
use argocd_cluster_registrar.Discover.{Candidate}
use argocd_cluster_registrar.Discover.Trust.{IsComputed, child_of-IsComputed}
use argocd_cluster_registrar.Discover.{child_of}
use argocd_cluster_registrar.Apply.{wanted}
use argocd_cluster_registrar.Tests.Data.{table, config, registration, younger}

abbrev kubelogin : KubeconfigExec
kubelogin = record {
  api_version = codes "client.authentication.k8s.io/v1beta1";
  command = codes "/usr/local/bin/kubelogin";
  args = codes "get-token" ∷ codes "--server-id" ∷ codes "app" ∷ [];
  env = [];
}

abbrev azure : ExecCredential
azure = record {
  aws = none;
  exec = some (record {
    command = argo_auth_command;
    args = codes "azure" ∷ [];
    env = (codes "AAD_SERVER_APPLICATION_ID", codes "app") ∷ [];
    api_version = exec_api_version;
  });
}

translate_exec-IsArgo_example : IsArgo azure
unfolding translate_exec translator translate_kubelogin exec_flag nonempty trim_space base
    cut_prefix insert remove keep_keys ◌==◌
translate_exec-IsArgo_example = translate_exec-IsArgo kubelogin azure refl

abbrev cluster : KubeconfigCluster
cluster = record {
  server = codes "https://one:6443/";
  certificate_authority_data = codes "ca";
  certificate_authority = [];
  insecure_skip_tls_verify = false;
  tls_server_name = [];
  proxy_url = [];
}

abbrev user : KubeconfigUser
user = record {
  token = codes "t";
  token_file = [];
  client_certificate_data = [];
  client_key_data = [];
  client_certificate = [];
  client_key = [];
  exec = none;
  auth_provider = false;
}

-- Two clusters, of which the current context names the second.
abbrev two_clusters : Kubeconfig
two_clusters = record {
  clusters =
      (codes "a", record cluster { server = codes "https://two" }) ∷ (codes "b", cluster) ∷ [];
  users = (codes "admin", user) ∷ [];
  contexts = record { name = codes "main"; cluster = codes "b"; user = codes "admin" } ∷ [];
  current_context = codes "main";
}

abbrev pub reader : Libraries
reader = record table { unmarshal_kubeconfig = λ raw. some two_clusters }

abbrev pub parsed : ParsedKubeconfig
parsed = record {
  server = codes "https://one:6443";
  config = codes "{}";
  insecure = false;
  exec_command = [];
}

parse_kubeconfig-IsAccepted_example : IsAccepted reader (codes "raw") false parsed
unfolding parse_kubeconfig resolve find_named nonempty ◌==◌ is_in_cluster_server to_lower member
    parse_proxy_url refuse_uncarried with_credentials trim_right base_config
parse_kubeconfig-IsAccepted_example =
    parse_kubeconfig-IsAccepted reader (codes "raw") false parsed refl

abbrev pub candidate : Candidate
candidate = record {
  secret = registration;
  provider = codes "vcluster";
  key = codes "config";
  provenance' = 0;
  allow_exec = false;
}

child_of-IsComputed_example :
    IsComputed table config younger candidate parsed
      (wanted config (child_of table config younger candidate parsed)).labels
unfolding validate validate_provider nonempty member ◌==◌ has_prefix has_suffix contains_byte
    argo_domain Labels.managed_by_label
child_of-IsComputed_example = child_of-IsComputed table config younger candidate parsed refl

resolve_iff_example :
    (resolve two_clusters ≡ ok (cluster, user)) ↔ IsPicked two_clusters (cluster, user)
resolve_iff_example = resolve_iff two_clusters (cluster, user)
