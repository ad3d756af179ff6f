-- ===== src/Tests/Data.antt =====
-- A configuration, a child, Secrets and namespaces, and libraries that answer from a table.
use argocd_cluster_registrar.Common.{
  true, false, Option, none, some, [], ◌∷◌, Bytes, codes, pos, ◌==◌,
}
use argocd_cluster_registrar.Labels.{default_label_prefix}
use argocd_cluster_registrar.Kube.{Namespace, Secret}
use argocd_cluster_registrar.Libraries.{Libraries, Url}
use argocd_cluster_registrar.Provider.{Provider}
use argocd_cluster_registrar.Config.{Config}
use argocd_cluster_registrar.Registrar.{Child}

abbrev pub plain_url : Bytes → Option Url
plain_url s = some (record { scheme = codes "https"; host = s; has_user = false; text = s })

-- Globs without a wildcard, names of any bytes, stamps that are all of the epoch.
abbrev pub table : Libraries
table = record {
  unmarshal_kubeconfig = λ raw. none;
  marshal_config = λ cfg. some (codes "{}");
  unmarshal_config = λ raw. none;
  parse_url = plain_url;
  path_match = λ pattern name. some (pattern == name);
  is_valid_label_value = λ v. true;
  is_dns1123_subdomain = λ v. true;
  is_qualified_name = λ v. true;
  parse_stale_since = λ s. some 0;
  format_stale_since = λ t. codes "1970-01-01T000000Z";
  decode_base64 = λ s. some s;
  decode_pem = λ s. some s;
  x509_not_after = λ der. some 0;
  sha256_hex = λ s. codes "0123456789abcdef0123456789abcdef";
}

abbrev pub vcluster : Provider
vcluster = record {
  name = codes "vcluster";
  secret_name_pattern = codes "vc-one";
  secret_keys = codes "config" ∷ [];
  secret_type = [];
  allow_exec = false;
}

abbrev pub config : Config
config = record {
  target_namespace = codes "argocd";
  managed_by_value = codes "registrar";
  providers = vcluster ∷ [];
  label_prefix = default_label_prefix;
  dry_run = false;
  exec_credentials = false;
  demoted_ttl = pos 1000;
}

abbrev pub dry_config : Config
dry_config = record config { dry_run = true }

abbrev pub child : Child
child = record {
  cluster = codes "one";
  namespace = codes "team-a";
  namespace_uid = codes "uid-a";
  server = codes "https://one:6443";
  config = codes "{}";
  provider = codes "vcluster";
  labels = [];
  annotations = [];
}

-- A registration of an older address, with a label of the cluster's owner.
abbrev pub registration : Secret
registration = record {
  name = codes "cluster-one";
  namespace = codes "argocd";
  uid = codes "uid-1";
  resource_version = codes "7";
  labels =
      (codes "argocd.argoproj.io/secret-type", codes "cluster")
      ∷ (codes "argocd-cluster-registrar/managed-by", codes "registrar")
      ∷ (codes "argocd-cluster-registrar/source-namespace", codes "team-a")
      ∷ (codes "argocd-cluster-registrar/tier", codes "gold")
      ∷ (codes "team", codes "a")
      ∷ [];
  annotations = [];
  owner_references = [];
  type = codes "Opaque";
  data' = (codes "server", codes "https://one:443") ∷ [];
  string_data = [];
}

abbrev pub older : Namespace
older = record {
  name = codes "team-a";
  uid = codes "uid-a";
  labels = [];
  annotations = [];
  creation_timestamp = 10;
  deletion_timestamp = none;
}

abbrev pub younger : Namespace
younger = record older { name = codes "team-b"; uid = codes "uid-b"; creation_timestamp = 20 }
