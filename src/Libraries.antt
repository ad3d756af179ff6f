-- ===== src/Libraries.antt =====
-- What the program calls and does not implement: YAML, JSON, URL parsing, globs, the validation
-- of k8s.io/apimachinery, certificates and time stamps. Each is a parameter, and nothing is
-- assumed of it here.
use argocd_cluster_registrar.Common.{ℕ, Bool, Option, Bytes}
use argocd_cluster_registrar.Argo.{ArgoClusterConfig}
use argocd_cluster_registrar.Kubeconfig.{Kubeconfig}

-- The parts of net/url's URL that the source reads. `text` is the result of String.
pub record Url : Type 0 where
  pub scheme : Bytes
  pub host : Bytes
  pub has_user : Bool
  pub text : Bytes

pub record Libraries : Type 0 where
  -- yaml.Unmarshal into a kubeconfig
  pub unmarshal_kubeconfig : Bytes → Option Kubeconfig
  -- json.Marshal and json.Unmarshal of a cluster config
  pub marshal_config : ArgoClusterConfig → Option Bytes
  pub unmarshal_config : Bytes → Option ArgoClusterConfig
  -- url.Parse
  pub parse_url : Bytes → Option Url
  -- path.Match; `none` is ErrBadPattern
  pub path_match : Bytes → Bytes → Option Bool
  -- whether the validation functions return no error
  pub is_valid_label_value : Bytes → Bool
  pub is_dns1123_subdomain : Bytes → Bool
  pub is_qualified_name : Bytes → Bool
  -- time.Parse and Format with staleSinceFormat, in nanoseconds
  pub parse_stale_since : Bytes → Option ℕ
  pub format_stale_since : ℕ → Bytes
  -- base64.StdEncoding.DecodeString; the bytes of the first block of pem.Decode; the NotAfter of
  -- x509.ParseCertificate
  pub decode_base64 : Bytes → Option Bytes
  pub decode_pem : Bytes → Option Bytes
  pub x509_not_after : Bytes → Option ℕ
  -- crypto/sha256 and encoding/hex: the hash in hexadecimal
  pub sha256_hex : Bytes → Bytes
