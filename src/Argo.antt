-- ===== src/Argo.antt =====
-- The JSON of an ArgoCD cluster Secret's `config` (internal/registrar/kubeconfig.go and exec.go).
-- A field with `omitempty` is empty, or `none`, where the JSON leaves it out.
use argocd_cluster_registrar.Common.{Bool, Option, List, Bytes, Assoc}

pub record ArgoTlsClientConfig : Type 0 where
  pub insecure : Bool
  pub ca_data : Bytes
  pub cert_data : Bytes
  pub key_data : Bytes
  pub server_name : Bytes

pub record ArgoAwsAuthConfig : Type 0 where
  pub cluster_name : Bytes

pub record ArgoExecProviderConfig : Type 0 where
  pub command : Bytes
  pub args : List Bytes
  pub env : Assoc
  pub api_version : Bytes

pub record ArgoClusterConfig : Type 0 where
  pub bearer_token : Bytes
  pub tls_client_config : ArgoTlsClientConfig
  pub proxy_url : Bytes
  pub aws_auth_config : Option ArgoAwsAuthConfig
  pub exec_provider_config : Option ArgoExecProviderConfig
