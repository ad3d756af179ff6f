-- ===== src/Kube.antt =====
-- The fields of the Kubernetes objects that the source reads and writes (k8s.io/api/core/v1).
use argocd_cluster_registrar.Common.{ℕ, Bool, Option, List, Bytes, Assoc}

pub record OwnerReference : Type 0 where
  pub controller : Option Bool

pub record Namespace : Type 0 where
  pub name : Bytes
  pub uid : Bytes
  pub labels : Assoc
  pub annotations : Assoc
  pub creation_timestamp : ℕ
  pub deletion_timestamp : Option ℕ

-- `string_data` is write-only: the server merges it into `data`.
pub record Secret : Type 0 where
  pub name : Bytes
  pub namespace : Bytes
  pub uid : Bytes
  pub resource_version : Bytes
  pub labels : Assoc
  pub annotations : Assoc
  pub owner_references : List OwnerReference
  pub type : Bytes
  pub data' : Assoc
  pub string_data : Assoc

-- metaV1.Preconditions
pub record Preconditions : Type 0 where
  pub uid : Option Bytes
  pub resource_version : Option Bytes
