-- ===== src/Runtime.antt =====
-- The fields of the objects of client-go and controller-runtime that the source sets.
use argocd_cluster_registrar.Common.{Bool, List, Bytes, Assoc, ℤ}

-- rest.Config: the timeout, and all other fields as one value.
pub record RestConfig : Type 0 where
  pub timeout : ℤ
  pub others : Bytes

pub data Kind : Type 0 where
  namespace_kind secret_kind : Kind

-- The fields of ctrl.Options that are set. `cached` holds the kinds that have an informer, with
-- the labels that its objects carry; `uncached` the kinds that the client never reads from it.
pub record ManagerOptions : Type 0 where
  pub reader_fail_on_missing_informer : Bool
  pub cached : List (Kind × Assoc)
  pub uncached : List Kind
  pub metrics_bind_address : Bytes
  pub health_probe_bind_address : Bytes
  pub leader_election : Bool
  pub leader_election_id : Bytes
  pub leader_election_namespace : Bytes
  pub leader_election_release_on_cancel : Bool

-- The endpoints that answer with healthz.Ping.
pub data Probe : Type 0 where
  healthz readyz : Probe

-- What the controller is given to watch.
pub data Watch : Type 0 where
  cached_namespaces seeded_keys : Watch
