-- ===== src/Reconcile.antt =====
-- `ReconcileOne`, `reconcileKeys` and `Reconcile` of internal/registrar/registrar.go.
pub mod Hidden
pub mod Reads
pub mod Keys
pub mod Visits
pub mod Within
pub mod DryRun
pub mod Finished
pub mod Completion
pub mod Deletion
pub mod Quiet
pub mod Sourced
pub mod Branches
pub mod Collected
pub mod Atomic
pub mod Foreign
use argocd_cluster_registrar.Common.{
  ℕ, Bool, true, false, not, ◌&&◌, Option, none, some, List, [], ◌∷◌, ◌++◌, Bytes, ◌==◌, get,
  nonempty, member, less, sort_by, keep, eqb, if◌then◌else◌,
}
use mathlib.Core.List.{map}
use argocd_cluster_registrar.Labels
use argocd_cluster_registrar.Api.{
  Prog, ret, ◌>>=◌, ◌>>◌, perform, found, not_found, failed, Found, get_namespace, list_namespaces,
  list_secrets, count_conflict,
}
use argocd_cluster_registrar.Kube.{Namespace, Secret}
use argocd_cluster_registrar.Libraries.{Libraries}
use argocd_cluster_registrar.Config.{Config}
use argocd_cluster_registrar.Registrar.{
  Child, Fault, Faults, confirm_namespace, list_cluster_secrets, Verdict, allowed, conflict, broken,
  secret_name, source_of, owned_selector,
}
use argocd_cluster_registrar.Registrar
use argocd_cluster_registrar.Discover.{discover_one}
use argocd_cluster_registrar.Apply.{apply}
use argocd_cluster_registrar.Collect.{collect_one, collect_stale_uid}
use argocd_cluster_registrar.Audit.{audit_unrouted}

unfoldable pub no_faults : Faults → Bool
no_faults [] = true
no_faults (f ∷ fs) = false

-- A set of keys as the list of its elements.
unfoldable pub distinct : List Bytes → List Bytes
unfolding member
distinct [] = []
distinct (k ∷ ks) = let rest = distinct ks in if member k rest then rest else k ∷ rest

module _ (lib : Libraries) (cfg : Config) where
  -- The namespace is gone.
  unfoldable pub reconcile_gone : Bytes → Prog (Bool × Faults)
  unfolding no_faults collect_one
  reconcile_gone ns_name = do
    (remaining, errs) ← collect_one lib cfg ns_name false []
    ret (eqb remaining 0 && no_faults errs, errs)

  -- What follows `apply`.
  unfoldable pub settle : Bytes → Child → Verdict → Prog (Bool × Faults)
  unfolding collect_one secret_name
  settle ns_name c (conflict reason) = perform (count_conflict reason) >> ret (false, [])
  settle ns_name c (broken f) = ret (false, f ∷ [])
  settle ns_name c allowed = do
    (remaining, errs) ← collect_one lib cfg ns_name true (secret_name c.cluster)
    ret (false, errs)

  unfoldable pub register_child : Bytes → Option Child → Prog (Bool × Faults)
  unfolding settle apply
  register_child ns_name none = ret (false, [])
  register_child ns_name (some c) = apply cfg c >>= settle ns_name c

  unfoldable pub reconcile_live : Bytes → Namespace → Prog (Bool × Faults)
  unfolding collect_stale_uid discover_one register_child no_faults
  reconcile_live ns_name ns = do
    errs ← collect_stale_uid cfg ns_name ns.uid
    if no_faults errs then discover_one lib cfg ns >>= register_child ns_name else ret (false, errs)

  -- The namespace is there.
  unfoldable pub reconcile_found : Bytes → Namespace → Prog (Bool × Faults)
  unfolding collect_one reconcile_live
  reconcile_found ns_name ns =
      if not (get ns.labels (Labels.managed_by_label cfg.label_prefix) == cfg.managed_by_value)
      then ret (false, [])
      else elim ns.deletion_timestamp [
        | some t ↦ collect_one lib cfg ns_name true [] >>= λ r. ret (false, r.1)
        | none ↦ reconcile_live ns_name ns
      ]

  unfoldable pub reconcile_one : Bytes → Prog (Bool × Faults)
  unfolding reconcile_gone reconcile_found
  reconcile_one ns_name = do
    answer ← perform (get_namespace ns_name)
    elim answer [
      | not_found ↦ reconcile_gone ns_name
      | failed ↦ ret (false, confirm_namespace ∷ [])
      | found ns ↦ reconcile_found ns_name ns
    ]

  -- The keys that the two lists yield, in order.
  unfoldable pub keys_of : List Namespace → List Secret → List Bytes
  unfolding distinct sort_by less keep nonempty source_of
  keys_of namespaces secrets = sort_by less (
      distinct (
        map (λ (ns : Namespace). ns.name) namespaces
        ++ keep nonempty (map (source_of cfg) secrets)))

  -- No keys, and the call that failed, where one fails.
  unfoldable pub reconcile_keys : Prog (List Bytes × Faults)
  unfolding keys_of owned_selector
  reconcile_keys = do
    answer ← perform (list_namespaces (owned_selector cfg))
    elim answer [
      | none ↦ ret ([], Registrar.list_namespaces ∷ [])
      | some namespaces ↦
          perform (list_secrets cfg.target_namespace (owned_selector cfg)) >>= λ listed.
          elim listed [
            | none ↦ ret ([], list_cluster_secrets ∷ [])
            | some secrets ↦ ret (keys_of namespaces secrets, [])
          ]
    ]

  unfoldable pub reconcile_all : List Bytes → Faults → Prog Faults
  unfolding reconcile_one
  reconcile_all [] errs = ret errs
  reconcile_all (k ∷ ks) errs = reconcile_one k >>= λ r. reconcile_all ks (errs ++ r.1)

  -- The sweep.
  unfoldable pub reconcile : Prog Faults
  unfolding reconcile_keys reconcile_all audit_unrouted no_faults
  reconcile = do
    (keys, failure) ← reconcile_keys
    if no_faults failure
        then (do errs ← reconcile_all keys []; audit ← audit_unrouted lib cfg; ret (errs ++ audit))
        else ret failure
