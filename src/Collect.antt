-- ===== src/Collect.antt =====
-- Garbage collection: `collectOne`, `collectStaleUID`, `deleteOrphan`, `deleteExpired` and
-- `demotedTTLExpired` of internal/registrar/registrar.go.
pub mod Ttl
pub mod Evidence
pub mod Gone
pub mod Tried
pub mod Purged
pub mod Cleared
pub mod Tidy
pub mod Idle
use argocd_cluster_registrar.Common.{
  ℕ, ◌-◌, Bool, true, false, not, ◌&&◌, ◌||◌, Option, none, some, List, [], ◌∷◌, ◌++◌, Bytes, ◌==◌,
  nonempty, length, ℤ, pos, negsuc, ltb_ℤ, time_sub, if◌then◌else◌,
}
use argocd_cluster_registrar.Api.{
  Prog, ret, ◌>>=◌, ◌>>◌, perform, Deleted, deleted, already_gone, conflicted, delete_failed,
  list_secrets, delete_secret, now,
}
use argocd_cluster_registrar.Kube.{Secret, Preconditions}
use argocd_cluster_registrar.Libraries.{Libraries}
use argocd_cluster_registrar.Config.{Config}
use argocd_cluster_registrar.Registrar.{
  Fault, Faults, list_cluster_secrets, delete_expired, delete_orphan, is_demoted, is_pinned,
  source_uid_of, stale_since_of, source_selector,
}
use argocd_cluster_registrar.Apply.{demote_secret}

abbrev pub uid_only : Secret → Preconditions
uid_only s = record { uid = some s.uid; resource_version = none }

abbrev pub uid_and_version : Secret → Preconditions
uid_and_version s = record { uid = some s.uid; resource_version = some s.resource_version }

module _ (cfg : Config) where
  -- Whether the object is gone, and the error.
  unfoldable pub delete_orphan_secret : Secret → Prog (Bool × Faults)
  delete_orphan_secret s = if cfg.dry_run then ret (false, []) else do
    answer ← perform (delete_secret cfg.target_namespace s.name (uid_only s))
    ret (elim answer [
      | deleted ↦ (true, [])
      | already_gone ↦ (true, [])
      | conflicted ↦ (false, [])
      | delete_failed ↦ (false, delete_orphan ∷ [])
    ])

  unfoldable pub delete_expired_secret : Secret → Prog Faults
  delete_expired_secret s = if cfg.dry_run then ret [] else do
    answer ← perform (delete_secret cfg.target_namespace s.name (uid_and_version s))
    ret (elim answer [
      | deleted ↦ []
      | already_gone ↦ []
      | conflicted ↦ []
      | delete_failed ↦ delete_expired ∷ []
    ])

  -- A registration whose source namespace is gone.
  unfoldable pub collect_orphan : Secret → ℕ → Faults → Prog (ℕ × Faults)
  unfolding delete_orphan_secret
  collect_orphan s remaining errs = do
    (gone, failure) ← delete_orphan_secret s
    ret (if gone then remaining - 1 else remaining, errs ++ failure)

  -- The body of the loop of `collectStaleUID`.
  unfoldable pub collect_stale_secret : Bytes → Secret → Faults → Prog Faults
  unfolding source_uid_of is_pinned nonempty delete_orphan_secret
  collect_stale_secret uid s errs =
      if not (nonempty (source_uid_of cfg s)) || source_uid_of cfg s == uid
      then ret errs
      else if is_pinned cfg s
      then ret errs
      else do (gone, failure) ← delete_orphan_secret s; ret (errs ++ failure)

  unfoldable pub collect_stale_secrets : Bytes → List Secret → Faults → Prog Faults
  unfolding collect_stale_secret
  collect_stale_secrets uid [] errs = ret errs
  collect_stale_secrets uid (s ∷ rest) errs =
      collect_stale_secret uid s errs >>= λ errs'. collect_stale_secrets uid rest errs'

  unfoldable pub collect_stale_uid : Bytes → Bytes → Prog Faults
  unfolding nonempty collect_stale_secrets
  collect_stale_uid ns_name uid = if not (nonempty uid) then ret [] else do
    answer ← perform (list_secrets cfg.target_namespace (source_selector cfg ns_name))
    elim answer [
      | none ↦ ret (list_cluster_secrets ∷ [])
      | some items ↦ collect_stale_secrets uid items []
    ]

module _ (lib : Libraries) (cfg : Config) where
  -- time.Since(since) > DemotedTTL
  unfoldable pub outlived : ℕ → ℕ → Bool
  unfolding time_sub
  outlived at since = ltb_ℤ cfg.demoted_ttl (time_sub at since)

  -- The clock is read only where there is a stamp that parses.
  unfoldable pub demoted_ttl_expired : Secret → Prog Bool
  unfolding outlived stale_since_of nonempty
  demoted_ttl_expired s =
      if not (ltb_ℤ (pos 0) cfg.demoted_ttl)
      then ret false
      else if not (nonempty (stale_since_of cfg s))
      then ret false
      else elim (lib.parse_stale_since (stale_since_of cfg s)) [
        | none ↦ ret false
        | some since ↦ perform now >>= λ at. ret (outlived at since)
      ]

  -- A registration that was demoted on an earlier pass.
  unfoldable pub collect_demoted : Secret → ℕ → Faults → Prog (ℕ × Faults)
  unfolding demoted_ttl_expired delete_expired_secret
  collect_demoted s remaining errs = do
    over ← demoted_ttl_expired s
    if over
        then (do
          failure ← delete_expired_secret cfg s
          ret (elim failure [ [] ↦ (remaining - 1, errs) | f ∷ fs ↦ (remaining, errs ++ f ∷ fs) ]))
        else ret (remaining, errs)

  -- The body of the loop of `collectOne`.
  unfoldable pub collect_secret : Bool → Bytes → Secret → ℕ → Faults → Prog (ℕ × Faults)
  unfolding is_pinned is_demoted nonempty collect_orphan collect_demoted demote_secret
  collect_secret exists applied s remaining errs =
      if s.name == applied
      then ret (remaining, errs)
      else if is_pinned cfg s
      then ret (remaining, errs)
      else if not exists
      then collect_orphan cfg s remaining errs
      else if not (nonempty applied)
      then ret (remaining, errs)
      else if is_demoted cfg s
      then collect_demoted s remaining errs
      else do failure ← demote_secret lib cfg s applied; ret (remaining, errs ++ failure)

  unfoldable pub collect_secrets : Bool → Bytes → List Secret → ℕ → Faults → Prog (ℕ × Faults)
  unfolding collect_secret
  collect_secrets exists applied [] remaining errs = ret (remaining, errs)
  collect_secrets exists applied (s ∷ rest) remaining errs =
      collect_secret exists applied s remaining errs >>= λ r.
      collect_secrets exists applied rest r.0 r.1

  unfoldable pub collect_one : Bytes → Bool → Bytes → Prog (ℕ × Faults)
  unfolding collect_secrets
  collect_one ns_name exists applied = do
    answer ← perform (list_secrets cfg.target_namespace (source_selector cfg ns_name))
    elim answer [
      | none ↦ ret (0, list_cluster_secrets ∷ [])
      | some items ↦ collect_secrets exists applied items (length items) []
    ]
