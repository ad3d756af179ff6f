-- ===== src/Reconcile/Within.antt =====
-- What a sweep may write: Secrets of the target namespace, and nothing in a dry run.
use argocd_cluster_registrar.Common.{
  ℕ, ◌≡◌, refl, Bool, true, false, not, nonempty, get, ◌==◌, Option, none, some, List, [], ◌∷◌,
  Bytes,
}
use argocd_cluster_registrar.Api.{
  Op, Prog, create_secret, update_secret, delete_secret, get_namespace, get_secret, list_secrets,
  now,
}
use argocd_cluster_registrar.Api.Calls.{
  Calls, Calls-weaken, returns, Calls-perform, Calls-bind, Calls-if, Calls-option, Calls-found,
  calls_rules,
}
use argocd_cluster_registrar.Kube.{Namespace, Secret}
use argocd_cluster_registrar.Libraries.{Libraries}
use argocd_cluster_registrar.Config.{Config}
use argocd_cluster_registrar.Labels
use argocd_cluster_registrar.Registrar.{
  source_selector, list_cluster_secrets, confirm_namespace, Child, Faults, Verdict, allowed,
  conflict, broken,
}
use argocd_cluster_registrar.Apply.{
  changed, wanted, create_wanted, update_merged, register, refresh, apply, demote_secret,
}
use argocd_cluster_registrar.Collect.{
  delete_orphan_secret, delete_expired_secret, collect_orphan, collect_stale_secret,
  collect_stale_secrets, collect_stale_uid, collect_demoted, collect_secret, collect_secrets,
  collect_one,
}
use argocd_cluster_registrar.Reconcile.{
  no_faults, reconcile_gone, settle, register_child, reconcile_live, reconcile_found, reconcile_one,
  reconcile_all, reconcile,
}
use argocd_cluster_registrar.Reconcile.Reads.{
  IsRead, Reads, and_then-Calls, claim_contested_name-Reads, check_ownership-Reads,
  claim_server-Reads, claim_if_moved-Reads, reconcile_keys-Reads, discover_one-Reads,
  demoted_ttl_expired-Reads, audit_unrouted-Reads,
}

-- A read, or a write of a Secret in the target namespace, and that only without dry-run.
abbrev pub IsWithin : Config → Op → Type 0
IsWithin cfg (create_secret ns s) = (cfg.dry_run ≡ false) × (ns ≡ cfg.target_namespace)
IsWithin cfg (update_secret ns s) = (cfg.dry_run ≡ false) × (ns ≡ cfg.target_namespace)
IsWithin cfg (delete_secret ns name p) = (cfg.dry_run ≡ false) × (ns ≡ cfg.target_namespace)
IsWithin cfg o = IsRead o

module _ (lib : Libraries) (cfg : Config) where
  abbrev Within : {A : Type 0} → Prog A → Type 0
  Within m = Calls (IsWithin cfg) m

  IsRead-IsWithin : (o : Op) → IsRead o → IsWithin cfg o
  IsRead-IsWithin (create_secret _ _) k = absurd k
  IsRead-IsWithin (update_secret _ _) k = absurd k
  IsRead-IsWithin (delete_secret _ _ _) k = absurd k
  IsRead-IsWithin _ k = k

  reads : {A : Type 0} {m : Prog A} → Reads m → Within m
  reads r = Calls-weaken IsRead-IsWithin r

  create_wanted-Within : (c : Child) → cfg.dry_run ≡ false → Within (create_wanted cfg c)
  unfolding create_wanted
  create_wanted-Within c live =
      Calls-bind (Calls-perform (create_secret _ _) (live, refl)) (λ r. returns _)

  update_merged-Within :
      (s : Secret) (c : Child) → cfg.dry_run ≡ false → Within (update_merged cfg s c)
  unfolding update_merged
  update_merged-Within s c live =
      Calls-bind (Calls-perform (update_secret _ _) (live, refl)) (λ r. returns _)

  register-Within : (c : Child) → Within (register cfg c)
  unfolding register
  register-Within c = and_then-Calls _ _ (reads (claim_contested_name-Reads cfg c)) (
      and_then-Calls _ _ (reads (claim_server-Reads cfg c))
        (Calls-if cfg.dry_run (λ e. returns _) (create_wanted-Within c)))

  refresh-Within : (s : Secret) (c : Child) → Within (refresh cfg s c)
  unfolding refresh
  refresh-Within s c = and_then-Calls _ _ (reads (check_ownership-Reads cfg s c)) (
      Calls-if (not (changed s (wanted cfg c) cfg.label_prefix)) (λ e. returns allowed)
        λ e.
          and_then-Calls _ _ (reads (claim_if_moved-Reads cfg s c))
            (Calls-if cfg.dry_run (λ e'. returns _) (update_merged-Within s c)))

  apply-Within : (c : Child) → Within (apply cfg c)
  unfolding apply
  apply-Within c =
      Calls-bind (Calls-perform (get_secret _ _) tt)
        λ answer. Calls-found answer (λ s. refresh-Within s c) (register-Within c) (returns _)

  delete_orphan_secret-Within : (s : Secret) → Within (delete_orphan_secret cfg s)
  unfolding delete_orphan_secret
  delete_orphan_secret-Within s =
      Calls-if cfg.dry_run (λ e. returns _)
        (λ live. Calls-bind (Calls-perform (delete_secret _ _ _) (live, refl)) (λ r. returns _))

  delete_expired_secret-Within : (s : Secret) → Within (delete_expired_secret cfg s)
  unfolding delete_expired_secret
  delete_expired_secret-Within s =
      Calls-if cfg.dry_run (λ e. returns _)
        (λ live. Calls-bind (Calls-perform (delete_secret _ _ _) (live, refl)) (λ r. returns _))

  demote_secret-Within : (s : Secret) (by : Bytes) → Within (demote_secret lib cfg s by)
  unfolding demote_secret
  demote_secret-Within s by =
      Calls-if cfg.dry_run (λ e. returns _)
        λ live.
          Calls-bind (Calls-perform now tt)
            λ at. Calls-bind (Calls-perform (update_secret _ _) (live, refl)) (λ r. returns _)

  collect_orphan-Within :
      (s : Secret) (n : ℕ) (errs : Faults) → Within (collect_orphan cfg s n errs)
  unfolding collect_orphan
  collect_orphan-Within s n errs = search (calls_rules, delete_orphan_secret-Within)

  collect_stale_secret-Within :
      (uid : Bytes) (s : Secret) (errs : Faults) → Within (collect_stale_secret cfg uid s errs)
  unfolding collect_stale_secret
  collect_stale_secret-Within uid s errs = search (calls_rules, delete_orphan_secret-Within) depth 8

  collect_stale_secrets-Within :
      (uid : Bytes) (items : List Secret) (errs : Faults)
      → Within (collect_stale_secrets cfg uid items errs)
  unfolding collect_stale_secrets
  collect_stale_secrets-Within uid [] errs = returns _
  collect_stale_secrets-Within uid (s ∷ rest) errs =
      Calls-bind (collect_stale_secret-Within uid s errs)
        λ errs'. collect_stale_secrets-Within uid rest errs'

  collect_stale_uid-Within : (ns_name uid : Bytes) → Within (collect_stale_uid cfg ns_name uid)
  unfolding collect_stale_uid
  collect_stale_uid-Within ns_name uid =
      Calls-if (not (nonempty uid)) (λ e. returns [])
        λ e.
          Calls-bind
            (Calls-perform (list_secrets cfg.target_namespace (source_selector cfg ns_name)) tt)
            λ answer.
              Calls-option answer (returns (list_cluster_secrets ∷ []))
                λ items. collect_stale_secrets-Within uid items []

  collect_demoted-Within :
      (s : Secret) (n : ℕ) (errs : Faults) → Within (collect_demoted lib cfg s n errs)
  unfolding collect_demoted
  collect_demoted-Within s n errs =
      search
        (calls_rules, reads (demoted_ttl_expired-Reads lib cfg s), delete_expired_secret-Within)
        depth 8

  collect_secret-Within :
      (exists : Bool) (applied : Bytes) (s : Secret) (n : ℕ) (errs : Faults)
      → Within (collect_secret lib cfg exists applied s n errs)
  unfolding collect_secret
  collect_secret-Within exists applied s n errs =
      search (calls_rules, collect_orphan-Within, collect_demoted-Within, demote_secret-Within)
        depth 12

  collect_secrets-Within :
      (exists : Bool) (applied : Bytes) (items : List Secret) (n : ℕ) (errs : Faults)
      → Within (collect_secrets lib cfg exists applied items n errs)
  unfolding collect_secrets
  collect_secrets-Within exists applied [] n errs = returns _
  collect_secrets-Within exists applied (s ∷ rest) n errs =
      Calls-bind (collect_secret-Within exists applied s n errs)
        λ r. collect_secrets-Within exists applied rest r.0 r.1

  collect_one-Within :
      (ns_name : Bytes) (exists : Bool) (applied : Bytes)
      → Within (collect_one lib cfg ns_name exists applied)
  unfolding collect_one
  collect_one-Within ns_name exists applied =
      Calls-bind (Calls-perform (list_secrets _ _) tt) λ answer.
        Calls-option answer (returns _) λ items. collect_secrets-Within exists applied items _ []

  settle-Within : (ns_name : Bytes) (c : Child) (v : Verdict) → Within (settle lib cfg ns_name c v)
  unfolding settle
  settle-Within ns_name c allowed = search (calls_rules, collect_one-Within)
  settle-Within ns_name c (conflict reason) = search (calls_rules, tt)
  settle-Within ns_name c (broken f) = returns _

  register_child-Within :
      (ns_name : Bytes) (o : Option Child) → Within (register_child lib cfg ns_name o)
  unfolding register_child
  register_child-Within ns_name none = returns _
  register_child-Within ns_name (some c) = Calls-bind (apply-Within c) (settle-Within ns_name c)

  reconcile_live-Within :
      (ns_name : Bytes) (ns : Namespace) → Within (reconcile_live lib cfg ns_name ns)
  unfolding reconcile_live
  reconcile_live-Within ns_name ns =
      search
        (
          calls_rules,
          collect_stale_uid-Within,
          reads (discover_one-Reads lib cfg ns),
          register_child-Within,
        )
        depth 8

  reconcile_found-Within :
      (ns_name : Bytes) (ns : Namespace) → Within (reconcile_found lib cfg ns_name ns)
  unfolding reconcile_found
  reconcile_found-Within ns_name ns =
      Calls-if
        (not (get ns.labels (Labels.managed_by_label cfg.label_prefix) == cfg.managed_by_value))
        (λ e. returns (false, []))
        λ e.
          Calls-option ns.deletion_timestamp (reconcile_live-Within ns_name ns)
            λ t. Calls-bind (collect_one-Within ns_name true []) (λ r. returns (false, r.1))

  reconcile_gone-Within : (ns_name : Bytes) → Within (reconcile_gone lib cfg ns_name)
  unfolding reconcile_gone
  reconcile_gone-Within ns_name = search (calls_rules, collect_one-Within)

  reconcile_one-Within : (ns_name : Bytes) → Within (reconcile_one lib cfg ns_name)
  unfolding reconcile_one
  reconcile_one-Within ns_name = Calls-bind (Calls-perform (get_namespace _) tt) λ answer.
      Calls-found answer (reconcile_found-Within ns_name) (reconcile_gone-Within ns_name)
        (returns (false, confirm_namespace ∷ []))

  reconcile_all-Within : (ks : List Bytes) (errs : Faults) → Within (reconcile_all lib cfg ks errs)
  unfolding reconcile_all
  reconcile_all-Within [] errs = returns _
  reconcile_all-Within (k ∷ ks) errs =
      Calls-bind (reconcile_one-Within k) (λ r. reconcile_all-Within ks _)

  -- A full sweep writes only Secrets of the target namespace, and nothing with dry-run set.
  pub reconcile-Within : Within (reconcile lib cfg)
  unfolding reconcile
  reconcile-Within = Calls-bind (reads (reconcile_keys-Reads lib cfg)) λ r.
      Calls-if (no_faults r.1)
        (λ e.
          search (calls_rules, reconcile_all-Within, reads (audit_unrouted-Reads lib cfg)) depth 8)
        (λ e. returns r.1)
