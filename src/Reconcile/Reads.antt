-- ===== src/Reconcile/Reads.antt =====
-- The steps that only read, whatever the configuration.
use argocd_cluster_registrar.Common.{not, List, [], ◌∷◌, nonempty, ltb_ℤ, pos}
use argocd_cluster_registrar.Api.{
  Op, create_secret, update_secret, delete_secret, Prog, list_secrets, list_namespaces, now, Bucket,
  RegistrationState, in_cluster_config, kubeconfig_config, new_client, add_to_scheme, new_manager,
  add_check, complete, add_seeder, run_manager,
}
use argocd_cluster_registrar.Api.Calls.{
  Calls-if, Calls, returns, Calls-perform, Calls-bind, Calls-option, calls_rules,
}
use argocd_cluster_registrar.Kube.{Namespace, Secret}
use argocd_cluster_registrar.Libraries.{Libraries}
use argocd_cluster_registrar.Config.{Config}
use argocd_cluster_registrar.Registrar.{
  Child, Verdict, allowed, conflict, broken, and_then, stale_since_of,
}
use argocd_cluster_registrar.Discover.{find_kubeconfig_candidates, discover_one}
use argocd_cluster_registrar.Ownership.{
  check_ownership, claim_contested_name, namespace_exists, keeps_server, check_servers,
  claim_server,
}
use argocd_cluster_registrar.Apply.{claim_if_moved}
use argocd_cluster_registrar.Collect.{demoted_ttl_expired}
use argocd_cluster_registrar.Audit.{
  Counts, no_counts, count_secrets, set_buckets, publish, audit_unrouted,
}
use argocd_cluster_registrar.Reconcile.{reconcile_keys}

-- The call leaves the objects of the cluster as they are, and is not one that connects or starts
-- the process.
abbrev pub IsRead : Op → Type 0
IsRead (create_secret _ _) = ⊥
IsRead (update_secret _ _) = ⊥
IsRead (delete_secret _ _ _) = ⊥
IsRead in_cluster_config = ⊥
IsRead kubeconfig_config = ⊥
IsRead (new_client _) = ⊥
IsRead add_to_scheme = ⊥
IsRead (new_manager _ _) = ⊥
IsRead (add_check _) = ⊥
IsRead (complete _) = ⊥
IsRead add_seeder = ⊥
IsRead run_manager = ⊥
IsRead _ = Unit {0}

abbrev pub Reads : {A : Type 0} → Prog A → Type 0
Reads m = Calls IsRead m

pub and_then-Calls :
    {P : Op → Type 0} (m n : Prog Verdict) → Calls P m → Calls P n → Calls P (and_then m n)
unfolding and_then
and_then-Calls m n hm hn =
    Calls-bind hm elim [ allowed ↦ hn | conflict r ↦ returns _ | broken f ↦ returns _ ]

module _ (cfg : Config) where
  pub claim_contested_name-Reads : (c : Child) → Reads (claim_contested_name cfg c)
  unfolding claim_contested_name
  claim_contested_name-Reads c = search (calls_rules, tt)

  pub check_ownership-Reads : (s : Secret) (c : Child) → Reads (check_ownership cfg s c)
  unfolding check_ownership
  check_ownership-Reads s c = search (calls_rules, tt) depth 8

  keeps_server-Reads : (s : Secret) → Reads (keeps_server cfg s)
  unfolding keeps_server namespace_exists
  keeps_server-Reads s = search (calls_rules, tt)

  check_servers-Reads : (items : List Secret) (c : Child) → Reads (check_servers cfg items c)
  unfolding check_servers
  check_servers-Reads [] c = returns _
  check_servers-Reads (s ∷ rest) c =
      let others = check_servers-Reads rest c in
      search (calls_rules, keeps_server-Reads, others) depth 8

  pub claim_server-Reads : (c : Child) → Reads (claim_server cfg c)
  unfolding claim_server
  claim_server-Reads c =
      Calls-bind (Calls-perform (list_secrets _ _) tt)
        (λ answer. Calls-option answer (returns _) (λ items. check_servers-Reads items c))

  pub claim_if_moved-Reads : (s : Secret) (c : Child) → Reads (claim_if_moved cfg s c)
  unfolding claim_if_moved
  claim_if_moved-Reads s c = search (calls_rules, claim_server-Reads)

module _ (lib : Libraries) (cfg : Config) where
  pub reconcile_keys-Reads : Reads (reconcile_keys lib cfg)
  unfolding reconcile_keys
  reconcile_keys-Reads = Calls-bind (Calls-perform (list_namespaces _) tt) λ answer.
      Calls-option answer (returns _) λ namespaces.
        Calls-bind (Calls-perform (list_secrets _ _) tt)
          λ listed. Calls-option listed (returns _) (λ secrets. returns _)

  pub discover_one-Reads : (ns : Namespace) → Reads (discover_one lib cfg ns)
  unfolding discover_one find_kubeconfig_candidates
  discover_one-Reads ns = search (calls_rules, tt) depth 8

  -- The test of the TTL reads the clock only.
  pub demoted_ttl_expired-Calls :
      {P : Op → Type 0} → P now → (s : Secret) → Calls P (demoted_ttl_expired lib cfg s)
  unfolding demoted_ttl_expired
  demoted_ttl_expired-Calls p s =
      Calls-if (not (ltb_ℤ (pos 0) cfg.demoted_ttl)) (λ e. returns _)
        λ on.
          Calls-if (not (nonempty (stale_since_of cfg s))) (λ e. returns _)
            λ stamped.
              Calls-option (lib.parse_stale_since (stale_since_of cfg s)) (returns _)
                (λ since. Calls-bind (Calls-perform now p) (λ at. returns _))

  pub demoted_ttl_expired-Reads : (s : Secret) → Reads (demoted_ttl_expired lib cfg s)
  demoted_ttl_expired-Reads = demoted_ttl_expired-Calls tt

  set_buckets-Reads :
      (c : Counts) (state : RegistrationState) (bs : List Bucket) → Reads (set_buckets c state bs)
  unfolding set_buckets
  set_buckets-Reads c state [] = returns _
  set_buckets-Reads c state (b ∷ bs) =
      let rest = set_buckets-Reads c state bs in search (calls_rules, rest, tt)

  publish-Reads : (c : Counts) → Reads (publish c)
  unfolding publish
  publish-Reads c = search (calls_rules, set_buckets-Reads, tt) depth 8

  pub audit_unrouted-Reads : Reads (audit_unrouted lib cfg)
  unfolding audit_unrouted
  audit_unrouted-Reads = Calls-bind (Calls-perform (list_secrets _ _) tt) λ answer.
      Calls-option answer (returns _) λ items.
        Calls-bind (Calls-perform now tt)
          (λ at. publish-Reads (count_secrets lib cfg at items no_counts))
