-- ===== src/Reconcile/Completion.antt =====
-- A key whose namespace is gone is done in one pass, if the API server does what it is asked.
use argocd_cluster_registrar.Common.{
  ℕ, ◌-◌, ◌≡◌, ◌∙◌, true, false, none, some, List, [], ◌∷◌, Bytes, ◌==◌, nonempty, All, length,
  arith,
}
use argocd_cluster_registrar.Api.{
  Op, Answer, not_found, created, deleted, get_namespace, list_namespaces, get_secret, list_secrets,
  create_secret, update_secret, delete_secret, now, count_conflict, count_adoption,
  set_registrations, set_unrouted, in_cluster_config, kubeconfig_config, new_client, add_to_scheme,
  new_manager, add_check, complete, add_seeder, run_manager, ◌>>=◌, perform, run,
}
use argocd_cluster_registrar.Api.Server.{run-bind}
use argocd_cluster_registrar.Kube.{Secret}
use argocd_cluster_registrar.Libraries.{Libraries}
use argocd_cluster_registrar.Config.{Config}
use argocd_cluster_registrar.Registrar.{is_pinned}
use argocd_cluster_registrar.Collect.{
  delete_orphan_secret, collect_orphan, collect_secret, collect_secrets, collect_one,
}
use argocd_cluster_registrar.Reconcile.{no_faults, reconcile_gone, reconcile_one}

-- An API server without namespaces that lists the given Secrets and accepts every write.
unfoldable pub obliging : List Secret → (o : Op) → Unit {0} → Answer o × Unit {0}
obliging items (get_namespace _) w = (not_found, w)
obliging items (list_namespaces _) w = (some [], w)
obliging items (get_secret _ _) w = (not_found, w)
obliging items (list_secrets _ _) w = (some items, w)
obliging items (create_secret _ _) w = (created, w)
obliging items (update_secret _ _) w = (true, w)
obliging items (delete_secret _ _ _) w = (deleted, w)
obliging items now w = (0, w)
obliging items (count_conflict _) w = (tt, w)
obliging items count_adoption w = (tt, w)
obliging items (set_registrations _ _ _) w = (tt, w)
obliging items (set_unrouted _) w = (tt, w)
obliging items in_cluster_config w = (none, w)
obliging items kubeconfig_config w = (none, w)
obliging items (new_client _) w = (false, w)
obliging items add_to_scheme w = (false, w)
obliging items (new_manager _ _) w = (false, w)
obliging items (add_check _) w = (false, w)
obliging items (complete _) w = (false, w)
obliging items add_seeder w = (false, w)
obliging items run_manager w = (false, w)

module _ (lib : Libraries) (cfg : Config) (live : cfg.dry_run ≡ false)
    (all_items : List Secret) where
  -- A Secret that collection does not leave alone.
  abbrev pub Eligible : Secret → Type 0
  Eligible s = (nonempty s.name ≡ true) × (is_pinned cfg s ≡ false)

  collect_secrets-run :
      (items : List Secret) (n : ℕ)
      → All Eligible items
      → run (obliging all_items) (collect_secrets lib cfg false [] items n []) tt
        ≡ ((n - length items, []), tt)
  unfolding run ◌>>=◌ obliging collect_secrets collect_secret collect_orphan delete_orphan_secret
      perform ◌==◌ nonempty
  collect_secrets-run [] n _ = ground arith
  collect_secrets-run (s ∷ rest) n ((named, unpinned), es) =
      ground (arith, collect_secrets-run rest (n - 1) es)

  -- Without dry-run, against an API server that reads the namespace as not found, lists Secrets
  -- that all have a name and are not pinned, and accepts every deletion, the reconciliation of a
  -- key ends, without an error, with the key reported as done.
  pub reconcile_one-run :
      (ns_name : Bytes)
      → All Eligible all_items
      → run (obliging all_items) (reconcile_one lib cfg ns_name) tt ≡ ((true, []), tt)
  unfolding run ◌>>=◌ obliging reconcile_one reconcile_gone collect_one perform no_faults
  reconcile_one-run ns_name es =
      run-bind (obliging all_items)
        (collect_secrets lib cfg false [] all_items (length all_items) []) _ tt
      ∙ rw (collect_secrets-run all_items (length all_items) es) (ground arith)
