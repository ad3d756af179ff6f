-- ===== src/Tests/Stores.antt =====
-- The theorems on the store, at a store that holds one registration.
use argocd_cluster_registrar.Common.{
  refl, ◌≢◌, has_key, ==_iff, none, some, [], ◌∷◌, codes, nonempty, lookup, less, sort_by, member,
  keep, get, trim_right, ◌==◌,
}
use mathlib.Core.Bool.{false≢true}
use argocd_cluster_registrar.Labels.{
  managed_by_label, source_namespace_label, prune_label, cluster_label,
}
use argocd_cluster_registrar.Api.{
  list_namespaces, delete_secret, found, not_found, get_namespace, get_secret, list_secrets, ◌>>=◌,
  perform,
}
use argocd_cluster_registrar.Api.Safe.{History}
use argocd_cluster_registrar.Api.Reach.{start, answered}
use argocd_cluster_registrar.Api.Store.{World, put, IsWorld, Serves, initial, answers}
use argocd_cluster_registrar.Api.Store.Kept.{put-IsWorld}
use argocd_cluster_registrar.Registrar.{
  owned_selector, owner_of, source_of, is_pinned, secret_name, source_selector, and_then,
}
use argocd_cluster_registrar.Ownership.{check_ownership, claim_server, check_servers}
use argocd_cluster_registrar.Apply.{
  wanted, merge, changed, apply, refresh, claim_if_moved, update_merged,
}
use argocd_cluster_registrar.Apply.Takeover.{argo_selector}
use argocd_cluster_registrar.Collect.{
  uid_only, collect_stale_uid, collect_stale_secrets, collect_one, collect_secrets, collect_secret,
  collect_orphan, delete_orphan_secret,
}
use argocd_cluster_registrar.Reconcile.{
  reconcile, reconcile_keys, keys_of, distinct, reconcile_all, no_faults, register_child,
  reconcile_live, reconcile_found, reconcile_one, reconcile_gone,
}
use argocd_cluster_registrar.Reconcile.Foreign.{IsOwn, reconcile-IsOwn}
use argocd_cluster_registrar.Reconcile.Atomic.{
  Updates, Goes, reconcile_one-IsAtomic, reconcile_one-Goes,
}
use argocd_cluster_registrar.Tests.Data.{table, config, registration, older}
use argocd_cluster_registrar.Tests.Reads.{reader, parsed}
use argocd_cluster_registrar.Tests.Discoveries.{source, offer}
use argocd_cluster_registrar.Kube.{Namespace}
use argocd_cluster_registrar.Registrar.{Child}
use argocd_cluster_registrar.Provider.{provenance}
use argocd_cluster_registrar.Kubeconfig.{resolve}
use argocd_cluster_registrar.Kubeconfig.Parse.{
  parse_kubeconfig, is_in_cluster_server, parse_proxy_url, refuse_uncarried, with_credentials,
}
use argocd_cluster_registrar.Discover.{
  discover_one, find_kubeconfig_candidates, choose, first_usable, search_secrets, scan_secret,
  by_provenance, candidates_of, child_of,
}

abbrev nothing : World
nothing = record { secrets = λ n. none; versions = [] }

nothing-IsWorld : IsWorld (codes "argocd") nothing
nothing-IsWorld = record { known = λ n s e. cc; stamped = tt; unique = λ s t i. elim i [ ] }

abbrev one_secret : World
one_secret = put nothing registration

one_secret-IsWorld : IsWorld (codes "argocd") one_secret
unfolding nonempty
one_secret-IsWorld = put-IsWorld (codes "argocd") nothing registration nothing-IsWorld (refl, tt)

-- A namespace of this registrar, with a kubeconfig.
abbrev team : Namespace
team = record older {
  labels =
      (codes "argocd-cluster-registrar/managed-by", codes "registrar")
      ∷ (codes "argocd-cluster-registrar/cluster", codes "one")
      ∷ [];
}

abbrev team_child : Child
team_child = child_of reader config team offer parsed

abbrev before_update : History
before_update =
    (list_secrets (codes "argocd") argo_selector, some [])
    ∷ (get_secret (codes "argocd") (codes "cluster-one"), found registration)
    ∷ (list_secrets (codes "team-a") [], some (source ∷ []))
    ∷ (list_secrets (codes "argocd") (source_selector config (codes "team-a")), some [])
    ∷ (get_namespace (codes "team-a"), found team)
    ∷ []

elsewhere : codes "team-a" ≢ codes "argocd"
unfolding ◌==◌
elsewhere e = false≢true ((==_iff (codes "team-a") (codes "argocd")).1 e)

before_update-Serves : Serves (codes "argocd") before_update one_secret
unfolding ◌==◌
before_update-Serves =
    answers
      (answers
        (answers (answers (answers (initial one_secret-IsWorld) refl) (λ e. tt, refl))
          (λ e. absurd (elsewhere e), refl))
        (λ e. refl, refl))
      (λ e. tt, refl)

reconcile_one-IsAtomic_example :
    Updates reader config
      (codes "team-a")
      before_update
      registration
      (merge registration (wanted config team_child) config.label_prefix)
unfolding ◌==◌ merge wanted reconcile_one reconcile_found reconcile_live register_child
    collect_stale_uid collect_stale_secrets discover_one find_kubeconfig_candidates choose
    first_usable search_secrets scan_secret by_provenance candidates_of sort_by less member keep
    has_key provenance apply refresh check_ownership claim_if_moved claim_server check_servers
    changed trim_right ◌>>=◌ perform and_then secret_name owner_of source_of get lookup
    update_merged managed_by_label source_namespace_label cluster_label parse_kubeconfig resolve
    is_in_cluster_server parse_proxy_url refuse_uncarried with_credentials
reconcile_one-IsAtomic_example =
    reconcile_one-IsAtomic reader config (codes "team-a")
      (answered
        (answered (answered (answered (answered start (found team)) (some [])) (some (source ∷ [])))
          (found registration))
        (some []))
      before_update-Serves refl (λ e. cc)

abbrev before_delete : History
before_delete =
    (
      list_secrets (codes "argocd") (source_selector config (codes "team-a")),
      some (registration ∷ []),
    )
    ∷ (get_namespace (codes "team-a"), not_found)
    ∷ []

before_delete-Serves : Serves (codes "argocd") before_delete one_secret
unfolding ◌==◌ source_selector lookup managed_by_label source_namespace_label
before_delete-Serves =
    answers (answers (initial one_secret-IsWorld) refl)
      (λ e. ((refl, (refl, (refl, tt))), tt), refl)

reconcile_one-Goes_example : Goes table config (codes "team-a") before_delete registration
unfolding ◌==◌ reconcile_one reconcile_gone collect_one collect_secrets collect_secret
    collect_orphan delete_orphan_secret ◌>>=◌ perform is_pinned get lookup prune_label
reconcile_one-Goes_example =
    reconcile_one-Goes table config (codes "team-a")
      (answered (answered start not_found) (some (registration ∷ []))) before_delete-Serves refl
      (λ u e. cc, λ v e. cc)

abbrev before_swept : History
before_swept =
    (
      list_secrets (codes "argocd") (source_selector config (codes "team-a")),
      some (registration ∷ []),
    )
    ∷ (get_namespace (codes "team-a"), not_found)
    ∷ (list_secrets (codes "argocd") (owned_selector config), some (registration ∷ []))
    ∷ (list_namespaces (owned_selector config), some [])
    ∷ []

before_swept-Serves : Serves (codes "argocd") before_swept one_secret
unfolding ◌==◌ source_selector owned_selector lookup managed_by_label source_namespace_label
before_swept-Serves =
    answers
      (answers
        (answers (answers (initial one_secret-IsWorld) refl) (λ e. ((refl, (refl, tt)), tt), refl))
        refl)
      (λ e. ((refl, (refl, (refl, tt))), tt), refl)

reconcile-IsOwn_example :
    IsOwn table config
      (delete_secret (codes "argocd") (codes "cluster-one") (uid_only registration))
      registration
unfolding ◌==◌ reconcile reconcile_keys keys_of distinct sort_by less keep member source_of
    reconcile_all reconcile_one reconcile_gone collect_one collect_secrets collect_secret
    collect_orphan delete_orphan_secret ◌>>=◌ perform is_pinned get lookup prune_label
    source_namespace_label no_faults nonempty secret_name
reconcile-IsOwn_example =
    reconcile-IsOwn table config registration
      (answered
        (answered (answered (answered start (some [])) (some (registration ∷ []))) not_found)
        (some (registration ∷ [])))
      before_swept-Serves (refl, (λ u e. cc, λ v e. cc))
