-- ===== src/Collect/Evidence/Replaced.antt =====
-- `collectStaleUID` deletes only what a replaced namespace left.
use argocd_cluster_registrar.Common.{
  not, ◌||◌, Option, none, some, List, [], ◌∷◌, Bytes, ◌==◌, nonempty, here, arith,
}
use argocd_cluster_registrar.Api.{found, get_namespace, list_secrets, ret}
use argocd_cluster_registrar.Api.Safe.{
  History, Saw, earlier, done, Safe-perform, Safe-bind, Safe-if, Safe-frame,
}
use argocd_cluster_registrar.Kube.{Namespace, Secret}
use argocd_cluster_registrar.Libraries.{Libraries}
use argocd_cluster_registrar.Config.{Config}
use argocd_cluster_registrar.Registrar.{
  list_cluster_secrets, Faults, is_pinned, source_uid_of, source_selector,
}
use argocd_cluster_registrar.Collect.{
  collect_stale_secret, collect_stale_secrets, collect_stale_uid,
}
use argocd_cluster_registrar.Collect.Evidence.{
  Known, Listed, Rests, delete_orphan_secret-Rests, round, replaced,
}

module _ (lib : Libraries) (cfg : Config) (ns_name : Bytes) where
  collect_stale_secret-Rests :
      (h : History) (ns : Namespace) (s : Secret) (errs : Faults)
      → Listed lib cfg ns_name s h
      → Saw (get_namespace ns_name) (found ns) h
      → Rests lib cfg ns_name h (collect_stale_secret cfg ns.uid s errs)
  unfolding collect_stale_secret
  collect_stale_secret-Rests h ns s errs l saw =
      Safe-if (not (nonempty (source_uid_of cfg s)) || source_uid_of cfg s == ns.uid) (λ e. done tt)
        λ fresh.
          Safe-if (is_pinned cfg s) (λ e. done tt)
            λ u.
              Safe-bind
                (delete_orphan_secret-Rests lib cfg ns_name h s l u
                  (λ p. replaced ns saw (ground arith) (ground arith)))
                (λ h' a q. done tt)

  collect_stale_secrets-Rests :
      (h : History) (ns : Namespace) (items : List Secret) (errs : Faults)
      → Known lib cfg ns_name items (Saw (get_namespace ns_name) (found ns)) h
      → Rests lib cfg ns_name h (collect_stale_secrets cfg ns.uid items errs)
  unfolding collect_stale_secrets
  collect_stale_secrets-Rests h ns [] errs k = done tt
  collect_stale_secrets-Rests h ns (s ∷ rest) errs k =
      round lib cfg ns_name h s rest _ (λ e h' saw. earlier saw) k
        (collect_stale_secret-Rests h ns s errs (k.0 s here) k.1)
        λ h' errs' k'. collect_stale_secrets-Rests h' ns rest errs' k'

  -- The replacement of a namespace is noticed by its UID before anything is deleted.
  pub collect_stale_uid-Rests :
      (h : History) (ns : Namespace)
      → Saw (get_namespace ns_name) (found ns) h
      → Rests lib cfg ns_name h (collect_stale_uid cfg ns_name ns.uid)
  unfolding collect_stale_uid
  collect_stale_uid-Rests h ns saw =
      Safe-if (not (nonempty ns.uid)) (λ e. done tt)
        λ e.
          Safe-bind
            (Safe-frame (Saw (get_namespace ns_name) (found ns)) (λ e' h' s. earlier s) saw
              (Safe-perform h (list_secrets cfg.target_namespace (source_selector cfg ns_name)) tt))
            λ h' answer q. on_listing h' answer q.1 q.0
    where
      on_listing :
          (h' : History) (answer : Option (List Secret))
          → Saw (list_secrets cfg.target_namespace (source_selector cfg ns_name)) answer h'
          → Saw (get_namespace ns_name) (found ns) h'
          → Rests lib cfg ns_name h' (elim answer [
            | none ↦ ret (list_cluster_secrets ∷ [])
            | some items ↦ collect_stale_secrets cfg ns.uid items []
          ])
      on_listing h' none l g = done tt
      on_listing h' (some items) l g =
          collect_stale_secrets-Rests h' ns items [] ((λ s i. (items, l, i)), g)
