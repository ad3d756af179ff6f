-- ===== src/Collect/Tried.antt =====
-- `deleteOrphan` reports an error where its deletion fails.
use argocd_cluster_registrar.Common.{◌≡◌, Bool, true, false, [], ◌∷◌}
use argocd_cluster_registrar.Api.{
  Deleted, deleted, already_gone, conflicted, delete_failed, delete_secret, ret,
}
use argocd_cluster_registrar.Api.Safe.{
  History, Saw, earlier, done, Persists, Runs, Safe-perform, Safe-bind, Safe-if,
}
use argocd_cluster_registrar.Kube.{Secret}
use argocd_cluster_registrar.Config.{Config}
use argocd_cluster_registrar.Registrar.{Faults, delete_orphan}
use argocd_cluster_registrar.Collect.{uid_only, delete_orphan_secret}

module _ (cfg : Config) where
  -- The deletion of the Secret was asked for and not refused by an error, unless the run is dry.
  pub data Tried (h : History) (s : Secret) : Type 0 where
    dry : cfg.dry_run ≡ true → Tried h s
    asked :
        (answer : Deleted)
        → Saw (delete_secret cfg.target_namespace s.name (uid_only s)) answer h
        → (answer ≡ delete_failed → ⊥)
        → Tried h s

  pub Tried-Persists : (s : Secret) → Persists (λ h. Tried h s)
  Tried-Persists s e h (dry d) = dry d
  Tried-Persists s e h (asked answer saw fine) = asked answer (earlier saw) fine

  pub delete_orphan_secret-Tried :
      (h : History) (s : Secret)
      → Runs (λ h' r. r.1 ≡ [] → Tried h' s) h (delete_orphan_secret cfg s)
  unfolding delete_orphan_secret
  delete_orphan_secret-Tried h s =
      Safe-if cfg.dry_run (λ d. done (λ z. dry d))
        λ live.
          Safe-bind (Safe-perform h (delete_secret cfg.target_namespace s.name (uid_only s)) tt)
            on_answer
    where
      on_answer :
          (h' : History) (answer : Deleted)
          → Saw (delete_secret cfg.target_namespace s.name (uid_only s)) answer h'
          → Runs {A = Bool × Faults}
              (λ h'' r. r.1 ≡ [] → Tried h'' s)
              h'
              (ret (elim answer [
                | deleted ↦ (true, [])
                | already_gone ↦ (true, [])
                | conflicted ↦ (false, [])
                | delete_failed ↦ (false, delete_orphan ∷ [])
              ]))
      on_answer h' deleted saw = done (λ z. asked deleted saw (λ e. cc))
      on_answer h' already_gone saw = done (λ z. asked already_gone saw (λ e. cc))
      on_answer h' conflicted saw = done (λ z. asked conflicted saw (λ e. cc))
      on_answer h' delete_failed saw = done (λ z. cc)
