-- ===== src/Tests/Requests.antt =====
-- The theorems on requests, at a concrete configuration.
use argocd_cluster_registrar.Common.{
  ℕ, zero, suc, none, some, ◌++◌, arith, ◌≡◌, refl, true, [], ◌∷◌, codes, pos, nonempty, get,
  lookup, ◌==◌,
}
use argocd_cluster_registrar.Labels
use argocd_cluster_registrar.Api.{Op, Answer, list_namespaces, run}
use argocd_cluster_registrar.Registrar.{is_pinned}
use argocd_cluster_registrar.Reconcile.Completion.{obliging, reconcile_one-run}
use argocd_cluster_registrar.Api.Safe.{AnyCall, Safe}
use argocd_cluster_registrar.Reconcile.{reconcile_one, keys_of}
use argocd_cluster_registrar.Reconcile.Finished.{Finished, reconcile_one-Finished}
use argocd_cluster_registrar.Controller.{audit_key, reconcile_request}
use argocd_cluster_registrar.Controller.Seed.{seed}
use argocd_cluster_registrar.Controller.Seeding.{lists, no_namespaces, seed-Recovers}
use argocd_cluster_registrar.Controller.Requeue.{Dropped, reconcile_request-Dropped}
use argocd_cluster_registrar.Tests.Data.{table, config, registration, younger}

reconcile_one-Finished_example :
    Safe AnyCall
      (Finished table config (codes "team-a"))
      []
      (reconcile_one table config (codes "team-a"))
reconcile_one-Finished_example = reconcile_one-Finished table config (codes "team-a")

reconcile_request-Dropped_example :
    Safe AnyCall
      (Dropped table config (codes "team-a"))
      []
      (reconcile_request table config (pos 60) (codes "team-a"))
reconcile_request-Dropped_example =
    reconcile_request-Dropped table config (codes "team-a") (pos 60) refl

reconcile_one-run_example :
    run (obliging (registration ∷ [])) (reconcile_one table config (codes "team-a")) tt
    ≡ ((true, []), tt)
unfolding nonempty is_pinned get lookup ◌==◌ Labels.prune_label
reconcile_one-run_example =
    reconcile_one-run table config refl (registration ∷ []) (codes "team-a") ((refl, refl), tt)

-- A server that fails the list of namespaces as often as its state says.
flaky : (o : Op) → ℕ → Answer o × ℕ
unfolding obliging
flaky (list_namespaces l) (suc n) = (none, n)
flaky (list_namespaces l) zero = (some (younger ∷ []), zero)
flaky o n = ((obliging (registration ∷ []) o tt).0, n)

seed-Recovers_example :
    (run flaky (seed table config 3) 2).0
    ≡ keys_of table config (younger ∷ []) (registration ∷ []) ++ audit_key ∷ []
unfolding flaky obliging
seed-Recovers_example =
    seed-Recovers table config flaky (younger ∷ []) (registration ∷ []) 2 3 2
      (no_namespaces refl (no_namespaces refl (lists refl refl))) (ground arith)
