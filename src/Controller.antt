-- ===== src/Controller.antt =====
-- `Reconciler.Reconcile` and `done` of internal/registrar/controller.go: when a key comes back.
pub mod Requeue
pub mod Manager
pub mod Seed
pub mod Seeded
pub mod Seeding
use argocd_cluster_registrar.Common.{
  Bool, true, false, List, [], ◌∷◌, Bytes, ◌==◌, ℤ, pos, if◌then◌else◌,
}
use argocd_cluster_registrar.Api.{Prog, ret, ◌>>=◌}
use argocd_cluster_registrar.Libraries.{Libraries}
use argocd_cluster_registrar.Config.{Config}
use argocd_cluster_registrar.Registrar.{Faults}
use argocd_cluster_registrar.Audit.{audit_unrouted}
use argocd_cluster_registrar.Reconcile.{no_faults, reconcile_one}

-- The key of the audit, which no namespace has.
abbrev pub audit_key : Bytes
audit_key = []

-- ctrl.Result with the error beside it. A `requeue_after` of zero asks for nothing; on an error
-- the work queue takes the key back by itself.
pub record RequestResult : Type 0 where
  pub requeue_after : ℤ
  pub errs : Faults

unfoldable pub done : ℤ → Bool → Faults → RequestResult
unfolding no_faults
done interval finished errs =
    if no_faults errs
    then (if finished
        then record { requeue_after = pos 0; errs = [] }
        else record { requeue_after = interval; errs = [] })
    else record { requeue_after = pos 0; errs = errs }

unfoldable pub reconcile_request : Libraries → Config → ℤ → Bytes → Prog RequestResult
unfolding done audit_unrouted reconcile_one
reconcile_request lib cfg interval name =
    if name == audit_key
    then (audit_unrouted lib cfg >>= λ errs. ret (done interval false errs))
    else (reconcile_one lib cfg name >>= λ r. ret (done interval r.0 r.1))
