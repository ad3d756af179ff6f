-- ===== src/Controller/Requeue.antt =====
-- No key is lost: what a request must have seen for its key not to come back.
use argocd_cluster_registrar.Common.{
  ◌≡◌, refl, subst, Bool, true, false, [], ◌∷◌, Bytes, ◌==◌, ℤ, pos, ltb_ℤ,
}
use mathlib.Core.Bool.{false≢true}
use argocd_cluster_registrar.Api.{not_found, get_namespace}
use argocd_cluster_registrar.Api.Safe.{AnyCall, whatever, History, Saw, Safe, Safe-bind, Safe-if}
use argocd_cluster_registrar.Libraries.{Libraries}
use argocd_cluster_registrar.Config.{Config}
use argocd_cluster_registrar.Registrar.{Faults}
use argocd_cluster_registrar.Audit.{audit_unrouted}
use argocd_cluster_registrar.Reconcile.{no_faults}
use argocd_cluster_registrar.Collect.Gone.{AllGone}
use argocd_cluster_registrar.Reconcile.Finished.{reconcile_one-Finished}
use argocd_cluster_registrar.Controller.{RequestResult, audit_key, done, reconcile_request}

module _ (lib : Libraries) (cfg : Config) (name : Bytes) where
  -- If the request asks for nothing and reports no error, its namespace is gone with all that was
  -- recorded against it.
  abbrev pub Dropped : History → RequestResult → Type 0
  Dropped h r =
      r.requeue_after ≡ pos 0
      → r.errs ≡ []
      → Saw (get_namespace name) not_found h × AllGone lib cfg name h

  done-finished :
      (interval : ℤ) (finished : Bool) (errs : Faults)
      → ltb_ℤ (pos 0) interval ≡ true
      → (done interval finished errs).requeue_after ≡ pos 0
      → (done interval finished errs).errs ≡ []
      → finished ≡ true
  unfolding done no_faults
  done-finished interval true [] p z e = refl
  done-finished interval false [] p z e =
      absurd (false≢true (subst (λ i. ltb_ℤ (pos 0) i ≡ true) z p))
  done-finished interval b (f ∷ fs) p z e = cc

  -- With a positive interval, whatever the API server answers, a request after which the key does
  -- not come back, neither after the interval nor for an error, has read its namespace as not
  -- found, has listed what is recorded against it, and was answered for each of these Secrets
  -- that it is deleted or was before; so the audit always comes back.
  pub reconcile_request-Dropped :
      (interval : ℤ)
      → ltb_ℤ (pos 0) interval ≡ true
      → Safe AnyCall Dropped [] (reconcile_request lib cfg interval name)
  unfolding reconcile_request
  reconcile_request-Dropped interval p =
      Safe-if (name == audit_key)
        (λ e. Safe-bind (whatever [] (audit_unrouted lib cfg)) λ h errs k.
          Safe.done λ z n. absurd (false≢true (done-finished interval false errs p z n)))
        (λ e. Safe-bind (reconcile_one-Finished lib cfg name) λ h r k.
          Safe.done
            λ z n. let (gone, all, _) = k (done-finished interval r.0 r.1 p z n) in (gone, all))
