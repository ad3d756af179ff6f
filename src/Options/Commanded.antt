-- ===== src/Options/Commanded.antt =====
-- What an accepted command line goes on to.
use argocd_cluster_registrar.Common.{
  ◌≡◌, refl, ap, subst, Bool, true, false, List, [], ◌∷◌, Bytes, nonempty, pos, ltb_ℤ,
  if◌then◌else◌,
}
use argocd_cluster_registrar.Common.Result.{ok, ok_injective, >>=-eq-ok}
use argocd_cluster_registrar.Libraries.{Libraries}
use argocd_cluster_registrar.Registrar.{owned_selector}
use argocd_cluster_registrar.Config.{Config, with_default_prefix}
use argocd_cluster_registrar.Config.Valid.{IsValid, validate_iff}
use argocd_cluster_registrar.Options.{Flags, Options, ControllerOptions, Warning, build_options}
use argocd_cluster_registrar.Options.Command.{Command, sweep, start, run_command}
use argocd_cluster_registrar.Options.Runnable.{IsRunnable, build_options-IsRunnable}
use argocd_cluster_registrar.Runtime.{namespace_kind, secret_kind}
use argocd_cluster_registrar.Controller.Manager.{
  metrics_disabled, Plan, StartError, interval_not_positive, manager_options, plan_of,
}
use argocd_cluster_registrar.Controller.Manager

-- The manager that is started: what it caches, what it serves, and when it may lead.
pub record IsSafe (cfg : Config) (plan : Plan) : Type 0 where
  pub comes_back : ltb_ℤ (pos 0) plan.interval ≡ true
  pub cached : plan.manager.cached ≡ (namespace_kind, owned_selector cfg) ∷ []
  pub uncached : plan.manager.uncached ≡ secret_kind ∷ []
  pub strict : plan.manager.reader_fail_on_missing_informer ≡ true
  pub served : nonempty plan.manager.metrics_bind_address ≡ true
  pub lease : nonempty plan.manager.leader_election_id ≡ true
  pub lease_namespace : plan.manager.leader_election_namespace ≡ cfg.target_namespace
  pub no_dry_leader : cfg.dry_run ≡ true → plan.manager.leader_election ≡ false

-- One sweep, or the controller, with a configuration of the right shape.
pub data IsCommanded (lib : Libraries) (f : Flags) : Command → Type 0 where
  swept : (cfg : Config) → f.once ≡ true → IsValid lib cfg → IsCommanded lib f (sweep cfg)
  started :
      (cfg : Config) (ctrl : ControllerOptions) (plan : Plan)
      → f.once ≡ false
      → IsValid lib cfg
      → Manager.start cfg ctrl ≡ ok plan
      → IsSafe cfg plan
      → IsCommanded lib f (start cfg ctrl)

pub with_default_prefix-valid :
    (lib : Libraries) (cfg : Config) → IsValid lib cfg → with_default_prefix cfg ≡ cfg
unfolding with_default_prefix
with_default_prefix-valid lib cfg v = rw v.prefixed refl

plan_of-IsSafe :
    (lib : Libraries) (o : Options) → IsRunnable lib o → IsSafe o.cfg (plan_of o.cfg o.ctrl)
unfolding plan_of manager_options owned_selector nonempty
plan_of-IsSafe lib o r = record {
  comes_back = r.comes_back;
  cached = refl;
  uncached = refl;
  strict = refl;
  served = served o.ctrl.metrics_bind_address;
  lease = r.lease;
  lease_namespace = refl;
  no_dry_leader = r.no_dry_leader;
}
  where
    served :
        (address : Bytes) → nonempty (if nonempty address then address else metrics_disabled) ≡ true
    served [] = refl
    served (c ∷ s) = refl

start-eq :
    (lib : Libraries) (o : Options)
    → IsRunnable lib o
    → Manager.start o.cfg o.ctrl ≡ ok (plan_of o.cfg o.ctrl)
unfolding Manager.start
start-eq lib o r = rw r.comes_back refl

-- Flags that the command accepts lead, with a configuration of the right shape, either to one
-- sweep, where --once is set, or to the controller, whose own check then passes and whose manager
-- revisits after a positive interval, caches only the namespaces of this registrar and no
-- Secrets, fails a read of what it does not cache, has an address for its metrics, even if it is
-- the one that turns them off, and a lease in the target namespace, and does not lead in a dry
-- run.
pub run_command-IsCommanded :
    (lib : Libraries) (f : Flags) (ws : List Warning) (command : Command)
    → run_command lib f ≡ ok (ws, command)
    → IsCommanded lib f command
unfolding run_command
run_command-IsCommanded lib f ws command h =
    let (o, built, r) = >>=-eq-ok (build_options lib f) _ h in
    let runnable = build_options-IsRunnable lib f o built in
    let v = (validate_iff lib o.cfg).0 runnable.checked in
    subst (IsCommanded lib f) (ap (λ (x : List Warning × Command). x.1) (ok_injective r))
      (by_once o runnable v (with_default_prefix-valid lib o.cfg v) f.once refl)
  where
    by_once :
        (o : Options)
        → IsRunnable lib o
        → IsValid lib o.cfg
        → with_default_prefix o.cfg ≡ o.cfg
        → (b : Bool) → f.once ≡ b
        → IsCommanded lib f (
            if b
            then sweep (with_default_prefix o.cfg)
            else start (with_default_prefix o.cfg) o.ctrl)
    by_once o r v same true e = rw same (swept o.cfg e v)
    by_once o r v same false e = rw same (
        started o.cfg o.ctrl (plan_of o.cfg o.ctrl) e v (start-eq lib o r) (plan_of-IsSafe lib o r))
