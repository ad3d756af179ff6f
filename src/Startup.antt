-- ===== src/Startup.antt =====
-- How the process connects, starts and ends: `BaseRestConfig`, `ClientFor`, `NewWithClient` and
-- `New` of internal/registrar/registrar.go, `newScheme` and `Start` of
-- internal/registrar/controller.go, `RunE` of cmd/root.go and main.go. The arguments have been
-- parsed; log lines and signals are left out.
pub mod Steps
pub mod Wired
pub mod Started
pub mod Executed
use argocd_cluster_registrar.Common.{
  ℕ, ◌*◌, Bool, true, false, not, Option, none, some, List, [], ◌∷◌, nonempty, ℤ, pos, ltb_ℤ,
  if◌then◌else◌,
}
use argocd_cluster_registrar.Common.Result.{Outcome, ok, err}
use argocd_cluster_registrar.Runtime.{
  RestConfig, Probe, healthz, readyz, cached_namespaces, seeded_keys,
}
use argocd_cluster_registrar.Api.{
  Prog, ret, ◌>>=◌, perform, in_cluster_config, kubeconfig_config, new_client, add_to_scheme,
  new_manager, add_check, complete, add_seeder, run_manager,
}
use argocd_cluster_registrar.Libraries.{Libraries}
use argocd_cluster_registrar.Config.{Config, with_default_prefix}
use argocd_cluster_registrar.Registrar.{Faults}
use argocd_cluster_registrar.Reconcile.{no_faults, reconcile}
use argocd_cluster_registrar.Options.{
  Flags, Options, OptionsError, ControllerOptions, build_options,
}
use argocd_cluster_registrar.Controller.Manager.{manager_options}

-- Thirty seconds.
abbrev pub client_timeout : ℤ
client_timeout = pos (30 * 1000000000)

-- The errors that end the process.
pub data LaunchError : Type 0 where
  refused : OptionsError → LaunchError
  no_connection client_failed : LaunchError
  interval_not_positive scheme_failed manager_failed : LaunchError
  probe_failed : Probe → LaunchError
  controller_failed seeder_failed run_failed : LaunchError
  sweep_failed : Faults → LaunchError

-- What the program holds: its configuration, and a clientset by the connection that it was built
-- from, which may be nil.
pub record Registrar : Type 0 where
  pub cfg : Config
  pub client : Option RestConfig

abbrev pub Launch : Type 0 → Type 0
Launch A = Prog (Outcome LaunchError A)

-- `if err != nil { return err }`
unfoldable pub on_ok : {A B : Type 0} → Launch A → (A → Launch B) → Launch B
on_ok m f = m >>= λ r. elim r [ ok a ↦ f a | err e ↦ ret (err e) ]

-- A call that only succeeds or fails.
unfoldable pub require : Prog Bool → LaunchError → Launch (Unit {0})
require m e = m >>= λ done. ret (if done then ok tt else err e)

unfoldable pub new_scheme : Launch (Unit {0})
unfolding require
new_scheme = require (perform add_to_scheme) scheme_failed

unfoldable pub base_rest_config : Launch RestConfig
base_rest_config = do
  answer ← perform in_cluster_config
  elim answer [
    | some base ↦ ret (ok base)
    | none ↦ perform kubeconfig_config >>= λ usable.
        ret (elim usable [ some base ↦ ok base | none ↦ err no_connection ])
  ]

-- The timeout goes on a copy.
unfoldable pub client_for : RestConfig → Launch RestConfig
client_for base = do
  built ← perform (new_client (record base { timeout = client_timeout }))
  ret (if built then ok (record base { timeout = client_timeout }) else err client_failed)

unfoldable pub new_with_client : Config → RestConfig → Registrar
unfolding with_default_prefix
new_with_client cfg client = record { cfg = with_default_prefix cfg; client = some client }

-- New
unfoldable pub new_registrar : Config → Launch Registrar
unfolding on_ok base_rest_config client_for new_with_client
new_registrar cfg =
    on_ok base_rest_config
      λ base. on_ok (client_for base) λ client. ret (ok (new_with_client cfg client))

-- The connection of the manager: the injected one wins.
unfoldable pub manager_base : ControllerOptions → Launch RestConfig
unfolding base_rest_config
manager_base opts = elim opts.rest_config [ some base ↦ ret (ok base) | none ↦ base_rest_config ]

unfoldable pub add_probes : ControllerOptions → Launch (Unit {0})
unfolding on_ok require nonempty
add_probes opts =
    if nonempty opts.health_probe_bind_address
    then (on_ok (require (perform (add_check healthz)) (probe_failed healthz))
        λ u. require (perform (add_check readyz)) (probe_failed readyz))
    else ret (ok tt)

-- An injected client is kept.
unfoldable pub ensure_client : Registrar → RestConfig → Launch RestConfig
unfolding client_for
ensure_client r base = elim r.client [ some client ↦ ret (ok client) | none ↦ client_for base ]

-- What follows the manager: the checks, the client, the watches, the seeder, and the run, which
-- ends with the context.
unfoldable pub run_controller : Registrar → ControllerOptions → RestConfig → Launch (Unit {0})
unfolding on_ok require add_probes ensure_client
run_controller r opts base = on_ok (add_probes opts) λ u. on_ok (ensure_client r base) λ client.
    on_ok (require (perform (complete (cached_namespaces ∷ seeded_keys ∷ []))) controller_failed)
      λ u'.
        on_ok (require (perform add_seeder) seeder_failed)
          λ u''. require (perform run_manager) run_failed

unfoldable pub start : Registrar → ControllerOptions → Launch (Unit {0})
unfolding on_ok require new_scheme manager_base manager_options run_controller
start r opts =
    if not (ltb_ℤ (pos 0) opts.interval)
    then ret (err interval_not_positive)
    else on_ok new_scheme λ u. on_ok (manager_base opts) λ base.
      on_ok (require (perform (new_manager base (manager_options r.cfg opts))) manager_failed)
        λ u'. run_controller r opts base

-- `r.Reconcile(ctx)`
unfoldable pub sweep : Libraries → Registrar → Launch (Unit {0})
unfolding reconcile no_faults
sweep lib r =
    reconcile lib r.cfg >>= λ errs. ret (if no_faults errs then ok tt else err (sweep_failed errs))

unfoldable pub launch : Libraries → Flags → Options → Launch (Unit {0})
unfolding on_ok new_registrar sweep start
launch lib f o = on_ok (new_registrar o.cfg) λ r. if f.once then sweep lib r else start r o.ctrl

-- RunE
unfoldable pub execute : Libraries → Flags → Launch (Unit {0})
unfolding build_options launch
execute lib f = elim (build_options lib f) [ err e ↦ ret (err (refused e)) | ok o ↦ launch lib f o ]

-- The exit code of main.
unfoldable pub main : Libraries → Flags → Prog ℕ
unfolding execute
main lib f = execute lib f >>= λ r. ret (elim r [ ok u ↦ 0 | err e ↦ 1 ])
