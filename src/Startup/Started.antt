-- ===== src/Startup/Started.antt =====
-- The steps of `Start` for a registrar that has its client.
use argocd_cluster_registrar.Common.{
  ◌≡◌, refl, true, not, Option, none, some, [], ◌∷◌, nonempty, pos, ltb_ℤ, arith,
}
use argocd_cluster_registrar.Common.Result.{ok}
use argocd_cluster_registrar.Runtime.{RestConfig, healthz, readyz, cached_namespaces, seeded_keys}
use argocd_cluster_registrar.Api.{
  ret, new_manager, add_to_scheme, add_check, complete, add_seeder, run_manager,
}
use argocd_cluster_registrar.Api.Safe.{History, Saw, earlier, done, Persists, Safe-perform, Safe-if}
use argocd_cluster_registrar.Config.{Config}
use argocd_cluster_registrar.Options.{ControllerOptions}
use argocd_cluster_registrar.Controller.Manager.{manager_options}
use argocd_cluster_registrar.Startup.{
  scheme_failed, manager_failed, probe_failed, controller_failed, seeder_failed, run_failed,
  base_rest_config, manager_base, add_probes, ensure_client, run_controller, start,
}
use argocd_cluster_registrar.Startup.Steps.{on_ok-Ends, require-Ends, last-Ends}
use argocd_cluster_registrar.Startup.Wired.{
  Ambient, Ambient-Persists, HasClient, HasClient-Persists, not_positive, no_scheme, no_manager,
  no_probe, no_controller, no_seeder, stopped, HasManager, HasProbes, Ready, Ready-Persists, Steps,
  base_rest_config-Connecting, Connecting-Steps,
}

module _ (cfg : Config) (opts : ControllerOptions) where
  HasManager-Persists : Persists (HasManager cfg opts)
  HasManager-Persists e h (base, a, saw) = (base, Ambient-Persists base e h a, earlier saw)

  add_probes-Steps :
      (h : History)
      → HasManager cfg opts h
      → Steps cfg opts (λ h' u. HasProbes cfg opts h') h (add_probes opts)
  unfolding add_probes
  add_probes-Steps h m =
      Safe-if (nonempty opts.health_probe_bind_address)
        (λ e.
          on_ok-Ends (HasManager cfg opts) h HasManager-Persists m
            (require-Ends (probe_failed healthz) (Safe-perform h (add_check healthz) m)
              (λ h' s. no_probe healthz s))
            λ h' u m' first.
              last-Ends (Saw (add_check healthz) true) h' (λ e' h'' s. earlier s) first
                (require-Ends (probe_failed readyz) (Safe-perform h' (add_check readyz) m')
                  (λ h'' s. no_probe readyz s))
                (λ h'' u' a b address. (a, b)))
        (λ e. done (λ address. cc))

  -- What is known once the probes are there, the controller is, and the seeder.
  abbrev Probed : History → Type 0
  Probed h = HasClient h × HasManager cfg opts h × HasProbes cfg opts h

  Probed-Persists : Persists Probed
  Probed-Persists e h (c, m, p) =
      (HasClient-Persists e h c, HasManager-Persists e h m, λ a. (earlier (p a).0, earlier (p a).1))

  abbrev Watched : History → Type 0
  Watched h = Probed h × Saw (complete (cached_namespaces ∷ seeded_keys ∷ [])) true h

  Watched-Persists : Persists Watched
  Watched-Persists e h (p, w) = (Probed-Persists e h p, earlier w)

  abbrev pub Ran : History → Type 0
  Ran h = Ready cfg opts h × Saw run_manager true h

  in_place : (h : History) → Watched h → Saw add_seeder true h → Ready cfg opts h
  in_place h k seeder = record {
    client = k.0.0;
    manager = k.0.1;
    probes = k.0.2;
    watched = k.1;
    seeder = seeder;
  }

  run_controller-Steps :
      (h : History) (c base : RestConfig)
      → HasClient h
      → HasManager cfg opts h
      → Steps cfg opts
          (λ h' u. Ran h')
          h
          (run_controller (record { cfg = cfg; client = some c }) opts base)
  unfolding run_controller ensure_client
  run_controller-Steps h c base client m =
      on_ok-Ends (λ h'. HasClient h' × HasManager cfg opts h') h
        (λ e h' k. (HasClient-Persists e h' k.0, HasManager-Persists e h' k.1)) (client, m)
        (add_probes-Steps h m)
        λ h1 u k1 probes.
          on_ok-Ends {G = λ h' c'. Unit {0}} Probed h1 Probed-Persists (k1.0, k1.1, probes)
            (done tt)
            λ h2 c' k2 u2.
              on_ok-Ends Probed h2 Probed-Persists k2
                (require-Ends controller_failed (Safe-perform h2 (complete _) k2.1)
                  (λ h' s. no_controller s))
                λ h3 u3 k3 watched.
                  on_ok-Ends Watched h3 Watched-Persists (k3, watched)
                    (require-Ends seeder_failed (Safe-perform h3 add_seeder k3.1)
                      (λ h' s. no_seeder s))
                    λ h4 u4 k4 seeder.
                      let ready = in_place h4 k4 seeder in
                      last-Ends (Ready cfg opts) h4 (Ready-Persists cfg opts) ready
                        (require-Ends run_failed (Safe-perform h4 run_manager ready)
                          (λ h' s. stopped s))
                        (λ h' u5 r s. (r, s))

  manager_base-Steps :
      (h : History) → opts.rest_config ≡ none → Steps cfg opts Ambient h (manager_base opts)
  unfolding manager_base
  manager_base-Steps h free = by_injected opts.rest_config free
    where
      by_injected :
          (o : Option RestConfig)
          → o ≡ none
          → Steps cfg opts {A = RestConfig} Ambient h
              (elim o [ some base ↦ ret (ok base) | none ↦ base_rest_config ])
      by_injected (some base) e = cc
      by_injected none e = Connecting-Steps cfg opts (base_rest_config-Connecting opts h)

  pub start-Steps :
      (h : History) (c : RestConfig)
      → opts.rest_config ≡ none
      → HasClient h
      → Steps cfg opts (λ h' u. Ran h') h (start (record { cfg = cfg; client = some c }) opts)
  unfolding start
  start-Steps h c free client =
      Safe-if (not (ltb_ℤ (pos 0) opts.interval)) (λ e. done (not_positive (ground arith)))
        λ e.
          on_ok-Ends HasClient h HasClient-Persists client
            (require-Ends scheme_failed (Safe-perform h add_to_scheme tt) (λ h' s. no_scheme s))
            λ h1 u k1 s1.
              on_ok-Ends HasClient h1 HasClient-Persists k1 (manager_base-Steps h1 free)
                λ h2 base k2 a.
                  on_ok-Ends (λ h'. HasClient h' × Ambient h' base) h2
                    (λ e' h' k. (HasClient-Persists e' h' k.0, Ambient-Persists base e' h' k.1))
                    (k2, a)
                    (require-Ends manager_failed
                      (Safe-perform h2 (new_manager base (manager_options cfg opts)) (k2, a, refl))
                      (λ h' s. no_manager base (manager_options cfg opts) s))
                    λ h3 u3 k3 made. run_controller-Steps h3 c base k3.0 (base, k3.1, made)
