-- ===== src/Startup/Wired.antt =====
-- What the process may call while it starts.
use argocd_cluster_registrar.Common.{
  ◌≡◌, refl, Bool, true, false, Option, none, some, [], ◌∷◌, nonempty, pos, ltb_ℤ, if◌then◌else◌,
}
use argocd_cluster_registrar.Common.Result.{ok, err}
use argocd_cluster_registrar.Runtime.{
  RestConfig, ManagerOptions, Probe, healthz, readyz, cached_namespaces, seeded_keys,
}
use argocd_cluster_registrar.Api.{
  Op, ret, ◌>>=◌, perform, in_cluster_config, kubeconfig_config, new_client, add_to_scheme,
  new_manager, add_check, complete, add_seeder, run_manager,
}
use argocd_cluster_registrar.Api.Safe.{
  History, Saw, earlier, Safe, done, Persists, Safe-perform, Safe-bind, Safe-frame,
  Safe-weaken_calls,
}
use argocd_cluster_registrar.Startup.{
  client_timeout, LaunchError, no_connection, client_failed, interval_not_positive, scheme_failed,
  manager_failed, probe_failed, controller_failed, seeder_failed, run_failed, Launch,
  base_rest_config, client_for,
}
use argocd_cluster_registrar.Startup.Steps.{Ends}
use argocd_cluster_registrar.Config.{Config}
use argocd_cluster_registrar.Options.{ControllerOptions}
use argocd_cluster_registrar.Controller.Manager.{manager_options}

-- The connection that was read, the in-cluster one first.
pub data Ambient (h : History) (base : RestConfig) : Type 0 where
  in_cluster : Saw in_cluster_config (some base) h → Ambient h base
  outside : Saw in_cluster_config none h → Saw kubeconfig_config (some base) h → Ambient h base

pub Ambient-Persists : (base : RestConfig) → Persists (λ h. Ambient h base)
Ambient-Persists base e h (in_cluster a) = in_cluster (earlier a)
Ambient-Persists base e h (outside a b) = outside (earlier a) (earlier b)

-- The copy with the timeout.
abbrev pub timed : RestConfig → RestConfig
timed base = record base { timeout = client_timeout }

-- A clientset was built, on the copy of a connection that was read.
pub record HasClient (h : History) : Type 0 where
  pub base : RestConfig
  pub ambient : Ambient h base
  pub built : Saw (new_client (timed base)) true h

pub HasClient-Persists : Persists HasClient
HasClient-Persists e h c = record {
  base = c.base;
  ambient = Ambient-Persists c.base e h c.ambient;
  built = earlier c.built;
}

-- The call that failed.
pub data Why (opts : ControllerOptions) (h : History) : LaunchError → Type 0 where
  not_positive : ltb_ℤ (pos 0) opts.interval ≡ false → Why opts h interval_not_positive
  unconnected :
      Saw in_cluster_config none h → Saw kubeconfig_config none h → Why opts h no_connection
  no_client : (c : RestConfig) → Saw (new_client c) false h → Why opts h client_failed
  no_scheme : Saw add_to_scheme false h → Why opts h scheme_failed
  no_manager :
      (base : RestConfig) (m : ManagerOptions)
      → Saw (new_manager base m) false h
      → Why opts h manager_failed
  no_probe : (p : Probe) → Saw (add_check p) false h → Why opts h (probe_failed p)
  no_controller :
      Saw (complete (cached_namespaces ∷ seeded_keys ∷ [])) false h → Why opts h controller_failed
  no_seeder : Saw add_seeder false h → Why opts h seeder_failed
  stopped : Saw run_manager false h → Why opts h run_failed

-- What may be called to connect.
abbrev pub MayConnect : History → Op → Type 0
MayConnect h in_cluster_config = Unit {0}
MayConnect h kubeconfig_config = Unit {0}
MayConnect h (new_client c) = (base : RestConfig) × Ambient h base × (c ≡ timed base)
MayConnect h _ = ⊥

module _ (opts : ControllerOptions) where
  abbrev pub Connecting : {A : Type 0} → (History → A → Type 0) → History → Launch A → Type 0
  Connecting G h m = Safe MayConnect (Ends G (Why opts)) h m

  pub base_rest_config-Connecting : (h : History) → Connecting Ambient h base_rest_config
  unfolding base_rest_config
  base_rest_config-Connecting h = Safe-bind (Safe-perform h in_cluster_config tt) by_cluster
    where
      by_kubeconfig :
          (h' : History) (o : Option RestConfig)
          → Saw in_cluster_config none h' × Saw kubeconfig_config o h'
          → Connecting {A = RestConfig} Ambient h'
              (ret (elim o [ some base ↦ ok base | none ↦ err no_connection ]))
      by_kubeconfig h' (some base) (a, b) = done (outside a b)
      by_kubeconfig h' none (a, b) = done (unconnected a b)

      by_cluster :
          (h' : History) (o : Option RestConfig)
          → Saw in_cluster_config o h'
          → Connecting {A = RestConfig} Ambient h' (elim o [
            | some base ↦ ret (ok base)
            | none ↦ perform kubeconfig_config >>= λ usable.
                ret (elim usable [ some base ↦ ok base | none ↦ err no_connection ])
          ])
      by_cluster h' (some base) saw = done (in_cluster saw)
      by_cluster h' none saw =
          Safe-bind
            (Safe-frame (Saw in_cluster_config none) (λ e h'' s. earlier s) saw
              (Safe-perform h' kubeconfig_config tt))
            by_kubeconfig

  pub client_for-Connecting :
      (h : History) (base : RestConfig)
      → Ambient h base
      → Connecting (λ h' c. HasClient h') h (client_for base)
  unfolding client_for
  client_for-Connecting h base a =
      Safe-bind
        (Safe-frame (λ h'. Ambient h' base) (Ambient-Persists base) a
          (Safe-perform h (new_client (timed base)) (base, a, refl)))
        by_answer
    where
      by_answer :
          (h' : History) (b : Bool)
          → Ambient h' base × Saw (new_client (timed base)) b h'
          → Connecting {A = RestConfig}
              (λ h'' c. HasClient h'')
              h'
              (ret (if b then ok (timed base) else err client_failed))
      by_answer h' true (a', saw) = done (record { base = base; ambient = a'; built = saw })
      by_answer h' false (a', saw) = done (no_client (timed base) saw)

module _ (cfg : Config) (opts : ControllerOptions) where
  -- The manager was made on a connection that was read, as it is.
  abbrev pub HasManager : History → Type 0
  HasManager h =
      (base : RestConfig) × Ambient h base
      × Saw (new_manager base (manager_options cfg opts)) true h

  -- The probes are served, if they have an address.
  abbrev pub HasProbes : History → Type 0
  HasProbes h =
      nonempty opts.health_probe_bind_address ≡ true
      → Saw (add_check healthz) true h × Saw (add_check readyz) true h

  -- Everything is in place for the manager to run.
  pub record Ready (h : History) : Type 0 where
    pub client : HasClient h
    pub manager : HasManager h
    pub probes : HasProbes h
    pub watched : Saw (complete (cached_namespaces ∷ seeded_keys ∷ [])) true h
    pub seeder : Saw add_seeder true h

  pub Ready-Persists : Persists Ready
  Ready-Persists e h r = record {
    client = HasClient-Persists e h r.client;
    manager = (r.manager.0, Ambient-Persists r.manager.0 e h r.manager.1, earlier r.manager.2);
    probes = λ a. (earlier (r.probes a).0, earlier (r.probes a).1);
    watched = earlier r.watched;
    seeder = earlier r.seeder;
  }

  -- What may be called while the controller starts.
  abbrev pub MayStart : History → Op → Type 0
  MayStart h add_to_scheme = Unit {0}
  MayStart h (new_manager base m) = HasClient h × Ambient h base × (m ≡ manager_options cfg opts)
  MayStart h (add_check p) = HasManager h
  MayStart h (complete ws) = HasManager h
  MayStart h add_seeder = HasManager h
  MayStart h run_manager = Ready h
  MayStart h o = MayConnect h o

  abbrev pub Steps : {A : Type 0} → (History → A → Type 0) → History → Launch A → Type 0
  Steps G h m = Safe MayStart (Ends G (Why opts)) h m

  MayConnect-MayStart : (h : History) (o : Op) → MayConnect h o → MayStart h o
  MayConnect-MayStart h in_cluster_config k = k
  MayConnect-MayStart h kubeconfig_config k = k
  MayConnect-MayStart h (new_client c) k = k
  MayConnect-MayStart h add_to_scheme k = absurd k
  MayConnect-MayStart h (new_manager base m) k = absurd k
  MayConnect-MayStart h (add_check p) k = absurd k
  MayConnect-MayStart h (complete ws) k = absurd k
  MayConnect-MayStart h add_seeder k = absurd k
  MayConnect-MayStart h run_manager k = absurd k
  MayConnect-MayStart h _ k = absurd k

  pub Connecting-Steps :
      {A : Type 0} {G : History → A → Type 0} {h : History} {m : Launch A}
      → Connecting opts G h m
      → Steps G h m
  Connecting-Steps s = Safe-weaken_calls MayConnect-MayStart s
