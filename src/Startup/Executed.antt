-- ===== src/Startup/Executed.antt =====
-- A whole run of the command: what it calls, and what stands behind the way it ends.
use argocd_cluster_registrar.Common.{
  ℕ, ◌≡◌, ◌⊎◌, refl, subst, ap, sym, ◌∙◌, Bool, true, false, none, some, [], if◌then◌else◌, inl,
  inr,
}
use argocd_cluster_registrar.Common.Result.{Outcome, ok, err}
use argocd_cluster_registrar.Runtime.{RestConfig}
use argocd_cluster_registrar.Api.{Op, ret}
use argocd_cluster_registrar.Api.Safe.{
  History, Safe, done, Anything, Runs, Safe-bind, Safe-both, Safe-Calls, Safe-hold, Safe-weaken,
  Safe-weaken_calls,
}
use argocd_cluster_registrar.Libraries.{Libraries}
use argocd_cluster_registrar.Config.{with_default_prefix}
use argocd_cluster_registrar.Config.Valid.{validate_iff}
use argocd_cluster_registrar.Options.{Flags, Options, OptionsError, build_options}
use argocd_cluster_registrar.Options.Runnable.{IsRunnable, build_options-IsRunnable}
use argocd_cluster_registrar.Options.Commanded.{with_default_prefix-valid}
use argocd_cluster_registrar.Registrar.{Faults}
use argocd_cluster_registrar.Reconcile.{no_faults}
use argocd_cluster_registrar.Reconcile.Within.{IsWithin, reconcile-Within}
use argocd_cluster_registrar.Reconcile.Finished.{no_faults-eq}
use argocd_cluster_registrar.Reconcile.Collected.{Reported, reconcile-Reported}
use argocd_cluster_registrar.Startup.{
  LaunchError, refused, sweep_failed, Registrar, new_with_client, new_registrar, sweep, start,
  launch, execute, main,
}
use argocd_cluster_registrar.Startup.Steps
use argocd_cluster_registrar.Startup.Steps.{on_ok-Ends}
use argocd_cluster_registrar.Startup.Wired.{
  HasClient, HasClient-Persists, Why, MayStart, MayConnect, Connecting, base_rest_config-Connecting,
  client_for-Connecting,
}
use argocd_cluster_registrar.Startup.Started.{Ran, start-Steps}

module _ (lib : Libraries) (f : Flags) where
  -- The flags were accepted as these options.
  pub record Accepted (o : Options) : Type 0 where
    pub built : build_options lib f ≡ ok o
    pub runnable : IsRunnable lib o

  -- What is called: the connection is made; with --once, a sweep of the registrar's own; else the
  -- controller is started.
  pub data MayCall (o : Options) (h : History) (op : Op) : Type 0 where
    connects : MayConnect h op → MayCall o h op
    sweeps : f.once ≡ true → HasClient h → IsWithin o.cfg op → MayCall o h op
    starts : f.once ≡ false → MayStart o.cfg o.ctrl h op → MayCall o h op

  -- What stands behind the result.
  pub data Ended (o : Options) (h : History) : Outcome LaunchError (Unit {0}) → Type 0 where
    swept : f.once ≡ true → HasClient h → Reported lib o.cfg h [] → Ended o h (ok tt)
    ran : f.once ≡ false → Ran o.cfg o.ctrl h → Ended o h (ok tt)
    faulty :
        f.once ≡ true
        → HasClient h
        → (errs : Faults) → Reported lib o.cfg h errs
        → no_faults errs ≡ false
        → Ended o h (err (sweep_failed errs))
    failed_start : (e : LaunchError) → Why o.ctrl h e → Ended o h (err e)

  new_registrar-Connecting :
      (o : Options) (h : History)
      → Connecting o.ctrl
          (λ h' r. HasClient h' × (c : RestConfig) × (r ≡ new_with_client o.cfg c))
          h
          (new_registrar o.cfg)
  unfolding new_registrar
  new_registrar-Connecting o h =
      on_ok-Ends (λ h'. Unit {0}) h (λ e h' u. tt) tt (base_rest_config-Connecting o.ctrl h)
        λ h1 base u a.
          on_ok-Ends (λ h'. Unit {0}) h1 (λ e h' u'. tt) tt (client_for-Connecting o.ctrl h1 base a)
            λ h2 c u' client. done (client, c, refl)

  sweep-Ended :
      (o : Options) (h : History) (c : RestConfig)
      → f.once ≡ true
      → HasClient h
      → Safe (MayCall o) (Ended o) h (sweep lib (record { cfg = o.cfg; client = some c }))
  unfolding sweep
  sweep-Ended o h c once client =
      Safe-bind
        (Safe-weaken_calls (λ h' op k. sweeps once k.0 k.1.1)
          (Safe-hold HasClient HasClient-Persists client (
            Safe-both (reconcile-Reported lib o.cfg h)
              (Safe-Calls h (λ h' op k. k) (reconcile-Within lib o.cfg)))))
        λ h' errs k. by_faults h' errs k.0 k.1.0 (no_faults errs) refl
    where
      by_faults :
          (h' : History) (errs : Faults)
          → HasClient h'
          → Reported lib o.cfg h' errs
          → (b : Bool) → no_faults errs ≡ b
          → Safe
              (MayCall o)
              {A = Outcome LaunchError (Unit {0})}
              (Ended o)
              h'
              (ret (if b then ok tt else err (sweep_failed errs)))
      by_faults h' errs client' told true e = done (
          swept once client'
            (subst (Reported lib o.cfg h') (no_faults-eq lib o.cfg [] errs e) told))
      by_faults h' errs client' told false e = done (faulty once client' errs told e)

  start-Ended :
      (o : Options) (h : History) (c : RestConfig)
      → f.once ≡ false
      → o.ctrl.rest_config ≡ none
      → HasClient h
      → Safe (MayCall o) (Ended o) h (start (record { cfg = o.cfg; client = some c }) o.ctrl)
  start-Ended o h c run free client =
      Safe-weaken_calls (λ h' op k. starts run k)
        (Safe-weaken by_result (start-Steps o.cfg o.ctrl h c free client))
    where
      by_result :
          (h' : History) (r : Outcome LaunchError (Unit {0}))
          → Steps.Ends (λ h'' u. Ran o.cfg o.ctrl h'') (Why o.ctrl) h' r
          → Ended o h' r
      by_result h' (ok u) k = ran run k
      by_result h' (err e) k = failed_start e k

  launch-Ended :
      (o : Options)
      → with_default_prefix o.cfg ≡ o.cfg
      → o.ctrl.rest_config ≡ none
      → Safe (MayCall o) (Ended o) [] (launch lib f o)
  unfolding launch new_with_client
  launch-Ended o prefixed free =
      Safe-bind (Safe-weaken_calls (λ h op k. connects k) (new_registrar-Connecting o [])) by_result
    where
      by_once :
          (h : History) (c : RestConfig)
          → HasClient h
          → (b : Bool) → f.once ≡ b
          → Safe (MayCall o) (Ended o) h (
              if b
              then sweep lib (record { cfg = o.cfg; client = some c })
              else start (record { cfg = o.cfg; client = some c }) o.ctrl)
      by_once h c client true once = sweep-Ended o h c once client
      by_once h c client false run = start-Ended o h c run free client

      by_result :
          (h : History) (m : Outcome LaunchError Registrar)
          → Steps.Ends
              (λ h' r. HasClient h' × (c : RestConfig) × (r ≡ new_with_client o.cfg c))
              (Why o.ctrl)
              h
              m
          → Safe (MayCall o) (Ended o) h (elim m [
            | ok r ↦ (if f.once then sweep lib r else start r o.ctrl)
            | err e ↦ ret (err e)
          ])
      by_result h (ok r) (client, c, e) =
          subst
            (λ r'. Safe (MayCall o) (Ended o) h (if f.once then sweep lib r' else start r' o.ctrl))
            (ap (λ p. record { cfg = p; client = some c }) (sym prefixed) ∙ sym e)
            (by_once h c client f.once refl)
      by_result h (err e) w = done (failed_start e w)

  -- The flags were refused, or a run with the options has ended.
  pub data Executed (h : History) : Outcome LaunchError (Unit {0}) → Type 0 where
    turned_down : (e : OptionsError) → build_options lib f ≡ err e → Executed h (err (refused e))
    launched :
        (o : Options) (r : Outcome LaunchError (Unit {0})) → Accepted o → Ended o h r → Executed h r

  abbrev pub MayExecute : History → Op → Type 0
  MayExecute h op = (o : Options) × Accepted o × MayCall o h op

  execute-Executed : Safe MayExecute Executed [] (execute lib f)
  unfolding execute
  execute-Executed = by_options (build_options lib f) refl
    where
      by_options :
          (m : Outcome OptionsError Options)
          → build_options lib f ≡ m
          → Safe MayExecute Executed []
              (elim m [ err e ↦ ret (err (refused e)) | ok o ↦ launch lib f o ])
      by_options (err e) built = done (turned_down e built)
      by_options (ok o) built =
          let runnable = build_options-IsRunnable lib f o built in
          let accepted : Accepted o = record { built = built; runnable = runnable } in
          Safe-weaken_calls (λ h op k. (o, accepted, k))
            (Safe-weaken (λ h r k. launched o r accepted k)
              (launch-Ended o
                (with_default_prefix-valid lib o.cfg ((validate_iff lib o.cfg).0 runnable.checked))
                runnable.connects_itself))

  -- Whatever is answered, a run of the command calls nothing unless its flags are accepted, and
  -- then connects first: every clientset is built on a copy, with the timeout of thirty seconds,
  -- of a connection that was read. With --once, every other call is made after that by a sweep
  -- and is a read, or writes a Secret of the target namespace, and that not in a dry run; no
  -- manager is made. Without --once, every other call starts the controller: the manager is made
  -- after the client, on a connection that was read, without that timeout put on it, and with the
  -- options that the flags give, and it runs only after the watches and the seeder were added,
  -- and the probes, where they have an address.
  pub execute-MayExecute : Safe MayExecute Anything [] (execute lib f)
  execute-MayExecute = Safe-weaken (λ h r k. tt) execute-Executed

  abbrev pub Exits : History → ℕ → Type 0
  Exits h code =
      ((code ≡ 0) × Executed h (ok tt)) ⊎ ((code ≡ 1) × (e : LaunchError) × Executed h (err e))

  -- Whatever is answered, the process exits with 0 only after a sweep whose keys all ended
  -- without an error, each in one of the ways that the reconciliation of a key can end, and whose
  -- audit ended without an error, or after the manager ran to its regular end with everything in
  -- place. It exits with 1 only where the flags were refused, where a call that connects, makes
  -- or runs the manager failed, where the interval is not positive, or where the sweep left an
  -- error: its keys could not be listed, or the errors are those of all its keys and its audit.
  pub main-Exits : Runs Exits [] (main lib f)
  unfolding main
  main-Exits = Safe-bind (Safe-weaken_calls (λ h op k. tt) execute-Executed) by_result
    where
      by_result :
          (h : History) (r : Outcome LaunchError (Unit {0}))
          → Executed h r
          → Runs Exits h (ret (elim r [ ok u ↦ 0 | err e ↦ 1 ]))
      by_result h (ok u) k = done (inl (refl, k))
      by_result h (err e) k = done (inr (refl, e, k))
