-- ===== src/Apply/Outcomes.antt =====
-- What each verdict of `apply` means.
use argocd_cluster_registrar.Common.{
  ◌≡◌, ◌≢◌, inl, inr, true, false, not, ◌||◌, Option, none, some, List, ◌==◌, nonempty, In,
  Bool-cases, arith,
}
use argocd_cluster_registrar.Api.{
  Found, found, not_found, failed, created, already_exists, create_failed, get_namespace,
  get_secret, list_namespaces, list_secrets, create_secret, update_secret, count_adoption, Reason,
  not_managed, orphan_cluster_mismatch, incumbent, contested_name, create_race, server_collision,
  Prog, ret,
}
use argocd_cluster_registrar.Api.Safe.{
  History, Saw, done, Persists, Runs, Safe-perform, Safe-bind, Safe-if, Safe-frame,
}
use argocd_cluster_registrar.Kube.{Namespace, Secret}
use argocd_cluster_registrar.Config.{Config}
use argocd_cluster_registrar.Registrar.{
  Child, Fault, Verdict, allowed, conflict, broken, and_then, owner_of, source_of, cluster_of,
  is_pinned, claimant_selector, secret_name, get_existing, list_claimants, list_cluster_secrets,
  create, update,
}
use argocd_cluster_registrar.Ownership.{
  award, oldest, nobody, check_ownership, claim_contested_name, holds_server,
}
use argocd_cluster_registrar.Apply.{changed, wanted, merge}
use argocd_cluster_registrar.Apply.Takeover.{argo_selector}

module _ (cfg : Config) (c : Child) where
  -- The holder of an address keeps it: it is pinned, or it has no source, or the read of its
  -- source namespace was not answered as not found.
  pub data Keeps (h : History) (s : Secret) : Type 0 where
    pinned : is_pinned cfg s ≡ true → Keeps h s
    unsourced : nonempty (source_of cfg s) ≡ false → Keeps h s
    sourced :
        (answer : Found Namespace)
        → Saw (get_namespace (source_of cfg s)) answer h
        → answer ≢ not_found
        → Keeps h s

  -- Why a child is refused.
  pub data Refused (h : History) : Reason → Type 0 where
    foreign :
        (s : Secret)
        → Saw (get_secret cfg.target_namespace (secret_name c.cluster)) (found s) h
        → (owner_of cfg s == cfg.managed_by_value) ≡ false
        → Refused h not_managed
    held :
        (s : Secret)
        → Saw (get_secret cfg.target_namespace (secret_name c.cluster)) (found s) h
        → nonempty (source_of cfg s) ≡ true
        → (source_of cfg s == c.namespace) ≡ false
        → Refused h incumbent
    stripped :
        (s : Secret)
        → Saw (get_secret cfg.target_namespace (secret_name c.cluster)) (found s) h
        → nonempty (source_of cfg s) ≡ false
        → (cluster_of cfg s == c.cluster) ≡ false
        → Refused h orphan_cluster_mismatch
    younger :
        (items : List Namespace)
        → Saw (list_namespaces (claimant_selector cfg c.cluster)) (some items) h
        → nonempty (oldest items nobody).name ≡ true
        → ((oldest items nobody).name == c.namespace) ≡ false
        → Refused h contested_name
    raced :
        Saw (create_secret cfg.target_namespace (wanted cfg c)) already_exists h
        → Refused h create_race
    taken :
        (items : List Secret) (s : Secret)
        → Saw (list_secrets cfg.target_namespace argo_selector) (some items) h
        → In s items
        → holds_server cfg s c ≡ true
        → Keeps h s
        → Refused h server_collision

  -- Which call failed.
  pub data Failed (h : History) : Fault → Type 0 where
    no_read :
        Saw (get_secret cfg.target_namespace (secret_name c.cluster)) failed h
        → Failed h get_existing
    no_claimants :
        Saw (list_namespaces (claimant_selector cfg c.cluster)) none h → Failed h list_claimants
    no_clusters :
        Saw (list_secrets cfg.target_namespace argo_selector) none h → Failed h list_cluster_secrets
    no_create :
        Saw (create_secret cfg.target_namespace (wanted cfg c)) create_failed h → Failed h create
    no_update :
        (s : Secret)
        → Saw (update_secret cfg.target_namespace (merge s (wanted cfg c) cfg.label_prefix)) false h
        → Failed h update

  -- Why there is no error: it was written, or there is nothing to write, or a dry run stops here.
  pub data Registered (h : History) : Type 0 where
    new : Saw (create_secret cfg.target_namespace (wanted cfg c)) created h → Registered h
    renewed :
        (s : Secret)
        → Saw (get_secret cfg.target_namespace (secret_name c.cluster)) (found s) h
        → Saw (update_secret cfg.target_namespace (merge s (wanted cfg c) cfg.label_prefix)) true h
        → Registered h
    unchanged :
        (s : Secret)
        → Saw (get_secret cfg.target_namespace (secret_name c.cluster)) (found s) h
        → changed s (wanted cfg c) cfg.label_prefix ≡ false
        → Registered h
    dry : cfg.dry_run ≡ true → Registered h

  abbrev pub Explained : History → Verdict → Type 0
  Explained h allowed = Registered h
  Explained h (conflict reason) = Refused h reason
  Explained h (broken fault) = Failed h fault

  -- A step that may let the next one go on.
  abbrev pub Step : History → Verdict → Type 0
  Step h allowed = Unit {0}
  Step h (conflict reason) = Refused h reason
  Step h (broken fault) = Failed h fault

  pub and_then-Explained :
      (F : History → Type 0) (h : History) (m n : Prog Verdict)
      → Persists F
      → F h
      → Runs Step h m
      → ((h' : History) → F h' → Runs Explained h' n)
      → Runs Explained h (and_then m n)
  unfolding and_then
  and_then-Explained F h m n keep f hm hn = Safe-bind (Safe-frame F keep f hm) by_verdict
    where
      by_verdict :
          (h' : History) (v : Verdict)
          → F h' × Step h' v
          → Runs Explained h'
              (elim v [ allowed ↦ n | conflict r ↦ ret (conflict r) | broken x ↦ ret (broken x) ])
      by_verdict h' allowed (g, s) = hn h' g
      by_verdict h' (conflict r) (g, s) = done s
      by_verdict h' (broken x) (g, s) = done s

  pub check_ownership-Step :
      (h : History) (s : Secret)
      → Saw (get_secret cfg.target_namespace (secret_name c.cluster)) (found s) h
      → Runs Step h (check_ownership cfg s c)
  unfolding check_ownership
  check_ownership-Step h s saw =
      Safe-if (not (owner_of cfg s == cfg.managed_by_value))
        (λ e. done (foreign s saw (ground arith)))
        λ e.
          Safe-if (source_of cfg s == c.namespace) (λ e'. done tt)
            λ e'.
              Safe-if (nonempty (source_of cfg s)) (λ e''. done (held s saw e'' e'))
                λ e''.
                  Safe-if (not (cluster_of cfg s == c.cluster))
                    (λ e3. done (stripped s saw e'' (ground arith)))
                    λ e3. Safe-bind (Safe-perform h count_adoption tt) (λ h' r q. done tt)

  pub claim_contested_name-Step : (h : History) → Runs Step h (claim_contested_name cfg c)
  unfolding claim_contested_name award
  claim_contested_name-Step h =
      Safe-bind (Safe-perform h (list_namespaces (claimant_selector cfg c.cluster)) tt) on_listing
    where
      lost :
          (h' : History) (items : List Namespace)
          → Saw (list_namespaces (claimant_selector cfg c.cluster)) (some items) h'
          → Step h' (award items c)
      lost h' items saw =
          let winner = (oldest items nobody).name in
          elim (Bool-cases (not (nonempty winner) || winner == c.namespace)) [
            | inl e ↦ rw e tt
            | inr e ↦ rw e (younger items saw (ground arith) (ground arith))
          ]

      on_listing :
          (h' : History) (answer : Option (List Namespace))
          → Saw (list_namespaces (claimant_selector cfg c.cluster)) answer h'
          → Runs {A = Verdict} Step h'
              (ret (elim answer [ none ↦ broken list_claimants | some items ↦ award items c ]))
      on_listing h' none saw = done (no_claimants saw)
      on_listing h' (some items) saw = done (lost h' items saw)
