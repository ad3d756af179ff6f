-- ===== src/Reconcile/Hidden.antt =====
-- What a registration writes, and that another one is hidden only after it stands.
use argocd_cluster_registrar.Reconcile.Reads.{demoted_ttl_expired-Calls}
use argocd_cluster_registrar.Common.{
  ℕ, ◌≡◌, refl, ◌⊎◌, inl, inr, true, false, not, Option, none, some, List, [], ◌∷◌, Bytes, ◌==◌,
  nonempty, In, here, there, length,
}
use argocd_cluster_registrar.Api.{
  Op, create_secret, update_secret, delete_secret, list_secrets, now, count_conflict, Prog, ret,
}
use argocd_cluster_registrar.Api.Calls.{Calls, calls_rules}
use argocd_cluster_registrar.Api.Safe.{
  History, Saw, Safe, done, Anything, Persists, Safe-perform, Safe-bind, Safe-if, Safe-frame,
  Safe-Calls, Safe-both, Safe-weaken_calls,
}
use argocd_cluster_registrar.Kube.{Secret}
use argocd_cluster_registrar.Libraries.{Libraries}
use argocd_cluster_registrar.Config.{Config}
use argocd_cluster_registrar.Registrar.{
  Child, Verdict, allowed, conflict, broken, Faults, list_cluster_secrets, secret_name, is_pinned,
  is_demoted, source_selector,
}
use argocd_cluster_registrar.Apply.{demoted_labels, demote_secret}
use argocd_cluster_registrar.Apply.Takeover.{MayWrite}
use argocd_cluster_registrar.Apply.Boundary.{apply-Bounded}
use argocd_cluster_registrar.Apply.Outcomes.{Registered, Explained}
use argocd_cluster_registrar.Apply.Lasting.{Registered-Persists}
use argocd_cluster_registrar.Apply.Verdicts.{apply-Explained}
use argocd_cluster_registrar.Collect.{
  demoted_ttl_expired, delete_expired_secret, collect_demoted, collect_secret, collect_secrets,
  collect_one,
}
use argocd_cluster_registrar.Collect.Evidence.{Listed, Listed-Persists}
use argocd_cluster_registrar.Reconcile.{settle, register_child}

-- The call writes nothing that another reads, but for a deletion.
abbrev pub NoWrite : Op → Type 0
NoWrite (create_secret _ _) = ⊥
NoWrite (update_secret _ _) = ⊥
NoWrite _ = Unit {0}

module _ (lib : Libraries) (cfg : Config) (ns_name : Bytes) (c : Child) where
  -- A listed Secret of the namespace, neither pinned nor hidden before nor the child's own, is
  -- hidden in favour of the child's, after the child was registered.
  pub record IsDemotion (h : History) (namespace : Bytes) (updated : Secret) : Type 0 where
    pub secret : Secret
    pub at : ℕ
    pub target : namespace ≡ cfg.target_namespace
    pub listed : Listed lib cfg ns_name secret h
    pub unpinned : is_pinned cfg secret ≡ false
    pub visible : is_demoted cfg secret ≡ false
    pub other : (secret.name == secret_name c.cluster) ≡ false
    pub clock : Saw now at h
    pub same :
        updated
        ≡ record secret { labels = demoted_labels lib cfg secret.labels (secret_name c.cluster) at }
    pub live : cfg.dry_run ≡ false
    pub registered : Registered cfg c h

  -- The writes of `apply`, and demotions.
  abbrev pub MayHide : History → Op → Type 0
  MayHide h (create_secret ns s) = MayWrite cfg c h (create_secret ns s)
  MayHide h (update_secret ns s) = MayWrite cfg c h (update_secret ns s) ⊎ IsDemotion h ns s
  MayHide h _ = Unit {0}

  MayWrite-MayHide : (h : History) (o : Op) → MayWrite cfg c h o → MayHide h o
  MayWrite-MayHide h (create_secret ns s) k = k
  MayWrite-MayHide h (update_secret ns s) k = inl k
  MayWrite-MayHide h (delete_secret _ _ _) k = tt
  MayWrite-MayHide h _ k = tt

  NoWrite-MayHide : (h : History) (o : Op) → NoWrite o → MayHide h o
  NoWrite-MayHide h (create_secret ns s) k = absurd k
  NoWrite-MayHide h (update_secret ns s) k = absurd k
  NoWrite-MayHide h _ k = tt

  abbrev Hides : {A : Type 0} → History → Prog A → Type 0
  Hides h m = Safe MayHide Anything h m

  demoted_ttl_expired-NoWrite : (s : Secret) → Calls NoWrite (demoted_ttl_expired lib cfg s)
  demoted_ttl_expired-NoWrite = demoted_ttl_expired-Calls lib cfg tt

  delete_expired_secret-NoWrite : (s : Secret) → Calls NoWrite (delete_expired_secret cfg s)
  unfolding delete_expired_secret
  delete_expired_secret-NoWrite s = search (calls_rules, tt) depth 8

  collect_demoted-NoWrite :
      (s : Secret) (n : ℕ) (errs : Faults) → Calls NoWrite (collect_demoted lib cfg s n errs)
  unfolding collect_demoted
  collect_demoted-NoWrite s n errs =
      search (calls_rules, demoted_ttl_expired-NoWrite, delete_expired_secret-NoWrite) depth 8

  -- What the loop over the Secrets knows.
  abbrev Ready : List Secret → History → Type 0
  Ready items h = ((s : Secret) → In s items → Listed lib cfg ns_name s h) × Registered cfg c h

  Ready-Persists : (items : List Secret) → Persists (Ready items)
  Ready-Persists items e h (l, r) =
      (λ s i. Listed-Persists lib cfg ns_name s e h (l s i), Registered-Persists cfg c e h r)

  demote_secret-Hides :
      (h : History) (s : Secret)
      → Listed lib cfg ns_name s h
      → Registered cfg c h
      → (s.name == secret_name c.cluster) ≡ false
      → is_pinned cfg s ≡ false
      → is_demoted cfg s ≡ false
      → Hides h (demote_secret lib cfg s (secret_name c.cluster))
  unfolding demote_secret
  demote_secret-Hides h s l r other unpinned visible =
      Safe-if cfg.dry_run (λ d. done tt)
        λ live.
          Safe-bind
            (Safe-frame (λ h'. Listed lib cfg ns_name s h' × Registered cfg c h')
              (λ e h' k.
                (Listed-Persists lib cfg ns_name s e h' k.0, Registered-Persists cfg c e h' k.1))
              (l, r) (Safe-perform h now tt))
            λ h' at k.
              Safe-bind
                (Safe-perform h'
                  (update_secret cfg.target_namespace (record s {
                    labels = demoted_labels lib cfg s.labels (secret_name c.cluster) at;
                  }))
                  (inr (record {
                    secret = s;
                    at = at;
                    target = refl;
                    listed = k.0.0;
                    unpinned = unpinned;
                    visible = visible;
                    other = other;
                    clock = k.1;
                    same = refl;
                    live = live;
                    registered = k.0.1;
                  })))
                (λ h'' b q. done tt)

  collect_secret-Hides :
      (h : History) (s : Secret) (n : ℕ) (errs : Faults)
      → Listed lib cfg ns_name s h
      → Registered cfg c h
      → Hides h (collect_secret lib cfg true (secret_name c.cluster) s n errs)
  unfolding collect_secret
  collect_secret-Hides h s n errs l r =
      Safe-if (s.name == secret_name c.cluster) (λ e. done tt)
        λ other.
          Safe-if (is_pinned cfg s) (λ e. done tt)
            λ unpinned.
              Safe-if (not (nonempty (secret_name c.cluster))) (λ e. done tt)
                λ e.
                  Safe-if (is_demoted cfg s)
                    (λ e'. Safe-Calls h NoWrite-MayHide (collect_demoted-NoWrite s n errs))
                    λ visible.
                      Safe-bind (demote_secret-Hides h s l r other unpinned visible)
                        (λ h' f q. done tt)

  collect_secrets-Hides :
      (h : History) (items : List Secret) (n : ℕ) (errs : Faults)
      → Ready items h
      → Hides h (collect_secrets lib cfg true (secret_name c.cluster) items n errs)
  unfolding collect_secrets
  collect_secrets-Hides h [] n errs k = done tt
  collect_secrets-Hides h (s ∷ rest) n errs (l, r) =
      Safe-bind
        (Safe-frame (Ready rest) (Ready-Persists rest) (λ t i. l t (there i), r)
          (collect_secret-Hides h s n errs (l s here) r))
        λ h' a k. collect_secrets-Hides h' rest a.0 a.1 k.0

  collect_one-Hides :
      (h : History)
      → Registered cfg c h
      → Hides h (collect_one lib cfg ns_name true (secret_name c.cluster))
  unfolding collect_one
  collect_one-Hides h r =
      Safe-bind
        (Safe-frame (Registered cfg c) (Registered-Persists cfg c) r
          (Safe-perform h (list_secrets cfg.target_namespace (source_selector cfg ns_name)) tt))
        on_listing
    where
      on_listing :
          (h' : History) (answer : Option (List Secret))
          → Registered cfg c h'
            × Saw (list_secrets cfg.target_namespace (source_selector cfg ns_name)) answer h'
          → Hides {A = ℕ × Faults} h' (elim answer [
            | none ↦ ret (0, list_cluster_secrets ∷ [])
            | some items ↦
                collect_secrets lib cfg true (secret_name c.cluster) items (length items) []
          ])
      on_listing h' none k = done tt
      on_listing h' (some items) (r', saw) =
          collect_secrets-Hides h' items (length items) [] (λ s i. (items, saw, i), r')

  settle-Hides :
      (h : History) (v : Verdict) → Explained cfg c h v → Hides h (settle lib cfg ns_name c v)
  unfolding settle
  settle-Hides h allowed r = Safe-bind (collect_one-Hides h r) (λ h' a q. done tt)
  settle-Hides h (conflict reason) r =
      Safe-bind (Safe-perform h (count_conflict reason) tt) (λ h' a q. done tt)
  settle-Hides h (broken f) r = done tt

  -- When a discovered child is registered and what its namespace registered before is cleaned up,
  -- whatever the API server answers, every creation and every update is one that apply may make,
  -- or, without dry-run, the demotion in favour of the child's Secret of a listed Secret of the
  -- namespace, under another name, neither pinned nor demoted before, stamped by the clock that
  -- was read, after the child was registered: its Secret created, or updated, or found with
  -- nothing to change.
  pub register_child-MayHide :
      (h : History) → Safe MayHide Anything h (register_child lib cfg ns_name (some c))
  unfolding register_child
  register_child-MayHide h =
      Safe-bind
        (Safe-weaken_calls (λ h' o k. MayWrite-MayHide h' o k.0)
          (Safe-both (apply-Bounded cfg c h) (apply-Explained cfg c h)))
        (λ h' v k. settle-Hides h' v k.1)
