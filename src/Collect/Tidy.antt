-- ===== src/Collect/Tidy.antt =====
-- `collectOne` leaves no other registration of the namespace visible beside the one that was
-- applied, if it ends without an error.
use argocd_cluster_registrar.Common.{
  ℕ, ◌-◌, ◌≡◌, Bool, true, false, not, Option, none, some, List, [], ◌∷◌, ◌++◌, append_empty, Bytes,
  ◌==◌, nonempty, length, All, arith, if◌then◌else◌,
}
use argocd_cluster_registrar.Api.{update_secret, list_secrets, now, ret}
use argocd_cluster_registrar.Api.Safe.{
  History, Saw, earlier, done, Persists, Runs, Safe-perform, Safe-bind, Safe-if, Safe-frame,
  Safe-weaken, whatever,
}
use argocd_cluster_registrar.Kube.{Secret}
use argocd_cluster_registrar.Libraries.{Libraries}
use argocd_cluster_registrar.Config.{Config}
use argocd_cluster_registrar.Registrar.{
  Faults, demote, list_cluster_secrets, is_pinned, is_demoted, source_selector,
}
use argocd_cluster_registrar.Apply.{demoted_labels, demote_secret}
use argocd_cluster_registrar.Collect.{
  demoted_ttl_expired, delete_expired_secret, collect_demoted, collect_secret, collect_secrets,
  collect_one,
}

module _ (lib : Libraries) (cfg : Config) (applied : Bytes) where
  -- What became of a listed Secret.
  pub data Tidy (h : History) (s : Secret) : Type 0 where
    own : (s.name == applied) ≡ true → Tidy h s
    pinned : is_pinned cfg s ≡ true → Tidy h s
    hidden_before : is_demoted cfg s ≡ true → Tidy h s
    dry : cfg.dry_run ≡ true → Tidy h s
    hidden :
        (at : ℕ)
        → Saw
            (update_secret cfg.target_namespace
              (record s { labels = demoted_labels lib cfg s.labels applied at }))
            true
            h
        → Tidy h s

  Tidy-Persists : (s : Secret) → Persists (λ h. Tidy h s)
  Tidy-Persists s e h (own o) = own o
  Tidy-Persists s e h (pinned p) = pinned p
  Tidy-Persists s e h (hidden_before b) = hidden_before b
  Tidy-Persists s e h (dry d) = dry d
  Tidy-Persists s e h (hidden at saw) = hidden at (earlier saw)

  demote_secret-Tidy :
      (h : History) (s : Secret)
      → Runs (λ h' errs. errs ≡ [] → Tidy h' s) h (demote_secret lib cfg s applied)
  unfolding demote_secret
  demote_secret-Tidy h s =
      Safe-if cfg.dry_run (λ d. done (λ z. dry d))
        λ live. Safe-bind (Safe-perform h now tt) λ h' at saw.
          Safe-bind
            (Safe-perform h'
              (update_secret cfg.target_namespace
                (record s { labels = demoted_labels lib cfg s.labels applied at }))
              tt)
            (on_answer at)
    where
      on_answer :
          (at : ℕ) (h' : History) (accepted : Bool)
          → Saw
              (update_secret cfg.target_namespace
                (record s { labels = demoted_labels lib cfg s.labels applied at }))
              accepted
              h'
          → Runs {A = Faults}
              (λ h'' errs. errs ≡ [] → Tidy h'' s)
              h'
              (ret (if accepted then [] else demote ∷ []))
      on_answer at h' true saw = done (λ z. hidden at saw)
      on_answer at h' false saw = done (λ z. cc)

  -- What was demoted before is kept or deleted; an error is added, not taken away.
  collect_demoted-Adds :
      (h : History) (s : Secret) (n : ℕ) (errs : Faults)
      → Runs (λ h' (r : ℕ × Faults). r.1 ≡ [] → errs ≡ []) h (collect_demoted lib cfg s n errs)
  unfolding collect_demoted
  collect_demoted-Adds h s n errs =
      Safe-bind (whatever h (demoted_ttl_expired lib cfg s)) λ h' over u.
        Safe-if over
          (λ e.
            Safe-bind (whatever h' (delete_expired_secret cfg s))
              (λ h'' failure u'. by_failure h'' failure))
          (λ e. done (λ z. z))
    where
      by_failure :
          (h' : History) (failure : Faults)
          → Runs {A = ℕ × Faults}
              (λ h'' r. r.1 ≡ [] → errs ≡ [])
              h'
              (ret (elim failure [ [] ↦ (n - 1, errs) | f ∷ fs ↦ (n, errs ++ f ∷ fs) ]))
      by_failure h' [] = done (λ z. z)
      by_failure h' (f ∷ fs) = done (λ z. (append_empty errs (f ∷ fs) z).0)

  -- The Secrets of the namespace were listed after the registration, and each is tidy.
  abbrev pub IsTidy : Bytes → History → Type 0
  IsTidy ns_name h =
      (items : List Secret) × Saw (list_secrets cfg.target_namespace (source_selector cfg ns_name))
        (some items) h
      × All (Tidy h) items

  module _ (full : nonempty applied ≡ true) where
    collect_secret-Tidy :
        (h : History) (s : Secret) (n : ℕ) (errs : Faults)
        → Runs
            (λ h' (r : ℕ × Faults). r.1 ≡ [] → (errs ≡ []) × Tidy h' s)
            h
            (collect_secret lib cfg true applied s n errs)
    unfolding collect_secret
    collect_secret-Tidy h s n errs =
        Safe-if (s.name == applied) (λ e. done (λ z. (z, own e)))
          λ other.
            Safe-if (is_pinned cfg s) (λ e. done (λ z. (z, pinned e)))
              λ free.
                Safe-if (not (nonempty applied)) (λ e. done (λ z. absurd (ground arith)))
                  λ e.
                    Safe-if (is_demoted cfg s)
                      (λ b.
                        Safe-weaken (λ h' r k z. (k z, hidden_before b))
                          (collect_demoted-Adds h s n errs))
                      λ visible. Safe-bind (demote_secret-Tidy h s) λ h' failure k. done λ z.
                        let (none_before, none_now) = append_empty errs failure z in
                        (none_before, k none_now)

    collect_secrets-Tidy :
        (h : History) (items : List Secret) (n : ℕ) (errs : Faults)
        → Runs
            (λ h' (r : ℕ × Faults). r.1 ≡ [] → (errs ≡ []) × All (Tidy h') items)
            h
            (collect_secrets lib cfg true applied items n errs)
    unfolding collect_secrets
    collect_secrets-Tidy h [] n errs = done (λ z. (z, tt))
    collect_secrets-Tidy h (s ∷ rest) n errs = Safe-bind (collect_secret-Tidy h s n errs) λ h' r k.
        Safe-weaken (λ h'' out q z. joined h'' (q.1 z) q.0)
          (Safe-frame (λ h''. r.1 ≡ [] → (errs ≡ []) × Tidy h'' s)
            (λ e h'' p z. ((p z).0, Tidy-Persists s e h'' (p z).1)) k
            (collect_secrets-Tidy h' rest r.0 r.1))
      where
        joined :
            {errs' : Faults} (h' : History)
            → (errs' ≡ []) × All (Tidy h') rest
            → (errs' ≡ [] → (errs ≡ []) × Tidy h' s)
            → (errs ≡ []) × All (Tidy h') (s ∷ rest)
        joined h' (z, all) k = ((k z).0, ((k z).1, all))

    module _ (ns_name : Bytes) where
      pub collect_one-IsTidy :
          (h : History)
          → Runs
              (λ h' (r : ℕ × Faults). r.1 ≡ [] → IsTidy ns_name h')
              h
              (collect_one lib cfg ns_name true applied)
      unfolding collect_one
      collect_one-IsTidy h =
          Safe-bind
            (Safe-perform h (list_secrets cfg.target_namespace (source_selector cfg ns_name)) tt)
            on_listing
        where
          on_listing :
              (h' : History) (answer : Option (List Secret))
              → Saw (list_secrets cfg.target_namespace (source_selector cfg ns_name)) answer h'
              → Runs {A = ℕ × Faults}
                  (λ h'' r. r.1 ≡ [] → IsTidy ns_name h'')
                  h'
                  (elim answer [
                    | none ↦ ret (0, list_cluster_secrets ∷ [])
                    | some items ↦ collect_secrets lib cfg true applied items (length items) []
                  ])
          on_listing h' none saw = done (λ z. cc)
          on_listing h' (some items) saw =
              Safe-weaken (λ h'' r k z. (items, k.0, (k.1 z).1))
                (Safe-frame
                  (λ h''.
                    Saw (list_secrets cfg.target_namespace (source_selector cfg ns_name))
                      (some items) h'')
                  (λ e h'' k. earlier k) saw (collect_secrets-Tidy h' items (length items) []))
