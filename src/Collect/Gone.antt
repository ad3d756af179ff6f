-- ===== src/Collect/Gone.antt =====
-- What the collection of a namespace that is gone counts.
use argocd_cluster_registrar.Common.{
  ℕ, ◌+◌, ◌-◌, ◌≤◌, ◌≡◌, refl, ◌⊎◌, inl, inr, Bool, true, false, Option, none, some, List, [], ◌∷◌,
  ◌++◌, Bytes, ◌==◌, eqb, All, length, arith, if◌then◌else◌,
}
use argocd_cluster_registrar.Api.{
  Deleted, deleted, already_gone, conflicted, delete_failed, delete_secret, list_secrets, ret,
}
use argocd_cluster_registrar.Api.Safe.{
  Runs, History, Saw, earlier, done, Persists, Safe-perform, Safe-bind, Safe-if, Safe-frame,
  Safe-weaken,
}
use argocd_cluster_registrar.Kube.{Secret}
use argocd_cluster_registrar.Libraries.{Libraries}
use argocd_cluster_registrar.Config.{Config}
use argocd_cluster_registrar.Registrar.{
  Faults, delete_orphan, list_cluster_secrets, source_selector, is_pinned,
}
use argocd_cluster_registrar.Collect.{
  uid_only, delete_orphan_secret, collect_orphan, collect_secret, collect_secrets, collect_one,
}

module _ (cfg : Config) where
  -- The deletion of the Secret was answered as done, or as done before.
  abbrev pub Gone : Secret → History → Type 0
  Gone s h =
      Saw (delete_secret cfg.target_namespace s.name (uid_only s)) deleted h
      ⊎ Saw (delete_secret cfg.target_namespace s.name (uid_only s)) already_gone h

  Gone-Persists : (s : Secret) → Persists (Gone s)
  Gone-Persists s e h (inl g) = inl (earlier g)
  Gone-Persists s e h (inr g) = inr (earlier g)

  delete_orphan_secret-Gone :
      (h : History) (s : Secret)
      → Runs (λ h' (r : Bool × Faults). r.0 ≡ true → Gone s h') h (delete_orphan_secret cfg s)
  unfolding delete_orphan_secret
  delete_orphan_secret-Gone h s =
      Safe-if cfg.dry_run (λ e. done (λ t. cc))
        λ e.
          Safe-bind (Safe-perform h (delete_secret cfg.target_namespace s.name (uid_only s)) tt)
            on_answer
    where
      on_answer :
          (h' : History) (answer : Deleted)
          → Saw (delete_secret cfg.target_namespace s.name (uid_only s)) answer h'
          → Runs
              (λ h'' (r : Bool × Faults). r.0 ≡ true → Gone s h'')
              h'
              (ret (elim answer [
                | deleted ↦ (true, [])
                | already_gone ↦ (true, [])
                | conflicted ↦ (false, [])
                | delete_failed ↦ (false, delete_orphan ∷ [])
              ]))
      on_answer h' deleted saw = done (λ t. inl saw)
      on_answer h' already_gone saw = done (λ t. inr saw)
      on_answer h' conflicted saw = done (λ t. cc)
      on_answer h' delete_failed saw = done (λ t. cc)

module _ (lib : Libraries) (cfg : Config) where
  -- One round of the collection counts one Secret less only if it is gone.
  abbrev Counted : Secret → ℕ → History → ℕ × Faults → Type 0
  Counted s n h r = (r.0 ≡ n) ⊎ ((r.0 ≡ n - 1) × Gone cfg s h)

  collect_secret-Counted :
      (h : History) (s : Secret) (n : ℕ) (errs : Faults)
      → Runs (Counted s n) h (collect_secret lib cfg false [] s n errs)
  unfolding collect_secret collect_orphan
  collect_secret-Counted h s n errs =
      Safe-if (s.name == []) (λ e. done (inl refl))
        λ e.
          Safe-if (is_pinned cfg s) (λ e'. done (inl refl))
            λ e'. Safe-bind (delete_orphan_secret-Gone cfg h s) by_outcome
    where
      by_outcome :
          (h' : History) (r : Bool × Faults)
          → (r.0 ≡ true → Gone cfg s h')
          → Runs (Counted s n) h' (ret (if r.0 then n - 1 else n, errs ++ r.1))
      by_outcome h' (true, fs) g = done (inr (refl, g refl))
      by_outcome h' (false, fs) g = done (inl refl)

  -- What the collection reports as left.
  abbrev Left : List Secret → ℕ → History → ℕ × Faults → Type 0
  Left items n h r =
      (n ≤ r.0 + length items) × (r.0 + length items ≡ n → All (λ s. Gone cfg s h) items)

  collect_secrets-Left :
      (h : History) (items : List Secret) (n : ℕ) (errs : Faults)
      → length items ≤ n
      → Runs (Left items n) h (collect_secrets lib cfg false [] items n errs)
  unfolding collect_secrets
  collect_secrets-Left h [] n errs b = done (ground arith, λ e. tt)
  collect_secrets-Left h (s ∷ rest) n errs b =
      Safe-bind (collect_secret-Counted h s n errs)
        λ h' r c. by_count h' r c (λ enough. collect_secrets-Left h' rest r.0 r.1 enough)
    where
      by_count :
          (h' : History) (r : ℕ × Faults)
          → Counted s n h' r
          → (length rest ≤ r.0
              → Runs (Left rest r.0) h' (collect_secrets lib cfg false [] rest r.0 r.1))
          → Runs (Left (s ∷ rest) n) h' (collect_secrets lib cfg false [] rest r.0 r.1)
      by_count h' (m, fs) (inl same) next =
          Safe-weaken (λ h'' r left. (ground (arith, left.0), λ e. absurd (ground (arith, left.0))))
            (next (ground arith))
      by_count h' (m, fs) (inr (less_one, g)) next =
          Safe-weaken
            (λ h'' r k. (ground (arith, k.1.0), λ e. (k.0, k.1.1 (ground (arith, k.1.0)))))
            (Safe-frame (Gone cfg s) (Gone-Persists cfg s) g (next (ground arith)))

  module _ (ns_name : Bytes) where
    -- All that was recorded against the name was listed, and is gone.
    abbrev pub AllGone : History → Type 0
    AllGone h =
        (items : List Secret) × Saw
          (list_secrets cfg.target_namespace (source_selector cfg ns_name)) (some items) h
        × All (λ s. Gone cfg s h) items

    pub collect_one-AllGone :
        (h : History)
        → Runs
            (λ h' (r : ℕ × Faults). eqb r.0 0 ≡ true → r.1 ≡ [] → AllGone h')
            h
            (collect_one lib cfg ns_name false [])
    unfolding collect_one
    collect_one-AllGone h =
        Safe-bind
          (Safe-perform h (list_secrets cfg.target_namespace (source_selector cfg ns_name)) tt)
          on_listing
      where
        on_listing :
            (h' : History) (answer : Option (List Secret))
            → Saw (list_secrets cfg.target_namespace (source_selector cfg ns_name)) answer h'
            → Runs {A = ℕ × Faults}
                (λ h'' r. eqb r.0 0 ≡ true → r.1 ≡ [] → AllGone h'')
                h'
                (elim answer [
                  | none ↦ ret (0, list_cluster_secrets ∷ [])
                  | some items ↦ collect_secrets lib cfg false [] items (length items) []
                ])
        on_listing h' none saw = done (λ z e. cc)
        on_listing h' (some items) saw =
            Safe-weaken (λ h'' r k. λ z e. (items, k.0, k.1.1 (ground (arith, z))))
              (Safe-frame
                (λ h''.
                  Saw (list_secrets cfg.target_namespace (source_selector cfg ns_name)) (some items)
                    h'')
                (λ e h'' k. earlier k) saw
                (collect_secrets-Left h' items (length items) [] (ground arith)))
