-- ===== src/Collect/Cleared.antt =====
-- `collectOne` over a namespace that is gone asks for every deletion, if it ends without an error.
use argocd_cluster_registrar.Common.{
  ℕ, ◌≡◌, true, false, Option, none, some, List, [], ◌∷◌, append_empty, Bytes, ◌==◌, length, All,
}
use argocd_cluster_registrar.Api.{list_secrets, ret}
use argocd_cluster_registrar.Api.Safe.{
  History, Saw, earlier, done, Persists, Runs, Safe-perform, Safe-bind, Safe-if, Safe-frame,
  Safe-weaken,
}
use argocd_cluster_registrar.Kube.{Secret}
use argocd_cluster_registrar.Libraries.{Libraries}
use argocd_cluster_registrar.Config.{Config}
use argocd_cluster_registrar.Registrar.{Faults, list_cluster_secrets, is_pinned, source_selector}
use argocd_cluster_registrar.Collect.{collect_orphan, collect_secret, collect_secrets, collect_one}
use argocd_cluster_registrar.Collect.Tried.{Tried, Tried-Persists, delete_orphan_secret-Tried}

module _ (lib : Libraries) (cfg : Config) where
  -- What became of a listed Secret: it has no name, which no object of the API server lacks, or
  -- is pinned, or its deletion was tried.
  pub data Cleared (h : History) (s : Secret) : Type 0 where
    nameless : (s.name == []) ≡ true → Cleared h s
    pinned : is_pinned cfg s ≡ true → Cleared h s
    tried : Tried cfg h s → Cleared h s

  Cleared-Persists : (s : Secret) → Persists (λ h. Cleared h s)
  Cleared-Persists s e h (nameless n) = nameless n
  Cleared-Persists s e h (pinned p) = pinned p
  Cleared-Persists s e h (tried t) = tried (Tried-Persists cfg s e h t)

  collect_secret-Cleared :
      (h : History) (s : Secret) (n : ℕ) (errs : Faults)
      → Runs
          (λ h' (r : ℕ × Faults). r.1 ≡ [] → (errs ≡ []) × Cleared h' s)
          h
          (collect_secret lib cfg false [] s n errs)
  unfolding collect_secret collect_orphan
  collect_secret-Cleared h s n errs =
      Safe-if (s.name == []) (λ e. done (λ z. (z, nameless e)))
        λ other.
          Safe-if (is_pinned cfg s) (λ e. done (λ z. (z, pinned e)))
            λ free. Safe-bind (delete_orphan_secret-Tried cfg h s) λ h' r k. done λ z.
              let (none_before, none_now) = append_empty errs r.1 z in
              (none_before, tried (k none_now))

  collect_secrets-Cleared :
      (h : History) (items : List Secret) (n : ℕ) (errs : Faults)
      → Runs
          (λ h' (r : ℕ × Faults). r.1 ≡ [] → (errs ≡ []) × All (Cleared h') items)
          h
          (collect_secrets lib cfg false [] items n errs)
  unfolding collect_secrets
  collect_secrets-Cleared h [] n errs = done (λ z. (z, tt))
  collect_secrets-Cleared h (s ∷ rest) n errs =
      Safe-bind (collect_secret-Cleared h s n errs) λ h' r k.
        Safe-weaken (λ h'' out q z. joined h'' (q.1 z) q.0)
          (Safe-frame (λ h''. r.1 ≡ [] → (errs ≡ []) × Cleared h'' s)
            (λ e h'' p z. ((p z).0, Cleared-Persists s e h'' (p z).1)) k
            (collect_secrets-Cleared h' rest r.0 r.1))
    where
      joined :
          {errs' : Faults} (h' : History)
          → (errs' ≡ []) × All (Cleared h') rest
          → (errs' ≡ [] → (errs ≡ []) × Cleared h' s)
          → (errs ≡ []) × All (Cleared h') (s ∷ rest)
      joined h' (z, all) k = ((k z).0, ((k z).1, all))

  module _ (ns_name : Bytes) where
    -- The Secrets that record the name were listed, and each is cleared.
    abbrev pub IsCleared : History → Type 0
    IsCleared h =
        (items : List Secret) × Saw
          (list_secrets cfg.target_namespace (source_selector cfg ns_name)) (some items) h
        × All (Cleared h) items

    pub collect_one-IsCleared :
        (h : History)
        → Runs
            (λ h' (r : ℕ × Faults). r.1 ≡ [] → IsCleared h')
            h
            (collect_one lib cfg ns_name false [])
    unfolding collect_one
    collect_one-IsCleared h =
        Safe-bind
          (Safe-perform h (list_secrets cfg.target_namespace (source_selector cfg ns_name)) tt)
          on_listing
      where
        on_listing :
            (h' : History) (answer : Option (List Secret))
            → Saw (list_secrets cfg.target_namespace (source_selector cfg ns_name)) answer h'
            → Runs {A = ℕ × Faults}
                (λ h'' r. r.1 ≡ [] → IsCleared h'')
                h'
                (elim answer [
                  | none ↦ ret (0, list_cluster_secrets ∷ [])
                  | some items ↦ collect_secrets lib cfg false [] items (length items) []
                ])
        on_listing h' none saw = done (λ z. cc)
        on_listing h' (some items) saw =
            Safe-weaken (λ h'' r k z. (items, k.0, (k.1 z).1))
              (Safe-frame
                (λ h''.
                  Saw (list_secrets cfg.target_namespace (source_selector cfg ns_name)) (some items)
                    h'')
                (λ e h'' k. earlier k) saw (collect_secrets-Cleared h' items (length items) []))
