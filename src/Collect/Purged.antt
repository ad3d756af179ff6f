-- ===== src/Collect/Purged.antt =====
-- `collectStaleUID` leaves nothing of a namespace that was replaced, if it ends without an error.
use argocd_cluster_registrar.Common.{
  ◌≡◌, true, false, not, ◌||◌, Option, none, some, List, [], ◌∷◌, append_empty, Bytes, ◌==◌,
  nonempty, All, All-imp, arith,
}
use argocd_cluster_registrar.Api.{list_secrets, ret}
use argocd_cluster_registrar.Api.Safe.{
  History, Saw, earlier, done, Persists, Runs, Safe-perform, Safe-bind, Safe-if, Safe-frame,
  Safe-weaken,
}
use argocd_cluster_registrar.Kube.{Secret}
use argocd_cluster_registrar.Config.{Config}
use argocd_cluster_registrar.Registrar.{
  Faults, list_cluster_secrets, is_pinned, source_uid_of, source_selector,
}
use argocd_cluster_registrar.Collect.{
  collect_stale_secret, collect_stale_secrets, collect_stale_uid,
}
use argocd_cluster_registrar.Collect.Tried.{Tried, Tried-Persists, delete_orphan_secret-Tried}

module _ (cfg : Config) (ns_name uid : Bytes) where
  -- What became of a listed Secret: it is of the namespace with this UID, or of none that is
  -- known, or pinned, or its deletion was asked for and not refused by an error.
  pub data Purged (h : History) (s : Secret) : Type 0 where
    kept : (not (nonempty (source_uid_of cfg s)) || source_uid_of cfg s == uid) ≡ true → Purged h s
    pinned : is_pinned cfg s ≡ true → Purged h s
    tried : Tried cfg h s → Purged h s

  Purged-Persists : (s : Secret) → Persists (λ h. Purged h s)
  Purged-Persists s e h (kept k) = kept k
  Purged-Persists s e h (pinned p) = pinned p
  Purged-Persists s e h (tried t) = tried (Tried-Persists cfg s e h t)

  -- A step that adds to the errors: without any, the Secret is purged.
  abbrev Purges : Faults → Secret → History → Faults → Type 0
  Purges errs s h errs' = errs' ≡ [] → (errs ≡ []) × Purged h s

  collect_stale_secret-Purges :
      (h : History) (s : Secret) (errs : Faults)
      → Runs (Purges errs s) h (collect_stale_secret cfg uid s errs)
  unfolding collect_stale_secret
  collect_stale_secret-Purges h s errs =
      Safe-if (not (nonempty (source_uid_of cfg s)) || source_uid_of cfg s == uid)
        (λ e. done (λ z. (z, kept e)))
        λ other.
          Safe-if (is_pinned cfg s) (λ e. done (λ z. (z, pinned e)))
            λ free. Safe-bind (delete_orphan_secret-Tried cfg h s) λ h' r k. done λ z.
              let (none_before, none_now) = append_empty errs r.1 z in
              (none_before, tried (k none_now))

  collect_stale_secrets-Purges :
      (h : History) (items : List Secret) (errs : Faults)
      → Runs
          (λ h' errs'. errs' ≡ [] → (errs ≡ []) × All (Purged h') items)
          h
          (collect_stale_secrets cfg uid items errs)
  unfolding collect_stale_secrets
  collect_stale_secrets-Purges h [] errs = done (λ z. (z, tt))
  collect_stale_secrets-Purges h (s ∷ rest) errs =
      Safe-bind (collect_stale_secret-Purges h s errs) λ h' errs' k.
        Safe-weaken (λ h'' out q z. joined h'' (q.1 z) q.0)
          (Safe-frame (λ h''. errs' ≡ [] → (errs ≡ []) × Purged h'' s)
            (λ e h'' p z. ((p z).0, Purged-Persists s e h'' (p z).1)) k
            (collect_stale_secrets-Purges h' rest errs'))
    where
      joined :
          {errs' : Faults} (h' : History)
          → (errs' ≡ []) × All (Purged h') rest
          → (errs' ≡ [] → (errs ≡ []) × Purged h' s)
          → (errs ≡ []) × All (Purged h') (s ∷ rest)
      joined h' (z, all) k = ((k z).0, ((k z).1, all))

  -- The Secrets were listed, and each is purged; or the namespace has no UID to compare with.
  pub data IsPurged (h : History) : Type 0 where
    unknown : nonempty uid ≡ false → IsPurged h
    purged :
        (items : List Secret)
        → Saw (list_secrets cfg.target_namespace (source_selector cfg ns_name)) (some items) h
        → All (Purged h) items
        → IsPurged h

  pub IsPurged-Persists : Persists IsPurged
  IsPurged-Persists e h (unknown u) = unknown u
  IsPurged-Persists e h (purged items saw all) =
      purged items (earlier saw) (All-imp (λ s p. Purged-Persists s e h p) items all)

  pub collect_stale_uid-IsPurged :
      (h : History)
      → Runs (λ h' errs. errs ≡ [] → IsPurged h') h (collect_stale_uid cfg ns_name uid)
  unfolding collect_stale_uid
  collect_stale_uid-IsPurged h =
      Safe-if (not (nonempty uid)) (λ e. done (λ z. unknown (ground arith)))
        λ e.
          Safe-bind
            (Safe-perform h (list_secrets cfg.target_namespace (source_selector cfg ns_name)) tt)
            on_listing
    where
      on_listing :
          (h' : History) (answer : Option (List Secret))
          → Saw (list_secrets cfg.target_namespace (source_selector cfg ns_name)) answer h'
          → Runs {A = Faults}
              (λ h'' errs. errs ≡ [] → IsPurged h'')
              h'
              (elim answer [
                | none ↦ ret (list_cluster_secrets ∷ [])
                | some items ↦ collect_stale_secrets cfg uid items []
              ])
      on_listing h' none saw = done (λ z. cc)
      on_listing h' (some items) saw =
          Safe-weaken (λ h'' errs k z. purged items k.0 (k.1 z).1)
            (Safe-frame
              (λ h''.
                Saw (list_secrets cfg.target_namespace (source_selector cfg ns_name)) (some items)
                  h'')
              (λ e' h'' k. earlier k) saw (collect_stale_secrets-Purges h' items []))
