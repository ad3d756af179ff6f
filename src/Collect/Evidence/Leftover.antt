-- ===== src/Collect/Evidence/Leftover.antt =====
-- `collectOne` deletes only what a namespace that is gone left, or what has outlived the TTL.
use argocd_cluster_registrar.Common.{
  ℕ, ◌≡◌, refl, Bool, true, false, not, Option, none, some, List, [], ◌∷◌, ◌++◌, Bytes, ◌==◌,
  nonempty, here, ltb_ℤ, pos, arith, length, if◌then◌else◌,
}
use argocd_cluster_registrar.Api.{
  update_secret, delete_secret, list_secrets, now, ret, ◌>>=◌, perform,
}
use argocd_cluster_registrar.Api.Calls.{returns, Calls-perform, Calls-bind, Calls-if}
use argocd_cluster_registrar.Api.Safe.{
  History, Saw, Safe, done, Safe-perform, Safe-bind, Safe-if, Safe-frame,
}
use argocd_cluster_registrar.Kube.{Secret}
use argocd_cluster_registrar.Libraries.{Libraries}
use argocd_cluster_registrar.Config.{Config}
use argocd_cluster_registrar.Registrar.{
  list_cluster_secrets, Faults, is_demoted, is_pinned, stale_since_of, source_selector,
}
use argocd_cluster_registrar.Apply.{demote_secret}
use argocd_cluster_registrar.Collect.{
  uid_and_version, delete_expired_secret, collect_orphan, outlived, demoted_ttl_expired,
  collect_demoted, collect_secret, collect_secrets, collect_one,
}
use argocd_cluster_registrar.Collect.Evidence.{
  Evidence, Justified, Known, Listed, Listed-Persists, Outlived, Read, Read-Persists, Rests,
  Rests-Calls, delete_orphan_secret-Rests, round, gone, expired,
}

module _ (lib : Libraries) (cfg : Config) (ns_name : Bytes) where
  collect_orphan-Rests :
      (h : History) (s : Secret) (n : ℕ) (errs : Faults)
      → Listed lib cfg ns_name s h
      → is_pinned cfg s ≡ false
      → Read lib cfg ns_name false h
      → Rests lib cfg ns_name h (collect_orphan cfg s n errs)
  unfolding collect_orphan
  collect_orphan-Rests h s n errs l u r =
      Safe-bind (delete_orphan_secret-Rests lib cfg ns_name h s l u (λ p. gone r))
        (λ h' a q. done tt)

  -- The TTL test answers yes only by the clock.
  demoted_ttl_expired-Outlived :
      (h : History) (s : Secret)
      → Safe
          (Justified lib cfg ns_name)
          (λ h' over.
            over ≡ true → (ltb_ℤ (pos 0) cfg.demoted_ttl ≡ true) × Outlived lib cfg ns_name s h')
          h
          (demoted_ttl_expired lib cfg s)
  unfolding demoted_ttl_expired outlived
  demoted_ttl_expired-Outlived h s =
      Safe-if (not (ltb_ℤ (pos 0) cfg.demoted_ttl)) (λ e. done (λ o. cc))
        λ on.
          Safe-if (not (nonempty (stale_since_of cfg s))) (λ e. done (λ o. cc))
            (λ e. by_stamp (ground arith) (lib.parse_stale_since (stale_since_of cfg s)) refl)
    where
      by_stamp :
          ltb_ℤ (pos 0) cfg.demoted_ttl ≡ true
          → (stamp : Option ℕ) → lib.parse_stale_since (stale_since_of cfg s) ≡ stamp
          → Safe
              (Justified lib cfg ns_name)
              {A = Bool}
              (λ h' over.
                over ≡ true
                → (ltb_ℤ (pos 0) cfg.demoted_ttl ≡ true) × Outlived lib cfg ns_name s h')
              h
              (elim stamp [
                | none ↦ ret false
                | some since ↦ perform now >>= λ at. ret (outlived lib cfg at since)
              ])
      by_stamp on none e = done (λ o. cc)
      by_stamp on (some since) e =
          Safe-bind (Safe-perform h now tt)
            (λ h' at saw. done (λ over. (on, (at, since, saw, e, over))))

  delete_expired_secret-Rests :
      (h : History) (s : Secret)
      → Listed lib cfg ns_name s h
      → is_pinned cfg s ≡ false
      → Evidence lib cfg ns_name h s (uid_and_version s)
      → Rests lib cfg ns_name h (delete_expired_secret cfg s)
  unfolding delete_expired_secret
  delete_expired_secret-Rests h s l u ev =
      Safe-if cfg.dry_run (λ e. done tt)
        λ e.
          Safe-bind
            (Safe-perform h (delete_secret cfg.target_namespace s.name (uid_and_version s))
              (s, refl, refl, refl, l, u, ev))
            (λ h' r q. done tt)

  collect_demoted-Rests :
      (h : History) (s : Secret) (n : ℕ) (errs : Faults)
      → Listed lib cfg ns_name s h
      → is_pinned cfg s ≡ false
      → is_demoted cfg s ≡ true
      → Read lib cfg ns_name true h
      → Rests lib cfg ns_name h (collect_demoted lib cfg s n errs)
  unfolding collect_demoted
  collect_demoted-Rests h s n errs l u d r =
      Safe-bind
        (Safe-frame (λ h'. Listed lib cfg ns_name s h' × Read lib cfg ns_name true h')
          (λ e h' k. (
            Listed-Persists lib cfg ns_name s e h' k.0,
            Read-Persists lib cfg ns_name true e h' k.1,
          ))
          (l, r) (demoted_ttl_expired-Outlived h s))
        λ h' over k.
          Safe-if over
            (λ o.
              Safe-bind
                (delete_expired_secret-Rests h' s k.0.0 u
                  (expired k.0.1.0 k.0.1.1 d (k.1 o).0 (k.1 o).1 refl))
                (λ h'' a q. done tt))
            (λ e. done tt)

  demote_secret-Rests :
      (h : History) (s : Secret) (by : Bytes) → Rests lib cfg ns_name h (demote_secret lib cfg s by)
  unfolding demote_secret
  demote_secret-Rests h s by = Rests-Calls lib cfg ns_name h (
      Calls-if cfg.dry_run (λ e. returns [])
        λ e. Calls-bind (Calls-perform now tt) λ at.
          Calls-bind (Calls-perform (update_secret cfg.target_namespace _) tt) (λ b. returns _))

  collect_secret-Rests :
      (h : History) (exists : Bool) (applied : Bytes) (s : Secret) (n : ℕ) (errs : Faults)
      → Listed lib cfg ns_name s h
      → Read lib cfg ns_name exists h
      → Rests lib cfg ns_name h (collect_secret lib cfg exists applied s n errs)
  unfolding collect_secret
  collect_secret-Rests h exists applied s n errs l r =
      Safe-if (s.name == applied) (λ e. done tt)
        λ e. Safe-if (is_pinned cfg s) (λ e'. done tt) λ u. by_existence exists r u
    where
      by_existence :
          (b : Bool)
          → Read lib cfg ns_name b h
          → is_pinned cfg s ≡ false
          → Rests lib cfg ns_name h (
              if not b
              then collect_orphan cfg s n errs
              else if not (nonempty applied)
              then ret (n, errs)
              else if is_demoted cfg s
              then collect_demoted lib cfg s n errs
              else (demote_secret lib cfg s applied >>= λ failure. ret (n, errs ++ failure)))
      by_existence false r' u = collect_orphan-Rests h s n errs l u r'
      by_existence true r' u =
          Safe-if (not (nonempty applied)) (λ e. done tt)
            λ e.
              Safe-if (is_demoted cfg s) (λ d. collect_demoted-Rests h s n errs l u d r')
                λ d. Safe-bind (demote_secret-Rests h s applied) (λ h' f q. done tt)

  collect_secrets-Rests :
      (h : History) (exists : Bool) (applied : Bytes) (items : List Secret) (n : ℕ) (errs : Faults)
      → Known lib cfg ns_name items (Read lib cfg ns_name exists) h
      → Rests lib cfg ns_name h (collect_secrets lib cfg exists applied items n errs)
  unfolding collect_secrets
  collect_secrets-Rests h exists applied [] n errs k = done tt
  collect_secrets-Rests h exists applied (s ∷ rest) n errs k =
      round lib cfg ns_name h s rest (Read lib cfg ns_name exists)
        (Read-Persists lib cfg ns_name exists) k
        (collect_secret-Rests h exists applied s n errs (k.0 s here) k.1)
        λ h' a k'. collect_secrets-Rests h' exists applied rest a.0 a.1 k'

  pub collect_one-Rests :
      (h : History) (exists : Bool) (applied : Bytes)
      → Read lib cfg ns_name exists h
      → Rests lib cfg ns_name h (collect_one lib cfg ns_name exists applied)
  unfolding collect_one
  collect_one-Rests h exists applied r =
      Safe-bind
        (Safe-frame (Read lib cfg ns_name exists) (Read-Persists lib cfg ns_name exists) r
          (Safe-perform h (list_secrets cfg.target_namespace (source_selector cfg ns_name)) tt))
        λ h' answer q. on_listing h' answer q.1 q.0
    where
      on_listing :
          (h' : History) (answer : Option (List Secret))
          → Saw (list_secrets cfg.target_namespace (source_selector cfg ns_name)) answer h'
          → Read lib cfg ns_name exists h'
          → Rests lib cfg ns_name {A = ℕ × Faults} h' (elim answer [
            | none ↦ ret (0, list_cluster_secrets ∷ [])
            | some items ↦ collect_secrets lib cfg exists applied items (length items) []
          ])
      on_listing h' none l g = done tt
      on_listing h' (some items) l g =
          collect_secrets-Rests h' exists applied items _ [] ((λ s i. (items, l, i)), g)
