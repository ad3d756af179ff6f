-- ===== src/Controller/Seeded.antt =====
-- What the seeder sends.
use argocd_cluster_registrar.Common.{
  ℕ, zero, suc, ◌≡◌, refl, ◌⊎◌, inl, inr, Bool, true, false, Option, none, some, List, [], ◌∷◌,
  ◌++◌, Bytes, if◌then◌else◌,
}
use argocd_cluster_registrar.Api.{ret}
use argocd_cluster_registrar.Api.Safe.{History, done, Runs, Safe-bind, Safe-frame, Safe-weaken}
use argocd_cluster_registrar.Libraries.{Libraries}
use argocd_cluster_registrar.Config.{Config}
use argocd_cluster_registrar.Reconcile.{no_faults}
use argocd_cluster_registrar.Reconcile.Visits.{
  KeysSeen, ListFailed, ListFailed-Persists, reconcile_keys-KeysOr,
}
use argocd_cluster_registrar.Controller.{audit_key}
use argocd_cluster_registrar.Controller.Seed.{poll_keys, seed}

module _ (lib : Libraries) (cfg : Config) where
  -- Nothing is sent, or the keys of one listing and then that of the audit.
  pub data IsSeeded (polls : ℕ) (h : History) (sent : List Bytes) : Type 0 where
    cancelled : (polls ≡ 0) ⊎ ListFailed lib cfg h → sent ≡ [] → IsSeeded polls h sent
    seeded :
        (ks : List Bytes)
        → KeysSeen lib cfg ks h
        → sent ≡ ks ++ audit_key ∷ []
        → IsSeeded polls h sent

  -- The answer of one poll.
  abbrev Polled : History → Option (List Bytes) → Type 0
  Polled h none = ListFailed lib cfg h
  Polled h (some ks) = KeysSeen lib cfg ks h

  poll_keys-Polled : (h : History) → Runs Polled h (poll_keys lib cfg)
  unfolding poll_keys
  poll_keys-Polled h =
      Safe-bind (reconcile_keys-KeysOr lib cfg h)
        λ h' r k. done (by_faults h' r.0 (no_faults r.1) k.0 k.1)
    where
      by_faults :
          (h' : History) (ks : List Bytes) (b : Bool)
          → (b ≡ true → KeysSeen lib cfg ks h')
          → (b ≡ false → ListFailed lib cfg h')
          → Polled h' (if b then some ks else none)
      by_faults h' ks true seen failed = seen refl
      by_faults h' ks false seen failed = failed refl

  -- The seeder sends nothing only where it is cancelled before its first poll or after a list
  -- that failed; else it sends the keys of one successful listing and then the key of the audit.
  seed-IsSeeded : (h : History) (polls : ℕ) → Runs (IsSeeded polls) h (seed lib cfg polls)
  unfolding seed
  seed-IsSeeded h zero = done (cancelled (inl refl) refl)
  seed-IsSeeded h (suc polls) =
      Safe-bind (poll_keys-Polled h) λ h' o k. on_poll h' o k (λ h''. seed-IsSeeded h'' polls)
    where
      once_failed :
          (h' : History) (sent : List Bytes)
          → ListFailed lib cfg h' × IsSeeded polls h' sent
          → IsSeeded (suc polls) h' sent
      once_failed h' sent (failed, cancelled why e) = cancelled (inr failed) e
      once_failed h' sent (failed, seeded ks k e) = seeded ks k e

      on_poll :
          (h' : History) (o : Option (List Bytes))
          → Polled h' o
          → ((h'' : History) → Runs (IsSeeded polls) h'' (seed lib cfg polls))
          → Runs {A = List Bytes}
              (IsSeeded (suc polls))
              h'
              (elim o [ none ↦ seed lib cfg polls | some ks ↦ ret (ks ++ audit_key ∷ []) ])
      on_poll h' none failed again =
          Safe-weaken once_failed
            (Safe-frame (ListFailed lib cfg) (ListFailed-Persists lib cfg) failed (again h'))
      on_poll h' (some ks) k again = done (seeded ks k refl)
