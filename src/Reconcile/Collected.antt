-- ===== src/Reconcile/Collected.antt =====
-- The errors of a sweep are those of its keys, in their order, and of its audit.
use argocd_cluster_registrar.Common.{
  ◌≡◌, refl, sym, ap, ◌∙◌, Bool, false, List, [], ◌∷◌, ◌++◌, append_assoc, append-nil, Bytes,
}
use argocd_cluster_registrar.Api.Safe.{
  History, Follows, same, more, done, Persists, Runs, Safe-bind, Safe-if, Safe-frame, Safe-weaken,
}
use argocd_cluster_registrar.Libraries.{Libraries}
use argocd_cluster_registrar.Config.{Config}
use argocd_cluster_registrar.Registrar.{Faults}
use argocd_cluster_registrar.Audit.Series.{IsAudited, audit_unrouted-IsAudited}
use argocd_cluster_registrar.Reconcile.{no_faults, reconcile_all, reconcile}
use argocd_cluster_registrar.Reconcile.Branches.{Branch, reconcile_one-Branch}
use argocd_cluster_registrar.Reconcile.Visits.{
  KeysSeen, KeysSeen-Persists, ListFailed, reconcile_keys-KeysOr,
}

module _ (lib : Libraries) (cfg : Config) where
  -- The reconciliation of the key ended with this result, in one of its ways.
  abbrev pub KeyEnded : Bytes → Bool × Faults → History → Type 0
  KeyEnded k r h = (h' : History) × Follows h' h × Branch lib cfg k h' r

  KeyEnded-Persists : (k : Bytes) (r : Bool × Faults) → Persists (KeyEnded k r)
  KeyEnded-Persists k r e h (h', after, b) = (h', more after, b)

  -- Every key has ended, and the errors are those of the keys.
  abbrev pub Collected : List Bytes → Faults → History → Type 0
  Collected [] errs h = errs ≡ []
  Collected (k ∷ ks) errs h =
      (r : Bool × Faults) × (rest : Faults) × KeyEnded k r h
      × Collected ks rest h
      × (errs ≡ r.1 ++ rest)

  Collected-Persists : (ks : List Bytes) (errs : Faults) → Persists (Collected ks errs)
  Collected-Persists [] errs e h c = c
  Collected-Persists (k ∷ ks) errs e h (r, rest, ended, c, all) =
      (r, rest, KeyEnded-Persists k r e h ended, Collected-Persists ks rest e h c, all)

  reconcile_all-Collected :
      (h : History) (ks : List Bytes) (errs : Faults)
      → Runs
          (λ h' (out : Faults). (new : Faults) × Collected ks new h' × (out ≡ errs ++ new))
          h
          (reconcile_all lib cfg ks errs)
  unfolding reconcile_all
  reconcile_all-Collected h [] errs = done ([], refl, sym (append-nil errs))
  reconcile_all-Collected h (k ∷ ks) errs = Safe-bind (reconcile_one-Branch lib cfg k h) λ h' r b.
      Safe-weaken
        (λ h'' out (ended, (new, c, e)).
          (r.1 ++ new, (r, new, ended, c, refl), e ∙ append_assoc errs r.1 new))
        (Safe-frame (KeyEnded k r) (KeyEnded-Persists k r) (h', same, b)
          (reconcile_all-Collected h' ks (errs ++ r.1)))

  -- The sweep could not list its keys, or its errors are those of the keys and of the audit.
  pub data Reported (h : History) (errs : Faults) : Type 0 where
    unlisted : ListFailed lib cfg h → no_faults errs ≡ false → Reported h errs
    reported :
        (ks : List Bytes) (at_keys at_audit : Faults)
        → KeysSeen lib cfg ks h
        → Collected ks at_keys h
        → IsAudited lib cfg h at_audit
        → errs ≡ at_keys ++ at_audit
        → Reported h errs

  -- Whatever the API server answers, a full sweep ends either with a list that failed and an
  -- error, or with the errors of all its keys, in the order of the keys, and then those of the
  -- audit.
  pub reconcile-Reported : (h : History) → Runs Reported h (reconcile lib cfg)
  unfolding reconcile
  reconcile-Reported h = Safe-bind (reconcile_keys-KeysOr lib cfg h) λ h1 r k.
      Safe-if (no_faults r.1)
        (λ e.
          Safe-bind
            (Safe-frame (KeysSeen lib cfg r.0) (KeysSeen-Persists lib cfg r.0) (k.0 e)
              (reconcile_all-Collected h1 r.0 []))
            λ h2 errs (seen, (new, c, all)).
              Safe-bind
                (Safe-frame (λ h'. KeysSeen lib cfg r.0 h' × Collected r.0 new h')
                  (λ e' h' p.
                    (KeysSeen-Persists lib cfg r.0 e' h' p.0, Collected-Persists r.0 new e' h' p.1))
                  (seen, c) (audit_unrouted-IsAudited lib cfg h2))
                λ h3 audit p.
                  done (reported r.0 new audit p.0.0 p.0.1 p.1 (ap (λ errs'. errs' ++ audit) all)))
        (λ e. done (unlisted (k.1 e) e))
