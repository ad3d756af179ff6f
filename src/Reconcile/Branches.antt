-- ===== src/Reconcile/Branches.antt =====
-- Every way that the reconciliation of a key ends, with what stands behind it.
use argocd_cluster_registrar.Common.{
  ℕ, ◌≡◌, refl, sym, subst, Bool, true, false, not, Option, none, some, List, [], ◌∷◌, Bytes, get,
  ◌==◌, arith,
}
use argocd_cluster_registrar.Api.{
  Reason, Found, found, not_found, failed, get_namespace, list_secrets, count_conflict, ret, ◌>>=◌,
}
use argocd_cluster_registrar.Api.Safe.{
  History, Saw, earlier, done, Persists, Runs, Safe-perform, Safe-bind, Safe-if, Safe-frame,
  Safe-weaken, Safe-both, Safe-weaken_calls,
}
use argocd_cluster_registrar.Kube.{Namespace, Secret}
use argocd_cluster_registrar.Labels
use argocd_cluster_registrar.Libraries.{Libraries}
use argocd_cluster_registrar.Config.{Config}
use argocd_cluster_registrar.Registrar.{
  source_selector, Child, Fault, Faults, Verdict, allowed, conflict, broken, confirm_namespace,
  secret_name,
}
use argocd_cluster_registrar.Apply.Outcomes.{Refused, Failed, Registered, Explained}
use argocd_cluster_registrar.Apply.Lasting.{Refused-Persists, Registered-Persists}
use argocd_cluster_registrar.Apply.Verdicts.{apply-Explained}
use argocd_cluster_registrar.Collect.{collect_one}
use argocd_cluster_registrar.Collect.Gone.{AllGone}
use argocd_cluster_registrar.Collect.Cleared.{IsCleared, collect_one-IsCleared}
use argocd_cluster_registrar.Collect.Purged.{
  IsPurged, IsPurged-Persists, collect_stale_uid-IsPurged,
}
use argocd_cluster_registrar.Collect.Idle.{list_errors, collect_one-Idle}
use argocd_cluster_registrar.Collect.Tidy.{IsTidy, collect_one-IsTidy}
use argocd_cluster_registrar.Discover.Found.{
  IsDiscovered, Undiscovered, DiscoveredOr, discover_one-IsDiscovered,
}
use argocd_cluster_registrar.Reconcile.{
  no_faults, reconcile_gone, settle, register_child, reconcile_live, reconcile_found, reconcile_one,
}
use argocd_cluster_registrar.Reconcile.Finished.{no_faults-eq, reconcile_gone-Finished}
use argocd_cluster_registrar.Reconcile.Sourced.{Known, Known-Persists, IsDiscovered-Persists}

module _ (lib : Libraries) (cfg : Config) (ns_name : Bytes) where
  -- The namespace was read under the key and has this registrar's label, or not.
  abbrev is_owned : Namespace → Bool
  is_owned ns = get ns.labels (Labels.managed_by_label cfg.label_prefix) == cfg.managed_by_value

  -- What follows the discovery of a child, by the verdict on it.
  pub data Registration (h : History) (c : Child) : Faults → Type 0 where
    refused :
        (reason : Reason)
        → Refused cfg c h reason
        → Saw (count_conflict reason) tt h
        → Registration h c []
    failing : (f : Fault) → Failed cfg c h f → Registration h c (f ∷ [])
    registered :
        (errs : Faults)
        → Registered cfg c h
        → (errs ≡ [] → IsTidy lib cfg (secret_name c.cluster) ns_name h)
        → Registration h c errs

  -- The ways to end: whether the key is done, and the errors.
  pub data Branch (h : History) : Bool × Faults → Type 0 where
    unread : Saw (get_namespace ns_name) failed h → Branch h (false, confirm_namespace ∷ [])
    gone :
        (r : Bool × Faults)
        → Saw (get_namespace ns_name) not_found h
        → (r.0 ≡ true → AllGone lib cfg ns_name h × (r.1 ≡ []))
        → (r.1 ≡ [] → IsCleared lib cfg ns_name h)
        → Branch h r
    not_ours :
        (ns : Namespace)
        → Saw (get_namespace ns_name) (found ns) h
        → is_owned ns ≡ false
        → Branch h (false, [])
    dying :
        (ns : Namespace) (at : ℕ) (answer : Option (List Secret))
        → Saw (get_namespace ns_name) (found ns) h
        → is_owned ns ≡ true
        → ns.deletion_timestamp ≡ some at
        → Saw (list_secrets cfg.target_namespace (source_selector cfg ns_name)) answer h
        → Branch h (false, list_errors lib cfg answer)
    unpurged :
        (ns : Namespace) (errs : Faults)
        → Known lib cfg ns_name ns h
        → no_faults errs ≡ false
        → Branch h (false, errs)
    unfound :
        (ns : Namespace)
        → Known lib cfg ns_name ns h
        → IsPurged cfg ns_name ns.uid h
        → Undiscovered lib cfg ns h
        → Branch h (false, [])
    applied :
        (ns : Namespace) (c : Child) (errs : Faults)
        → Known lib cfg ns_name ns h
        → IsPurged cfg ns_name ns.uid h
        → IsDiscovered lib cfg ns h c
        → Registration h c errs
        → Branch h (false, errs)

  -- What is known of the namespace when a child is applied.
  abbrev PurgedAndFound : Namespace → Child → History → Type 0
  PurgedAndFound ns c h =
      Known lib cfg ns_name ns h × IsPurged cfg ns_name ns.uid h × IsDiscovered lib cfg ns h c

  PurgedAndFound-Persists : (ns : Namespace) (c : Child) → Persists (PurgedAndFound ns c)
  PurgedAndFound-Persists ns c e h (k, p, d) = (
    Known-Persists lib cfg ns_name ns e h k,
    IsPurged-Persists cfg ns_name ns.uid e h p,
    IsDiscovered-Persists lib cfg ns c e h d,
  )

  settle-Registration :
      (h : History) (c : Child) (v : Verdict)
      → Explained cfg c h v
      → Runs
          (λ h' (r : Bool × Faults). (r.0 ≡ false) × Registration h' c r.1)
          h
          (settle lib cfg ns_name c v)
  unfolding settle secret_name
  settle-Registration h c allowed r =
      Safe-bind
        (Safe-frame (Registered cfg c) (Registered-Persists cfg c) r
          (collect_one-IsTidy lib cfg (secret_name c.cluster) refl ns_name h))
        λ h' out k. done (refl, registered out.1 k.0 k.1)
  settle-Registration h c (conflict reason) r =
      Safe-bind
        (Safe-frame (λ h'. Refused cfg c h' reason) (Refused-Persists cfg c reason) r
          (Safe-perform h (count_conflict reason) tt))
        λ h' u k. done (refl, refused reason k.0 k.1)
  settle-Registration h c (broken f) r = done (refl, failing f r)

  register_child-Branch :
      (h : History) (ns : Namespace) (o : Option Child)
      → Known lib cfg ns_name ns h
      → IsPurged cfg ns_name ns.uid h
      → DiscoveredOr lib cfg ns h o
      → Runs Branch h (register_child lib cfg ns_name o)
  unfolding register_child
  register_child-Branch h ns none k p d = done (unfound ns k p d)
  register_child-Branch h ns (some c) k p d =
      Safe-weaken (λ h' r q. branch h' r q.0 q.1)
        (Safe-frame (PurgedAndFound ns c) (PurgedAndFound-Persists ns c) (k, p, d)
          (Safe-bind (apply-Explained cfg c h) (λ h' v e. settle-Registration h' c v e)))
    where
      branch :
          (h' : History) (r : Bool × Faults)
          → PurgedAndFound ns c h'
          → (r.0 ≡ false) × Registration h' c r.1
          → Branch h' r
      branch h' r (k', p', d') (e, g) =
          subst (λ b. Branch h' (b, r.1)) (sym e) (applied ns c r.1 k' p' d' g)

  reconcile_live-Branch :
      (h : History) (ns : Namespace)
      → Known lib cfg ns_name ns h
      → Runs Branch h (reconcile_live lib cfg ns_name ns)
  unfolding reconcile_live
  reconcile_live-Branch h ns k =
      Safe-bind
        (Safe-frame (Known lib cfg ns_name ns) (Known-Persists lib cfg ns_name ns) k
          (collect_stale_uid-IsPurged cfg ns_name ns.uid h))
        λ h' errs q.
          Safe-if (no_faults errs)
            (λ e.
              Safe-bind
                (Safe-frame (λ h''. Known lib cfg ns_name ns h'' × IsPurged cfg ns_name ns.uid h'')
                  (λ e' h'' p. (
                    Known-Persists lib cfg ns_name ns e' h'' p.0,
                    IsPurged-Persists cfg ns_name ns.uid e' h'' p.1,
                  ))
                  (q.0, q.1 (no_faults-eq lib cfg ns_name errs e))
                  (discover_one-IsDiscovered lib cfg ns h'))
                (λ h'' o p. register_child-Branch h'' ns o p.0.0 p.0.1 p.1))
            (λ e. done (unpurged ns errs q.0 e))

  reconcile_found-Branch :
      (h : History) (ns : Namespace)
      → Saw (get_namespace ns_name) (found ns) h
      → Runs Branch h (reconcile_found lib cfg ns_name ns)
  unfolding reconcile_found
  reconcile_found-Branch h ns saw =
      Safe-if (not (is_owned ns)) (λ e. done (not_ours ns saw (ground arith)))
        (λ e. by_state ns.deletion_timestamp refl (ground arith))
    where
      by_state :
          (o : Option ℕ)
          → ns.deletion_timestamp ≡ o
          → is_owned ns ≡ true
          → Runs {A = Bool × Faults} Branch h (elim o [
            | some t ↦ (collect_one lib cfg ns_name true [] >>= λ r. ret (false, r.1))
            | none ↦ reconcile_live lib cfg ns_name ns
          ])
      by_state none live owned = reconcile_live-Branch h ns (saw, owned, live)
      by_state (some t) dies owned =
          Safe-bind
            (Safe-frame (Saw (get_namespace ns_name) (found ns)) (λ e h' s. earlier s) saw
              (collect_one-Idle lib cfg ns_name h))
            λ h' r k. done (
              subst (λ errs. Branch h' (false, errs)) (sym k.1.2)
                (dying ns t k.1.0 k.0 owned dies k.1.1))

  reconcile_gone-IsCleared :
      (h : History)
      → Runs
          (λ h' (r : Bool × Faults). r.1 ≡ [] → IsCleared lib cfg ns_name h')
          h
          (reconcile_gone lib cfg ns_name)
  unfolding reconcile_gone
  reconcile_gone-IsCleared h =
      Safe-bind (collect_one-IsCleared lib cfg ns_name h) (λ h' r k. done k)

  -- Whatever the API server answers, the reconciliation of a key ends in one of these ways. The
  -- read of the namespace failed, and that is the error. It was not found, the key is done only
  -- if all that was listed is gone and there is no error, and if there is no error, each Secret
  -- that was listed has no name or is pinned, or its deletion was asked for and did not fail,
  -- unless the run is dry. It does not carry this registrar's label, and there is no error. It is
  -- being deleted, and only the list can fail. The collection of what an earlier namespace of the
  -- name left has an error. Or each Secret that was listed for that is of this namespace or of
  -- none that is known, is pinned, or its deletion was asked for and did not fail, unless the run
  -- is dry or the namespace has no UID; and then no child was found, for a reason that holds of
  -- the namespace and of the Secrets that were listed in it, or the child was refused for a
  -- reason that holds and was counted, or a call of apply failed and is the error, or the child
  -- is registered, and if there is no error, each Secret that was then listed is the child's,
  -- pinned, or hidden, unless the run is dry.
  pub reconcile_one-Branch : (h : History) → Runs Branch h (reconcile_one lib cfg ns_name)
  unfolding reconcile_one
  reconcile_one-Branch h0 = Safe-bind (Safe-perform h0 (get_namespace ns_name) tt) on_answer
    where
      on_answer :
          (h : History) (answer : Found Namespace)
          → Saw (get_namespace ns_name) answer h
          → Runs {A = Bool × Faults} Branch h (elim answer [
            | not_found ↦ reconcile_gone lib cfg ns_name
            | failed ↦ ret (false, confirm_namespace ∷ [])
            | found ns ↦ reconcile_found lib cfg ns_name ns
          ])
      on_answer h (found ns) saw = reconcile_found-Branch h ns saw
      on_answer h not_found saw =
          Safe-weaken (λ h' r k. gone r k.0 (λ t. ((k.1.0 t).1, (k.1.0 t).2)) k.1.1)
            (Safe-frame (Saw (get_namespace ns_name) not_found) (λ e h' s. earlier s) saw
              (Safe-weaken_calls (λ h' o p. tt)
                (Safe-both (reconcile_gone-Finished lib cfg ns_name h saw)
                  (reconcile_gone-IsCleared h))))
      on_answer h failed saw = done (unread saw)
