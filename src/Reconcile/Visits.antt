-- ===== src/Reconcile/Visits.antt =====
-- A sweep goes to every key, whatever happens at the others.
use argocd_cluster_registrar.Common.{
  ◌≡◌, refl, ◌⊎◌, inl, inr, true, false, Option, none, some, List, [], ◌∷◌, ◌++◌, Bytes, All,
}
use argocd_cluster_registrar.Api.{get_namespace, list_namespaces, list_secrets, ret, ◌>>=◌, perform}
use argocd_cluster_registrar.Api.Safe.{
  History, Saw, earlier, done, Persists, Runs, Made, Made-Persists, perform-Made, Safe-perform,
  Safe-bind, Safe-if, Safe-frame,
}
use argocd_cluster_registrar.Kube.{Namespace, Secret}
use argocd_cluster_registrar.Libraries.{Libraries}
use argocd_cluster_registrar.Config.{Config}
use argocd_cluster_registrar.Registrar
use argocd_cluster_registrar.Registrar.{Faults, list_cluster_secrets, owned_selector}
use argocd_cluster_registrar.Audit.Series.{IsAudited, audit_unrouted-IsAudited}
use argocd_cluster_registrar.Reconcile.{
  no_faults, keys_of, reconcile_keys, reconcile_one, reconcile_all, reconcile,
}

module _ (lib : Libraries) (cfg : Config) where
  -- Both lists came, and these are their keys.
  abbrev pub KeysSeen : List Bytes → History → Type 0
  KeysSeen ks h =
      (namespaces : List Namespace) × (secrets : List Secret) × Saw
        (list_namespaces (owned_selector cfg)) (some namespaces) h
      × Saw (list_secrets cfg.target_namespace (owned_selector cfg)) (some secrets) h
      × (ks ≡ keys_of lib cfg namespaces secrets)

  pub KeysSeen-Persists : (ks : List Bytes) → Persists (KeysSeen ks)
  KeysSeen-Persists ks e h (ns, ss, a, b, same) = (ns, ss, earlier a, earlier b, same)

  -- The namespace of the key was read.
  abbrev pub Visited : Bytes → History → Type 0
  Visited k h = Made (get_namespace k) h

  abbrev pub AllVisited : List Bytes → History → Type 0
  AllVisited ks h = All (λ k. Visited k h) ks

  AllVisited-Persists : (ks : List Bytes) → Persists (AllVisited ks)
  AllVisited-Persists [] e h v = tt
  AllVisited-Persists (k ∷ ks) e h (v, vs) =
      (Made-Persists (get_namespace k) e h v, AllVisited-Persists ks e h vs)

  -- One of the two lists failed.
  abbrev pub ListFailed : History → Type 0
  ListFailed h =
      Saw (list_namespaces (owned_selector cfg)) none h
      ⊎ Saw (list_secrets cfg.target_namespace (owned_selector cfg)) none h

  pub ListFailed-Persists : Persists ListFailed
  ListFailed-Persists e h (inl a) = inl (earlier a)
  ListFailed-Persists e h (inr a) = inr (earlier a)

  -- The keys, or the fault of a list that failed.
  abbrev pub KeysOr : History → List Bytes × Faults → Type 0
  KeysOr h r = (no_faults r.1 ≡ true → KeysSeen r.0 h) × (no_faults r.1 ≡ false → ListFailed h)

  pub reconcile_keys-KeysOr : (h : History) → Runs KeysOr h (reconcile_keys lib cfg)
  unfolding reconcile_keys no_faults
  reconcile_keys-KeysOr h =
      Safe-bind (Safe-perform h (list_namespaces (owned_selector cfg)) tt) on_namespaces
    where
      on_secrets :
          (namespaces : List Namespace) (h' : History) (answer : Option (List Secret))
          → Saw (list_namespaces (owned_selector cfg)) (some namespaces) h'
            × Saw (list_secrets cfg.target_namespace (owned_selector cfg)) answer h'
          → Runs {A = List Bytes × Faults} KeysOr h' (elim answer [
            | none ↦ ret ([], list_cluster_secrets ∷ [])
            | some secrets ↦ ret (keys_of lib cfg namespaces secrets, [])
          ])
      on_secrets namespaces h' none (a, b) = done (λ e. cc, λ e. inr b)
      on_secrets namespaces h' (some secrets) (a, b) =
          done (λ e. (namespaces, secrets, a, b, refl), λ e. cc)

      on_namespaces :
          (h' : History) (answer : Option (List Namespace))
          → Saw (list_namespaces (owned_selector cfg)) answer h'
          → Runs {A = List Bytes × Faults} KeysOr h' (elim answer [
            | none ↦ ret ([], Registrar.list_namespaces ∷ [])
            | some namespaces ↦
                perform (list_secrets cfg.target_namespace (owned_selector cfg)) >>= λ listed.
                elim listed [
                  | none ↦ ret ([], list_cluster_secrets ∷ [])
                  | some secrets ↦ ret (keys_of lib cfg namespaces secrets, [])
                ]
          ])
      on_namespaces h' none saw = done (λ e. cc, λ e. inl saw)
      on_namespaces h' (some namespaces) saw =
          Safe-bind
            (Safe-frame (Saw (list_namespaces (owned_selector cfg)) (some namespaces))
              (λ e h'' k. earlier k) saw
              (Safe-perform h' (list_secrets cfg.target_namespace (owned_selector cfg)) tt))
            (on_secrets namespaces)

  reconcile_one-Visited :
      (h : History) (k : Bytes) → Runs (λ h' r. Visited k h') h (reconcile_one lib cfg k)
  unfolding reconcile_one
  reconcile_one-Visited h k = perform-Made h (get_namespace k) _

  reconcile_all-AllVisited :
      (h : History) (ks : List Bytes) (errs : Faults)
      → Runs (λ h' e. AllVisited ks h') h (reconcile_all lib cfg ks errs)
  unfolding reconcile_all
  reconcile_all-AllVisited h [] errs = done tt
  reconcile_all-AllVisited h (k ∷ ks) errs = Safe-bind (reconcile_one-Visited h k) λ h' r v.
      Safe-frame (Visited k) (Made-Persists (get_namespace k)) v
        (reconcile_all-AllVisited h' ks (errs ++ r.1))

  -- What stands behind a sweep that ends without an error of the two lists.
  pub record IsSwept (ks : List Bytes) (h : History) : Type 0 where
    pub keys : KeysSeen ks h
    pub visited : AllVisited ks h
    pub audited : (errs : Faults) × IsAudited lib cfg h errs

  -- The sweep could not list its keys, or it went to all of them.
  pub data Ends (h : History) (errs : Faults) : Type 0 where
    unlisted : ListFailed h → no_faults errs ≡ false → Ends h errs
    swept : (ks : List Bytes) → IsSwept ks h → Ends h errs

  sweep-Ends : (h : History) → Runs Ends h (reconcile lib cfg)
  unfolding reconcile
  sweep-Ends h = Safe-bind (reconcile_keys-KeysOr h) λ h r k.
      Safe-if (no_faults r.1)
        (λ e.
          Safe-bind
            (Safe-frame (KeysSeen r.0) (KeysSeen-Persists r.0) (k.0 e)
              (reconcile_all-AllVisited h r.0 []))
            λ h' errs k'.
              Safe-bind
                (Safe-frame (λ h''. KeysSeen r.0 h'' × AllVisited r.0 h'')
                  (λ e' h'' p.
                    (KeysSeen-Persists r.0 e' h'' p.0, AllVisited-Persists r.0 e' h'' p.1))
                  k' (audit_unrouted-IsAudited lib cfg h'))
                λ h'' audit k''. done (
                  swept r.0
                    (record { keys = k''.0.0; visited = k''.0.1; audited = (audit, k''.1) })))
        (λ e. done (unlisted (k.1 e) e))

  -- Whatever the API server answers, a full sweep ends either with a list that failed and an
  -- error, or with the keys of the namespaces and Secrets that were listed, each of which was
  -- visited, that is, its namespace was read, and with the audit done, whatever failed at the
  -- keys before.
  pub reconcile-Ends : Runs Ends [] (reconcile lib cfg)
  reconcile-Ends = sweep-Ends []
