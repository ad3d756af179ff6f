-- ===== src/Reconcile/Finished.antt =====
-- When a key is reported as done.
use argocd_cluster_registrar.Common.{
  ◌≡◌, refl, Bool, true, false, not, Option, none, some, [], ◌∷◌, Bytes, ◌==◌, get, arith,
}
use argocd_cluster_registrar.Api.{Found, found, not_found, failed, get_namespace, Prog, ret, ◌>>=◌}
use argocd_cluster_registrar.Api.Safe.{
  Runs, whatever, History, Saw, earlier, done, Safe-perform, Safe-bind, Safe-if, Safe-frame,
}
use argocd_cluster_registrar.Kube.{Namespace}
use argocd_cluster_registrar.Labels
use argocd_cluster_registrar.Libraries.{Libraries}
use argocd_cluster_registrar.Config.{Config}
use argocd_cluster_registrar.Registrar.{
  Child, Faults, Verdict, allowed, conflict, broken, confirm_namespace,
}
use argocd_cluster_registrar.Discover.{discover_one}
use argocd_cluster_registrar.Collect.{collect_one, collect_stale_uid}
use argocd_cluster_registrar.Reconcile.{
  no_faults, settle, register_child, reconcile_gone, reconcile_live, reconcile_found, reconcile_one,
}
use argocd_cluster_registrar.Collect.Gone.{AllGone, collect_one-AllGone}

module _ (lib : Libraries) (cfg : Config) (ns_name : Bytes) where
  -- What stands behind a key that is reported as done.
  abbrev pub Finished : History → Bool × Faults → Type 0
  Finished h r =
      r.0 ≡ true → Saw (get_namespace ns_name) not_found h × AllGone lib cfg ns_name h × (r.1 ≡ [])

  pub no_faults-eq : (fs : Faults) → no_faults fs ≡ true → fs ≡ []
  unfolding no_faults
  no_faults-eq [] e = refl
  no_faults-eq (f ∷ fs) e = cc

  pub reconcile_gone-Finished :
      (h : History)
      → Saw (get_namespace ns_name) not_found h
      → Runs Finished h (reconcile_gone lib cfg ns_name)
  unfolding reconcile_gone
  reconcile_gone-Finished h saw =
      Safe-bind
        (Safe-frame (Saw (get_namespace ns_name) not_found) (λ e h' k. earlier k) saw
          (collect_one-AllGone lib cfg ns_name h))
        λ h' r k. done λ t.
          let clean = no_faults-eq r.1 (ground (arith, t)) in
          (k.0, k.1 (ground (arith, t)) clean, clean)

  -- A program that never reports done.
  abbrev Unfinished : History → Prog (Bool × Faults) → Type 0
  Unfinished h m = Runs Finished h m

  settle-Unfinished :
      (h : History) (c : Child) (v : Verdict) → Unfinished h (settle lib cfg ns_name c v)
  unfolding settle
  settle-Unfinished h c allowed = Safe-bind (whatever h _) (λ h' r k. done (λ t. cc))
  settle-Unfinished h c (conflict reason) = Safe-bind (whatever h _) (λ h' r k. done (λ t. cc))
  settle-Unfinished h c (broken f) = done (λ t. cc)

  register_child-Unfinished :
      (h : History) (o : Option Child) → Unfinished h (register_child lib cfg ns_name o)
  unfolding register_child
  register_child-Unfinished h none = done (λ t. cc)
  register_child-Unfinished h (some c) =
      Safe-bind (whatever h _) (λ h' v k. settle-Unfinished h' c v)

  reconcile_live-Unfinished :
      (h : History) (ns : Namespace) → Unfinished h (reconcile_live lib cfg ns_name ns)
  unfolding reconcile_live
  reconcile_live-Unfinished h ns =
      Safe-bind (whatever h (collect_stale_uid cfg ns_name ns.uid)) λ h' errs k.
        Safe-if (no_faults errs)
          (λ e.
            Safe-bind (whatever h' (discover_one lib cfg ns))
              (λ h'' o k'. register_child-Unfinished h'' o))
          (λ e. done (λ t. cc))

  reconcile_found-Unfinished :
      (h : History) (ns : Namespace) → Unfinished h (reconcile_found lib cfg ns_name ns)
  unfolding reconcile_found
  reconcile_found-Unfinished h ns =
      Safe-if
        (not (get ns.labels (Labels.managed_by_label cfg.label_prefix) == cfg.managed_by_value))
        (λ e. done (λ t. cc)) (λ e. by_state ns.deletion_timestamp)
    where
      by_state :
          {T : Type 0} (o : Option T)
          → Runs {A = Bool × Faults} Finished h (elim o [
            | some t ↦ (collect_one lib cfg ns_name true [] >>= λ r. ret (false, r.1))
            | none ↦ reconcile_live lib cfg ns_name ns
          ])
      by_state none = reconcile_live-Unfinished h ns
      by_state (some t) = Safe-bind (whatever h _) (λ h' r k. done (λ u. cc))

  -- Whatever the API server answers, a key is reported as done only after its namespace was read
  -- as not found, the Secrets recorded against it were listed, and the deletion of each of them
  -- under its UID was answered as done or as done before; and the error is then empty.
  pub reconcile_one-Finished : Runs Finished [] (reconcile_one lib cfg ns_name)
  unfolding reconcile_one
  reconcile_one-Finished = Safe-bind (Safe-perform [] (get_namespace ns_name) tt) on_answer
    where
      on_answer :
          (h : History) (answer : Found Namespace)
          → Saw (get_namespace ns_name) answer h
          → Runs {A = Bool × Faults} Finished h (elim answer [
            | not_found ↦ reconcile_gone lib cfg ns_name
            | failed ↦ ret (false, confirm_namespace ∷ [])
            | found ns ↦ reconcile_found lib cfg ns_name ns
          ])
      on_answer h (found ns) saw = reconcile_found-Unfinished h ns
      on_answer h not_found saw = reconcile_gone-Finished h saw
      on_answer h failed saw = done (λ t. cc)
