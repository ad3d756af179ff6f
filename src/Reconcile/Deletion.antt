-- ===== src/Reconcile/Deletion.antt =====
-- Deletion requires positive proof: what `collectOne` and `collectStaleUID` promise, for a whole
-- reconciliation of one key.
use argocd_cluster_registrar.Common.{
  Bool, true, false, not, Option, none, some, [], ◌∷◌, Bytes, get, ◌==◌,
}
use argocd_cluster_registrar.Api.{
  Op, create_secret, update_secret, delete_secret, Found, found, not_found, failed, get_namespace,
  get_secret, Prog, ret, ◌>>=◌, count_conflict,
}
use argocd_cluster_registrar.Api.Calls.{
  Calls, returns, Calls-perform, Calls-bind, Calls-if, Calls-found, Calls-weaken, calls_rules,
}
use argocd_cluster_registrar.Api.Safe.{
  History, Saw, earlier, Safe, done, Anything, Safe-perform, Safe-bind, Safe-if, Safe-frame,
}
use argocd_cluster_registrar.Kube.{Namespace, Secret}
use argocd_cluster_registrar.Labels
use argocd_cluster_registrar.Libraries.{Libraries}
use argocd_cluster_registrar.Config.{Config}
use argocd_cluster_registrar.Registrar.{
  Child, Faults, Verdict, allowed, conflict, broken, confirm_namespace, secret_name,
}
use argocd_cluster_registrar.Apply.{
  changed, wanted, create_wanted, update_merged, register, refresh, apply,
}
use argocd_cluster_registrar.Collect.{collect_one}
use argocd_cluster_registrar.Collect.Evidence.{IsKept, Justified, Rests, Rests-Calls}
use argocd_cluster_registrar.Collect.Evidence.Replaced.{collect_stale_uid-Rests}
use argocd_cluster_registrar.Collect.Evidence.Leftover.{collect_one-Rests}
use argocd_cluster_registrar.Reconcile.{
  no_faults, reconcile_gone, settle, register_child, reconcile_live, reconcile_found, reconcile_one,
}
use argocd_cluster_registrar.Reconcile.Reads.{
  IsRead, Reads, and_then-Calls, claim_contested_name-Reads, check_ownership-Reads,
  claim_server-Reads, claim_if_moved-Reads, discover_one-Reads,
}

IsRead-IsKept : (o : Op) → IsRead o → IsKept o
IsRead-IsKept (create_secret _ _) k = absurd k
IsRead-IsKept (update_secret _ _) k = absurd k
IsRead-IsKept (delete_secret _ _ _) k = absurd k
IsRead-IsKept _ k = tt

abbrev Keeps : {A : Type 0} → Prog A → Type 0
Keeps m = Calls IsKept m

Reads-Keeps : {A : Type 0} {m : Prog A} → Reads m → Keeps m
Reads-Keeps r = Calls-weaken IsRead-IsKept r

module _ (cfg : Config) where
  create_wanted-Keeps : (c : Child) → Keeps (create_wanted cfg c)
  unfolding create_wanted
  create_wanted-Keeps c = search (calls_rules, tt)

  update_merged-Keeps : (s : Secret) (c : Child) → Keeps (update_merged cfg s c)
  unfolding update_merged
  update_merged-Keeps s c = search (calls_rules, tt)

  register-Keeps : (c : Child) → Keeps (register cfg c)
  unfolding register
  register-Keeps c = and_then-Calls _ _ (Reads-Keeps (claim_contested_name-Reads cfg c)) (
      and_then-Calls _ _ (Reads-Keeps (claim_server-Reads cfg c))
        (Calls-if cfg.dry_run (λ e. returns allowed) (λ e. create_wanted-Keeps c)))

  refresh-Keeps : (s : Secret) (c : Child) → Keeps (refresh cfg s c)
  unfolding refresh
  refresh-Keeps s c = and_then-Calls _ _ (Reads-Keeps (check_ownership-Reads cfg s c)) (
      Calls-if (not (changed s (wanted cfg c) cfg.label_prefix)) (λ e. returns allowed)
        λ e.
          and_then-Calls _ _ (Reads-Keeps (claim_if_moved-Reads cfg s c))
            (Calls-if cfg.dry_run (λ e'. returns allowed) (λ e'. update_merged-Keeps s c)))

  -- Registering deletes nothing.
  apply-Keeps : (c : Child) → Keeps (apply cfg c)
  unfolding apply
  apply-Keeps c =
      Calls-bind (Calls-perform (get_secret _ _) tt)
        λ answer. Calls-found answer (λ s. refresh-Keeps s c) (register-Keeps c) (returns _)

module _ (lib : Libraries) (cfg : Config) (ns_name : Bytes) where
  -- What is done after the namespace was read keeps the reading in the history.
  keep_read :
      {A : Type 0} {m : Prog A} (h : History) (ns : Namespace)
      → Saw (get_namespace ns_name) (found ns) h
      → Rests lib cfg ns_name h m
      → Safe
          (Justified lib cfg ns_name)
          (λ h' a. Saw (get_namespace ns_name) (found ns) h' × Anything h' a)
          h
          m
  keep_read h ns saw safe = Safe-frame _ (λ e h' s. earlier s) saw safe

  settle-Rests :
      (h : History) (ns : Namespace) (c : Child) (v : Verdict)
      → Saw (get_namespace ns_name) (found ns) h
      → Rests lib cfg ns_name h (settle lib cfg ns_name c v)
  unfolding settle
  settle-Rests h ns c allowed saw =
      Safe-bind (collect_one-Rests lib cfg ns_name h true (secret_name c.cluster) (ns, saw))
        (λ h' r q. done tt)
  settle-Rests h ns c (conflict reason) saw =
      Safe-bind (Safe-perform h (count_conflict reason) tt) (λ h' r q. done tt)
  settle-Rests h ns c (broken f) saw = done tt

  register_child-Rests :
      (h : History) (ns : Namespace) (o : Option Child)
      → Saw (get_namespace ns_name) (found ns) h
      → Rests lib cfg ns_name h (register_child lib cfg ns_name o)
  unfolding register_child
  register_child-Rests h ns none saw = done tt
  register_child-Rests h ns (some c) saw =
      Safe-bind (keep_read h ns saw (Rests-Calls lib cfg ns_name h (apply-Keeps cfg c)))
        λ h' v k. settle-Rests h' ns c v k.0

  reconcile_live-Rests :
      (h : History) (ns : Namespace)
      → Saw (get_namespace ns_name) (found ns) h
      → Rests lib cfg ns_name h (reconcile_live lib cfg ns_name ns)
  unfolding reconcile_live
  reconcile_live-Rests h ns saw =
      Safe-bind (keep_read h ns saw (collect_stale_uid-Rests lib cfg ns_name h ns saw)) λ h' errs k.
        Safe-if (no_faults errs)
          (λ e.
            Safe-bind
              (keep_read h' ns k.0
                (Rests-Calls lib cfg ns_name h' (Reads-Keeps (discover_one-Reads lib cfg ns))))
              (λ h'' o k'. register_child-Rests h'' ns o k'.0))
          (λ e. done tt)

  reconcile_found-Rests :
      (h : History) (ns : Namespace)
      → Saw (get_namespace ns_name) (found ns) h
      → Rests lib cfg ns_name h (reconcile_found lib cfg ns_name ns)
  unfolding reconcile_found
  reconcile_found-Rests h ns saw =
      Safe-if
        (not (get ns.labels (Labels.managed_by_label cfg.label_prefix) == cfg.managed_by_value))
        (λ e. done tt) (λ e. by_state ns.deletion_timestamp)
    where
      by_state :
          {T : Type 0} (o : Option T)
          → Rests lib cfg ns_name {A = Bool × Faults} h (elim o [
            | some t ↦ (collect_one lib cfg ns_name true [] >>= λ r. ret (false, r.1))
            | none ↦ reconcile_live lib cfg ns_name ns
          ])
      by_state none = reconcile_live-Rests h ns saw
      by_state (some t) =
          Safe-bind (collect_one-Rests lib cfg ns_name h true [] (ns, saw)) (λ h' r q. done tt)

  reconcile_gone-Rests :
      (h : History)
      → Saw (get_namespace ns_name) not_found h
      → Rests lib cfg ns_name h (reconcile_gone lib cfg ns_name)
  unfolding reconcile_gone
  reconcile_gone-Rests h saw =
      Safe-bind (collect_one-Rests lib cfg ns_name h false [] saw) (λ h' r q. done tt)

  -- In the reconciliation of a key, whatever the API server answers, every deletion is of a
  -- listed, owned, unpinned Secret recorded against the key, under its UID, and rests on positive
  -- proof read before in the same reconciliation: the namespace was not found, or has another
  -- UID, or the Secret is demoted and past a TTL that is set, and the call is then held to the
  -- listed resource version.
  pub reconcile_one-Justified :
      (h : History) → Safe (Justified lib cfg ns_name) Anything h (reconcile_one lib cfg ns_name)
  unfolding reconcile_one
  reconcile_one-Justified h = Safe-bind (Safe-perform h (get_namespace ns_name) tt) on_answer
    where
      on_answer :
          (h' : History) (answer : Found Namespace)
          → Saw (get_namespace ns_name) answer h'
          → Rests lib cfg ns_name h' (elim answer [
            | not_found ↦ reconcile_gone lib cfg ns_name
            | failed ↦ ret (false, confirm_namespace ∷ [])
            | found ns ↦ reconcile_found lib cfg ns_name ns
          ])
      on_answer h' (found ns) saw = reconcile_found-Rests h' ns saw
      on_answer h' not_found saw = reconcile_gone-Rests h' saw
      on_answer h' failed saw = done tt
