-- ===== src/Reconcile/Sourced.antt =====
-- What a reconciliation writes comes from a live namespace of this registrar and from the
-- kubeconfig that was found in it.
use argocd_cluster_registrar.Common.{
  ℕ, ◌≡◌, refl, Bool, true, false, not, Option, none, some, [], ◌∷◌, Bytes, get, ◌==◌, arith,
  some_injective, subst,
}
use argocd_cluster_registrar.Api.{
  Op, create_secret, update_secret, delete_secret, Found, found, not_found, failed, get_namespace,
  Prog, ret, ◌>>=◌,
}
use argocd_cluster_registrar.Api.Calls.{Calls, returns, Calls-bind, Calls-weaken}
use argocd_cluster_registrar.Api.Safe.{
  History, Saw, earlier, Safe, done, Anything, Persists, Safe-perform, Safe-bind, Safe-if,
  Safe-frame, Safe-hold, Safe-both, Safe-Calls, Safe-weaken, Safe-weaken_calls,
}
use argocd_cluster_registrar.Kube.{Namespace}
use argocd_cluster_registrar.Labels
use argocd_cluster_registrar.Libraries.{Libraries}
use argocd_cluster_registrar.Config.{Config}
use argocd_cluster_registrar.Registrar.{Child, Faults, confirm_namespace}
use argocd_cluster_registrar.Collect.{collect_one}
use argocd_cluster_registrar.Discover.Found.{IsDiscovered, DiscoveredOr, discover_one-IsDiscovered}
use argocd_cluster_registrar.Reconcile.{
  no_faults, reconcile_gone, register_child, reconcile_live, reconcile_found, reconcile_one,
}
use argocd_cluster_registrar.Reconcile.Reads.{discover_one-Reads}
use argocd_cluster_registrar.Reconcile.Quiet.{
  IsRead-NoWrite, collect_stale_uid-NoWrite, collect_one-NoWrite,
}
use argocd_cluster_registrar.Reconcile.Hidden.{NoWrite, MayHide, register_child-MayHide}

pub IsDiscovered-Persists :
    (lib : Libraries) (cfg : Config) (ns : Namespace) (c : Child)
    → Persists (λ h. IsDiscovered lib cfg ns h c)
IsDiscovered-Persists lib cfg ns c e h d = record {
  named = d.named;
  valid = d.valid;
  items = d.items;
  listed = earlier d.listed;
  chosen = d.chosen;
}

module _ (lib : Libraries) (cfg : Config) (ns_name : Bytes) where
  -- The namespace was read under the key, carries this registrar's label and is not being deleted,
  -- and the child was found in it.
  pub record IsSourced (h : History) (c : Child) : Type 0 where
    pub ns : Namespace
    pub read : Saw (get_namespace ns_name) (found ns) h
    pub owned :
        (get ns.labels (Labels.managed_by_label cfg.label_prefix) == cfg.managed_by_value) ≡ true
    pub live : ns.deletion_timestamp ≡ none
    pub discovered : IsDiscovered lib cfg ns h c

  IsSourced-Persists : (c : Child) → Persists (λ h. IsSourced h c)
  IsSourced-Persists c e h s = record {
    ns = s.ns;
    read = earlier s.read;
    owned = s.owned;
    live = s.live;
    discovered = IsDiscovered-Persists lib cfg s.ns c e h s.discovered;
  }

  -- A creation and an update are for a child of that kind.
  abbrev pub MaySet : History → Op → Type 0
  MaySet h (create_secret ns s) =
      (c : Child) × IsSourced h c × MayHide lib cfg ns_name c h (create_secret ns s)
  MaySet h (update_secret ns s) =
      (c : Child) × IsSourced h c × MayHide lib cfg ns_name c h (update_secret ns s)
  MaySet h _ = Unit {0}

  NoWrite-MaySet : (h : History) (o : Op) → NoWrite o → MaySet h o
  NoWrite-MaySet h (create_secret _ _) k = absurd k
  NoWrite-MaySet h (update_secret _ _) k = absurd k
  NoWrite-MaySet h _ k = tt

  MayHide-MaySet :
      (c : Child) (h : History) (o : Op)
      → IsSourced h c
      → MayHide lib cfg ns_name c h o
      → MaySet h o
  MayHide-MaySet c h (create_secret ns s) i k = (c, i, k)
  MayHide-MaySet c h (update_secret ns s) i k = (c, i, k)
  MayHide-MaySet c h (delete_secret _ _ _) i k = tt
  MayHide-MaySet c h _ i k = tt

  abbrev Sets : {A : Type 0} → History → Prog A → Type 0
  Sets h m = Safe MaySet Anything h m

  plain : {A : Type 0} {m : Prog A} (h : History) → Calls NoWrite m → Sets h m
  plain h k = Safe-Calls h NoWrite-MaySet k

  register_child-Sets :
      (h : History) (o : Option Child)
      → ((c : Child) → o ≡ some c → IsSourced h c)
      → Sets h (register_child lib cfg ns_name o)
  unfolding register_child
  register_child-Sets h none i = done tt
  register_child-Sets h (some c) i =
      Safe-weaken (λ h' a k. tt)
        (Safe-weaken_calls (λ h' op k. MayHide-MaySet c h' op k.0 k.1)
          (Safe-hold (λ h'. IsSourced h' c) (IsSourced-Persists c) (i c refl)
            (register_child-MayHide lib cfg ns_name c h)))

  -- What is known of the namespace until a child is discovered.
  abbrev pub Known : Namespace → History → Type 0
  Known ns h =
      Saw (get_namespace ns_name) (found ns) h
      × ((get ns.labels (Labels.managed_by_label cfg.label_prefix) == cfg.managed_by_value) ≡ true)
      × (ns.deletion_timestamp ≡ none)

  pub Known-Persists : (ns : Namespace) → Persists (Known ns)
  Known-Persists ns e h (saw, owned, live) = (earlier saw, owned, live)

  sourced :
      (h : History) (ns : Namespace) (o : Option Child)
      → Known ns h
      → DiscoveredOr lib cfg ns h o
      → (c : Child) → o ≡ some c
      → IsSourced h c
  sourced h ns none k d c e = cc
  sourced h ns (some child) (saw, owned, live) d c e =
      subst (IsSourced h) (some_injective e)
        (record { ns = ns; read = saw; owned = owned; live = live; discovered = d })

  reconcile_live-Sets :
      (h : History) (ns : Namespace) → Known ns h → Sets h (reconcile_live lib cfg ns_name ns)
  unfolding reconcile_live
  reconcile_live-Sets h ns k =
      Safe-bind
        (Safe-frame (Known ns) (Known-Persists ns) k
          (plain h (collect_stale_uid-NoWrite cfg ns_name ns.uid)))
        λ h' errs k'.
          Safe-if (no_faults errs)
            (λ e.
              Safe-bind
                (Safe-weaken_calls (λ h'' op q. NoWrite-MaySet h'' op q.1)
                  (Safe-both
                    (Safe-frame (Known ns) (Known-Persists ns) k'.0
                      (discover_one-IsDiscovered lib cfg ns h'))
                    (Safe-Calls h' (λ h'' op q. q)
                      (Calls-weaken IsRead-NoWrite (discover_one-Reads lib cfg ns)))))
                (λ h'' o q. register_child-Sets h'' o (sourced h'' ns o q.0.0 q.0.1)))
            (λ e. done tt)

  reconcile_found-Sets :
      (h : History) (ns : Namespace)
      → Saw (get_namespace ns_name) (found ns) h
      → Sets h (reconcile_found lib cfg ns_name ns)
  unfolding reconcile_found
  reconcile_found-Sets h ns saw =
      Safe-if
        (not (get ns.labels (Labels.managed_by_label cfg.label_prefix) == cfg.managed_by_value))
        (λ e. done tt) (λ e. by_state ns.deletion_timestamp refl (ground (arith, e)))
    where
      by_state :
          (o : Option ℕ)
          → ns.deletion_timestamp ≡ o
          → (get ns.labels (Labels.managed_by_label cfg.label_prefix) == cfg.managed_by_value)
            ≡ true
          → Sets {A = Bool × Faults} h (elim o [
            | some t ↦ (collect_one lib cfg ns_name true [] >>= λ r. ret (false, r.1))
            | none ↦ reconcile_live lib cfg ns_name ns
          ])
      by_state none live owned = reconcile_live-Sets h ns (saw, owned, live)
      by_state (some t) dying owned =
          plain h
            (Calls-bind (collect_one-NoWrite lib cfg ns_name true) (λ r. returns (false, r.1)))

  -- In the reconciliation of a key, whatever the API server answers, every creation and every
  -- update is for a child that was found in a namespace read under the key, with this registrar's
  -- label and not being deleted, and is one that apply may make for that child, or, without dry-
  -- run, the demotion in favour of the child's Secret of a listed Secret recorded against the
  -- key, under another name, neither pinned nor demoted before, stamped by the clock that was
  -- read, after the child was registered: its Secret created, or updated, or found with nothing
  -- to change.
  pub reconcile_one-MaySet : (h : History) → Sets h (reconcile_one lib cfg ns_name)
  unfolding reconcile_one reconcile_gone
  reconcile_one-MaySet h = Safe-bind (Safe-perform h (get_namespace ns_name) tt) on_answer
    where
      on_answer :
          (h' : History) (answer : Found Namespace)
          → Saw (get_namespace ns_name) answer h'
          → Sets {A = Bool × Faults} h' (elim answer [
            | not_found ↦ reconcile_gone lib cfg ns_name
            | failed ↦ ret (false, confirm_namespace ∷ [])
            | found ns ↦ reconcile_found lib cfg ns_name ns
          ])
      on_answer h' (found ns) saw = reconcile_found-Sets h' ns saw
      on_answer h' not_found saw =
          plain h' (Calls-bind (collect_one-NoWrite lib cfg ns_name false) (λ r. returns _))
      on_answer h' failed saw = done tt
