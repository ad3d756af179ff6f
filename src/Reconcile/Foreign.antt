-- ===== src/Reconcile/Foreign.antt =====
-- A sweep changes nothing that is not this registrar's, whatever others do to the store meanwhile.
use argocd_cluster_registrar.Common.{◌≡◌, inl, inr, List, [], ◌∷◌, ◌++◌, Bytes, some, get, arith}
use argocd_cluster_registrar.Kube.{Secret}
use argocd_cluster_registrar.Api.{
  Op, Answer, Prog, create_secret, update_secret, delete_secret, call,
}
use argocd_cluster_registrar.Api.Safe.{
  History, Safe, done, Anything, Safe-bind, Safe-if, Safe-both, Safe-Calls, Safe-weaken,
  Safe-weaken_calls,
}
use argocd_cluster_registrar.Api.Reach.{Reaches, Reaches-allowed}
use argocd_cluster_registrar.Api.Store.{World, Guards, Holds, Selects, Serves}
use argocd_cluster_registrar.Libraries.{Libraries}
use argocd_cluster_registrar.Config.{Config}
use argocd_cluster_registrar.Registrar.{Faults, owner_of, source_selector}
use argocd_cluster_registrar.Reconcile.{no_faults, reconcile_one, reconcile_all, reconcile}
use argocd_cluster_registrar.Reconcile.Reads.{
  IsRead, Reads, reconcile_keys-Reads, audit_unrouted-Reads,
}
use argocd_cluster_registrar.Collect.Evidence.{Justified}
use argocd_cluster_registrar.Reconcile.Deletion.{reconcile_one-Justified}
use argocd_cluster_registrar.Reconcile.Sourced.{MaySet, reconcile_one-MaySet}
use argocd_cluster_registrar.Reconcile.Atomic.{Updates, MaySet-Updates, Justified-Goes}

module _ (lib : Libraries) (cfg : Config) where
  -- A write of a sweep is one of the reconciliation of some key.
  abbrev MaySweep : History → Op → Type 0
  MaySweep h (create_secret ns s) = (key : Bytes) × MaySet lib cfg key h (create_secret ns s)
  MaySweep h (update_secret ns s) = (key : Bytes) × MaySet lib cfg key h (update_secret ns s)
  MaySweep h (delete_secret ns name p) =
      (key : Bytes) × Justified lib cfg key h (delete_secret ns name p)
  MaySweep h _ = Unit {0}

  of_key :
      (key : Bytes) (h : History) (o : Op)
      → MaySet lib cfg key h o × Justified lib cfg key h o
      → MaySweep h o
  of_key key h (create_secret ns s) k = (key, k.0)
  of_key key h (update_secret ns s) k = (key, k.0)
  of_key key h (delete_secret ns name p) k = (key, k.1)
  of_key key h _ k = tt

  IsRead-MaySweep : (h : History) (o : Op) → IsRead o → MaySweep h o
  IsRead-MaySweep h (create_secret _ _) k = absurd k
  IsRead-MaySweep h (update_secret _ _) k = absurd k
  IsRead-MaySweep h (delete_secret _ _ _) k = absurd k
  IsRead-MaySweep h _ k = tt

  abbrev Sweeps : {A : Type 0} → History → Prog A → Type 0
  Sweeps h m = Safe MaySweep Anything h m

  reads : {A : Type 0} {m : Prog A} (h : History) → Reads m → Sweeps h m
  reads h r = Safe-Calls h IsRead-MaySweep r

  reconcile_one-Sweeps : (h : History) (key : Bytes) → Sweeps h (reconcile_one lib cfg key)
  reconcile_one-Sweeps h key =
      Safe-weaken (λ h' r k. tt)
        (Safe-weaken_calls (of_key key)
          (Safe-both (reconcile_one-MaySet lib cfg key h) (reconcile_one-Justified lib cfg key h)))

  reconcile_all-Sweeps :
      (h : History) (ks : List Bytes) (errs : Faults) → Sweeps h (reconcile_all lib cfg ks errs)
  unfolding reconcile_all
  reconcile_all-Sweeps h [] errs = done tt
  reconcile_all-Sweeps h (k ∷ ks) errs =
      Safe-bind (reconcile_one-Sweeps h k) (λ h' r u. reconcile_all-Sweeps h' ks (errs ++ r.1))

  reconcile-Sweeps : Sweeps [] (reconcile lib cfg)
  unfolding reconcile
  reconcile-Sweeps = Safe-bind (reads [] (reconcile_keys-Reads lib cfg)) λ h r u.
      Safe-if (no_faults r.1)
        (λ e. Safe-bind (reconcile_all-Sweeps h r.0 []) λ h' errs u'.
          Safe-bind (reads h' (audit_unrouted-Reads lib cfg)) (λ h'' audit u''. done tt))
        (λ e. done tt)

  -- The call is applied to this stored Secret, if it is applied at all.
  abbrev pub Hits : World → Op → Secret → Type 0
  Hits w (update_secret ns u) stored = (w.secrets u.name ≡ some stored) × Guards u stored
  Hits w (delete_secret ns name p) stored = (w.secrets name ≡ some stored) × Holds p stored
  Hits w _ stored = ⊥

  -- The Secret has this registrar's label; one that is deleted had it when it was listed.
  abbrev pub IsOwn : Op → Secret → Type 0
  IsOwn (delete_secret ns name p) stored =
      (listed : Secret) × (owner_of cfg listed ≡ cfg.managed_by_value)
      × (stored.name ≡ listed.name)
      × (stored.uid ≡ listed.uid)
  IsOwn _ stored = owner_of cfg stored ≡ cfg.managed_by_value

  owner_of-Selects :
      (key : Bytes) (s : Secret)
      → Selects (source_selector cfg key) s
      → owner_of cfg s ≡ cfg.managed_by_value
  unfolding owner_of source_selector get
  owner_of-Selects key s (owned, rest) = ground (arith, owned)

  -- Whenever a full sweep comes to a call that is applied to a stored Secret, and however others
  -- have written to the store in between, an update is of a Secret that carries this registrar's
  -- label, and a deletion of one with the name and the UID of a listed Secret that carried it; so
  -- the Secrets of others are never changed.
  pub reconcile-IsOwn :
      {h : History} {w : World} {o : Op} {k : Answer o → Prog Faults} (stored : Secret)
      → Reaches (reconcile lib cfg) h (call o k)
      → Serves cfg.target_namespace h w
      → Hits w o stored
      → IsOwn o stored
  reconcile-IsOwn {h} {w} {o} stored reached serves hit =
      by_op o (Reaches-allowed reconcile-Sweeps reached) hit
    where
      by_op : (op : Op) → MaySweep h op → Hits w op stored → IsOwn op stored
      by_op (update_secret ns u) (key, may) (there_now, guards) =
          of_update (MaySet-Updates lib cfg key u stored may serves there_now guards)
        where
          of_update : Updates lib cfg key h stored u → owner_of cfg stored ≡ cfg.managed_by_value
          of_update (c, sourced, inl m) = m.may_take.0
          of_update (c, sourced, inr d) = owner_of-Selects key stored d.recorded
      by_op (delete_secret ns name p) (key, may) (there_now, held) =
          let g = Justified-Goes lib cfg key stored may serves there_now held in
          (g.listed, owner_of-Selects key g.listed g.recorded, g.same_name, g.same_uid)
      by_op _ may hit' = absurd hit'
