-- ===== src/Reconcile/Atomic.antt =====
-- The writes of a reconciliation against a store that others write to as well: an update is only
-- ever applied to the version that it was computed from, and a deletion to the object that was
-- listed.
use argocd_cluster_registrar.Common.{
  [], ℕ, ◌≡◌, sym, ap, subst, ◌∙◌, ◌⊎◌, inl, inr, false, true, Bool, some, Bytes, In, ◌==◌,
  nonempty, ltb_ℤ, pos,
}
use argocd_cluster_registrar.Kube.{Namespace, Secret, Preconditions}
use argocd_cluster_registrar.Api.{
  Answer, Prog, found, not_found, get_namespace, get_secret, now, update_secret, delete_secret,
  call,
}
use argocd_cluster_registrar.Api.Safe.{History, Saw}
use argocd_cluster_registrar.Api.Reach.{Reaches, Reaches-allowed}
use argocd_cluster_registrar.Api.Store.{World, Guards, Holds, Selects, Serves}
use argocd_cluster_registrar.Api.Store.Kept.{
  Serves-found, Serves-listed, Serves-IsWorld, Guards-same,
}
use argocd_cluster_registrar.Libraries.{Libraries}
use argocd_cluster_registrar.Config.{Config}
use argocd_cluster_registrar.Registrar.{
  Child, Faults, is_demoted, is_pinned, secret_name, source_uid_of, source_selector,
}
use argocd_cluster_registrar.Apply.{wanted, merge, demoted_labels}
use argocd_cluster_registrar.Apply.Takeover.{MayTake}
use argocd_cluster_registrar.Apply.Outcomes.{Registered}
use argocd_cluster_registrar.Collect.Evidence.{
  Outlived, Justified, Evidence, gone, replaced, expired,
}
use argocd_cluster_registrar.Reconcile.{reconcile_one}
use argocd_cluster_registrar.Reconcile.Hidden.{IsDemotion, MayHide}
use argocd_cluster_registrar.Reconcile.Sourced.{IsSourced, MaySet, reconcile_one-MaySet}
use argocd_cluster_registrar.Reconcile.Deletion.{reconcile_one-Justified}

module _ (lib : Libraries) (cfg : Config) (ns_name : Bytes) (c : Child) where
  -- The update merges what is wanted into the stored Secret, which the child may take.
  pub record Merges (stored update : Secret) : Type 0 where
    pub may_take : MayTake cfg c stored
    pub merged : update ≡ merge stored (wanted cfg c) cfg.label_prefix

  -- The update hides the stored Secret, another one of the namespace, and changes its labels only.
  pub record Hides (h : History) (stored update : Secret) : Type 0 where
    pub at : ℕ
    pub recorded : Selects (source_selector cfg ns_name) stored
    pub unpinned : is_pinned cfg stored ≡ false
    pub visible : is_demoted cfg stored ≡ false
    pub other : (stored.name == secret_name c.cluster) ≡ false
    pub clock : Saw now at h
    pub registered : Registered cfg c h
    pub hidden :
        update
        ≡ record stored { labels = demoted_labels lib cfg stored.labels (secret_name c.cluster) at }

  by_merge :
      {h : History} {w : World} (existing update stored : Secret)
      → Saw (get_secret cfg.target_namespace (secret_name c.cluster)) (found existing) h
      → MayTake cfg c existing
      → update ≡ merge existing (wanted cfg c) cfg.label_prefix
      → Serves cfg.target_namespace h w
      → w.secrets update.name ≡ some stored
      → Guards update stored
      → Merges stored update
  unfolding merge
  by_merge existing update stored saw take e k there_now g =
      let same =
        Guards-same cfg.target_namespace existing update stored update.name k
          (Serves-found cfg.target_namespace (secret_name c.cluster) existing k saw)
          (ap (λ (s : Secret). s.resource_version) e) there_now g in
      subst (λ s. Merges s update) (sym same) (record { may_take = take; merged = e })

  by_demotion :
      {h : History} {w : World} {namespace : Bytes} (update stored : Secret)
      → IsDemotion lib cfg ns_name c h namespace update
      → Serves cfg.target_namespace h w
      → w.secrets update.name ≡ some stored
      → Guards update stored
      → Hides h stored update
  by_demotion {h} update stored d k there_now g =
      let (items, saw, i) = d.listed in
      let (version, recorded) =
        Serves-listed cfg.target_namespace (source_selector cfg ns_name) items d.secret k saw i in
      let same =
        Guards-same cfg.target_namespace d.secret update stored update.name k version
          (ap (λ (s : Secret). s.resource_version) d.same) there_now g in
      subst (λ s. Hides h s update) (sym same)
        (record {
          at = d.at;
          recorded = recorded;
          unpinned = d.unpinned;
          visible = d.visible;
          other = d.other;
          clock = d.clock;
          registered = d.registered;
          hidden = d.same;
        })

  update-IsAtomic :
      {h : History} {w : World} {namespace : Bytes} (update stored : Secret)
      → MayHide lib cfg ns_name c h (update_secret namespace update)
      → Serves cfg.target_namespace h w
      → w.secrets update.name ≡ some stored
      → Guards update stored
      → Merges stored update ⊎ Hides h stored update
  update-IsAtomic update stored (inl (target, existing, saw, take, e)) serves there_now g =
      inl (by_merge existing update stored saw take e serves there_now g)
  update-IsAtomic update stored (inr d) serves there_now g =
      inr (by_demotion update stored d serves there_now g)

module _ (lib : Libraries) (cfg : Config) (ns_name : Bytes) where
  -- The child of a live namespace, and what the update does to the stored Secret for it.
  abbrev pub Updates : History → Secret → Secret → Type 0
  Updates h stored update =
      (c : Child) × IsSourced lib cfg ns_name h c
      × (Merges lib cfg ns_name c stored update ⊎ Hides lib cfg ns_name c h stored update)

  pub MaySet-Updates :
      {h : History} {w : World} {namespace : Bytes} (update stored : Secret)
      → MaySet lib cfg ns_name h (update_secret namespace update)
      → Serves cfg.target_namespace h w
      → w.secrets update.name ≡ some stored
      → Guards update stored
      → Updates h stored update
  MaySet-Updates update stored (c, sourced, may) serves there_now g =
      (c, sourced, update-IsAtomic lib cfg ns_name c update stored may serves there_now g)

  -- Whenever the reconciliation of a key comes to an update, and however others have written to
  -- the store in between, the update is for a child that was found in a namespace read under the
  -- key, with this registrar's label and not being deleted, and is only ever applied to the
  -- version that it was computed from: a stored Secret that passes the API's version check is one
  -- that the child may take, and the update is the merge into it; or it is a visible, unpinned
  -- Secret recorded against the key, under another name, and the update is its demotion after the
  -- child was registered.
  pub reconcile_one-IsAtomic :
      {h : History} {w : World} {namespace : Bytes} {update stored : Secret}
      {k : Answer (update_secret namespace update) → Prog (Bool × Faults)}
      → Reaches (reconcile_one lib cfg ns_name) h (call (update_secret namespace update) k)
      → Serves cfg.target_namespace h w
      → w.secrets update.name ≡ some stored
      → Guards update stored
      → Updates h stored update
  reconcile_one-IsAtomic {update} {stored} reached serves there_now g =
      MaySet-Updates update stored
        (Reaches-allowed (reconcile_one-MaySet lib cfg ns_name []) reached) serves there_now g

  -- Why the stored Secret may go. `listed` is the Secret that the decision was made on.
  pub data MayGo (h : History) (listed stored : Secret) : Type 0 where
    was_gone : Saw (get_namespace ns_name) not_found h → MayGo h listed stored
    was_replaced :
        (ns : Namespace)
        → Saw (get_namespace ns_name) (found ns) h
        → nonempty (source_uid_of cfg listed) ≡ true
        → (source_uid_of cfg listed == ns.uid) ≡ false
        → MayGo h listed stored
    has_expired :
        stored ≡ listed
        → is_demoted cfg stored ≡ true
        → is_pinned cfg stored ≡ false
        → ltb_ℤ (pos 0) cfg.demoted_ttl ≡ true
        → Outlived lib cfg ns_name stored h
        → MayGo h listed stored

  -- The Secret was listed as recorded against the key and unpinned, and the stored one has its
  -- name and UID.
  pub record Goes (h : History) (stored : Secret) : Type 0 where
    pub listed : Secret
    pub recorded : Selects (source_selector cfg ns_name) listed
    pub unpinned : is_pinned cfg listed ≡ false
    pub same_name : stored.name ≡ listed.name
    pub same_uid : stored.uid ≡ listed.uid
    pub may_go : MayGo h listed stored

  Evidence-MayGo :
      {h : History} {w : World} {p : Preconditions} (s stored : Secret) (name : Bytes)
      → Evidence lib cfg ns_name h s p
      → is_pinned cfg s ≡ false
      → In s w.versions
      → Serves cfg.target_namespace h w
      → w.secrets name ≡ some stored
      → Holds p stored
      → MayGo h s stored
  Evidence-MayGo s stored name (gone saw) unpinned i k e held = was_gone saw
  Evidence-MayGo s stored name (replaced ns saw full other) unpinned i k e held =
      was_replaced ns saw full other
  Evidence-MayGo {h} s stored name (expired ns saw demoted on over held_to) unpinned i k e held =
      let world = Serves-IsWorld cfg.target_namespace k in
      let same =
        world.unique stored s (world.known name stored e).0 i (held.1 s.resource_version held_to) in
      has_expired same (subst (λ t. is_demoted cfg t ≡ true) (sym same) demoted)
        (subst (λ t. is_pinned cfg t ≡ false) (sym same) unpinned) on
        (subst (λ t. Outlived lib cfg ns_name t h) (sym same) over)

  pub Justified-Goes :
      {h : History} {w : World} {namespace name : Bytes} {p : Preconditions} (stored : Secret)
      → Justified lib cfg ns_name h (delete_secret namespace name p)
      → Serves cfg.target_namespace h w
      → w.secrets name ≡ some stored
      → Holds p stored
      → Goes h stored
  Justified-Goes {name} stored (s, target, named, by_uid, (items, saw, i), unpinned, evidence)
        serves there_now held =
      let (version, recorded) =
        Serves-listed cfg.target_namespace (source_selector cfg ns_name) items s serves saw i in
      let world = Serves-IsWorld cfg.target_namespace serves in
      record {
        listed = s;
        recorded = recorded;
        unpinned = unpinned;
        same_name = (world.known name stored there_now).1 ∙ named;
        same_uid = held.0 s.uid by_uid;
        may_go = Evidence-MayGo s stored name evidence unpinned version serves there_now held;
      }

  -- Whenever the reconciliation of a key comes to a deletion, and however others have written to
  -- the store in between, a stored Secret that passes the preconditions has the name and the UID
  -- of a listed, unpinned Secret recorded against the key, whose namespace was read as not found
  -- or with another UID; or it is that very version, still demoted and unpinned, and past a TTL
  -- that is set.
  pub reconcile_one-Goes :
      {h : History} {w : World} {namespace name : Bytes} {p : Preconditions} {stored : Secret}
      {k : Answer (delete_secret namespace name p) → Prog (Bool × Faults)}
      → Reaches (reconcile_one lib cfg ns_name) h (call (delete_secret namespace name p) k)
      → Serves cfg.target_namespace h w
      → w.secrets name ≡ some stored
      → Holds p stored
      → Goes h stored
  reconcile_one-Goes {stored} reached serves there_now held =
      Justified-Goes stored (Reaches-allowed (reconcile_one-Justified lib cfg ns_name []) reached)
        serves there_now held
