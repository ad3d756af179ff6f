-- ===== src/Api/Store/Kept.antt =====
-- What the store keeps: every object is a version, no version is forgotten, and a version has one
-- content; so an update that is held to a version that was read is applied to what was read.
use argocd_cluster_registrar.Common.{
  ◌≡◌, refl, sym, ap, subst, ◌∙◌, inl, inr, Bool, true, false, none, some, List, ◌∷◌, Bytes, ◌==◌,
  ==_iff, nonempty, All_of_In, In, here, there, if◌then◌else◌, some_injective,
}
use argocd_cluster_registrar.Kube.{Secret}
use argocd_cluster_registrar.Api.{
  Op, Answer, Selector, found, not_found, failed, get_namespace, list_namespaces, now,
  count_conflict, count_adoption, set_registrations, set_unrouted, in_cluster_config,
  kubeconfig_config, new_client, add_to_scheme, new_manager, add_check, complete, add_seeder,
  run_manager, get_secret, list_secrets, create_secret, update_secret, delete_secret,
}
use argocd_cluster_registrar.Api.Safe.{History, Saw, latest, earlier}
use argocd_cluster_registrar.Api.Store.{
  World, put, drop, IsFresh, Guards, Selects, Reply, Change, write, remove, IsWorld, Serves,
  initial, others, answers,
}

module _ (target : Bytes) where
  pub put-IsWorld :
      (w : World) (s : Secret) → IsWorld target w → IsFresh w s → IsWorld target (put w s)
  put-IsWorld w s i (full, fresh) = record {
    known = λ n t e. known n t (s.name == n) refl e;
    stamped = (full, i.stamped);
    unique = unique;
  }
    where
      old : (a : Secret) → In a w.versions → s.resource_version ≡ a.resource_version → s ≡ a
      old a j e = cc (
        All_of_In (λ (t : Secret). (t.resource_version == s.resource_version) ≡ false) j fresh,
        (==_iff a.resource_version s.resource_version).1 (sym e),
      )

      known :
          (n : Bytes) (t : Secret) (b : Bool)
          → (s.name == n) ≡ b
          → (if b then some s else w.secrets n) ≡ some t
          → In t (s ∷ w.versions) × (t.name ≡ n)
      known n t true f e =
          subst (λ x. In x (s ∷ w.versions) × (x.name ≡ n)) (some_injective e)
            (here, (==_iff s.name n).0 f)
      known n t false f e = let (j, same) = i.known n t e in (there j, same)

      unique :
          (a b : Secret)
          → In a (s ∷ w.versions)
          → In b (s ∷ w.versions)
          → a.resource_version ≡ b.resource_version
          → a ≡ b
      unique a b here here e = refl
      unique a b here (there j) e = old b j e
      unique a b (there j) here e = sym (old a j (sym e))
      unique a b (there j) (there k) e = i.unique a b j k e

  drop-IsWorld : (w : World) (name : Bytes) → IsWorld target w → IsWorld target (drop w name)
  drop-IsWorld w name i = record {
    known = λ n t e. known n t (name == n) e;
    stamped = i.stamped;
    unique = i.unique;
  }
    where
      known :
          (n : Bytes) (t : Secret) (b : Bool)
          → (if b then none else w.secrets n) ≡ some t
          → In t w.versions × (t.name ≡ n)
      known n t true e = cc
      known n t false e = i.known n t e

  -- A call does nothing to the store, or what others may do as well.
  data Effect (w : World) : World → Type 0 where
    unchanged : Effect w w
    altered : {w' : World} → Change target w w' → Effect w w'

  by_same : (w w' : World) → w' ≡ w → Effect w w'
  by_same w w' e = subst (Effect w) (sym e) unchanged

  Reply-Effect : (w w' : World) (o : Op) (r : Answer o) → Reply target w w' o r → Effect w w'
  Reply-Effect w w' (get_secret ns n) (found s) (_, e) = by_same w w' e
  Reply-Effect w w' (get_secret ns n) not_found e = by_same w w' e
  Reply-Effect w w' (get_secret ns n) failed e = by_same w w' e
  Reply-Effect w w' (list_secrets ns l) none e = by_same w w' e
  Reply-Effect w w' (list_secrets ns l) (some items) (_, e) = by_same w w' e
  Reply-Effect w w' (create_secret ns s) r (inl e) = by_same w w' e
  Reply-Effect w w' (create_secret ns s) r (inr a) =
      subst (Effect w) (sym a.after) (altered (write a.stored a.fresh))
  Reply-Effect w w' (update_secret ns s) r (inl e) = by_same w w' e
  Reply-Effect w w' (update_secret ns s) r (inr a) =
      subst (Effect w) (sym a.after) (altered (write a.stored a.fresh))
  Reply-Effect w w' (delete_secret ns n p) r (inl e) = by_same w w' e
  Reply-Effect w w' (delete_secret ns n p) r (inr a) =
      subst (Effect w) (sym a.after) (altered (remove n))
  Reply-Effect w w' (get_namespace n) r e = by_same w w' e
  Reply-Effect w w' (list_namespaces l) r e = by_same w w' e
  Reply-Effect w w' now r e = by_same w w' e
  Reply-Effect w w' (count_conflict c) r e = by_same w w' e
  Reply-Effect w w' count_adoption r e = by_same w w' e
  Reply-Effect w w' (set_registrations x b n) r e = by_same w w' e
  Reply-Effect w w' (set_unrouted n) r e = by_same w w' e
  Reply-Effect w w' in_cluster_config r e = by_same w w' e
  Reply-Effect w w' kubeconfig_config r e = by_same w w' e
  Reply-Effect w w' (new_client x) r e = by_same w w' e
  Reply-Effect w w' add_to_scheme r e = by_same w w' e
  Reply-Effect w w' (new_manager b m) r e = by_same w w' e
  Reply-Effect w w' (add_check x) r e = by_same w w' e
  Reply-Effect w w' (complete x) r e = by_same w w' e
  Reply-Effect w w' add_seeder r e = by_same w w' e
  Reply-Effect w w' run_manager r e = by_same w w' e

  Change-IsWorld : {w w' : World} → IsWorld target w → Change target w w' → IsWorld target w'
  Change-IsWorld i (write t f) = put-IsWorld _ t i f
  Change-IsWorld i (remove n) = drop-IsWorld _ n i

  Effect-IsWorld : {w w' : World} → IsWorld target w → Effect w w' → IsWorld target w'
  Effect-IsWorld i unchanged = i
  Effect-IsWorld i (altered c) = Change-IsWorld i c

  pub Serves-IsWorld : {h : History} {w : World} → Serves target h w → IsWorld target w
  Serves-IsWorld (initial i) = i
  Serves-IsWorld (others s c) = Change-IsWorld (Serves-IsWorld s) c
  Serves-IsWorld (answers s r) = Effect-IsWorld (Serves-IsWorld s) (Reply-Effect _ _ _ _ r)

  -- No version is forgotten.
  Change-versions :
      {w w' : World} (s : Secret) → Change target w w' → In s w.versions → In s w'.versions
  Change-versions s (write t f) i = there i
  Change-versions s (remove n) i = i

  Effect-versions : {w w' : World} (s : Secret) → Effect w w' → In s w.versions → In s w'.versions
  Effect-versions s unchanged i = i
  Effect-versions s (altered c) i = Change-versions s c i

  -- What was read is a version.
  pub Serves-found :
      {h : History} {w : World} (name : Bytes) (s : Secret)
      → Serves target h w
      → Saw (get_secret target name) (found s) h
      → In s w.versions
  Serves-found name s (initial i) saw = elim saw [ ]
  Serves-found name s (others k c) saw = Change-versions s c (Serves-found name s k saw)
  Serves-found name s (answers k r) latest =
      let (there_now, same) = r in
      subst (λ (v : World). In s v.versions) (sym same)
        ((Serves-IsWorld k).known name s (there_now refl)).0
  Serves-found name s (answers k r) (earlier saw) =
      Effect-versions s (Reply-Effect _ _ _ _ r) (Serves-found name s k saw)

  pub Serves-listed :
      {h : History} {w : World} (selector : Selector) (items : List Secret) (s : Secret)
      → Serves target h w
      → Saw (list_secrets target selector) (some items) h
      → In s items
      → In s w.versions × Selects selector s
  Serves-listed selector items s (initial i) saw j = elim saw [ ]
  Serves-listed selector items s (others k c) saw j =
      let (v, m) = Serves-listed selector items s k saw j in (Change-versions s c v, m)
  Serves-listed selector items s (answers k r) latest j =
      let (there_now, same) = r in
      let (e, m) = All_of_In _ j (there_now refl) in
      (subst (λ (v : World). In s v.versions) (sym same) ((Serves-IsWorld k).known s.name s e).0, m)
  Serves-listed selector items s (answers k r) (earlier saw) j =
      let (v, m) = Serves-listed selector items s k saw j in
      (Effect-versions s (Reply-Effect _ _ _ _ r) v, m)

  -- An update of a version that was read is only ever applied to that version.
  pub Guards-same :
      {h : History} {w : World} (s update stored : Secret) (name : Bytes)
      → Serves target h w
      → In s w.versions
      → update.resource_version ≡ s.resource_version
      → w.secrets name ≡ some stored
      → Guards update stored
      → stored ≡ s
  Guards-same s update stored name k i same e g =
      let world = Serves-IsWorld k in
      let full = All_of_In (λ (t : Secret). nonempty t.resource_version ≡ true) i world.stamped in
      world.unique stored s (world.known name stored e).0 i (g (ap nonempty same ∙ full) ∙ same)
