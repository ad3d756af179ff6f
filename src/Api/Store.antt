-- ===== src/Api/Store.antt =====
-- The Secrets of the target namespace, as the Kubernetes API documents it: every version of an
-- object has a `resourceVersion` of its own, an update that carries one is only applied to that
-- version, and a deletion only where its preconditions hold. Other writers change the store at
-- any time between two calls.
pub mod Kept
use argocd_cluster_registrar.Common.{
  ◌≡◌, refl, sym, ap, subst, ◌∙◌, ◌⊎◌, inl, inr, Bool, true, false, Option, none, some, List, [],
  ◌∷◌, Bytes, ◌==◌, ==_iff, nonempty, lookup, All, All_of_In, In, here, there, if◌then◌else◌,
  some_injective,
}
use argocd_cluster_registrar.Kube.{Secret, Preconditions}
use argocd_cluster_registrar.Api.{
  Op, Answer, Selector, found, not_found, failed, get_namespace, list_namespaces, now,
  count_conflict, count_adoption, set_registrations, set_unrouted, in_cluster_config,
  kubeconfig_config, new_client, add_to_scheme, new_manager, add_check, complete, add_seeder,
  run_manager, get_secret, list_secrets, create_secret, update_secret, delete_secret,
}
use argocd_cluster_registrar.Api.Safe.{History, Saw, latest, earlier}
use argocd_cluster_registrar.Api.Server.{IsStored}

-- What is stored, by name, and every version that ever was.
pub record World : Type 0 where
  pub secrets : Bytes → Option Secret
  pub versions : List Secret

abbrev pub put : World → Secret → World
put w s = record {
  secrets = λ n. if s.name == n then some s else w.secrets n;
  versions = s ∷ w.versions;
}

abbrev pub drop : World → Bytes → World
drop w name = record w { secrets = λ n. if name == n then none else w.secrets n }

-- A version that never was.
abbrev pub IsFresh : World → Secret → Type 0
IsFresh w s =
    (nonempty s.resource_version ≡ true)
    × All (λ t. (t.resource_version == s.resource_version) ≡ false) w.versions

-- An update that carries a version is held to it.
abbrev pub Guards : Secret → Secret → Type 0
Guards update stored =
    nonempty update.resource_version ≡ true → stored.resource_version ≡ update.resource_version

-- The preconditions of a deletion that are given.
abbrev pub Holds : Preconditions → Secret → Type 0
Holds p s =
    ((u : Bytes) → p.uid ≡ some u → s.uid ≡ u)
    × ((v : Bytes) → p.resource_version ≡ some v → s.resource_version ≡ v)

abbrev pub Selects : Selector → Secret → Type 0
Selects selector s = All (λ e. lookup e.0 s.labels ≡ some e.1) selector

-- A write that was applied: the object replaces the version that it was held to.
pub record Applied (w : World) (update : Secret) (w' : World) : Type 0 where
  pub replaced : Secret
  pub stored : Secret
  pub there_before : w.secrets update.name ≡ some replaced
  pub guarded : Guards update replaced
  pub named : stored.name ≡ update.name
  pub kept : IsStored update stored
  pub fresh : IsFresh w stored
  pub after : w' ≡ put w stored

pub record Added (w : World) (s : Secret) (w' : World) : Type 0 where
  pub stored : Secret
  pub free : w.secrets s.name ≡ none
  pub named : stored.name ≡ s.name
  pub kept : IsStored s stored
  pub fresh : IsFresh w stored
  pub after : w' ≡ put w stored

pub record Removed (w : World) (name : Bytes) (p : Preconditions) (w' : World) : Type 0 where
  pub removed : Secret
  pub there_before : w.secrets name ≡ some removed
  pub held : Holds p removed
  pub after : w' ≡ drop w name

module _ (target : Bytes) where
  -- What an answer says of the store, and what the call does to it at most. Whether a write was
  -- applied is left open, whatever its answer: an error may come after it.
  abbrev pub Reply : World → World → (o : Op) → Answer o → Type 0
  Reply w w' (get_secret ns name) (found s) = (ns ≡ target → w.secrets name ≡ some s) × (w' ≡ w)
  Reply w w' (list_secrets ns selector) (some items) =
      (ns ≡ target → All (λ s. (w.secrets s.name ≡ some s) × Selects selector s) items) × (w' ≡ w)
  Reply w w' (create_secret ns s) r = (w' ≡ w) ⊎ Added w s w'
  Reply w w' (update_secret ns s) r = (w' ≡ w) ⊎ Applied w s w'
  Reply w w' (delete_secret ns name p) r = (w' ≡ w) ⊎ Removed w name p w'
  Reply w w' _ r = w' ≡ w

  -- What others do between two calls.
  pub data Change (w : World) : World → Type 0 where
    write : (s : Secret) → IsFresh w s → Change w (put w s)
    remove : (name : Bytes) → Change w (drop w name)

  -- Every stored object is a version under its own name, and a version has one content.
  pub record IsWorld (w : World) : Type 0 where
    pub known : (n : Bytes) (s : Secret) → w.secrets n ≡ some s → In s w.versions × (s.name ≡ n)
    pub stamped : All (λ s. nonempty s.resource_version ≡ true) w.versions
    pub unique :
        (s t : Secret)
        → In s w.versions
        → In t w.versions
        → s.resource_version ≡ t.resource_version
        → s ≡ t

  -- The store after these calls and answers, with what others did in between.
  pub data Serves : History → World → Type 0 where
    initial : {w : World} → IsWorld w → Serves [] w
    others : {h : History} {w w' : World} → Serves h w → Change w w' → Serves h w'
    answers :
        {h : History} {w w' : World} {o : Op} {r : Answer o}
        → Serves h w
        → Reply w w' o r
        → Serves ((o, r) ∷ h) w'
