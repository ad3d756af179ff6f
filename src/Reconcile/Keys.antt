-- ===== src/Reconcile/Keys.antt =====
-- Which keys a sweep visits.
use mathlib.Core.List.{map}
use argocd_cluster_registrar.Common.{
  ◌≡◌, refl, ◌∙◌, Bool, ◌&&◌, ◌||◌, List, [], ◌∷◌, ◌++◌, Bytes, ◌==◌, ==_iff, nonempty, any, keep,
  less, member, member-sort_by, member-keep, Distinct, Ascending, sort_by-Ascending, arith, ap,
  if_elim, Bool-cases, inl, inr,
}
use argocd_cluster_registrar.Kube.{Namespace, Secret}
use argocd_cluster_registrar.Config.{Config}
use argocd_cluster_registrar.Libraries.{Libraries}
use argocd_cluster_registrar.Registrar.{source_of}
use argocd_cluster_registrar.Reconcile.{distinct, keys_of}

member-distinct : (k : Bytes) (ks : List Bytes) → member k (distinct ks) ≡ member k ks
unfolding distinct member
member-distinct k [] = refl
member-distinct k (j ∷ ks) = elim (Bool-cases (member j (distinct ks))) [
  | inl e ↦ rw e (elim (Bool-cases (j == k)) [
    | inl f ↦
        ground
          (arith, f, e, ap (λ t. member t (distinct ks)) ((==_iff j k).0 f), member-distinct k ks)
    | inr f ↦ rw f (member-distinct k ks)
  ])
  | inr e ↦ rw e (ground (arith, member-distinct k ks))
]

distinct-Distinct : (ks : List Bytes) → Distinct (distinct ks)
unfolding distinct
distinct-Distinct [] = tt
distinct-Distinct (k ∷ ks) =
    let rest = distinct-Distinct ks in
    if_elim Distinct (member k (distinct ks)) (λ e. rest) (λ e. (e, rest))

member-append :
    (k : Bytes) (xs ys : List Bytes) → member k (xs ++ ys) ≡ (member k xs || member k ys)
unfolding member
member-append k [] ys = refl
member-append k (x ∷ xs) ys = ground (arith, member-append k xs ys)

member-map {ℓ} :
    {A : Type ℓ} (k : Bytes) (f : A → Bytes) (xs : List A)
    → member k (map f xs) ≡ any (λ x. f x == k) xs
unfolding member any
member-map k f [] = refl
member-map k f (x ∷ xs) = ground (arith, member-map k f xs)

module _ (lib : Libraries) (cfg : Config) where
  -- The text is the name of a listed namespace, or the source that a listed Secret records.
  abbrev pub is_key : List Namespace → List Secret → Bytes → Bool
  is_key namespaces secrets k =
      any (λ (ns : Namespace). ns.name == k) namespaces
      || nonempty k && any (λ s. source_of cfg s == k) secrets

  pub record IsKeys (namespaces : List Namespace) (secrets : List Secret) (keys : List Bytes)
      : Type 0 where
    pub sorted : Ascending keys
    pub complete : (k : Bytes) → member k keys ≡ is_key namespaces secrets k

  -- The keys of a sweep are strictly ascending, so that none comes twice, and are exactly the
  -- names of the listed namespaces and the sources, which are not empty, that the listed Secrets
  -- record.
  pub keys_of-IsKeys :
      (namespaces : List Namespace) (secrets : List Secret)
      → IsKeys namespaces secrets (keys_of lib cfg namespaces secrets)
  unfolding keys_of
  keys_of-IsKeys namespaces secrets =
      let sources = map (source_of cfg) secrets in
      let names = map (λ (ns : Namespace). ns.name) namespaces in
      record {
        sorted =
            sort_by-Ascending (distinct (names ++ keep nonempty sources))
              (distinct-Distinct (names ++ keep nonempty sources));
        complete = λ k.
            member-sort_by less k (distinct (names ++ keep nonempty sources))
            ∙ member-distinct k (names ++ keep nonempty sources)
            ∙ member-append k names (keep nonempty sources)
            ∙ ground (
              arith,
              member-map k (λ (ns : Namespace). ns.name) namespaces,
              member-keep nonempty k sources,
              member-map k (source_of cfg) secrets,
            );
      }
