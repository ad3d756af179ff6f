-- ===== src/Config/Shapes.antt =====
-- What Validate accepts of the provisioners.
use argocd_cluster_registrar.Common.{
  ◌≡◌, ◌≢◌, refl, ◌↔◌, Bool, true, false, not, Option, none, some, List, [], ◌∷◌, Bytes, codes,
  ==_iff, nonempty, member, All, Distinct, arith, Bool-cases, inl, inr,
}
use argocd_cluster_registrar.Common.Result.{
  Outcome, ok, refuse_if, refuse_if_iff, refuse_if-ok, checked_iff,
}
use argocd_cluster_registrar.Libraries.{Libraries}
use argocd_cluster_registrar.Provider.{Provider}
use argocd_cluster_registrar.Config.{
  no_keys, malformed, no_provider, validate_keys, validate_provider, validate_providers,
  ConfigError, unnamed_provider, invalid_provider_name, duplicate_provider_name, empty_pattern,
  no_secret_keys, bad_pattern,
}

-- None of the texts is among those that were seen.
abbrev Fresh : List Bytes → List Bytes → Type 0
Fresh seen ks = All (λ k. member k seen ≡ false) ks

Fresh-cons :
    (k : Bytes) (seen ks : List Bytes)
    → Fresh (k ∷ seen) ks ↔ ((member k ks ≡ false) × Fresh seen ks)
unfolding member
Fresh-cons k seen [] = (λ h. (refl, tt), λ h. tt)
Fresh-cons k seen (j ∷ ks) =
    let (to, from) = Fresh-cons k seen ks in
    (
      λ h. (
        ground (arith, h.0, (to h.1).0, ==_iff j k, ==_iff k j),
        (ground (arith, h.0), (to h.1).1),
      ),
      λ h. (ground (arith, h.0, h.1.0, ==_iff j k, ==_iff k j), from (ground (arith, h.0), h.1.1)),
    )

validate_keys_iff :
    (seen ks : List Bytes)
    → (validate_keys seen ks ≡ ok tt)
      ↔ (All (λ k. nonempty k ≡ true) ks × Distinct ks × Fresh seen ks)
unfolding validate_keys
validate_keys_iff seen [] = (λ h. (tt, tt, tt), λ h. refl)
validate_keys_iff seen (k ∷ ks) = elim (Bool-cases (nonempty k)) [
  | inr e ↦ rw e (λ h. cc, λ ((full, _), _, _). cc)
  | inl e ↦ rw e (elim (Bool-cases (member k seen)) [
    | inl m ↦ rw m (λ h. cc, λ (_, _, (new, _)). cc)
    | inr m ↦
        let (to, from) = validate_keys_iff (k ∷ seen) ks in
        let (split, join) = Fresh-cons k seen ks in
        rw m (
          λ h.
              let (full, distinct, fresh) = to h in
              let (new, rest) = split fresh in ((refl, full), (new, distinct), (refl, rest)),
          λ ((_, full), (new, distinct), (_, rest)). from (full, distinct, join (new, rest)),
        )
  ])
]

pub nothing-Fresh : (ks : List Bytes) → Fresh [] ks
unfolding member
nothing-Fresh [] = tt
nothing-Fresh (k ∷ ks) = (refl, nothing-Fresh ks)

-- The names of provisioners, in their order.
pub names : List Provider → List Bytes
names [] = []
names (p ∷ ps) = p.name ∷ names ps

pub passed :
    (bad : Bool) (failure : ConfigError)
    → bad ≡ false
    → ◌≡◌ {A = Outcome ConfigError (Unit {0})} (refuse_if bad failure) (ok tt)
passed false failure e = refl
passed true failure e = cc

module _ (lib : Libraries) where
  -- One shape of a provisioner.
  pub record IsProvider (p : Provider) : Type 0 where
    pub named : nonempty p.name ≡ true
    pub labels_well : lib.is_valid_label_value p.name ≡ true
    pub patterned : nonempty p.secret_name_pattern ≡ true
    pub compiles : lib.path_match p.secret_name_pattern (codes "probe") ≢ none
    pub keyed : p.secret_keys ≢ []
    pub full : All (λ k. nonempty k ≡ true) p.secret_keys
    pub keys_distinct : Distinct p.secret_keys

  no_keys_iff : (ks : List Bytes) → (no_keys ks ≡ false) ↔ (ks ≢ [])
  unfolding no_keys
  no_keys_iff [] = (λ h. cc, λ h. absurd (h refl))
  no_keys_iff (k ∷ ks) = (λ h e. cc, λ h. refl)

  malformed_iff : (o : Option Bool) → (malformed o ≡ false) ↔ (o ≢ none)
  unfolding malformed
  malformed_iff none = (λ h. cc, λ h. absurd (h refl))
  malformed_iff (some b) = (λ h e. cc, λ h. refl)

  validate_provider_iff :
      (seen : List Bytes) (p : Provider)
      → (validate_provider lib seen p ≡ ok tt) ↔ (IsProvider p × (member p.name seen ≡ false))
  unfolding validate_provider
  validate_provider_iff seen p = (to, from)
    where
      to : validate_provider lib seen p ≡ ok tt → IsProvider p × (member p.name seen ≡ false)
      to h =
          let (named, h1) = (refuse_if_iff (not (nonempty p.name)) unnamed_provider _ tt).0 h in
          let (label, h2) =
            (refuse_if_iff (not (lib.is_valid_label_value p.name)) invalid_provider_name _ tt).0
              h1 in
          let (new, h3) = (refuse_if_iff (member p.name seen) duplicate_provider_name _ tt).0 h2 in
          let (pattern', h4) =
            (refuse_if_iff (not (nonempty p.secret_name_pattern)) empty_pattern _ tt).0 h3 in
          let (keyed, h5) = (refuse_if_iff (no_keys p.secret_keys) no_secret_keys _ tt).0 h4 in
          let (keys, h6) = (checked_iff (validate_keys [] p.secret_keys) _ tt).0 h5 in
          let (full, distinct, _) = (validate_keys_iff [] p.secret_keys).0 keys in
          let shape : IsProvider p = record {
            named = ground (arith, named);
            labels_well = ground (arith, label);
            patterned = ground (arith, pattern');
            compiles = (malformed_iff _).0 (refuse_if-ok _ bad_pattern h6);
            keyed = (no_keys_iff p.secret_keys).0 keyed;
            full = full;
            keys_distinct = distinct;
          } in
          (shape, ground (arith, new))

      from : IsProvider p × (member p.name seen ≡ false) → validate_provider lib seen p ≡ ok tt
      from (v, new) = (refuse_if_iff (not (nonempty p.name)) unnamed_provider _ tt).1 (
        ground (arith, v.named),
        (refuse_if_iff (not (lib.is_valid_label_value p.name)) invalid_provider_name _ tt).1 (
          ground (arith, v.labels_well),
          (refuse_if_iff (member p.name seen) duplicate_provider_name _ tt).1 (
            new,
            (refuse_if_iff (not (nonempty p.secret_name_pattern)) empty_pattern _ tt).1 (
              ground (arith, v.patterned),
              (refuse_if_iff (no_keys p.secret_keys) no_secret_keys _ tt).1 (
                (no_keys_iff p.secret_keys).1 v.keyed,
                (checked_iff (validate_keys [] p.secret_keys) _ tt).1 (
                  (validate_keys_iff [] p.secret_keys).1
                      (v.full, v.keys_distinct, nothing-Fresh p.secret_keys),
                  passed (malformed _) _ ((malformed_iff _).1 v.compiles),
                ),
              ),
            ),
          ),
        ),
      )

  pub validate_providers_iff :
      (seen : List Bytes) (ps : List Provider)
      → (validate_providers lib seen ps ≡ ok tt)
        ↔ (All IsProvider ps × Distinct (names ps) × Fresh seen (names ps))
  unfolding validate_providers names
  validate_providers_iff seen [] = (λ h. (tt, tt, tt), λ h. refl)
  validate_providers_iff seen (p ∷ ps) =
      let (to, from) = validate_providers_iff (p.name ∷ seen) ps in
      let (split, join) = Fresh-cons p.name seen (names ps) in
      (
        λ h.
            let (one, more) = (checked_iff (validate_provider lib seen p) _ tt).0 h in
            let (v, old) = (validate_provider_iff seen p).0 one in
            let (vs, distinct, fresh) = to more in
            let (new, rest) = split fresh in ((v, vs), (new, distinct), (old, rest)),
        λ ((v, vs), (new, distinct), (old, rest)).
            (checked_iff (validate_provider lib seen p) _ tt).1
              ((validate_provider_iff seen p).1 (v, old), from (vs, distinct, join (new, rest))),
      )

  pub no_provider_iff : (ps : List Provider) → (no_provider lib ps ≡ false) ↔ (ps ≢ [])
  unfolding no_provider
  no_provider_iff [] = (λ h. cc, λ h. absurd (h refl))
  no_provider_iff (p ∷ ps) = (λ h e. cc, λ h. refl)
