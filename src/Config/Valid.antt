-- ===== src/Config/Valid.antt =====
-- What Validate accepts, without the order of its checks.
use argocd_cluster_registrar.Common.{
  ◌≡◌, ◌≢◌, ◌↔◌, true, false, not, ◌&&◌, [], codes, nonempty, has_prefix, has_suffix, All, Distinct,
  pos, ltb_ℤ, arith,
}
use argocd_cluster_registrar.Common.Result.{ok, refuse_if_iff, refuse_if-ok, checked_iff}
use argocd_cluster_registrar.Labels
use argocd_cluster_registrar.Labels.{argo_domain}
use argocd_cluster_registrar.Libraries.{Libraries}
use argocd_cluster_registrar.Config.{
  Config, no_provider, validate_providers, validate_prefix, validate, empty_target_namespace,
  empty_managed_by, no_providers, prefix_over_argo, negative_ttl, empty_prefix,
  prefix_without_slash, invalid_prefix,
}
use argocd_cluster_registrar.Config.Shapes.{
  names, nothing-Fresh, passed, IsProvider, validate_providers_iff, no_provider_iff,
}

module _ (lib : Libraries) where
  -- A configuration of the right shape.
  pub record IsValid (c : Config) : Type 0 where
    pub targeted : nonempty c.target_namespace ≡ true
    pub managed : nonempty c.managed_by_value ≡ true
    pub provided : c.providers ≢ []
    pub providers_well : All (IsProvider lib) c.providers
    pub names_distinct : Distinct (names c.providers)
    pub prefixed : nonempty c.label_prefix ≡ true
    pub foreign : has_prefix argo_domain c.label_prefix ≡ false
    pub slashed : has_suffix c.label_prefix (codes "/") ≡ true
    pub qualified : lib.is_qualified_name (Labels.managed_by_label c.label_prefix) ≡ true
    pub lasting : ltb_ℤ c.demoted_ttl (pos 0) ≡ false

  -- Validate accepts exactly the configurations of the right shape, described without the order
  -- of the checks: a target namespace and an owner, at least one provider, distinct provider
  -- names, each provider with a valid name, a well-formed pattern and distinct keys that are not
  -- empty, a qualified prefix that ends in a slash and does not start with ArgoCD's domain, and a
  -- TTL that is not negative.
  pub validate_iff : (c : Config) → (validate lib c ≡ ok tt) ↔ IsValid c
  unfolding validate validate_prefix
  validate_iff c =
      let well = validate_providers_iff lib [] c.providers in
      let some_provider = no_provider_iff lib c.providers in
      let nothing = nothing-Fresh (names c.providers) in
      (
        λ h.
            let (targeted, h1) =
              (refuse_if_iff (not (nonempty c.target_namespace)) empty_target_namespace _ tt).0 h in
            let (managed, h2) =
              (refuse_if_iff (not (nonempty c.managed_by_value)) empty_managed_by _ tt).0 h1 in
            let (provided, h3) =
              (refuse_if_iff (no_provider lib c.providers) no_providers _ tt).0 h2 in
            let (each, h4) = (checked_iff (validate_providers lib [] c.providers) _ tt).0 h3 in
            let (foreign, h5) =
              (refuse_if_iff (nonempty c.label_prefix && has_prefix argo_domain c.label_prefix)
                  prefix_over_argo _ tt).0
                h4 in
            let (lasting, h6) =
              (refuse_if_iff (ltb_ℤ c.demoted_ttl (pos 0)) negative_ttl _ tt).0 h5 in
            let (prefixed, h7) =
              (refuse_if_iff (not (nonempty c.label_prefix)) empty_prefix _ tt).0 h6 in
            let (slashed, h8) =
              (refuse_if_iff (not (has_suffix c.label_prefix (codes "/"))) prefix_without_slash _
                  tt).0
                h7 in
            let qualified = refuse_if-ok _ invalid_prefix h8 in
            let (providers_well, names_distinct, _) = well.0 each in
            record {
              targeted = ground (arith, targeted);
              managed = ground (arith, managed);
              provided = some_provider.0 provided;
              providers_well = providers_well;
              names_distinct = names_distinct;
              prefixed = ground (arith, prefixed);
              foreign = ground (arith, foreign, prefixed);
              slashed = ground (arith, slashed);
              qualified = ground (arith, qualified);
              lasting = lasting;
            },
        λ v. (refuse_if_iff (not (nonempty c.target_namespace)) empty_target_namespace _ tt).1 (
          ground (arith, v.targeted),
          (refuse_if_iff (not (nonempty c.managed_by_value)) empty_managed_by _ tt).1 (
            ground (arith, v.managed),
            (refuse_if_iff (no_provider lib c.providers) no_providers _ tt).1 (
              some_provider.1 v.provided,
              (checked_iff (validate_providers lib [] c.providers) _ tt).1 (
                well.1 (v.providers_well, v.names_distinct, nothing),
                (refuse_if_iff (nonempty c.label_prefix && has_prefix argo_domain c.label_prefix)
                      prefix_over_argo _ tt).1
                    (
                      ground (arith, v.foreign),
                      (refuse_if_iff (ltb_ℤ c.demoted_ttl (pos 0)) negative_ttl _ tt).1 (
                        v.lasting,
                        (refuse_if_iff (not (nonempty c.label_prefix)) empty_prefix _ tt).1 (
                          ground (arith, v.prefixed),
                          (refuse_if_iff (not (has_suffix c.label_prefix (codes "/")))
                                prefix_without_slash _ tt).1
                              (ground (arith, v.slashed), passed _ _ (ground (arith, v.qualified))),
                        ),
                      ),
                    ),
              ),
            ),
          ),
        ),
      )
