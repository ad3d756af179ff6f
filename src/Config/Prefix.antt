-- ===== src/Config/Prefix.antt =====
-- What the checks of the label prefix rule out.
use argocd_cluster_registrar.Common.{
  ◌≡◌, refl, true, false, not, ◌&&◌, [], ◌∷◌, ◌++◌, Bytes, codes, ◌==◌, nonempty, has_prefix,
  has_suffix, contains_byte, arith, pos, ltb_ℤ,
}
use argocd_cluster_registrar.Common.Result.{ok, refuse_if, refuse_if-ok, >>=-eq-ok}
use argocd_cluster_registrar.Labels.{argo_domain}
use argocd_cluster_registrar.Libraries.{Libraries}
use argocd_cluster_registrar.Config.{
  Config, no_provider, validate, validate_prefix, validate_providers, empty_target_namespace,
  empty_managed_by, no_providers, prefix_over_argo, negative_ttl, empty_prefix,
  prefix_without_slash,
}

-- The end of a text that another starts with is in the other.
contains_byte_of_prefix :
    (s p : Bytes)
    → has_prefix s p ≡ true
    → has_suffix p (b'/' ∷ []) ≡ true
    → contains_byte s b'/' ≡ true
unfolding has_prefix has_suffix contains_byte ◌==◌
contains_byte_of_prefix s [] h e = cc
contains_byte_of_prefix [] (c ∷ p) h e = cc
contains_byte_of_prefix (x ∷ s) (c ∷ []) h e = ground arith
contains_byte_of_prefix (x ∷ s) (c ∷ d ∷ p) h e = ground (arith, contains_byte_of_prefix s (d ∷ p))

-- A text that ends in a slash and starts a key of a domain starts the domain.
prefix_of_domain :
    (domain name p : Bytes)
    → contains_byte name b'/' ≡ false
    → has_suffix p (b'/' ∷ []) ≡ true
    → has_prefix (domain ++ name) p ≡ true
    → has_prefix domain p ≡ true
unfolding has_prefix has_suffix ◌==◌
prefix_of_domain [] name [] n e h = refl
prefix_of_domain (x ∷ domain) name [] n e h = refl
prefix_of_domain [] name (c ∷ p) n e h = cc (contains_byte_of_prefix name (c ∷ p) h e, n)
prefix_of_domain (x ∷ domain) name (c ∷ []) n e h = ground arith
prefix_of_domain (x ∷ domain) name (c ∷ d ∷ p) n e h =
    ground (arith, prefix_of_domain domain name (d ∷ p) n)

module _ (lib : Libraries) (c : Config) where
  validate_prefix-domain :
      validate_prefix lib c ≡ ok tt
      → (has_prefix argo_domain c.label_prefix ≡ false)
        × (has_suffix c.label_prefix (b'/' ∷ []) ≡ true)
  unfolding validate_prefix
  validate_prefix-domain h =
      let (_, h1, r1) =
        >>=-eq-ok
          (refuse_if (nonempty c.label_prefix && has_prefix argo_domain c.label_prefix)
            prefix_over_argo)
          _ h in
      let (_, h2, r2) = >>=-eq-ok (refuse_if (ltb_ℤ c.demoted_ttl (pos 0)) negative_ttl) _ r1 in
      let (_, h3, r3) = >>=-eq-ok (refuse_if (not (nonempty c.label_prefix)) empty_prefix) _ r2 in
      let (_, h4, _) =
        >>=-eq-ok (refuse_if (not (has_suffix c.label_prefix (codes "/"))) prefix_without_slash) _
          r3 in
      (
        ground (
          arith,
          refuse_if-ok (nonempty c.label_prefix && has_prefix argo_domain c.label_prefix)
              prefix_over_argo h1,
          refuse_if-ok (not (nonempty c.label_prefix)) empty_prefix h3,
        ),
        ground (
          arith,
          refuse_if-ok (not (has_suffix c.label_prefix (codes "/"))) prefix_without_slash h4,
        ),
      )

  validate-prefix : validate lib c ≡ ok tt → validate_prefix lib c ≡ ok tt
  unfolding validate
  validate-prefix h =
      let (_, _, r1) =
        >>=-eq-ok (refuse_if (not (nonempty c.target_namespace)) empty_target_namespace) _ h in
      let (_, _, r2) =
        >>=-eq-ok (refuse_if (not (nonempty c.managed_by_value)) empty_managed_by) _ r1 in
      let (_, _, r3) = >>=-eq-ok (refuse_if (no_provider lib c.providers) no_providers) _ r2 in
      let (_, _, r4) = >>=-eq-ok (validate_providers lib [] c.providers) _ r3 in r4

  -- With a configuration that Validate accepts, no key of ArgoCD's domain whose name has no slash
  -- starts with the label prefix.
  pub validate-argo_key :
      (name : Bytes)
      → validate lib c ≡ ok tt
      → contains_byte name b'/' ≡ false
      → has_prefix (argo_domain ++ name) c.label_prefix ≡ false
  validate-argo_key name h n =
      let (over, slash) = validate_prefix-domain (validate-prefix h) in
      ground (arith, prefix_of_domain argo_domain name c.label_prefix n slash)
