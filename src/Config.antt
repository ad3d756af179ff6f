-- ===== src/Config.antt =====
-- `Config`, `NewWithClient` and `Validate` of internal/registrar/registrar.go.
pub mod Prefix
pub mod Shapes
pub mod Valid
use argocd_cluster_registrar.Common.{
  Bool, true, false, not, ◌&&◌, Option, none, some, List, [], ◌∷◌, Bytes, codes, nonempty,
  has_prefix, has_suffix, member, ℤ, pos, ltb_ℤ, if◌then◌else◌,
}
use argocd_cluster_registrar.Common.Result.{Outcome, ok, err, ◌>>◌, refuse_if}
use argocd_cluster_registrar.Labels
use argocd_cluster_registrar.Labels.{default_label_prefix, argo_domain}
use argocd_cluster_registrar.Libraries.{Libraries}
use argocd_cluster_registrar.Provider.{Provider}

pub record Config : Type 0 where
  pub target_namespace : Bytes
  pub managed_by_value : Bytes
  pub providers : List Provider
  pub label_prefix : Bytes
  pub dry_run : Bool
  pub exec_credentials : Bool
  pub demoted_ttl : ℤ

-- NewWithClient: an empty prefix is the default one.
unfoldable pub with_default_prefix : Config → Config
unfolding nonempty
with_default_prefix cfg =
    if nonempty cfg.label_prefix then cfg else record cfg { label_prefix = default_label_prefix }

pub data ConfigError : Type 0 where
  empty_target_namespace empty_managed_by no_providers : ConfigError
  unnamed_provider invalid_provider_name duplicate_provider_name empty_pattern no_secret_keys :
      ConfigError
  empty_secret_key duplicate_secret_key bad_pattern : ConfigError
  prefix_over_argo negative_ttl empty_prefix prefix_without_slash invalid_prefix : ConfigError

-- The loop over the keys of one provider, with those seen so far.
validate_keys : List Bytes → List Bytes → Outcome ConfigError (Unit {0})
unfolding nonempty member
validate_keys seen [] = ok tt
validate_keys seen (k ∷ ks) =
    let rest = validate_keys (k ∷ seen) ks in
    if not (nonempty k)
    then err empty_secret_key
    else if member k seen
    then err duplicate_secret_key
    else rest

no_keys : List Bytes → Bool
no_keys [] = true
no_keys (k ∷ ks) = false

malformed : Option Bool → Bool
malformed none = true
malformed (some b) = false

module _ (lib : Libraries) where
  unfoldable pub validate_provider : List Bytes → Provider → Outcome ConfigError (Unit {0})
  unfolding validate_keys no_keys malformed
  validate_provider seen p = do
    refuse_if (not (nonempty p.name)) unnamed_provider
    refuse_if (not (lib.is_valid_label_value p.name)) invalid_provider_name
    refuse_if (member p.name seen) duplicate_provider_name
    refuse_if (not (nonempty p.secret_name_pattern)) empty_pattern
    refuse_if (no_keys p.secret_keys) no_secret_keys
    validate_keys [] p.secret_keys
    refuse_if (malformed (lib.path_match p.secret_name_pattern (codes "probe"))) bad_pattern

  -- The loop over the providers, with the names seen so far.
  pub validate_providers : List Bytes → List Provider → Outcome ConfigError (Unit {0})
  unfolding validate_provider
  validate_providers seen [] = ok tt
  validate_providers seen (p ∷ ps) =
      let rest = validate_providers (p.name ∷ seen) ps in validate_provider seen p >> rest

  pub no_provider : List Provider → Bool
  no_provider [] = true
  no_provider (p ∷ ps) = false

  -- The checks of the prefix and of the TTL, which come last.
  validate_prefix : Config → Outcome ConfigError (Unit {0})
  unfolding nonempty has_prefix has_suffix Labels.managed_by_label
  validate_prefix c = do
    refuse_if (nonempty c.label_prefix && has_prefix argo_domain c.label_prefix) prefix_over_argo
    refuse_if (ltb_ℤ c.demoted_ttl (pos 0)) negative_ttl
    refuse_if (not (nonempty c.label_prefix)) empty_prefix
    refuse_if (not (has_suffix c.label_prefix (codes "/"))) prefix_without_slash
    refuse_if (not (lib.is_qualified_name (Labels.managed_by_label c.label_prefix))) invalid_prefix

  unfoldable pub validate : Config → Outcome ConfigError (Unit {0})
  unfolding validate_providers validate_prefix no_provider
  validate c = do
    refuse_if (not (nonempty c.target_namespace)) empty_target_namespace
    refuse_if (not (nonempty c.managed_by_value)) empty_managed_by
    refuse_if (no_provider c.providers) no_providers
    validate_providers [] c.providers
    validate_prefix c
