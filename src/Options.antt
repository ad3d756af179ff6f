-- ===== src/Options.antt =====
-- What the flags decide: `resolveProviders` and `buildOptions` of cmd/root.go, and
-- `LeaderElectionID` of internal/registrar/registrar.go. The texts of the warnings are left out.
pub mod Runnable
pub mod Command
pub mod Commanded
use argocd_cluster_registrar.Common.{
  ℕ, suc, zero, ◌+◌, Bool, true, false, not, ◌&&◌, ◌||◌, Option, none, some, List, [], ◌∷◌, ◌++◌,
  Bytes, codes, nonempty, any, ℤ, pos, ltb_ℤ, if◌then◌else◌,
}
use argocd_cluster_registrar.Common.Result.{Outcome, ok, err, ◌>>=◌, ◌>>◌, refuse_if}
use argocd_cluster_registrar.Libraries.{Libraries}
use argocd_cluster_registrar.Runtime.{RestConfig}
use argocd_cluster_registrar.Provider.{Provider, SpecError, preset, parse_provider}
use argocd_cluster_registrar.Config.{Config, ConfigError, validate}

-- The variables of the flags, with whether the user has set the ones where that matters.
pub record Flags : Type 0 where
  pub debug : Bool
  pub once : Bool
  pub dry_run : Bool
  pub interval : ℤ
  pub target_namespace : Bytes
  pub managed_by_value : Bytes
  pub provider_specs : List Bytes
  pub secret_name_pattern : Bytes
  pub secret_name_pattern_changed : Bool
  pub secret_key : Bytes
  pub secret_key_changed : Bool
  pub label_prefix : Bytes
  pub demoted_ttl : ℤ
  pub exec_credentials : Bool
  pub leader_elect : Bool
  pub leader_election_id : Bytes
  pub leader_election_id_changed : Bool
  pub health_probe_bind_address : Bytes
  pub metrics_bind_address : Bytes

-- `rest_config` is nil, that is `none`, where the process connects as it finds itself.
pub record ControllerOptions : Type 0 where
  pub interval : ℤ
  pub leader_election : Bool
  pub leader_election_id : Bytes
  pub health_probe_bind_address : Bytes
  pub rest_config : Option RestConfig
  pub metrics_bind_address : Bytes

pub data Warning : Type 0 where
  election_off exec_without_provider provider_without_exec ttl_below_interval : Warning

pub record Options : Type 0 where
  pub cfg : Config
  pub ctrl : ControllerOptions
  pub warnings : List Warning

pub data OptionsError : Type 0 where
  interval_not_positive mixed_flags empty_lease : OptionsError
  bad_spec : SpecError → OptionsError
  bad_config : ConfigError → OptionsError

take : ℕ → Bytes → Bytes
take zero s = []
take (suc n) [] = []
take (suc n) (c ∷ s) = c ∷ take n s

unfoldable pub leader_election_id : Libraries → Bytes → Bytes → Bytes
unfolding take
leader_election_id lib prefix managed_by =
    codes "acr-" ++ take 16 (lib.sha256_hex (prefix ++ codes "|" ++ managed_by))

-- The error of a call within the errors of buildOptions.
from_spec : Outcome SpecError Provider → Outcome OptionsError Provider
from_spec (ok p) = ok p
from_spec (err e) = err (bad_spec e)

from_config : Outcome ConfigError (Unit {0}) → Outcome OptionsError (Unit {0})
from_config (ok u) = ok u
from_config (err e) = err (bad_config e)

parse_specs : List Bytes → Outcome OptionsError (List Provider)
unfolding from_spec
parse_specs [] = ok []
parse_specs (s ∷ specs) = do p ← from_spec (parse_provider s); ps ← parse_specs specs; ok (p ∷ ps)

-- The shape of the flags from before the specs.
legacy_provider : Flags → Provider
legacy_provider f = record {
  name = codes "custom";
  secret_name_pattern = f.secret_name_pattern;
  secret_keys = f.secret_key ∷ [];
  secret_type = [];
  allow_exec = false;
}

-- `p, _ := Preset("k3k")`
default_provider : Option Provider → Provider
default_provider (some p) = p
default_provider none = record {
  name = [];
  secret_name_pattern = [];
  secret_keys = [];
  secret_type = [];
  allow_exec = false;
}

-- The cases on the list of specs.
providers_of : Flags → Bool → List Bytes → Outcome OptionsError (List Provider)
unfolding parse_specs legacy_provider default_provider
providers_of f legacy [] =
    ok ((if legacy then legacy_provider f else default_provider (preset (codes "k3k"))) ∷ [])
providers_of f legacy (s ∷ specs) =
    let parsed = parse_specs (s ∷ specs) in if legacy then err mixed_flags else parsed

unfoldable pub resolve_providers : Flags → Outcome OptionsError (List Provider)
unfolding providers_of
resolve_providers f =
    providers_of f (f.secret_name_pattern_changed || f.secret_key_changed) f.provider_specs

config_of : Flags → List Provider → Config
config_of f providers = record {
  target_namespace = f.target_namespace;
  managed_by_value = f.managed_by_value;
  providers = providers;
  label_prefix = f.label_prefix;
  dry_run = f.dry_run;
  exec_credentials = f.exec_credentials;
  demoted_ttl = f.demoted_ttl;
}

lease_of : Libraries → Flags → Outcome OptionsError Bytes
unfolding leader_election_id nonempty
lease_of lib f =
    if not f.leader_election_id_changed
    then ok (leader_election_id lib f.label_prefix f.managed_by_value)
    else if nonempty f.leader_election_id
    then ok f.leader_election_id
    else err empty_lease

-- In the order of the source.
warnings_of : Flags → List Provider → List Warning
warnings_of f providers =
    let any_allows_exec = any (λ (p : Provider). p.allow_exec) providers in
    (if f.leader_elect && f.dry_run then election_off ∷ [] else [])
    ++ (if f.exec_credentials && not any_allows_exec
        then exec_without_provider ∷ []
        else if not f.exec_credentials && any_allows_exec
        then provider_without_exec ∷ []
        else [])
    ++ (if ltb_ℤ (pos 0) f.demoted_ttl && ltb_ℤ f.demoted_ttl f.interval
        then ttl_below_interval ∷ []
        else [])

unfoldable pub build_options : Libraries → Flags → Outcome OptionsError Options
unfolding from_config config_of lease_of warnings_of
build_options lib f = do
  refuse_if (not (ltb_ℤ (pos 0) f.interval)) interval_not_positive
  providers ← resolve_providers f
  from_config (validate lib (config_of f providers))
  lease ← lease_of lib f
  ok (record {
    cfg = config_of f providers;
    ctrl = record {
      interval = f.interval;
      leader_election = f.leader_elect && not f.dry_run;
      leader_election_id = lease;
      health_probe_bind_address = f.health_probe_bind_address;
      rest_config = none;
      metrics_bind_address = f.metrics_bind_address;
    };
    warnings = warnings_of f providers;
  })
