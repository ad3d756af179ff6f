-- ===== src/Tests/Bounds.antt =====
-- The theorems on expiry, on TTLs, on claims and on specs, at concrete inputs.
use argocd_cluster_registrar.Apply.Writes.{writes, allowance, apply-writes}
use argocd_cluster_registrar.Apply.{apply}
use argocd_cluster_registrar.Api.Safe.{Runs}
use argocd_cluster_registrar.Common.{
  ◌≡◌, ◌≤◌, ◌+◌, ◌↔◌, refl, false, none, some, [], ◌∷◌, codes, nonempty, contains_byte, has_prefix,
  has_suffix, member, any, less, In, here, there, Bytes, Printable, is_printable, not, arith, ◌==◌,
}
use argocd_cluster_registrar.Common.Result.{ok}
use argocd_cluster_registrar.Labels
use argocd_cluster_registrar.Labels.{argo_domain}
use argocd_cluster_registrar.Api.Safe.{Runs}
use argocd_cluster_registrar.Kube.{Namespace}
use argocd_cluster_registrar.Libraries.{Libraries}
use argocd_cluster_registrar.Provider.{parse_provider, preset, presets}
use argocd_cluster_registrar.Provider.RoundTrip.{
  IsPrintable, print_provider, parse_provider-print_provider,
}
use argocd_cluster_registrar.Registrar.{Child, allowed}
use argocd_cluster_registrar.Ownership.{award, oldest, better, beats, is_terminating}
use argocd_cluster_registrar.Ownership.Exclusive.{Wins, award_iff, award-exclusive}
use argocd_cluster_registrar.Expiry.{credential_expiry}
use argocd_cluster_registrar.Expiry.Bounds.{IsRead, credential_expiry-IsRead}
use argocd_cluster_registrar.Collect.{demoted_ttl_expired}
use argocd_cluster_registrar.Collect.Ttl.{IsAged, demoted_ttl_expired-IsAged}
use argocd_cluster_registrar.Exec.{refuse_unsupported_args}
use argocd_cluster_registrar.Exec.Lines.{IsLine, refuse_unsupported_args_iff}
use argocd_cluster_registrar.Config.{validate, validate_provider, with_default_prefix}
use argocd_cluster_registrar.Options.{resolve_providers, leader_election_id, build_options}
use argocd_cluster_registrar.Options.Command.{default_flags, start, run_command}
use argocd_cluster_registrar.Options.Commanded.{IsCommanded, run_command-IsCommanded}
use argocd_cluster_registrar.Tests.Data.{
  table, config, child, registration, vcluster, older, younger,
}
use argocd_cluster_registrar.Tests.Starts.{options}

-- A library that reads every config as one with a certificate that ends at 0.
abbrev certified : Libraries
certified = record table {
  unmarshal_config = λ raw. some (record {
    bearer_token = [];
    tls_client_config = record {
      insecure = false;
      ca_data = [];
      cert_data = codes "pem";
      key_data = [];
      server_name = [];
    };
    proxy_url = [];
    aws_auth_config = none;
    exec_provider_config = none;
  });
}

credential_expiry-IsRead_example :
    IsRead certified 5 (codes "{}") (credential_expiry certified 5 (codes "{}"))
credential_expiry-IsRead_example = credential_expiry-IsRead certified 5 (codes "{}")

demoted_ttl_expired-IsAged_example :
    Runs (IsAged table config registration) [] (demoted_ttl_expired table config registration)
demoted_ttl_expired-IsAged_example = demoted_ttl_expired-IsAged table config registration []

refuse_unsupported_args_iff_example :
    (refuse_unsupported_args (codes "token" ∷ codes "-i" ∷ codes "prod" ∷ []) (codes "-i" ∷ [])
      ≡ ok tt)
    ↔ IsLine (codes "-i" ∷ []) (codes "token" ∷ codes "-i" ∷ codes "prod" ∷ [])
refuse_unsupported_args_iff_example =
    refuse_unsupported_args_iff (codes "-i" ∷ []) (codes "token" ∷ codes "-i" ∷ codes "prod" ∷ [])

award_iff_example :
    (award (younger ∷ older ∷ []) child ≡ allowed) ↔ Wins (younger ∷ older ∷ []) child.namespace
unfolding nonempty is_terminating
award_iff_example = award_iff (younger ∷ older ∷ []) child (refl, (refl, tt)) (younger, here, refl)

swapped : {x y ns : Namespace} → In ns (x ∷ y ∷ []) → In ns (y ∷ x ∷ [])
swapped here = there here
swapped (there here) = here
swapped (there (there i)) = elim i [ ]

abbrev rival : Child
rival = record child { provider = codes "capi" }

award-exclusive_example : child.namespace ≡ rival.namespace
unfolding award oldest better beats is_terminating nonempty less ◌==◌
award-exclusive_example =
    award-exclusive (younger ∷ older ∷ []) (older ∷ younger ∷ []) child rival (refl, (refl, tt))
      (refl, (refl, tt)) (λ ns. (swapped, swapped)) (younger, here, refl) refl refl

of_test : (s : Bytes) → any (λ c. not (is_printable c)) s ≡ false → Printable s
unfolding any
of_test [] h = tt
of_test (c ∷ s) h = (ground (arith, h), of_test s (ground (arith, h)))

vcluster-IsPrintable : IsPrintable vcluster
unfolding contains_byte nonempty any
vcluster-IsPrintable = record {
  name = record { printable = of_test (codes "vcluster") refl; unseparated = refl };
  pattern = record { printable = of_test (codes "vc-one") refl; unseparated = refl };
  keys = (
    record {
      field = record { printable = of_test (codes "config") refl; unseparated = refl };
      full = refl;
      single = refl;
    },
    tt,
  );
  untyped = refl;
}

parse_provider-print_provider_example : parse_provider (print_provider vcluster) ≡ ok vcluster
unfolding contains_byte nonempty
parse_provider-print_provider_example = parse_provider-print_provider vcluster vcluster-IsPrintable

run_command-IsCommanded_example :
    IsCommanded table default_flags (start (record options.cfg { dry_run = false }) options.ctrl)
unfolding run_command build_options resolve_providers leader_election_id preset presets validate
    validate_provider nonempty member ◌==◌ has_prefix has_suffix argo_domain Labels.managed_by_label
    any with_default_prefix
run_command-IsCommanded_example =
    run_command-IsCommanded table default_flags []
      (start (record options.cfg { dry_run = false }) options.ctrl) refl

apply-writes_example : Runs (λ h v. writes h ≤ 0 + allowance v) [] (apply config child)
apply-writes_example = apply-writes config child []
