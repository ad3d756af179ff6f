-- ===== src/Apply/Live.antt =====
-- The steps of `apply` without dry-run.
use argocd_cluster_registrar.Common.{◌≡◌, refl, ap, Bool, true, false, not, if◌then◌else◌}
use argocd_cluster_registrar.Api.{ret}
use argocd_cluster_registrar.Kube.{Secret}
use argocd_cluster_registrar.Config.{Config}
use argocd_cluster_registrar.Registrar.{Child, allowed, and_then}
use argocd_cluster_registrar.Ownership.{check_ownership, claim_contested_name, claim_server}
use argocd_cluster_registrar.Apply.{
  changed, wanted, create_wanted, register, update_merged, claim_if_moved, refresh,
}

pub refresh-drifted :
    (cfg : Config) (s : Secret) (c : Child)
    → changed s (wanted cfg c) cfg.label_prefix ≡ true
    → cfg.dry_run ≡ false
    → refresh cfg s c
      ≡ and_then
          (check_ownership cfg s c)
          (and_then (claim_if_moved cfg s c) (update_merged cfg s c))
unfolding refresh
refresh-drifted cfg s c drifted live = by_tests _ _ drifted live
  where
    by_tests :
        (drift dry : Bool)
        → drift ≡ true
        → dry ≡ false
        → and_then (check_ownership cfg s c) (
            if not drift
            then ret allowed
            else and_then
                (claim_if_moved cfg s c)
                (if dry then ret allowed else update_merged cfg s c))
          ≡ and_then
              (check_ownership cfg s c)
              (and_then (claim_if_moved cfg s c) (update_merged cfg s c))
    by_tests true false e f = refl
    by_tests true true e f = cc
    by_tests false dry e f = cc

pub register-live :
    (cfg : Config) (c : Child)
    → cfg.dry_run ≡ false
    → register cfg c
      ≡ and_then (claim_contested_name cfg c) (and_then (claim_server cfg c) (create_wanted cfg c))
unfolding register
register-live cfg c live =
    ap
      (λ (dry : Bool).
        and_then (claim_contested_name cfg c)
          (and_then (claim_server cfg c) (if dry then ret allowed else create_wanted cfg c)))
      live
