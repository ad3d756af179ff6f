-- ===== src/Options/Runnable.antt =====
-- What the controller can rely on once the flags are accepted.
use argocd_cluster_registrar.Common.{
  ◌≡◌, refl, subst, true, false, not, none, Bytes, nonempty, pos, ltb_ℤ, Bool-cases, inl, inr,
  arith,
}
use argocd_cluster_registrar.Common.Result.{
  Outcome, ok, err, ok_injective, refuse_if, refuse_if-ok, >>=-eq-ok,
}
use argocd_cluster_registrar.Libraries.{Libraries}
use argocd_cluster_registrar.Config.{ConfigError, validate}
use argocd_cluster_registrar.Options.{
  Flags, Options, interval_not_positive, from_config, config_of, lease_of, resolve_providers,
  leader_election_id, build_options,
}

pub record IsRunnable (lib : Libraries) (o : Options) : Type 0 where
  pub comes_back : ltb_ℤ (pos 0) o.ctrl.interval ≡ true
  pub checked : validate lib o.cfg ≡ ok tt
  pub no_dry_leader : o.cfg.dry_run ≡ true → o.ctrl.leader_election ≡ false
  pub lease : nonempty o.ctrl.leader_election_id ≡ true
  pub connects_itself : o.ctrl.rest_config ≡ none

from_config-eq : (m : Outcome ConfigError (Unit {0})) → from_config m ≡ ok tt → m ≡ ok tt
unfolding from_config
from_config-eq (ok u) h = refl
from_config-eq (err e) h = cc

lease_of-nonempty :
    (lib : Libraries) (f : Flags) (lease : Bytes)
    → lease_of lib f ≡ ok lease
    → nonempty lease ≡ true
unfolding lease_of leader_election_id nonempty
lease_of-nonempty lib f lease = elim (Bool-cases f.leader_election_id_changed) [
  | inr e ↦ rw e λ h. subst (λ s. nonempty s ≡ true) (ok_injective h) refl
  | inl e ↦ rw e (elim (Bool-cases (nonempty f.leader_election_id)) [
    | inl full ↦ rw full λ h. subst (λ s. nonempty s ≡ true) (ok_injective h) full
    | inr empty ↦ rw empty λ h. cc
  ])
]

-- Flags that are accepted give a positive interval, a configuration that Validate accepts, a
-- lease name that is not empty, no leader election in a dry run, and no injected connection.
pub build_options-IsRunnable :
    (lib : Libraries) (f : Flags) (o : Options) → build_options lib f ≡ ok o → IsRunnable lib o
unfolding build_options
build_options-IsRunnable lib f o h =
    let (_, h1, r1) =
      >>=-eq-ok (refuse_if (not (ltb_ℤ (pos 0) f.interval)) interval_not_positive) _ h in
    let (ps, _, r2) = >>=-eq-ok (resolve_providers f) _ r1 in
    let (_, h3, r3) = >>=-eq-ok (from_config (validate lib (config_of f ps))) _ r2 in
    let (lease, h4, r4) = >>=-eq-ok (lease_of lib f) _ r3 in
    subst (IsRunnable lib) (ok_injective r4) (record {
      comes_back =
          ground (arith, refuse_if-ok (not (ltb_ℤ (pos 0) f.interval)) interval_not_positive h1);
      checked = from_config-eq (validate lib (config_of f ps)) h3;
      no_dry_leader = λ dry. ground (arith, dry);
      lease = lease_of-nonempty lib f lease h4;
      connects_itself = refl;
    })
