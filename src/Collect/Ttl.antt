-- ===== src/Collect/Ttl.antt =====
-- When a demoted registration has outlived its TTL.
use argocd_cluster_registrar.Common.{
  ℕ, ◌+◌, ◌≤◌, ◌<◌, ◌≡◌, ◌⊎◌, ◌↔◌, refl, sym, ap, ◌∙◌, Bool, true, false, not, Option, none, some,
  nonempty, ℤ, pos, negsuc, ltb_ℤ, time_sub, max_duration, arith,
}
use argocd_cluster_registrar.Api.{now, ret, ◌>>=◌, perform}
use argocd_cluster_registrar.Api.Safe.{History, Saw, done, Runs, Safe-perform, Safe-bind, Safe-if}
use argocd_cluster_registrar.Kube.{Secret}
use argocd_cluster_registrar.Libraries.{Libraries}
use argocd_cluster_registrar.Config.{Config}
use argocd_cluster_registrar.Registrar.{stale_since_of}
use argocd_cluster_registrar.Collect.{outlived, demoted_ttl_expired}

-- The age passes the TTL, where the subtraction stops at int64.
ltb_age :
    (d at since : ℕ)
    → (ltb_ℤ (pos d) (time_sub at since) ≡ true) ↔ ((since + d < at) × (d < max_duration))
unfolding time_sub
ltb_age d at since = ground arith

by_answer : (P : Bool → Type 0) (b : Bool) → (b ≡ true → P true) → (b ≡ false → P false) → P b
by_answer P true h k = h refl
by_answer P false h k = k refl

module _ (lib : Libraries) (cfg : Config) (s : Secret) where
  -- Why the answer is yes or no.
  pub data IsAged (h : History) : Bool → Type 0 where
    unset : ltb_ℤ (pos 0) cfg.demoted_ttl ≡ false → IsAged h false
    unstamped : nonempty (stale_since_of cfg s) ≡ false → IsAged h false
    unreadable : lib.parse_stale_since (stale_since_of cfg s) ≡ none → IsAged h false
    kept :
        (d at since : ℕ)
        → cfg.demoted_ttl ≡ pos d
        → Saw now at h
        → lib.parse_stale_since (stale_since_of cfg s) ≡ some since
        → (at ≤ since + d) ⊎ (max_duration ≤ d)
        → IsAged h false
    expired :
        (d at since : ℕ)
        → cfg.demoted_ttl ≡ pos d
        → Saw now at h
        → lib.parse_stale_since (stale_since_of cfg s) ≡ some since
        → since + d < at
        → d < max_duration
        → IsAged h true

  outlived-IsAged :
      (h : History) (at d since : ℕ)
      → cfg.demoted_ttl ≡ pos d
      → Saw now at h
      → lib.parse_stale_since (stale_since_of cfg s) ≡ some since
      → IsAged h (outlived lib cfg at since)
  unfolding outlived
  outlived-IsAged h at d since ttl saw e =
      let (to, from) = ltb_age d at since in
      let same = ap (λ z. ltb_ℤ z (time_sub at since)) ttl in
      by_answer (IsAged h) (ltb_ℤ cfg.demoted_ttl (time_sub at since))
        (λ y. let (over, short) = to (sym same ∙ y) in expired d at since ttl saw e over short)
        (λ y. kept d at since ttl saw e (ground (arith, ltb_age d at since, sym same ∙ y)))

  -- A demoted registration counts as expired only where a TTL of d is set, with d less than the
  -- greatest duration, and the clock that was read is past the stamp by more than d; it is kept
  -- only where no TTL is set, where there is no stamp or none that parses, or where the clock is
  -- not past the stamp by more than d or d is at least the greatest duration.
  pub demoted_ttl_expired-IsAged : (h : History) → Runs IsAged h (demoted_ttl_expired lib cfg s)
  unfolding demoted_ttl_expired
  demoted_ttl_expired-IsAged h =
      Safe-if (not (ltb_ℤ (pos 0) cfg.demoted_ttl)) (λ e. done (unset (ground (arith, e))))
        λ e.
          Safe-if (not (nonempty (stale_since_of cfg s)))
            (λ e'. done (unstamped (ground (arith, e'))))
            λ e'.
              let (d, ttl) = positive cfg.demoted_ttl (ground (arith, e)) in
              by_stamp d ttl (lib.parse_stale_since (stale_since_of cfg s)) refl
    where
      positive : (z : ℤ) → ltb_ℤ (pos 0) z ≡ true → (d : ℕ) × (z ≡ pos d)
      positive (pos d) e = (d, refl)
      positive (negsuc d) e = cc

      by_stamp :
          (d : ℕ)
          → cfg.demoted_ttl ≡ pos d
          → (o : Option ℕ) → lib.parse_stale_since (stale_since_of cfg s) ≡ o
          → Runs {A = Bool} IsAged h (elim o [
            | none ↦ ret false
            | some since ↦ perform now >>= λ at. ret (outlived lib cfg at since)
          ])
      by_stamp d ttl none e = done (unreadable e)
      by_stamp d ttl (some since) e =
          Safe-bind (Safe-perform h now tt)
            (λ h' at saw. done (outlived-IsAged h' at d since ttl saw e))
