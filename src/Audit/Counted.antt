-- ===== src/Audit/Counted.antt =====
-- What the loop of the audit counts.
use argocd_cluster_registrar.Common.{
  ℕ, suc, ◌+◌, ◌≡◌, ◌≢◌, refl, ap, subst, ◌∙◌, ◌↔◌, true, false, ◌&&◌, List, [], ◌∷◌, codes, Bytes,
  get, nonempty, arith, Bool-cases, inl, inr,
}
use argocd_cluster_registrar.Api.{
  RegistrationState, active, demoted, Bucket, expired, lt_24h, lt_7d, lt_30d, ok, token, exec,
  unreadable, absent,
}
use argocd_cluster_registrar.Expiry.{credential_expiry}
use argocd_cluster_registrar.Kube.{Secret}
use argocd_cluster_registrar.Labels
use argocd_cluster_registrar.Libraries.{Libraries}
use argocd_cluster_registrar.Config.{Config}
use argocd_cluster_registrar.Registrar.{is_demoted, source_of}
use argocd_cluster_registrar.Audit.{
  Counts, same_state, same_bucket, increment, state_of, bucket_of, count_secret, count_secrets,
}

-- So many elements satisfy the predicate.
pub data Count {A : Type 0} (P : A → Type 0) : List A → ℕ → Type 0 where
  none_left : Count P [] 0
  counted : {x : A} {xs : List A} {n : ℕ} → P x → Count P xs n → Count P (x ∷ xs) (suc n)
  skipped : {x : A} {xs : List A} {n : ℕ} → (P x → ⊥) → Count P xs n → Count P (x ∷ xs) n

same_bucket_refl : (b : Bucket) → same_bucket b b ≡ true
unfolding same_bucket
same_bucket_refl expired = refl
same_bucket_refl lt_24h = refl
same_bucket_refl lt_7d = refl
same_bucket_refl lt_30d = refl
same_bucket_refl ok = refl
same_bucket_refl token = refl
same_bucket_refl exec = refl
same_bucket_refl unreadable = refl
same_bucket_refl absent = refl

same_bucket-eq : (a b : Bucket) → same_bucket a b ≡ true → a ≡ b
unfolding same_bucket
same_bucket-eq expired expired e = refl
same_bucket-eq lt_24h lt_24h e = refl
same_bucket-eq lt_7d lt_7d e = refl
same_bucket-eq lt_30d lt_30d e = refl
same_bucket-eq ok ok e = refl
same_bucket-eq token token e = refl
same_bucket-eq exec exec e = refl
same_bucket-eq unreadable unreadable e = refl
same_bucket-eq absent absent e = refl
same_bucket-eq _ _ e = cc

nonempty-ne : (s : Bytes) → nonempty s ≡ true → s ≢ []
unfolding nonempty
nonempty-ne s e n = ground (arith, ap nonempty n, e)

empty_of_not : (s : Bytes) → nonempty s ≡ false → s ≡ []
unfolding nonempty
empty_of_not [] e = refl
empty_of_not (x ∷ s) e = cc

module _ (lib : Libraries) (cfg : Config) where
  -- A registration is demoted where it carries the type that it had, and else active.
  abbrev pub HasState : RegistrationState → Secret → Type 0
  HasState active s = get s.labels (Labels.orphaned_secret_type_label cfg.label_prefix) ≡ []
  HasState demoted s = get s.labels (Labels.orphaned_secret_type_label cfg.label_prefix) ≢ []

  -- The Secret belongs to the series, by its labels and by its credential at the moment `at`.
  abbrev pub InSeries : ℕ → RegistrationState → Bucket → Secret → Type 0
  InSeries at state b s =
      HasState state s × ((credential_expiry lib at (get s.data' (codes "config"))).0 ≡ b)

  -- The Secret records no source namespace.
  abbrev pub Unrouted : Secret → Type 0
  Unrouted s = get s.labels (Labels.source_namespace_label cfg.label_prefix) ≡ []

  same_state_iff :
      (s : Secret) (state : RegistrationState)
      → (same_state (state_of lib cfg s) state ≡ true) ↔ HasState state s
  unfolding same_state state_of is_demoted
  same_state_iff s active =
      let mark = get s.labels (Labels.orphaned_secret_type_label cfg.label_prefix) in
      elim (Bool-cases (nonempty mark)) [
        | inl e ↦ (λ h. absurd (ground (arith, h, e)), λ h. absurd (nonempty-ne mark e h))
        | inr e ↦ (λ h. empty_of_not mark e, λ h. ground (arith, e))
      ]
  same_state_iff s demoted =
      let mark = get s.labels (Labels.orphaned_secret_type_label cfg.label_prefix) in
      elim (Bool-cases (nonempty mark)) [
        | inl e ↦ (λ h. nonempty-ne mark e, λ h. ground (arith, e))
        | inr e ↦ (λ h. absurd (ground (arith, h, e)), λ h. absurd (h (empty_of_not mark e)))
      ]

  module _ (at : ℕ) where
    -- The test of one series decides whether the Secret belongs to it.
    InSeries-iff :
        (s : Secret) (state : RegistrationState) (b : Bucket)
        → ((same_state (state_of lib cfg s) state && same_bucket (bucket_of lib cfg at s) b) ≡ true)
          ↔ InSeries at state b s
    unfolding bucket_of
    InSeries-iff s state b =
        let (to, from) = same_state_iff s state in
        let bucket = (credential_expiry lib at (get s.data' (codes "config"))).0 in
        (
          λ e. (to (ground (arith, e)), same_bucket-eq bucket b (ground (arith, e))),
          λ (h, e).
              ground (
                arith,
                from h,
                subst (λ x. same_bucket bucket x ≡ true) e (same_bucket_refl bucket),
              ),
        )

    pub count_secrets-counts :
        (items : List Secret) (c : Counts) (state : RegistrationState) (b : Bucket)
        → (n : ℕ) × Count (InSeries at state b) items n
          × ((count_secrets lib cfg at items c).counts state b ≡ n + c.counts state b)
    unfolding count_secrets count_secret increment
    count_secrets-counts [] c state b = (0, none_left, ground arith)
    count_secrets-counts (s ∷ rest) c state b =
        let (n, k, e) = count_secrets-counts rest (count_secret lib cfg at s c) state b in
        let (to, from) = InSeries-iff s state b in
        elim (Bool-cases
          (same_state (state_of lib cfg s) state && same_bucket (bucket_of lib cfg at s) b)) [
            | inl t ↦ (suc n, counted (to t) k, e ∙ ground (arith, t))
            | inr t ↦ (n, skipped (λ p. ground (arith, t, from p)) k, e ∙ ground (arith, t))
          ]

    pub count_secrets-unrouted :
        (items : List Secret) (c : Counts)
        → (n : ℕ) × Count Unrouted items n
          × ((count_secrets lib cfg at items c).unrouted ≡ n + c.unrouted)
    unfolding count_secrets count_secret source_of
    count_secrets-unrouted [] c = (0, none_left, ground arith)
    count_secrets-unrouted (s ∷ rest) c =
        let (n, k, e) = count_secrets-unrouted rest (count_secret lib cfg at s c) in
        let source = get s.labels (Labels.source_namespace_label cfg.label_prefix) in
        elim (Bool-cases (nonempty source)) [
          | inl t ↦ (n, skipped (nonempty-ne source t) k, e ∙ ground (arith, t))
          | inr t ↦ (suc n, counted (empty_of_not source t) k, e ∙ ground (arith, t))
        ]
