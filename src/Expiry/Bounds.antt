-- ===== src/Expiry/Bounds.antt =====
-- What the bucket of a credential says of the time.
use argocd_cluster_registrar.Common.{
  ℕ, ◌+◌, ◌*◌, ◌≤◌, ◌<◌, ◌≡◌, ◌↔◌, ◌≢◌, ◌⊎◌, inl, inr, refl, true, false, not, ◌||◌, Bool-cases,
  Option, none, some, Bytes, nonempty, trim_space, pos, ltb_ℤ, time_sub, max_duration, arith,
  if_elim, [], ◌∷◌,
}
use argocd_cluster_registrar.Api.{
  Bucket, expired, lt_24h, lt_7d, lt_30d, ok, token, exec, unreadable, absent,
}
use argocd_cluster_registrar.Argo.{ArgoClusterConfig}
use argocd_cluster_registrar.Libraries.{Libraries}
use argocd_cluster_registrar.Expiry.{
  hour, classify, is_some, parse_certificate, dated, config_expiry, credential_expiry,
}

-- The certificate ends at `t`, seen at `at`.
pub data IsDated (at t : ℕ) : Bucket → Type 0 where
  past : t ≤ at → IsDated at t expired
  day : at < t → t < at + 24 * hour → IsDated at t lt_24h
  week : at + 24 * hour ≤ t → t < at + 7 * 24 * hour → IsDated at t lt_7d
  month : at + 7 * 24 * hour ≤ t → t < at + 30 * 24 * hour → IsDated at t lt_30d
  later : at + 30 * 24 * hour ≤ t → IsDated at t ok

-- The comparison of the time left with a bound, where the subtraction stops at int64.
ltb_time_sub :
    (t at d : ℕ) → d < max_duration → (ltb_ℤ (time_sub t at) (pos d) ≡ true) ↔ (t < at + d)
unfolding time_sub
ltb_time_sub t at d h = ground arith

-- Whether there is time left.
ltb_zero_time_sub : (t at : ℕ) → (ltb_ℤ (pos 0) (time_sub t at) ≡ true) ↔ (at < t)
unfolding time_sub
ltb_zero_time_sub t at = ground arith

classify-IsDated : (at t : ℕ) → IsDated at t (classify (time_sub t at))
unfolding classify
classify-IsDated at t =
    let soon = ltb_time_sub t at (24 * hour) (ground arith) in
    let weekly = ltb_time_sub t at (7 * 24 * hour) (ground arith) in
    let monthly = ltb_time_sub t at (30 * 24 * hour) (ground arith) in
    let left = ltb_zero_time_sub t at in
    if_elim (IsDated at t) (not (ltb_ℤ (pos 0) (time_sub t at)))
      (λ e. past (ground (arith, e, left)))
      λ e0.
        if_elim (IsDated at t) (ltb_ℤ (time_sub t at) (pos (24 * hour)))
          (λ e. day (ground (arith, e0, left)) (soon.0 e))
          λ e1.
            if_elim (IsDated at t) (ltb_ℤ (time_sub t at) (pos (7 * 24 * hour)))
              (λ e. week (ground (arith, e1, soon)) (weekly.0 e))
              λ e2.
                if_elim (IsDated at t) (ltb_ℤ (time_sub t at) (pos (30 * 24 * hour)))
                  (λ e. month (ground (arith, e2, weekly)) (monthly.0 e))
                  λ e3. later (ground (arith, e3, monthly))

module _ (lib : Libraries) (at : ℕ) where
  -- ArgoCD takes its credential from a command or from AWS.
  abbrev pub WithExec : ArgoClusterConfig → Type 0
  WithExec cfg = (cfg.aws_auth_config ≢ none) ⊎ (cfg.exec_provider_config ≢ none)

  abbrev pub WithoutExec : ArgoClusterConfig → Type 0
  WithoutExec cfg = (cfg.aws_auth_config ≡ none) × (cfg.exec_provider_config ≡ none)

  -- The config is not blank, and it is read as `cfg`.
  abbrev pub IsParsed : Bytes → ArgoClusterConfig → Type 0
  IsParsed config cfg =
      (nonempty (trim_space config) ≡ true) × (lib.unmarshal_config config ≡ some cfg)

  -- Why a config is in a bucket: no two of the reasons hold of one config.
  pub data IsRead (config : Bytes) : Bucket × Option ℕ → Type 0 where
    blank : nonempty (trim_space config) ≡ false → IsRead config (absent, none)
    corrupt :
        nonempty (trim_space config) ≡ true
        → lib.unmarshal_config config ≡ none
        → IsRead config (unreadable, none)
    minted :
        (cfg : ArgoClusterConfig) → IsParsed config cfg → WithExec cfg → IsRead config (exec, none)
    bearer :
        (cfg : ArgoClusterConfig)
        → IsParsed config cfg
        → WithoutExec cfg
        → cfg.tls_client_config.cert_data ≡ []
        → IsRead config (token, none)
    undecodable :
        (cfg : ArgoClusterConfig)
        → IsParsed config cfg
        → WithoutExec cfg
        → cfg.tls_client_config.cert_data ≢ []
        → parse_certificate lib cfg.tls_client_config.cert_data ≡ none
        → IsRead config (unreadable, none)
    certified :
        (cfg : ArgoClusterConfig) (t : ℕ) (bucket : Bucket)
        → IsParsed config cfg
        → WithoutExec cfg
        → cfg.tls_client_config.cert_data ≢ []
        → parse_certificate lib cfg.tls_client_config.cert_data ≡ some t
        → IsDated at t bucket
        → IsRead config (bucket, some t)

  is_some-ne : {A : Type 0} (o : Option A) → is_some o ≡ true → o ≢ none
  unfolding is_some
  is_some-ne none e = λ n. cc
  is_some-ne (some a) e = λ n. cc

  none_of_not_some : {A : Type 0} (o : Option A) → is_some o ≡ false → o ≡ none
  unfolding is_some
  none_of_not_some none e = refl
  none_of_not_some (some a) e = cc

  with_exec :
      (cfg : ArgoClusterConfig)
      → (is_some cfg.aws_auth_config || is_some cfg.exec_provider_config) ≡ true
      → WithExec cfg
  with_exec cfg e = elim (Bool-cases (is_some cfg.aws_auth_config)) [
    | inl a ↦ inl (is_some-ne cfg.aws_auth_config a)
    | inr a ↦ inr (is_some-ne cfg.exec_provider_config (ground (arith, a, e)))
  ]

  without_exec :
      (cfg : ArgoClusterConfig)
      → (is_some cfg.aws_auth_config || is_some cfg.exec_provider_config) ≡ false
      → WithoutExec cfg
  without_exec cfg e = (
    none_of_not_some cfg.aws_auth_config (ground (arith, e)),
    none_of_not_some cfg.exec_provider_config (ground (arith, e)),
  )

  config_expiry-IsRead :
      (config : Bytes) (cfg : ArgoClusterConfig)
      → IsParsed config cfg
      → IsRead config (config_expiry lib at cfg)
  unfolding config_expiry dated
  config_expiry-IsRead config cfg u =
      if_elim (IsRead config) (is_some cfg.aws_auth_config || is_some cfg.exec_provider_config)
        (λ e. minted cfg u (with_exec cfg e))
        λ e.
          if_elim (IsRead config) (not (nonempty cfg.tls_client_config.cert_data))
            (λ e'. bearer cfg u (without_exec cfg e) (of_empty _ e'))
            λ e'.
              by_certificate (without_exec cfg e) (of_nonempty _ e')
                (parse_certificate lib cfg.tls_client_config.cert_data) refl
    where
      of_empty : (s : Bytes) → not (nonempty s) ≡ true → s ≡ []
      of_empty [] e = refl
      of_empty (x ∷ s) e = ground (arith, e)

      of_nonempty : (s : Bytes) → not (nonempty s) ≡ false → s ≢ []
      of_nonempty [] e = λ n. ground (arith, e)
      of_nonempty (x ∷ s) e = λ n. cc (n)

      by_certificate :
          WithoutExec cfg
          → cfg.tls_client_config.cert_data ≢ []
          → (o : Option ℕ) → parse_certificate lib cfg.tls_client_config.cert_data ≡ o
          → IsRead config (dated lib at o)
      by_certificate plain some_cert none e = undecodable cfg u plain some_cert e
      by_certificate plain some_cert (some t) e =
          certified cfg t _ u plain some_cert e (classify-IsDated at t)

  -- Every bucket of a credential has its reason: a blank config; one that cannot be read; exec,
  -- where the config names a command or AWS, whatever certificate it has; else a token, where it
  -- has no certificate; else a certificate that cannot be read, or one whose end lies within the
  -- bounds of its bucket from the present moment, lower bounds included and upper bounds not,
  -- although the time left stops at the bounds of int64.
  pub credential_expiry-IsRead : (config : Bytes) → IsRead config (credential_expiry lib at config)
  unfolding credential_expiry
  credential_expiry-IsRead config =
      if_elim (IsRead config) (not (nonempty (trim_space config))) (λ e. blank (ground (arith, e)))
        (λ b. by_config (ground (arith, b)) (lib.unmarshal_config config) refl)
    where
      by_config :
          nonempty (trim_space config) ≡ true
          → (o : Option ArgoClusterConfig) → lib.unmarshal_config config ≡ o
          → IsRead config
              (elim o [ none ↦ (unreadable, none) | some cfg ↦ config_expiry lib at cfg ])
      by_config b none e = corrupt b e
      by_config b (some cfg) e = config_expiry-IsRead config cfg (b, e)
