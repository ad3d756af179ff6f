-- ===== src/Expiry.antt =====
-- internal/registrar/expiry.go: how long the credential of a cluster Secret has left.
pub mod Bounds
use argocd_cluster_registrar.Common.{
  ℕ, ◌*◌, Bool, true, false, not, ◌||◌, Option, none, some, Bytes, nonempty, trim_space, ℤ, pos,
  ltb_ℤ, time_sub, if◌then◌else◌,
}
use argocd_cluster_registrar.Api.{
  Bucket, expired, lt_24h, lt_7d, lt_30d, ok, token, exec, unreadable, absent,
}
use argocd_cluster_registrar.Argo.{ArgoClusterConfig}
use argocd_cluster_registrar.Libraries.{Libraries}

abbrev pub hour : ℕ
hour = 3600000000000

-- The `switch` on the time left.
unfoldable pub classify : ℤ → Bucket
classify left =
    if not (ltb_ℤ (pos 0) left)
    then expired
    else if ltb_ℤ left (pos (24 * hour))
    then lt_24h
    else if ltb_ℤ left (pos (7 * 24 * hour))
    then lt_7d
    else if ltb_ℤ left (pos (30 * 24 * hour))
    then lt_30d
    else ok

unfoldable pub is_some : {A : Type 0} → Option A → Bool
is_some none = false
is_some (some a) = true

infixl 5 ◌>>=◌
-- The steps of a decoding, of which each may fail.
abbrev ◌>>=◌ : {A B : Type 0} → Option A → (A → Option B) → Option B
none >>= next = none
some a >>= next = next a

module _ (lib : Libraries) where
  -- The moment after which the certificate in `certData` is not valid.
  unfoldable pub parse_certificate : Bytes → Option ℕ
  parse_certificate cert_data = do
    der ← lib.decode_base64 cert_data
    block ← lib.decode_pem der
    lib.x509_not_after block

module _ (lib : Libraries) (at : ℕ) where
  -- The bucket of a certificate, with its end.
  unfoldable pub dated : Option ℕ → Bucket × Option ℕ
  unfolding classify time_sub
  dated none = (unreadable, none)
  dated (some not_after) = (classify (time_sub not_after at), some not_after)

  -- The bucket of a config that parses.
  unfoldable pub config_expiry : ArgoClusterConfig → Bucket × Option ℕ
  unfolding dated parse_certificate is_some nonempty
  config_expiry cfg =
      if is_some cfg.aws_auth_config || is_some cfg.exec_provider_config
      then (exec, none)
      else if not (nonempty cfg.tls_client_config.cert_data)
      then (token, none)
      else dated (parse_certificate lib cfg.tls_client_config.cert_data)

  -- The bucket, and the end of the certificate where one was read. bytes.TrimSpace is
  -- strings.TrimSpace on bytes.
  unfoldable pub credential_expiry : Bytes → Bucket × Option ℕ
  unfolding config_expiry trim_space nonempty
  credential_expiry config =
      if not (nonempty (trim_space config))
      then (absent, none)
      else elim (lib.unmarshal_config config) [
        | none ↦ (unreadable, none)
        | some cfg ↦ config_expiry cfg
      ]
