-- ===== src/Kubeconfig/Parse/Carried.antt =====
-- What a kubeconfig that is accepted comes to: the address, and the one credential.
use argocd_cluster_registrar.Common.{
  ◌≡◌, refl, sym, subst, ap, ◌⊎◌, inl, inr, Bool, true, false, not, ◌&&◌, Option, none, some, [],
  ◌∷◌, Bytes, member, nonempty, Bool-cases, trim_right, arith,
}
use argocd_cluster_registrar.Common.Result.{
  Outcome, ok, err, refuse_if, refuse_if-ok, ok_injective, >>=-eq-ok,
}
use argocd_cluster_registrar.Argo.{ArgoClusterConfig}
use argocd_cluster_registrar.Kubeconfig.{
  Kubeconfig, KubeconfigCluster, KubeconfigUser, KubeconfigExec, ResolveError, resolve,
}
use argocd_cluster_registrar.Libraries.{Libraries}
use argocd_cluster_registrar.Exec.{ExecError, ExecCredential, translate_exec}
use argocd_cluster_registrar.Exec.Shape.{IsArgo, translate_exec-IsArgo}
use argocd_cluster_registrar.Kubeconfig.Parse.{
  ParseError, ParsedKubeconfig, bad_yaml, bad_json, no_server, bad_server, in_cluster, bad_proxy,
  bad_proxy_scheme, proxy_credentials, proxy_insecure, exec_not_allowed, proxy_schemes,
  is_in_cluster_server, parse_proxy_url, base_config, translated, exec_config, with_credentials,
  unmarshalled, resolved, usable, refuse_uncarried, parse_kubeconfig,
}

-- Exactly one kind of credential, and the others are left out.
pub data IsCredential (u : KubeconfigUser) (allow_exec : Bool) (cfg : ArgoClusterConfig)
    : Type 0 where
  by_certificate :
      cfg.tls_client_config.cert_data ≡ u.client_certificate_data
      → cfg.tls_client_config.key_data ≡ u.client_key_data
      → nonempty cfg.tls_client_config.cert_data ≡ true
      → nonempty cfg.tls_client_config.key_data ≡ true
      → cfg.bearer_token ≡ []
      → cfg.aws_auth_config ≡ none
      → cfg.exec_provider_config ≡ none
      → IsCredential u allow_exec cfg
  by_token :
      cfg.bearer_token ≡ u.token
      → nonempty cfg.bearer_token ≡ true
      → cfg.tls_client_config.cert_data ≡ []
      → cfg.tls_client_config.key_data ≡ []
      → cfg.aws_auth_config ≡ none
      → cfg.exec_provider_config ≡ none
      → IsCredential u allow_exec cfg
  by_exec :
      allow_exec ≡ true
      → IsArgo (record { aws = cfg.aws_auth_config; exec = cfg.exec_provider_config })
      → cfg.bearer_token ≡ []
      → cfg.tls_client_config.cert_data ≡ []
      → cfg.tls_client_config.key_data ≡ []
      → IsCredential u allow_exec cfg

-- The connection is that of the kubeconfig.
abbrev pub SameConnection : KubeconfigCluster → ArgoClusterConfig → Type 0
SameConnection c cfg =
    (cfg.tls_client_config.insecure ≡ c.insecure_skip_tls_verify)
    × (cfg.tls_client_config.ca_data ≡ c.certificate_authority_data)
    × (cfg.tls_client_config.server_name ≡ c.tls_server_name)

abbrev Carried :
    KubeconfigCluster → KubeconfigUser → Bool → Bytes → ArgoClusterConfig × Bytes → Type 0
Carried c u allow_exec proxy r =
    IsCredential u allow_exec r.0 × SameConnection c r.0 × (r.0.proxy_url ≡ proxy)

translated-eq :
    (m : Outcome ExecError ExecCredential) (cred : ExecCredential)
    → translated m ≡ ok cred
    → m ≡ ok cred
unfolding translated
translated-eq (err x) cred t = cc
translated-eq (ok cr) cred t = ap ok (ok_injective t)

exec_config-Carried :
    (c : KubeconfigCluster) (u : KubeconfigUser) (allow_exec : Bool) (proxy : Bytes)
    (o : Option KubeconfigExec) (r : ArgoClusterConfig × Bytes)
    → exec_config allow_exec (base_config c proxy) o ≡ ok r
    → Carried c u allow_exec proxy r
unfolding exec_config base_config
exec_config-Carried c u allow_exec proxy none r h = cc
exec_config-Carried c u allow_exec proxy (some e) r h =
    let (_, passed, h1) = >>=-eq-ok (refuse_if (not allow_exec) exec_not_allowed) _ h in
    let (cred, tr, h2) = >>=-eq-ok (translated (translate_exec e)) _ h1 in
    subst (Carried c u allow_exec proxy) (ok_injective h2) (
      by_exec (ground (arith, refuse_if-ok (not allow_exec) exec_not_allowed passed))
          (translate_exec-IsArgo e cred (translated-eq (translate_exec e) cred tr)) refl refl refl,
      (refl, refl, refl),
      refl,
    )

with_credentials-Carried :
    (c : KubeconfigCluster) (u : KubeconfigUser) (allow_exec : Bool) (proxy : Bytes)
    (r : ArgoClusterConfig × Bytes)
    → with_credentials allow_exec u (base_config c proxy) ≡ ok r
    → Carried c u allow_exec proxy r
unfolding with_credentials base_config
with_credentials-Carried c u allow_exec proxy r =
    elim (Bool-cases (nonempty u.client_certificate_data && nonempty u.client_key_data)) [
      | inl e ↦ rw e λ h. subst (Carried c u allow_exec proxy) (ok_injective h) (
        by_certificate refl refl (ground arith) (ground arith) refl refl refl,
        (refl, refl, refl),
        refl,
      )
      | inr e ↦ rw e (elim (Bool-cases (nonempty u.token)) [
        | inl t ↦ rw t λ h.
            subst (Carried c u allow_exec proxy) (ok_injective h)
              (by_token refl t refl refl refl refl, (refl, refl, refl), refl)
        | inr t ↦ rw t (exec_config-Carried c u allow_exec proxy u.exec r)
      ])
    ]

-- What was read and what is written.
pub record IsAccepted (lib : Libraries) (raw : Bytes) (allow_exec : Bool) (p : ParsedKubeconfig)
    : Type 0 where
  pub kubeconfig : Kubeconfig
  pub cluster : KubeconfigCluster
  pub user : KubeconfigUser
  pub config : ArgoClusterConfig
  pub read : lib.unmarshal_kubeconfig raw ≡ some kubeconfig
  pub current : resolve kubeconfig ≡ ok (cluster, user)
  pub server : p.server ≡ trim_right cluster.server b'/'
  pub remote : is_in_cluster_server lib p.server ≡ false
  pub written : lib.marshal_config config ≡ some p.config
  pub credential : IsCredential user allow_exec config
  pub connection : SameConnection cluster config
  pub proxy : (config.proxy_url ≡ []) ⊎ (cluster.insecure_skip_tls_verify ≡ false)

unmarshalled-eq :
    {A : Type 0} (e : ParseError) (o : Option A) (a : A) → unmarshalled e o ≡ ok a → o ≡ some a
unfolding unmarshalled
unmarshalled-eq e none a h = cc
unmarshalled-eq e (some b) a h = ap some (ok_injective h)

resolved-eq :
    (m : Outcome ResolveError (KubeconfigCluster × KubeconfigUser))
    (r : KubeconfigCluster × KubeconfigUser)
    → resolved m ≡ ok r
    → m ≡ ok r
unfolding resolved
resolved-eq (err e) r h = cc
resolved-eq (ok cu) r h = ap ok (ok_injective h)

-- A proxy is let through only where TLS is verified.
parse_proxy_url-verified :
    (lib : Libraries) (raw : Bytes) (insecure : Bool) (proxy : Bytes)
    → parse_proxy_url lib raw insecure ≡ ok proxy
    → (proxy ≡ []) ⊎ (insecure ≡ false)
unfolding parse_proxy_url
parse_proxy_url-verified lib [] insecure proxy h = inl (sym (ok_injective h))
parse_proxy_url-verified lib (c ∷ raw) insecure proxy h =
    let (url, _, h1) = >>=-eq-ok (usable bad_proxy (lib.parse_url (c ∷ raw))) _ h in
    let (_, _, h2) =
      >>=-eq-ok (refuse_if (not (member url.scheme proxy_schemes)) bad_proxy_scheme) _ h1 in
    let (_, _, h3) = >>=-eq-ok (refuse_if url.has_user proxy_credentials) _ h2 in
    let (_, verified, _) = >>=-eq-ok (refuse_if insecure proxy_insecure) _ h3 in
    inr (refuse_if-ok insecure proxy_insecure verified)

-- A kubeconfig that is accepted was read, and its current cluster and user were resolved; the
-- address is that cluster's without trailing slashes and is not ArgoCD's own; the config that is
-- written carries that cluster's TLS settings, a proxy only where TLS is verified, and exactly
-- one kind of credential: that user's certificate and key, or that user's token, or, only if it
-- is allowed, a translated exec plugin of one of ArgoCD's shapes.
pub parse_kubeconfig-IsAccepted :
    (lib : Libraries) (raw : Bytes) (allow_exec : Bool) (p : ParsedKubeconfig)
    → parse_kubeconfig lib raw allow_exec ≡ ok p
    → IsAccepted lib raw allow_exec p
unfolding parse_kubeconfig
parse_kubeconfig-IsAccepted lib raw allow_exec p h =
    let (kc, h_kc, h1) = >>=-eq-ok (unmarshalled bad_yaml (lib.unmarshal_kubeconfig raw)) _ h in
    let ((c, u), h_cu, h2) = >>=-eq-ok (resolved (resolve kc)) _ h1 in
    let (_, _, h3) = >>=-eq-ok (refuse_if (not (nonempty c.server)) no_server) _ h2 in
    let (_, _, h4) = >>=-eq-ok (usable bad_server (lib.parse_url c.server)) _ h3 in
    let (_, far, h5) =
      >>=-eq-ok (refuse_if (is_in_cluster_server lib (trim_right c.server b'/')) in_cluster) _ h4 in
    let (proxy, h_proxy, h6) =
      >>=-eq-ok (parse_proxy_url lib c.proxy_url c.insecure_skip_tls_verify) _ h5 in
    let (_, _, h7) = >>=-eq-ok (refuse_uncarried c u) _ h6 in
    let (r, h_r, h8) = >>=-eq-ok (with_credentials allow_exec u (base_config c proxy)) _ h7 in
    let (blob, h_blob, h9) = >>=-eq-ok (unmarshalled bad_json (lib.marshal_config r.0)) _ h8 in
    let (cred, same, same_proxy) = with_credentials-Carried c u allow_exec proxy r h_r in
    subst (IsAccepted lib raw allow_exec) (ok_injective h9) (record {
      kubeconfig = kc;
      cluster = c;
      user = u;
      config = r.0;
      read = unmarshalled-eq bad_yaml (lib.unmarshal_kubeconfig raw) kc h_kc;
      current = resolved-eq (resolve kc) (c, u) h_cu;
      server = refl;
      remote = refuse_if-ok (is_in_cluster_server lib (trim_right c.server b'/')) in_cluster far;
      written = unmarshalled-eq bad_json (lib.marshal_config r.0) blob h_blob;
      credential = cred;
      connection = same;
      proxy =
          subst (λ t. (t ≡ []) ⊎ (c.insecure_skip_tls_verify ≡ false)) (sym same_proxy)
            (parse_proxy_url-verified lib c.proxy_url c.insecure_skip_tls_verify proxy h_proxy);
    })
