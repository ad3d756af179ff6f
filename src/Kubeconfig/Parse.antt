-- ===== src/Kubeconfig/Parse.antt =====
-- `parseKubeconfig` of internal/registrar/kubeconfig.go. The result of json.Marshal and the
-- results of url.Parse come from the libraries; the refusals are values, without their texts.
pub mod Carried
use argocd_cluster_registrar.Common.{
  ◌+◌, Bool, false, not, ◌&&◌, ◌||◌, Option, none, some, List, [], ◌∷◌, Bytes, codes, nonempty,
  member, trim_right, base, leb, eqb, if◌then◌else◌,
}
use argocd_cluster_registrar.Common.Result.{Outcome, ok, err, ◌>>=◌, ◌>>◌, refuse_if}
use argocd_cluster_registrar.Argo.{ArgoClusterConfig}
use argocd_cluster_registrar.Kubeconfig.{
  KubeconfigCluster, KubeconfigUser, KubeconfigExec, ResolveError, resolve,
}
use argocd_cluster_registrar.Libraries.{Libraries, Url}
use argocd_cluster_registrar.Exec.{ExecError, ExecCredential, translate_exec}

pub data ParseError : Type 0 where
  bad_yaml : ParseError
  unresolved : ResolveError → ParseError
  no_server bad_server in_cluster : ParseError
  bad_proxy bad_proxy_scheme proxy_credentials proxy_insecure : ParseError
  ca_by_path credentials_by_path auth_provider_plugin : ParseError
  exec_not_allowed : ParseError
  exec_refused : ExecError → ParseError
  no_credentials bad_json : ParseError

pub record ParsedKubeconfig : Type 0 where
  pub server : Bytes
  pub config : Bytes
  pub insecure : Bool
  pub exec_command : Bytes

-- strings.ToLower as far as a comparison with an ASCII text can tell: the capitals, and the two
-- other code points whose lower case is ASCII, U+0130 and U+212A.
unfoldable pub to_lower : Bytes → Bytes
to_lower [] = []
to_lower (c ∷ []) = (if leb b'A' c && leb c b'Z' then c + 32 else c) ∷ []
to_lower (c ∷ d ∷ []) =
    let rest = to_lower (d ∷ []) in
    if eqb c 0xc4 && eqb d 0xb0
    then b'i' ∷ []
    else (if leb b'A' c && leb c b'Z' then c + 32 else c) ∷ rest
to_lower (c ∷ d ∷ e ∷ s) =
    let next = to_lower (d ∷ e ∷ s) in
    let after_two = to_lower (e ∷ s) in
    let after_three = to_lower s in
    if eqb c 0xc4 && eqb d 0xb0
    then b'i' ∷ after_two
    else if eqb c 0xe2 && eqb d 0x84 && eqb e 0xaa
    then b'k' ∷ after_three
    else (if leb b'A' c && leb c b'Z' then c + 32 else c) ∷ next

abbrev pub in_cluster_hosts : List Bytes
in_cluster_hosts =
    codes "kubernetes.default.svc"
    ∷ codes "kubernetes.default.svc:443"
    ∷ codes "kubernetes.default"
    ∷ codes "kubernetes.default:443"
    ∷ codes "kubernetes.default.svc.cluster.local"
    ∷ codes "kubernetes.default.svc.cluster.local:443"
    ∷ []

abbrev pub proxy_schemes : List Bytes
proxy_schemes = codes "http" ∷ codes "https" ∷ codes "socks5" ∷ codes "socks5h" ∷ []

-- `kc.resolve()` within the parser's errors.
resolved :
    Outcome ResolveError (KubeconfigCluster × KubeconfigUser)
    → Outcome ParseError (KubeconfigCluster × KubeconfigUser)
resolved (ok cu) = ok cu
resolved (err e) = err (unresolved e)

unmarshalled : {A : Type 0} → ParseError → Option A → Outcome ParseError A
unmarshalled e none = err e
unmarshalled e (some a) = ok a

-- A URL with a host, or the error.
usable : ParseError → Option Url → Outcome ParseError Url
unfolding nonempty
usable e none = err e
usable e (some u) = if nonempty u.host then ok u else err e

module _ (lib : Libraries) where
  unfoldable pub is_in_cluster_server : Bytes → Bool
  unfolding member to_lower
  is_in_cluster_server server = elim (lib.parse_url server) [
    | none ↦ false
    | some u ↦ member (to_lower u.host) in_cluster_hosts
  ]

  unfoldable pub parse_proxy_url : Bytes → Bool → Outcome ParseError Bytes
  unfolding usable member
  parse_proxy_url [] insecure = ok []
  parse_proxy_url (c ∷ raw) insecure = do
    p ← usable bad_proxy (lib.parse_url (c ∷ raw))
    refuse_if (not (member p.scheme proxy_schemes)) bad_proxy_scheme
    refuse_if p.has_user proxy_credentials
    refuse_if insecure proxy_insecure
    ok p.text

-- The part of the config that no credential decides.
unfoldable pub base_config : KubeconfigCluster → Bytes → ArgoClusterConfig
base_config c proxy = record {
  bearer_token = [];
  tls_client_config = record {
    insecure = c.insecure_skip_tls_verify;
    ca_data = c.certificate_authority_data;
    cert_data = [];
    key_data = [];
    server_name = c.tls_server_name;
  };
  proxy_url = proxy;
  aws_auth_config = none;
  exec_provider_config = none;
}

translated : Outcome ExecError ExecCredential → Outcome ParseError ExecCredential
translated (ok cred) = ok cred
translated (err e) = err (exec_refused e)

-- The case of the exec plugin: the config and the command that was translated.
exec_config :
    Bool
    → ArgoClusterConfig
    → Option KubeconfigExec
    → Outcome ParseError (ArgoClusterConfig × Bytes)
unfolding translated
exec_config allow_exec cfg none = err no_credentials
exec_config allow_exec cfg (some e) = do
  refuse_if (not allow_exec) exec_not_allowed
  cred ← translated (translate_exec e)
  ok (record cfg { aws_auth_config = cred.aws; exec_provider_config = cred.exec }, base e.command)

-- The `switch` over the credentials: certificates, then a token, then exec.
unfoldable pub with_credentials :
    Bool → KubeconfigUser → ArgoClusterConfig → Outcome ParseError (ArgoClusterConfig × Bytes)
unfolding exec_config
with_credentials allow_exec u cfg =
    if nonempty u.client_certificate_data && nonempty u.client_key_data
    then ok (
      record cfg {
        tls_client_config = record (cfg.tls_client_config) {
          cert_data = u.client_certificate_data;
          key_data = u.client_key_data;
        };
      },
      [],
    )
    else if nonempty u.token
    then ok (record cfg { bearer_token = u.token }, [])
    else exec_config allow_exec cfg u.exec

-- What is refused because it cannot be carried into a Secret.
unfoldable pub refuse_uncarried : KubeconfigCluster → KubeconfigUser → Outcome ParseError (Unit {0})
refuse_uncarried c u = do
  refuse_if (nonempty c.certificate_authority) ca_by_path
  refuse_if (nonempty u.client_certificate || nonempty u.client_key || nonempty u.token_file)
      credentials_by_path
  refuse_if u.auth_provider auth_provider_plugin

unfoldable pub parse_kubeconfig : Libraries → Bytes → Bool → Outcome ParseError ParsedKubeconfig
unfolding unmarshalled resolved usable
parse_kubeconfig lib raw allow_exec = do
  kc ← unmarshalled bad_yaml (lib.unmarshal_kubeconfig raw)
  (c, u) ← resolved (resolve kc)
  refuse_if (not (nonempty c.server)) no_server
  parsed ← usable bad_server (lib.parse_url c.server)
  let server = trim_right c.server b'/'
  refuse_if (is_in_cluster_server lib server) in_cluster
  proxy ← parse_proxy_url lib c.proxy_url c.insecure_skip_tls_verify
  refuse_uncarried c u
  (cfg, exec_command) ← with_credentials allow_exec u (base_config c proxy)
  blob ← unmarshalled bad_json (lib.marshal_config cfg)
  ok (record {
    server = server;
    config = blob;
    insecure = c.insecure_skip_tls_verify;
    exec_command = exec_command;
  })
