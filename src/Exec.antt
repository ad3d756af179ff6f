-- ===== src/Exec.antt =====
-- internal/registrar/exec.go: the translation of exec credential plugins into ArgoCD's own.
pub mod Shape
pub mod Lines
use argocd_cluster_registrar.Common.{
  Bool, true, false, not, ◌&&◌, ◌||◌, Option, none, some, List, [], ◌∷◌, ◌++◌, Bytes, codes, Assoc,
  ◌==◌, nonempty, has_prefix, cut_prefix, contains_byte, member, insert, trim_space, base,
  if◌then◌else◌,
}
use argocd_cluster_registrar.Common.Result.{Outcome, ok, err, ◌>>=◌, ◌>>◌, refuse_if}
use argocd_cluster_registrar.Argo.{ArgoAwsAuthConfig, ArgoExecProviderConfig}
use argocd_cluster_registrar.Kubeconfig.{KubeconfigExec}

abbrev pub argo_auth_command : Bytes
argo_auth_command = codes "argocd-k8s-auth"

abbrev pub exec_api_version : Bytes
exec_api_version = codes "client.authentication.k8s.io/v1beta1"

abbrev exec_api_version_v1 : Bytes
exec_api_version_v1 = codes "client.authentication.k8s.io/v1"

pub record ExecCredential : Type 0 where
  pub aws : Option ArgoAwsAuthConfig
  pub exec : Option ArgoExecProviderConfig

-- The refusals, in the order of the source.
pub data ExecError : Type 0 where
  bad_api_version no_equivalent : ExecError
  identity_flag unsupported_flag : Bytes → ExecError
  no_cluster_name not_get_token : ExecError

-- What one name yields at one argument: the next argument, or what follows `name=`.
flag_value : Bytes → List Bytes → Bytes → Option Bytes
flag_value a [] n = cut_prefix a (n ++ codes "=")
flag_value a (v ∷ rest) n = if a == n then some v else cut_prefix a (n ++ codes "=")

first_flag : Bytes → List Bytes → List Bytes → Option Bytes
unfolding flag_value
first_flag a rest [] = none
first_flag a rest (n ∷ ns) =
    let others = first_flag a rest ns in
    elim (flag_value a rest n) [ none ↦ others | some v ↦ some v ]

unfoldable pub exec_flag : List Bytes → List Bytes → Option Bytes
unfolding first_flag
exec_flag [] names = none
exec_flag (a ∷ rest) names =
    let others = exec_flag rest names in
    elim (first_flag a rest names) [ none ↦ others | some v ↦ some v ]

abbrev pub identity_flags : List Bytes
identity_flags = codes "-r" ∷ codes "--role" ∷ codes "--role-arn" ∷ codes "--profile" ∷ []

-- strings.Cut at '=': what stands in front of it.
unfoldable pub flag_name : Bytes → Bytes
flag_name [] = []
flag_name (c ∷ s) = let rest = flag_name s in if contains_byte (c ∷ []) b'=' then [] else c ∷ rest

flag_error : Bytes → ExecError
flag_error name = if member name identity_flags then identity_flag name else unsupported_flag name

-- The loop over the arguments. An allowed flag without '=' takes the next argument with it.
unfoldable pub refuse_unsupported_args : List Bytes → List Bytes → Outcome ExecError (Unit {0})
unfolding flag_error
refuse_unsupported_args [] allowed = ok tt
refuse_unsupported_args (a ∷ []) allowed =
    if not (has_prefix a (codes "-")) || member (flag_name a) allowed
    then ok tt
    else err (flag_error (flag_name a))
refuse_unsupported_args (a ∷ b ∷ rest) allowed =
    let next = refuse_unsupported_args (b ∷ rest) allowed in
    let after = refuse_unsupported_args rest allowed in
    if not (has_prefix a (codes "-"))
    then next
    else if member (flag_name a) allowed
    then (if contains_byte a b'=' then next else after)
    else err (flag_error (flag_name a))

-- The arguments that are neither flags nor the value of a flag without '='.
unfoldable pub positional : List Bytes → List Bytes
positional [] = []
positional (a ∷ []) = if has_prefix a (codes "-") then [] else a ∷ []
positional (a ∷ b ∷ rest) =
    let next = positional (b ∷ rest) in
    let after = positional rest in
    if has_prefix a (codes "-") then (if contains_byte a b'=' then next else after) else a ∷ next

starts_with : List Bytes → List Bytes → Bool
starts_with args [] = true
starts_with [] (w ∷ ws) = false
starts_with (a ∷ args) (w ∷ ws) = a == w && starts_with args ws

-- slices.Equal at each window of the length of `want`.
window : List Bytes → List Bytes → Bool
unfolding starts_with
window [] want = starts_with [] want
window (a ∷ args) want = starts_with (a ∷ args) want || window args want

unfoldable pub has_subcommand : List Bytes → List Bytes → Bool
unfolding window positional
has_subcommand args want = window (positional args) want

-- A region decides the shape: awsAuthConfig has no place for it.
unfoldable pub aws_credential : Bytes → Bytes → ExecCredential
unfolding nonempty
aws_credential cluster_name region =
    if nonempty region
    then record {
      aws = none;
      exec = some (record {
        command = argo_auth_command;
        args = codes "aws" ∷ codes "--cluster-name" ∷ cluster_name ∷ [];
        env = (codes "AWS_REGION", region) ∷ [];
        api_version = exec_api_version;
      });
    }
    else record { aws = some (record { cluster_name = cluster_name }); exec = none }

-- `v, _ := ...`
abbrev value_or_empty : Option Bytes → Bytes
value_or_empty none = []
value_or_empty (some v) = v

require_name : Option Bytes → Outcome ExecError Bytes
require_name none = err no_cluster_name
require_name (some v) = ok v

unfoldable pub translate_iam_authenticator : KubeconfigExec → Outcome ExecError ExecCredential
unfolding require_name
translate_iam_authenticator e = do
  refuse_unsupported_args e.args (codes "-i" ∷ codes "--cluster-id" ∷ codes "--region" ∷ [])
  name ← require_name (exec_flag e.args (codes "-i" ∷ codes "--cluster-id" ∷ []))
  ok (aws_credential name (value_or_empty (exec_flag e.args (codes "--region" ∷ []))))

unfoldable pub translate_aws_cli : KubeconfigExec → Outcome ExecError ExecCredential
unfolding require_name
translate_aws_cli e = do
  refuse_if (not (has_subcommand e.args (codes "eks" ∷ codes "get-token" ∷ []))) not_get_token
  refuse_unsupported_args e.args
      (codes "--region" ∷ codes "--cluster-name" ∷ codes "--cluster-id" ∷ codes "--output" ∷ [])
  name ← require_name (exec_flag e.args (codes "--cluster-name" ∷ codes "--cluster-id" ∷ []))
  ok (aws_credential name (value_or_empty (exec_flag e.args (codes "--region" ∷ []))))

-- `if v, ok := execFlag(...); ok { env[key] = v }`
put_flag : List Bytes → Bytes → Bytes → Assoc → Assoc
put_flag args flag key env = elim (exec_flag args (flag ∷ [])) [
  | none ↦ env
  | some v ↦ insert key v env
]

unfoldable pub translate_kubelogin : KubeconfigExec → Outcome ExecError ExecCredential
unfolding put_flag
translate_kubelogin e =
    let env = put_flag e.args (codes "--server-id") (codes "AAD_SERVER_APPLICATION_ID") [] in
    ok (record {
      aws = none;
      exec = some (record {
        command = argo_auth_command;
        args = codes "azure" ∷ [];
        env = put_flag e.args (codes "--environment") (codes "AAD_ENVIRONMENT_NAME") env;
        api_version = exec_api_version;
      });
    })

-- The table execTranslators, looked up by the command's base name.
unfoldable pub translator : Bytes → Option (KubeconfigExec → Outcome ExecError ExecCredential)
translator cmd =
    if cmd == codes "aws-iam-authenticator" || cmd == codes "heptio-authenticator-aws"
    then some translate_iam_authenticator
    else if cmd == codes "aws"
    then some translate_aws_cli
    else if cmd == codes "kubelogin"
    then some translate_kubelogin
    else none

unfoldable pub translate_exec : KubeconfigExec → Outcome ExecError ExecCredential
unfolding nonempty
translate_exec e = do
  refuse_if
      (nonempty e.api_version
        && not (e.api_version == exec_api_version)
        && not (e.api_version == exec_api_version_v1))
      bad_api_version
  elim (translator (base (trim_space e.command))) [ none ↦ err no_equivalent | some fn ↦ fn e ]
