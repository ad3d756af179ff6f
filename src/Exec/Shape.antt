-- ===== src/Exec/Shape.antt =====
-- What a translated exec plugin is.
use argocd_cluster_registrar.Common.{
  ◌≡◌, refl, subst, inl, inr, Bool, true, not, ◌||◌, Option, none, some, List, [], ◌∷◌, Bytes,
  codes, Assoc, ◌==◌, member, All, nonempty, Bool-cases, Option-cases, insert, remove, keep_keys,
  trim_space, base,
}
use argocd_cluster_registrar.Common.Result.{
  Outcome, ok, err, ◌>>=◌, refuse_if, ok_injective, >>=-eq-ok,
}
use argocd_cluster_registrar.Argo.{ArgoAwsAuthConfig, ArgoExecProviderConfig}
use argocd_cluster_registrar.Kubeconfig.{KubeconfigExec}
use argocd_cluster_registrar.Exec.{
  ExecCredential, ExecError, has_subcommand, not_get_token, argo_auth_command, exec_api_version,
  aws_credential, put_flag, exec_flag, translator, no_equivalent, translate_iam_authenticator,
  translate_aws_cli, translate_kubelogin, translate_exec, require_name, value_or_empty,
  refuse_unsupported_args,
}

-- The variables by which a source may name the target of the authentication.
abbrev pub target_variables : List Bytes
target_variables =
    codes "AWS_REGION" ∷ codes "AAD_SERVER_APPLICATION_ID" ∷ codes "AAD_ENVIRONMENT_NAME" ∷ []

abbrev pub OnlyTargets : Assoc → Type 0
OnlyTargets env = All (λ e. member e.0 target_variables ≡ true) env

-- Exactly one of ArgoCD's two shapes; as a plugin, only ArgoCD's own with variables of the target.
pub data IsArgo (cred : ExecCredential) : Type 0 where
  by_aws : (a : ArgoAwsAuthConfig) → cred.aws ≡ some a → cred.exec ≡ none → IsArgo cred
  by_plugin :
      (x : ArgoExecProviderConfig)
      → cred.aws ≡ none
      → cred.exec ≡ some x
      → x.command ≡ argo_auth_command
      → x.api_version ≡ exec_api_version
      → OnlyTargets x.env
      → IsArgo cred

aws_credential-IsArgo : (name region : Bytes) → IsArgo (aws_credential name region)
unfolding aws_credential member ◌==◌
aws_credential-IsArgo name region = elim (Bool-cases (nonempty region)) [
  | inl e ↦ rw e (by_plugin _ refl refl refl refl (refl, tt))
  | inr e ↦ rw e (by_aws _ refl refl)
]

OnlyTargets-keep_keys :
    (p : Bytes → Bool) (env : Assoc) → OnlyTargets env → OnlyTargets (keep_keys p env)
unfolding keep_keys
OnlyTargets-keep_keys p [] h = tt
OnlyTargets-keep_keys p ((k, v) ∷ env) (h, hs) = elim (Bool-cases (p k)) [
  | inl e ↦ rw e (h, OnlyTargets-keep_keys p env hs)
  | inr e ↦ rw e (OnlyTargets-keep_keys p env hs)
]

OnlyTargets-put_flag :
    (args : List Bytes) (flag key : Bytes) (env : Assoc)
    → member key target_variables ≡ true
    → OnlyTargets env
    → OnlyTargets (put_flag args flag key env)
unfolding put_flag insert remove
OnlyTargets-put_flag args flag key env hk h = elim (Option-cases (exec_flag args (flag ∷ []))) [
  | inl e ↦ rw (e, put_flag) h
  | inr (v, e) ↦ rw (e, put_flag) (hk, OnlyTargets-keep_keys (λ j. not (j == key)) env h)
]

-- A chain whose last step is a value that is one of ArgoCD's.
abbrev Yields : Outcome ExecError ExecCredential → Type 0
Yields m = (cred : ExecCredential) → m ≡ ok cred → IsArgo cred

ok-Yields : (cred : ExecCredential) → IsArgo cred → Yields (ok cred)
ok-Yields cred h c e = subst IsArgo (ok_injective e) h

bind-Yields :
    {A : Type 0} (m : Outcome ExecError A) (f : A → Outcome ExecError ExecCredential)
    → ((a : A) → Yields (f a))
    → Yields (m >>= f)
bind-Yields m f h cred e = let (a, p, q) = >>=-eq-ok m f e in h a cred q

-- The last two steps of both AWS translations.
named-Yields :
    (args : List Bytes) (name : Option Bytes)
    → Yields (
        require_name name >>= λ v.
        ok (aws_credential v (value_or_empty (exec_flag args (codes "--region" ∷ [])))))
unfolding require_name
named-Yields args none cred h = cc
named-Yields args (some v) cred h = ok-Yields _ (aws_credential-IsArgo v _) cred h

translate_iam_authenticator-Yields : (e : KubeconfigExec) → Yields (translate_iam_authenticator e)
unfolding translate_iam_authenticator
translate_iam_authenticator-Yields e =
    bind-Yields
      (refuse_unsupported_args e.args (codes "-i" ∷ codes "--cluster-id" ∷ codes "--region" ∷ [])) _
      λ u. named-Yields e.args (exec_flag e.args (codes "-i" ∷ codes "--cluster-id" ∷ []))

translate_aws_cli-Yields : (e : KubeconfigExec) → Yields (translate_aws_cli e)
unfolding translate_aws_cli
translate_aws_cli-Yields e =
    bind-Yields
      (refuse_if (not (has_subcommand e.args (codes "eks" ∷ codes "get-token" ∷ []))) not_get_token)
      _
      λ u.
        bind-Yields
          (refuse_unsupported_args e.args (
            codes "--region"
            ∷ codes "--cluster-name"
            ∷ codes "--cluster-id"
            ∷ codes "--output"
            ∷ []))
          _
          λ v.
            named-Yields e.args
              (exec_flag e.args (codes "--cluster-name" ∷ codes "--cluster-id" ∷ []))

translate_kubelogin-Yields : (e : KubeconfigExec) → Yields (translate_kubelogin e)
unfolding translate_kubelogin member ◌==◌
translate_kubelogin-Yields e = ok-Yields _ (
    by_plugin _ refl refl refl refl
      (OnlyTargets-put_flag e.args _ _ _ refl (OnlyTargets-put_flag e.args _ _ [] refl tt)))

-- A table entry all of whose translations are ArgoCD's.
data Sound : Option (KubeconfigExec → Outcome ExecError ExecCredential) → Type 0 where
  no_entry : Sound none
  entry :
      {fn : KubeconfigExec → Outcome ExecError ExecCredential}
      → ((e : KubeconfigExec) → Yields (fn e))
      → Sound (some fn)

translator-Sound : (cmd : Bytes) → Sound (translator cmd)
unfolding translator
translator-Sound cmd =
    elim (Bool-cases
      (cmd == codes "aws-iam-authenticator" || cmd == codes "heptio-authenticator-aws")) [
        | inl h ↦ rw h (entry translate_iam_authenticator-Yields)
        | inr h ↦ rw h (elim (Bool-cases (cmd == codes "aws")) [
          | inl h' ↦ rw h' (entry translate_aws_cli-Yields)
          | inr h' ↦ rw h' (elim (Bool-cases (cmd == codes "kubelogin")) [
            | inl h'' ↦ rw h'' (entry translate_kubelogin-Yields)
            | inr h'' ↦ rw h'' no_entry
          ])
        ])
      ]

run-Yields :
    (e : KubeconfigExec) (o : Option (KubeconfigExec → Outcome ExecError ExecCredential))
    → Sound o
    → Yields (elim o [ none ↦ err no_equivalent | some fn ↦ fn e ])
run-Yields e none no_entry cred same = cc
run-Yields e (some fn) (entry h) cred same = h e cred same

-- Whatever plugin a kubeconfig names, its translation, where there is one, has exactly one of
-- ArgoCD's two shapes; where that is a plugin, its command and API version are ArgoCD's own, and
-- its environment sets only variables that name the target.
pub translate_exec-IsArgo :
    (e : KubeconfigExec) (cred : ExecCredential) → translate_exec e ≡ ok cred → IsArgo cred
unfolding translate_exec
translate_exec-IsArgo e =
    bind-Yields _ _
      λ u. run-Yields e (translator (base (trim_space e.command))) (translator-Sound _)
