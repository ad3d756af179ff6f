-- ===== src/Kubeconfig.antt =====
-- The kubeconfig types and `resolve` of internal/registrar/kubeconfig.go.
pub mod Parse
pub mod Current
pub mod Named
pub mod Picked
use argocd_cluster_registrar.Common.{
  ℕ, Bool, true, false, Option, none, some, List, [], ◌∷◌, Bytes, ◌==◌, nonempty, if◌then◌else◌,
}
use argocd_cluster_registrar.Common.Result.{Outcome, ok, err}

-- `env` is read from the YAML and used nowhere.
pub record KubeconfigExec : Type 0 where
  pub api_version : Bytes
  pub command : Bytes
  pub args : List Bytes
  pub env : List (Bytes × Bytes)

pub record KubeconfigCluster : Type 0 where
  pub server : Bytes
  pub certificate_authority_data : Bytes
  pub certificate_authority : Bytes
  pub insecure_skip_tls_verify : Bool
  pub tls_server_name : Bytes
  pub proxy_url : Bytes

-- `auth_provider` holds any YAML value: only whether it is there matters.
pub record KubeconfigUser : Type 0 where
  pub token : Bytes
  pub token_file : Bytes
  pub client_certificate_data : Bytes
  pub client_key_data : Bytes
  pub client_certificate : Bytes
  pub client_key : Bytes
  pub exec : Option KubeconfigExec
  pub auth_provider : Bool

pub record ContextEntry : Type 0 where
  pub name : Bytes
  pub cluster : Bytes
  pub user : Bytes

pub record Kubeconfig : Type 0 where
  pub clusters : List (Bytes × KubeconfigCluster)
  pub users : List (Bytes × KubeconfigUser)
  pub contexts : List ContextEntry
  pub current_context : Bytes

-- The refusals of `resolve`, in the order of the source.
pub data ResolveError : Type 0 where
  no_clusters no_users no_current_context unknown_cluster unknown_user no_context_entry :
      ResolveError

-- The first entry of a name.
unfoldable pub find_named : {A : Type 0} → Bytes → List (Bytes × A) → Option A
find_named name [] = none
find_named name ((n, a) ∷ rest) = if n == name then some a else find_named name rest

pub find_context : Bytes → List ContextEntry → Option ContextEntry
find_context name [] = none
find_context name (c ∷ rest) = if c.name == name then some c else find_context name rest

-- What the loop over the contexts does with the entry that has the name.
resolve_context :
    Kubeconfig → Option ContextEntry → Outcome ResolveError (KubeconfigCluster × KubeconfigUser)
unfolding find_named
resolve_context kc none = err no_context_entry
resolve_context kc (some ctx) = elim (find_named ctx.cluster kc.clusters) [
  | none ↦ err unknown_cluster
  | some cluster ↦ elim (find_named ctx.user kc.users) [
    | none ↦ err unknown_user
    | some user ↦ ok (cluster, user)
  ]
]

resolve_current : Kubeconfig → Outcome ResolveError (KubeconfigCluster × KubeconfigUser)
unfolding resolve_context find_context nonempty
resolve_current kc =
    if nonempty kc.current_context
    then resolve_context kc (find_context kc.current_context kc.contexts)
    else err no_current_context

-- The cases of the two length tests: none, exactly one of each, or more.
resolve_lists :
    Kubeconfig
    → List (Bytes × KubeconfigCluster)
    → List (Bytes × KubeconfigUser)
    → Outcome ResolveError (KubeconfigCluster × KubeconfigUser)
unfolding resolve_current
resolve_lists kc [] users = err no_clusters
resolve_lists kc (c ∷ cs) [] = err no_users
resolve_lists kc ((_, c) ∷ []) ((_, u) ∷ []) = ok (c, u)
resolve_lists kc _ _ = resolve_current kc

unfoldable pub resolve : Kubeconfig → Outcome ResolveError (KubeconfigCluster × KubeconfigUser)
unfolding resolve_lists
resolve kc = resolve_lists kc kc.clusters kc.users
