-- ===== src/Discover.antt =====
-- `discoverOne` and `findKubeconfigCandidates` of internal/registrar/registrar.go. Log lines are
-- left out, and so is what only they report: the warning about Secrets that were passed over.
pub mod Trust
pub mod Offers
pub mod Searched
pub mod Ordered
pub mod Ordering
pub mod Found
use argocd_cluster_registrar.Common.{
  ℕ, Bool, true, false, not, ◌&&◌, Option, none, some, List, [], ◌∷◌, ◌++◌, Bytes, get, lookup,
  has_key, nonempty, member, less, sort_by, ltb, any, keep, if◌then◌else◌,
}
use mathlib.Core.List.{map}
use argocd_cluster_registrar.Common.Result.{ok, err}
use argocd_cluster_registrar.Labels
use argocd_cluster_registrar.Api.{Prog, ret, ◌>>=◌, perform, list_secrets}
use argocd_cluster_registrar.Kube.{Namespace, Secret}
use argocd_cluster_registrar.Kubeconfig.{KubeconfigUser}
use argocd_cluster_registrar.Kubeconfig.Parse.{ParsedKubeconfig, parse_kubeconfig}
use argocd_cluster_registrar.Libraries.{Libraries}
use argocd_cluster_registrar.Provider.{Provider, provenance}
use argocd_cluster_registrar.Propagate.{propagated_labels, propagated_annotations}
use argocd_cluster_registrar.Config.{Config}
use argocd_cluster_registrar.Registrar.{Child, secret_name}

pub record Candidate : Type 0 where
  pub secret : Secret
  pub provider : Bytes
  pub key : Bytes
  pub provenance' : ℕ
  pub allow_exec : Bool

-- The variables of the loop over the providers.
pub record Scan : Type 0 where
  pub out : List Candidate
  pub keyless : List Bytes
  pub shadowed : List Bytes
  pub claimed : List Bytes

abbrev pub no_scan : Scan
no_scan = record { out = []; keyless = []; shadowed = []; claimed = [] }

-- An error of the search. Only `api_failure` is one that the caller tells apart.
pub data Search : Type 0 where
  api_failure nothing_matched : Search
  only_keyless : List Bytes → Search
  candidates : List Candidate → (shadowed : List Bytes) → Search

has_exec : Bytes × KubeconfigUser → Bool
has_exec (name, u) = elim u.exec [ none ↦ false | some e ↦ true ]

module _ (lib : Libraries) where
  key_carries_exec : Secret → Bytes → Bool
  unfolding lookup any has_exec
  key_carries_exec s k = elim (lookup k s.data') [
    | none ↦ false
    | some raw ↦ elim (lib.unmarshal_kubeconfig raw) [
      | none ↦ false
      | some kc ↦ any has_exec kc.users
    ]
  ]

  unfoldable pub carries_exec : Secret → List Bytes → Bool
  unfolding any key_carries_exec
  carries_exec s ks = any (key_carries_exec s) ks

  -- One candidate for each key that the Secret has.
  unfoldable pub candidates_of : Provider → Secret → List Candidate
  unfolding keep has_key provenance
  candidates_of p s =
      map
        (λ k. record {
          secret = s;
          provider = p.name;
          key = k;
          provenance' = provenance s p;
          allow_exec = p.allow_exec;
        })
        (keep (λ k. has_key k s.data') p.secret_keys)

  -- The body of the loop over the Secrets that one provider matches. `seenShadowed` of the
  -- source holds the names that are in `shadowed`.
  unfoldable pub scan_secret : Provider → Secret → Scan → Scan
  unfolding member carries_exec candidates_of
  scan_secret p s st =
      if member s.name st.claimed
      then (if p.allow_exec && not (member s.name st.shadowed) && carries_exec s p.secret_keys
          then record st { shadowed = st.shadowed ++ s.name ∷ [] }
          else st)
      else elim (candidates_of p s) [
        | [] ↦ record st { keyless = st.keyless ++ s.name ∷ [] }
        | c ∷ cs ↦ record st { out = st.out ++ c ∷ cs; claimed = s.name ∷ st.claimed }
      ]

  pub scan_secrets : Provider → List Secret → Scan → Scan
  unfolding scan_secret
  scan_secrets p [] st = st
  scan_secrets p (s ∷ rest) st = scan_secrets p rest (scan_secret p s st)

  -- The Secrets whose name the pattern matches; `none` where the pattern is malformed.
  pub matching : Provider → List Secret → Option (List Secret)
  matching p [] = some []
  matching p (s ∷ rest) =
      let others = matching p rest in
      elim (lib.path_match p.secret_name_pattern s.name) [
        | none ↦ none
        | some false ↦ others
        | some true ↦ elim others [ none ↦ none | some found ↦ some (s ∷ found) ]
      ]

  -- The most provisioner-written first, ties in the order of the names.
  unfoldable pub by_provenance : Provider → List Secret → List Secret
  unfolding sort_by
  by_provenance p found = sort_by (λ a b. ltb (provenance b p) (provenance a p)) found

  scan_providers : List Provider → List Secret → Scan → Option Scan
  unfolding matching by_provenance scan_secrets
  scan_providers [] sorted st = some st
  scan_providers (p ∷ ps) sorted st = elim (matching p sorted) [
    | none ↦ none
    | some found ↦ scan_providers ps sorted (scan_secrets p (by_provenance p found) st)
  ]

  -- How the loop's variables are returned.
  pub finish_scan : Option Scan → Search
  finish_scan none = api_failure
  finish_scan (some st) = elim st.out [
    | c ∷ cs ↦ candidates (c ∷ cs) st.shadowed
    | [] ↦ elim st.keyless [ [] ↦ nothing_matched | k ∷ ks ↦ only_keyless (k ∷ ks) ]
  ]

  unfoldable pub search_secrets : List Provider → List Secret → Search
  unfolding finish_scan scan_providers sort_by less
  search_secrets ps secrets =
      finish_scan (scan_providers ps (sort_by (λ a b. less a.name b.name) secrets) no_scan)

  module _ (cfg : Config) where
    unfoldable pub find_kubeconfig_candidates : Bytes → Prog Search
    unfolding search_secrets
    find_kubeconfig_candidates ns_name = do
      answer ← perform (list_secrets ns_name [])
      ret (elim answer [ none ↦ api_failure | some items ↦ search_secrets cfg.providers items ])

    -- The loop over the candidates: the first that parses.
    unfoldable pub first_usable : List Candidate → Option (Candidate × ParsedKubeconfig)
    first_usable [] = none
    first_usable (c ∷ cs) =
        let rest = first_usable cs in
        elim (parse_kubeconfig lib (get c.secret.data' c.key)
          (cfg.exec_credentials && c.allow_exec)) [ err e ↦ rest | ok pk ↦ some (c, pk) ]

    -- The child that a usable candidate makes of its namespace.
    unfoldable pub child_of : Namespace → Candidate → ParsedKubeconfig → Child
    unfolding propagated_labels propagated_annotations
    child_of ns c pk = record {
      cluster = get ns.labels (Labels.cluster_label cfg.label_prefix);
      namespace = ns.name;
      namespace_uid = ns.uid;
      server = pk.server;
      config = pk.config;
      provider = c.provider;
      labels = propagated_labels ns.labels cfg.label_prefix;
      annotations = propagated_annotations ns.annotations cfg.label_prefix;
    }

    usable_child : Namespace → Option (Candidate × ParsedKubeconfig) → Option Child
    unfolding child_of nonempty
    usable_child ns none = none
    usable_child ns (some (c, pk)) = if nonempty c.provider then some (child_of ns c pk) else none

    unfoldable pub choose : Namespace → Search → Option Child
    unfolding first_usable usable_child
    choose ns (candidates cs shadowed) = usable_child ns (first_usable cs)
    choose ns api_failure = none
    choose ns nothing_matched = none
    choose ns (only_keyless names) = none

    unfoldable pub discover_one : Namespace → Prog (Option Child)
    unfolding find_kubeconfig_candidates choose nonempty secret_name
    discover_one ns =
        let name = get ns.labels (Labels.cluster_label cfg.label_prefix) in
        if not (nonempty name)
        then ret none
        else if not (lib.is_dns1123_subdomain (secret_name name))
        then ret none
        else do search ← find_kubeconfig_candidates ns.name; ret (choose ns search)
