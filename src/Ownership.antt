-- ===== src/Ownership.antt =====
-- Who may write a cluster Secret: `checkOwnership`, `claimContestedName`, `claimServer` and
-- `namespaceExists` of internal/registrar/registrar.go.
pub mod Oldest
pub mod Exclusive
use argocd_cluster_registrar.Common.{
  ℕ, Bool, true, false, not, ◌&&◌, ◌||◌, Option, none, some, List, [], ◌∷◌, Bytes, codes, ◌==◌, get,
  nonempty, less, ltb, eqb, trim_right, if◌then◌else◌,
}
use argocd_cluster_registrar.Labels.{argo_secret_type_label, argo_secret_type_value}
use argocd_cluster_registrar.Api.{
  Prog, ret, ◌>>=◌, ◌>>◌, perform, Found, found, not_found, failed, get_namespace, list_namespaces,
  list_secrets, count_adoption, not_managed, orphan_cluster_mismatch, incumbent, contested_name,
  server_collision,
}
use argocd_cluster_registrar.Kube.{Namespace, Secret}
use argocd_cluster_registrar.Config.{Config}
use argocd_cluster_registrar.Registrar.{
  Child, Verdict, allowed, conflict, broken, list_claimants, list_cluster_secrets, owner_of,
  source_of, cluster_of, is_demoted, is_pinned, claimant_selector,
}

-- The oldest claimant seen so far, "" while there is none.
pub record Winner : Type 0 where
  pub name : Bytes
  pub at : ℕ

abbrev pub nobody : Winner
nobody = record { name = []; at = 0 }

unfoldable pub is_terminating : Namespace → Bool
is_terminating ns = elim ns.deletion_timestamp [ none ↦ false | some t ↦ true ]

-- Whether a claimant displaces the winner so far.
unfoldable pub beats : Namespace → Winner → Bool
unfolding nonempty less
beats ns w =
    not (nonempty w.name)
    || ltb ns.creation_timestamp w.at
    || eqb ns.creation_timestamp w.at && less ns.name w.name

unfoldable pub better : Namespace → Winner → Winner
better ns w =
    if is_terminating ns
    then w
    else if beats ns w
    then record { name = ns.name; at = ns.creation_timestamp }
    else w

unfoldable pub oldest : List Namespace → Winner → Winner
oldest [] w = w
oldest (ns ∷ rest) w = oldest rest (better ns w)

-- The award of a name that nobody holds yet.
unfoldable pub award : List Namespace → Child → Verdict
award items c =
    let winner = (oldest items nobody).name in
    if not (nonempty winner) || winner == c.namespace then allowed else conflict contested_name

module _ (cfg : Config) where
  unfoldable pub check_ownership : Secret → Child → Prog Verdict
  unfolding owner_of source_of cluster_of nonempty
  check_ownership existing c =
      let src = source_of cfg existing in
      if not (owner_of cfg existing == cfg.managed_by_value)
      then ret (conflict not_managed)
      else if src == c.namespace
      then ret allowed
      else if nonempty src
      then ret (conflict incumbent)
      else if not (cluster_of cfg existing == c.cluster)
      then ret (conflict orphan_cluster_mismatch)
      else perform count_adoption >> ret allowed

  unfoldable pub claim_contested_name : Child → Prog Verdict
  unfolding award
  claim_contested_name c = do
    answer ← perform (list_namespaces (claimant_selector cfg c.cluster))
    ret (elim answer [ none ↦ broken list_claimants | some items ↦ award items c ])

  -- Any uncertainty answers yes.
  unfoldable pub namespace_exists : Bytes → Prog Bool
  namespace_exists name = do
    answer ← perform (get_namespace name)
    ret (elim answer [ found ns ↦ true | not_found ↦ false | failed ↦ true ])

  -- Whether a Secret can hold the address against the child at all: it is not from the child's
  -- namespace, it is live, and it has the address.
  unfoldable pub holds_server : Secret → Child → Bool
  unfolding source_of is_demoted trim_right nonempty
  holds_server s c =
      not (nonempty (source_of cfg s) && source_of cfg s == c.namespace)
      && not (is_demoted cfg s)
      && trim_right (get s.data' (codes "server")) b'/' == c.server

  -- Whether the holder keeps its address: always, unless it is not pinned and its source
  -- namespace is gone.
  unfoldable pub keeps_server : Secret → Prog Bool
  unfolding is_pinned nonempty namespace_exists
  keeps_server s =
      if not (is_pinned cfg s) && nonempty (source_of cfg s)
      then namespace_exists (source_of cfg s)
      else ret true

  unfoldable pub check_servers : List Secret → Child → Prog Verdict
  unfolding holds_server keeps_server
  check_servers [] c = ret allowed
  check_servers (s ∷ rest) c =
      let others = check_servers rest c in
      if holds_server s c
      then (keeps_server s >>= λ kept. if kept then ret (conflict server_collision) else others)
      else others

  unfoldable pub claim_server : Child → Prog Verdict
  unfolding check_servers
  claim_server c = do
    answer ←
        perform (
          list_secrets cfg.target_namespace ((argo_secret_type_label, argo_secret_type_value) ∷ []))
    elim answer [ none ↦ ret (broken list_cluster_secrets) | some items ↦ check_servers items c ]
