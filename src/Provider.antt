-- ===== src/Provider.antt =====
-- The provisioner shapes of internal/registrar/registrar.go: presets, specs and provenance.
pub mod RoundTrip
use argocd_cluster_registrar.Common.{
  ℕ, ◌+◌, Bool, true, false, not, ◌&&◌, Option, none, some, List, [], ◌∷◌, Bytes, codes, ◌==◌,
  nonempty, contains_byte, split, trim_space, keep, any, less, sort_by, if◌then◌else◌,
}
use mathlib.Core.List.{map}
use argocd_cluster_registrar.Common.Result.{Outcome, ok, err}
use argocd_cluster_registrar.Kube.{Secret, OwnerReference}

pub record Provider : Type 0 where
  pub name : Bytes
  pub secret_name_pattern : Bytes
  pub secret_keys : List Bytes
  pub secret_type : Bytes
  pub allow_exec : Bool

-- `c != nil && *c`
is_controller : OwnerReference → Bool
is_controller o = elim o.controller [ none ↦ false | some b ↦ b ]

unfoldable pub provenance : Secret → Provider → ℕ
unfolding is_controller any nonempty
provenance s p =
    (if nonempty p.secret_type && s.type == p.secret_type then 2 else 0)
    + (if any is_controller s.owner_references then 1 else 0)

-- A preset or a parsed shape; the fields that are not given are the zero values.
shape : Bytes → Bytes → List Bytes → Bool → Provider
shape name pattern keys allow_exec = record {
  name = name;
  secret_name_pattern = pattern;
  secret_keys = keys;
  secret_type = [];
  allow_exec = allow_exec;
}

unfoldable pub presets : List (Bytes × Provider)
unfolding shape
presets =
    (
      codes "k3k",
      shape (codes "k3k") (codes "k3k-*-kubeconfig") (codes "kubeconfig.yaml" ∷ []) false,
    )
    ∷ (codes "vcluster", shape (codes "vcluster") (codes "vc-*") (codes "config" ∷ []) false)
    ∷ (
      codes "kamaji",
      shape (codes "kamaji") (codes "*-admin-kubeconfig")
          (codes "admin.conf" ∷ codes "admin.svc" ∷ []) false,
    )
    ∷ (
      codes "capa-eks",
      shape (codes "capa-eks") (codes "*-user-kubeconfig") (codes "value" ∷ []) true,
    )
    ∷ (
      codes "capz-aks",
      shape (codes "capz-aks") (codes "*-kubeconfig-user") (codes "value" ∷ []) true,
    )
    ∷ (
      codes "capi",
      record {
        name = codes "capi";
        secret_name_pattern = codes "*-kubeconfig";
        secret_keys = codes "value" ∷ [];
        secret_type = codes "cluster.x-k8s.io/secret";
        allow_exec = false;
      },
    )
    ∷ []

lookup_preset : Bytes → List (Bytes × Provider) → Option Provider
lookup_preset name [] = none
lookup_preset name ((n, p) ∷ rest) = if n == name then some p else lookup_preset name rest

unfoldable pub preset : Bytes → Option Provider
unfolding lookup_preset presets
preset name = lookup_preset name presets

unfoldable preset_names : List Bytes
unfolding presets sort_by
preset_names = sort_by less (map (λ np. np.0) presets)

pub data SpecError : Type 0 where
  empty_spec unknown_preset malformed_spec fourth_field_not_exec : SpecError

-- The comma-separated keys, trimmed, without the empty ones.
unfoldable pub split_keys : Bytes → List Bytes
unfolding keep split trim_space nonempty
split_keys s = keep nonempty (map trim_space (split s b','))

known_preset : Option Provider → Outcome SpecError Provider
known_preset none = err unknown_preset
known_preset (some p) = ok p

-- What three or four parts stand for.
parse_parts : List Bytes → Outcome SpecError Provider
unfolding shape split_keys
parse_parts (name ∷ pattern ∷ keys ∷ []) =
    ok (shape (trim_space name) (trim_space pattern) (split_keys keys) false)
parse_parts (name ∷ pattern ∷ keys ∷ fourth ∷ []) =
    if trim_space fourth == codes "exec"
    then ok (shape (trim_space name) (trim_space pattern) (split_keys keys) true)
    else err fourth_field_not_exec
parse_parts _ = err malformed_spec

unfoldable pub parse_provider : Bytes → Outcome SpecError Provider
unfolding trim_space nonempty contains_byte known_preset parse_parts
parse_provider spec =
    let s = trim_space spec in
    if not (nonempty s)
    then err empty_spec
    else if not (contains_byte s b'=')
    then known_preset (preset s)
    else parse_parts (split s b'=')
