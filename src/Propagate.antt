-- ===== src/Propagate.antt =====
-- `propagate` of internal/registrar/registrar.go: the labels and annotations that a source
-- namespace may put on its cluster Secret.
pub mod Limits
pub mod Order
use Prim.Native.Nat.{◌<◌}
use mathlib.Core.List.{map}
use argocd_cluster_registrar.Common.{
  ℕ, ◌+◌, Bool, not, ◌&&◌, ◌||◌, List, [], ◌∷◌, ◌++◌, Bytes, Assoc, get, has_prefix, member, keep,
  less, sort_by, length, ltb, leb, if◌then◌else◌,
}
use argocd_cluster_registrar.Labels.{reserved_suffixes}

-- Zero is unbounded.
pub record PropagateLimits : Type 0 where
  pub value : ℕ
  pub total : ℕ
  pub count : ℕ

abbrev pub annotation_limits : PropagateLimits
annotation_limits = record { value = 4096; total = 32768; count = 32 }

abbrev pub no_limits : PropagateLimits
no_limits = record { value = 0; total = 0; count = 0 }

unfoldable pub reserved_keys : Bytes → List Bytes
reserved_keys prefix = map (λ suffix. prefix ++ suffix) reserved_suffixes

-- The keys that may be copied.
unfoldable pub eligible : Bytes → Bytes → Bool
unfolding has_prefix
eligible prefix k = has_prefix k prefix && not (member k (reserved_keys prefix))

unfoldable pub keys : Assoc → List Bytes
keys m = map (λ e. e.0) m

-- The `switch` of the loop: over a limit. `size` is the number of keys in `out`.
unfoldable pub over_limit : PropagateLimits → ℕ → ℕ → ℕ → Bool
over_limit lim size total len =
    ltb 0 lim.value && ltb lim.value len
    || ltb 0 lim.count && leb lim.count size
    || ltb 0 lim.total && ltb lim.total (total + len)

-- The loop over the sorted keys: what is admitted, with its value, and what is dropped. The keys
-- of a Go map are distinct, so each admitted one is a new entry of `out`.
admit : Assoc → PropagateLimits → List Bytes → ℕ → ℕ → Assoc × List Bytes
unfolding over_limit get
admit m lim [] size total = ([], [])
admit m lim (k ∷ ks) size total =
    let v = get m k in
    let drop = over_limit lim size total (length v) in
    let (out, dropped) =
      admit m lim ks (if drop then size else size + 1) (if drop then total else total + length v) in
    (if drop then out else (k, v) ∷ out, if drop then k ∷ dropped else dropped)

unfoldable pub propagate : Assoc → Bytes → PropagateLimits → Assoc × List Bytes
unfolding admit keys eligible keep sort_by less
propagate m prefix lim = admit m lim (sort_by less (keep (eligible prefix) (keys m))) 0 0

unfoldable pub propagated_labels : Assoc → Bytes → Assoc
propagated_labels m prefix = (propagate m prefix no_limits).0

-- The dropped keys are only logged.
unfoldable pub propagated_annotations : Assoc → Bytes → Assoc
propagated_annotations m prefix = (propagate m prefix annotation_limits).0
