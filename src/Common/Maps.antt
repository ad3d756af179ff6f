-- ===== src/Common/Maps.antt =====
-- Go's maps with string keys as association lists. Iteration order is unspecified in Go, so
-- nothing that the model computes may rest on the order of the entries.
use mathlib.Core.Path.{◌≡◌, refl}
use mathlib.Core.Bool.{Bool, true, false, not}
use mathlib.Core.List.{List, [], ◌∷◌}
use mathlib.Core.Option.{Option, none, some}
use native.Mathlib.Omega.{arith}
use argocd_cluster_registrar.Common.Tests.{if◌then◌else◌}
use argocd_cluster_registrar.Common.Text.{Bytes, ◌==◌, ==_iff, ==_refl}

abbrev pub Assoc : Type 0
Assoc = List (Bytes × Bytes)

-- `v, ok := m[k]`
unfoldable pub lookup : Bytes → Assoc → Option Bytes
lookup k [] = none
lookup k ((j, v) ∷ m) = if j == k then some v else lookup k m

-- `m[k]`, which is "" where the key is missing
unfoldable pub get : Assoc → Bytes → Bytes
unfolding lookup
get m k = elim (lookup k m) [ none ↦ [] | some v ↦ v ]

unfoldable pub has_key : Bytes → Assoc → Bool
unfolding lookup
has_key k m = elim (lookup k m) [ none ↦ false | some v ↦ true ]

-- The entries whose key passes a test: what `delete` in a loop over the keys leaves.
unfoldable pub keep_keys : (Bytes → Bool) → Assoc → Assoc
keep_keys p [] = []
keep_keys p ((j, v) ∷ m) = let rest = keep_keys p m in if p j then (j, v) ∷ rest else rest

-- delete(m, k)
unfoldable pub remove : Bytes → Assoc → Assoc
unfolding keep_keys
remove k m = keep_keys (λ j. not (j == k)) m

-- m[k] = v
unfoldable pub insert : Bytes → Bytes → Assoc → Assoc
unfolding remove
insert k v m = (k, v) ∷ remove k m

-- maps.Copy(dst, src)
unfoldable pub copy : Assoc → Assoc → Assoc
unfolding insert
copy dst [] = dst
copy dst ((k, v) ∷ src) = insert k v (copy dst src)

-- what the first map has, else what the second has
abbrev pub or_else : Option Bytes → Option Bytes → Option Bytes
or_else none o = o
or_else (some v) o = some v

pub lookup-keep_keys :
    (p : Bytes → Bool) (k : Bytes) (m : Assoc)
    → lookup k (keep_keys p m) ≡ (if p k then lookup k m else none)
unfolding lookup keep_keys
lookup-keep_keys p k [] = ground arith
lookup-keep_keys p k ((j, v) ∷ m) = ground (arith, lookup-keep_keys p k m, ==_iff j k)

pub lookup-remove :
    (k j : Bytes) (m : Assoc) → lookup j (remove k m) ≡ (if k == j then none else lookup j m)
unfolding remove
lookup-remove k j m =
    ground (arith, lookup-keep_keys (λ i. not (i == k)) j m, ==_iff j k, ==_iff k j)

pub lookup-insert :
    (k j v : Bytes) (m : Assoc) → lookup j (insert k v m) ≡ (if k == j then some v else lookup j m)
unfolding insert lookup
lookup-insert k j v m = ground (arith, lookup-remove k j m)

pub lookup-copy :
    (k : Bytes) (dst src : Assoc) → lookup k (copy dst src) ≡ or_else (lookup k src) (lookup k dst)
unfolding copy lookup
lookup-copy k dst [] = refl
lookup-copy k dst ((j, v) ∷ src) =
    ground (arith, lookup-insert j k v (copy dst src), lookup-copy k dst src)

lookup-insert_self : (k v : Bytes) (m : Assoc) → lookup k (insert k v m) ≡ some v
lookup-insert_self k v m = simp (lookup-insert, ==_refl)

lookup-remove_self : (k : Bytes) (m : Assoc) → lookup k (remove k m) ≡ none
lookup-remove_self k m = simp (lookup-remove, ==_refl)

pub ruleset assoc_laws = (lookup-keep_keys, lookup-remove, lookup-insert, lookup-copy)
