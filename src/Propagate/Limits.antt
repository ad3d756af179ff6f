-- ===== src/Propagate/Limits.antt =====
-- What `propagate` lets through.
use argocd_cluster_registrar.Common.{
  ℕ, ◌+◌, ◌≤◌, ◌≡◌, refl, ◌⊎◌, inl, inr, true, false, none, some, List, [], ◌∷◌, Bytes, Assoc,
  ==_iff, get, lookup, has_key, member, keep, less, sort_by, length, All, All-keep, All-sort_by,
  member-keep, member-sort_by, Bool-cases, arith, if◌then◌else◌,
}
use argocd_cluster_registrar.Propagate.{
  PropagateLimits, no_limits, eligible, keys, over_limit, admit, propagate, propagated_labels,
}

-- The bytes of all values.
abbrev pub total_bytes : Assoc → ℕ
total_bytes [] = 0
total_bytes ((k, v) ∷ m) = length v + total_bytes m

-- A bound that is off at zero.
abbrev pub Within : ℕ → ℕ → Type 0
Within bound n = (bound ≡ 0) ⊎ (n ≤ bound)

-- Every entry that is let through has a prefixed key that is not reserved and the value of the
-- map, whole; and each value, the number of entries and the bytes of all values are in bounds.
pub record IsPropagated (m : Assoc) (prefix : Bytes) (lim : PropagateLimits) (out : Assoc)
    : Type 0 where
  pub entries :
      All
        (λ e. (eligible prefix e.0 ≡ true) × (e.1 ≡ get m e.0) × Within lim.value (length e.1))
        out
  pub count : Within lim.count (length out)
  pub total : Within lim.total (total_bytes out)

-- The loop, from what was let through before.
record Admitted (m : Assoc) (prefix : Bytes) (lim : PropagateLimits) (size total : ℕ) (out : Assoc)
    : Type 0 where
  entries :
      All
        (λ e. (eligible prefix e.0 ≡ true) × (e.1 ≡ get m e.0) × Within lim.value (length e.1))
        out
  count : Within lim.count (size + length out)
  total' : Within lim.total (total + total_bytes out)

over_limit-Within :
    (lim : PropagateLimits) (size total len : ℕ)
    → over_limit lim size total len ≡ false
    → Within lim.value len × Within lim.count (size + 1) × Within lim.total (total + len)
unfolding over_limit
over_limit-Within lim size total len h = (ground arith, ground arith, ground arith)

add_entry :
    (m : Assoc) (prefix : Bytes) (lim : PropagateLimits) (k : Bytes) (size total : ℕ) (out : Assoc)
    → eligible prefix k ≡ true
    → Within lim.value (length (get m k))
    → Admitted m prefix lim (size + 1) (total + length (get m k)) out
    → Admitted m prefix lim size total ((k, get m k) ∷ out)
add_entry m prefix lim k size total out hk hv r = record {
  entries = ((hk, refl, hv), r.entries);
  count = ground (arith, r.count);
  total' = ground (arith, r.total');
}

admit-Admitted :
    (m : Assoc) (prefix : Bytes) (lim : PropagateLimits) (ks : List Bytes) (size total : ℕ)
    → All (λ k. eligible prefix k ≡ true) ks
    → Within lim.count size
    → Within lim.total total
    → Admitted m prefix lim size total (admit m lim ks size total).0
unfolding admit
admit-Admitted m prefix lim [] size total h c t = record {
  entries = tt;
  count = ground arith;
  total' = ground arith;
}
admit-Admitted m prefix lim (k ∷ ks) size total (hk, hks) c t =
    elim (Bool-cases (over_limit lim size total (length (get m k)))) [
      | inl over ↦ rw over (admit-Admitted m prefix lim ks size total hks c t)
      | inr fits ↦
          let (hv, hc, ht) = over_limit-Within lim size total (length (get m k)) fits in
          rw fits (
            add_entry m prefix lim k size total
              (admit m lim ks (size + 1) (total + length (get m k))).0 hk hv
              (admit-Admitted m prefix lim ks (size + 1) (total + length (get m k)) hks hc ht))
    ]

-- What propagate lets through are prefixed keys that are not reserved, each with its own
-- unshortened value, within every limit that is not zero: the bytes of a value, the number of
-- entries and the bytes of all values.
pub propagate-IsPropagated :
    (m : Assoc) (prefix : Bytes) (lim : PropagateLimits)
    → IsPropagated m prefix lim (propagate m prefix lim).0
unfolding propagate
propagate-IsPropagated m prefix lim =
    let ks = keep (eligible prefix) (keys m) in
    let r =
      admit-Admitted m prefix lim (sort_by less ks) 0 0
        (All-sort_by less (λ k. eligible prefix k ≡ true) ks (All-keep (eligible prefix) (keys m)))
        (ground arith) (ground arith) in
    record {
      entries = r.entries;
      count = ground (arith, r.count);
      total = ground (arith, r.total');
    }

-- Without limits.
lookup-admit :
    (m : Assoc) (k : Bytes) (ks : List Bytes) (size total : ℕ)
    → lookup k (admit m no_limits ks size total).0 ≡ (if member k ks then some (get m k) else none)
unfolding admit over_limit lookup member
lookup-admit m k [] size total = refl
lookup-admit m k (j ∷ ks) size total =
    ground (arith, lookup-admit m k ks (size + 1) (total + length (get m j)), ==_iff j k)

pub member-keys : (m : Assoc) (k : Bytes) → member k (keys m) ≡ has_key k m
unfolding keys member has_key lookup
member-keys [] k = refl
member-keys ((j, v) ∷ m) k = ground (arith, member-keys m k)

has_key-get : (m : Assoc) (k : Bytes) → (if has_key k m then some (get m k) else none) ≡ lookup k m
unfolding has_key get
has_key-get m k = ground arith

-- The propagated labels hold a key exactly where the key is prefixed and not reserved and the
-- source has it, with the value of the source.
pub lookup-propagated_labels :
    (m : Assoc) (prefix k : Bytes)
    → lookup k (propagated_labels m prefix) ≡ (if eligible prefix k then lookup k m else none)
unfolding propagated_labels propagate
lookup-propagated_labels m prefix k = ground (
  arith,
  lookup-admit m k (sort_by less (keep (eligible prefix) (keys m))) 0 0,
  member-sort_by less k (keep (eligible prefix) (keys m)),
  member-keep (eligible prefix) k (keys m),
  member-keys m k,
  has_key-get m k,
)
