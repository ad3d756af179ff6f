-- ===== src/Propagate/Order.antt =====
-- What is copied does not depend on the order in which a map is walked.
use argocd_cluster_registrar.Common.{
  ℕ, ◌≡◌, refl, ◌∙◌, ap, Bool, List, [], ◌∷◌, Bytes, Assoc, get, lookup, has_key, member, keep,
  less, sort_by, Distinct, Ascending, Ascending-unique, sort_by-Ascending, member-sort_by,
  member-keep, arith, if_elim,
}
use argocd_cluster_registrar.Propagate.{PropagateLimits, eligible, keys, admit, propagate}
use argocd_cluster_registrar.Propagate.Limits.{member-keys}

keep-Distinct : (p : Bytes → Bool) (ks : List Bytes) → Distinct ks → Distinct (keep p ks)
unfolding keep
keep-Distinct p [] d = tt
keep-Distinct p (k ∷ ks) (new, d) =
    let rest = keep-Distinct p ks d in
    if_elim Distinct (p k) (λ e. (ground (arith, member-keep p k ks), rest)) (λ e. rest)

admit-get :
    (m n : Assoc) (lim : PropagateLimits) (ks : List Bytes) (size total : ℕ)
    → ((k : Bytes) → get m k ≡ get n k)
    → admit m lim ks size total ≡ admit n lim ks size total
unfolding admit
admit-get m n lim [] size total h = refl
admit-get m n lim (k ∷ ks) size total h = rw (h k) (rw (admit-get m n lim ks _ _ h) refl)

-- Two maps with the same entries.
abbrev pub SameEntries : Assoc → Assoc → Type 0
SameEntries m n = (k : Bytes) → lookup k m ≡ lookup k n

-- Two maps whose keys are distinct and that have the same entries are propagated alike, with the
-- same count of dropped entries, in whatever order each of them is walked.
pub propagate-SameEntries :
    (m n : Assoc) (prefix : Bytes) (lim : PropagateLimits)
    → Distinct (keys m)
    → Distinct (keys n)
    → SameEntries m n
    → propagate m prefix lim ≡ propagate n prefix lim
unfolding propagate get has_key
propagate-SameEntries m n prefix lim dm dn same =
    ap (λ ks. admit m lim ks 0 0) (Ascending-unique _ _ (sorted m dm) (sorted n dn) same_keys)
    ∙ admit-get m n lim (sort_by less (keep (eligible prefix) (keys n))) 0 0
        (λ k. ground (arith, same k))
  where
    sorted :
        (l : Assoc) → Distinct (keys l) → Ascending (sort_by less (keep (eligible prefix) (keys l)))
    sorted l d =
        sort_by-Ascending (keep (eligible prefix) (keys l))
          (keep-Distinct (eligible prefix) (keys l) d)

    same_keys :
        (k : Bytes)
        → member k (sort_by less (keep (eligible prefix) (keys m)))
          ≡ member k (sort_by less (keep (eligible prefix) (keys n)))
    same_keys k = ground (
      arith,
      member-sort_by less k (keep (eligible prefix) (keys m)),
      member-sort_by less k (keep (eligible prefix) (keys n)),
      member-keep (eligible prefix) k (keys m),
      member-keep (eligible prefix) k (keys n),
      member-keys m k,
      member-keys n k,
      same k,
    )
