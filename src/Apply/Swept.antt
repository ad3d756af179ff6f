-- ===== src/Apply/Swept.antt =====
-- Which keys the sweep of `apply` drops.
use argocd_cluster_registrar.Common.{
  ◌≡◌, ◌≢◌, refl, ◌↔◌, true, false, [], ◌∷◌, ◌++◌, codes, Bytes, Assoc, ==_iff, ==_ne, has_prefix,
  has_key, arith, Bool-cases, inl, inr,
}
use argocd_cluster_registrar.Labels
use argocd_cluster_registrar.Apply.{is_swept}

-- The key begins with the prefix.
abbrev pub IsUnder : Bytes → Bytes → Type 0
IsUnder prefix k = (rest : Bytes) × (k ≡ prefix ++ rest)

-- The key begins with the prefix, is not the prune opt-out, and is not wanted.
abbrev pub IsSwept : Bytes → Assoc → Bytes → Type 0
IsSwept prefix want k = IsUnder prefix k × (k ≢ prefix ++ codes "prune") × (has_key k want ≡ false)

has_prefix_iff : (k prefix : Bytes) → (has_prefix k prefix ≡ true) ↔ IsUnder prefix k
unfolding has_prefix
has_prefix_iff k [] = (λ e. (k, refl), λ u. refl)
has_prefix_iff [] (p ∷ ps) = (λ e. cc, λ (rest, e). cc)
has_prefix_iff (c ∷ k) (p ∷ ps) =
    let (to, from) = has_prefix_iff k ps in
    (
      λ e.
          let (rest, same) = to (ground (arith, e)) in
          let here : c ≡ p = ground (arith, e) in (rest, cc (here, same)),
      λ (rest, same).
          let same' : ◌≡◌ {A = Bytes} (c ∷ k) (p ∷ (ps ++ rest)) = same in
          let here : c ≡ p = cc (same') in
          let there : k ≡ ps ++ rest = cc (same') in ground (arith, here, from (rest, there)),
    )

pub is_swept_iff :
    (prefix k : Bytes) (want : Assoc) → (is_swept prefix want k ≡ true) ↔ IsSwept prefix want k
unfolding is_swept Labels.prune_label
is_swept_iff prefix k want =
    let (under, under') = has_prefix_iff k prefix in
    let (same, same') = ==_iff k (prefix ++ codes "prune") in
    (
      λ e. (under (ground (arith, e)), λ p. ground (arith, e, same' p), ground (arith, e)),
      λ (u, p, w). ground (arith, under' u, ==_ne k (prefix ++ codes "prune") p, w),
    )

pub not-IsSwept_iff :
    (prefix k : Bytes) (want : Assoc)
    → (is_swept prefix want k ≡ false) ↔ (IsSwept prefix want k → ⊥)
not-IsSwept_iff prefix k want =
    let (to, from) = is_swept_iff prefix k want in
    (
      λ e s. ground (arith, e, from s),
      λ n. elim (Bool-cases (is_swept prefix want k)) [ inl e ↦ absurd (n (to e)) | inr e ↦ e ],
    )
