-- ===== src/Apply/Drift.antt =====
-- What `changed` compares.
use argocd_cluster_registrar.Common.{
  ◌≡◌, refl, ◌↔◌, Bool, true, false, not, [], ◌∷◌, Bytes, Assoc, ◌==◌, ==_iff, ==_refl, get, lookup,
  has_key, any, arith, Bool-cases, inl, inr,
}
use argocd_cluster_registrar.Kube.{Secret}
use argocd_cluster_registrar.Apply.{differs, is_swept, has_swept, changed}
use argocd_cluster_registrar.Apply.Swept.{IsSwept, not-IsSwept_iff}

-- No key of a map passes a test.
any_key_iff :
    (q : Bytes → Bool) (m : Assoc)
    → (any (λ e. q e.0) m ≡ false) ↔ ((k : Bytes) → has_key k m ≡ true → q k ≡ false)
unfolding any has_key lookup
any_key_iff q [] = (λ h k e. cc, λ h. refl)
any_key_iff q ((j, v) ∷ m) =
    let (to, from) = any_key_iff q m in
    (
      λ h k e. elim (Bool-cases (j == k)) [
        | inl same ↦ ground (arith, (==_iff j k).0 same, h)
        | inr other ↦ to (ground (arith, h)) k (ground (arith, e, other))
      ],
      λ h.
          let here : q j ≡ false = h j (ground (arith, ==_refl j)) in
          let there : any (λ e. q e.0) m ≡ false =
            from (λ k e. h k (ground (arith, e, Bool-cases (j == k)))) in
          ground (arith, here, there),
    )

-- A Secret that records what is wanted, key by key, where a missing key reads as the empty text.
pub record IsUpToDate (existing want : Secret) (prefix : Bytes) : Type 0 where
  pub contents :
      (k : Bytes)
      → has_key k want.string_data ≡ true
      → get existing.data' k ≡ get want.string_data k
  pub labels :
      (k : Bytes) → has_key k want.labels ≡ true → get existing.labels k ≡ get want.labels k
  pub no_label : (k : Bytes) → has_key k existing.labels ≡ true → IsSwept prefix want.labels k → ⊥
  pub annotations :
      (k : Bytes)
      → has_key k want.annotations ≡ true
      → get existing.annotations k ≡ get want.annotations k
  pub no_annotation :
      (k : Bytes) → has_key k existing.annotations ≡ true → IsSwept prefix want.annotations k → ⊥

differs_iff :
    (existing want : Assoc)
    → (differs existing want ≡ false)
      ↔ ((k : Bytes) → has_key k want ≡ true → get existing k ≡ get want k)
unfolding differs
differs_iff existing want =
    let (to, from) = any_key_iff (λ k. not (get existing k == get want k)) want in
    (
      λ h k e. (==_iff (get existing k) (get want k)).0 (ground (arith, to h k e)),
      λ h. from (λ k e. ground (arith, (==_iff (get existing k) (get want k)).1 (h k e))),
    )

has_swept_iff :
    (prefix : Bytes) (existing want : Assoc)
    → (has_swept prefix existing want ≡ false)
      ↔ ((k : Bytes) → has_key k existing ≡ true → IsSwept prefix want k → ⊥)
unfolding has_swept
has_swept_iff prefix existing want =
    let (to, from) = any_key_iff (is_swept prefix want) existing in
    (
      λ h k e. (not-IsSwept_iff prefix k want).0 (to h k e),
      λ h. from (λ k e. (not-IsSwept_iff prefix k want).1 (h k e)),
    )

-- The comparison answers no exactly where every wanted entry of the data, the labels and the
-- annotations reads as wanted, a missing key reading as the empty text, and no label or
-- annotation is there whose key begins with the prefix, is not the prune opt-out, and is not
-- wanted.
pub changed_iff :
    (existing want : Secret) (prefix : Bytes)
    → (changed existing want prefix ≡ false) ↔ IsUpToDate existing want prefix
unfolding changed
changed_iff existing want prefix =
    let (d, d') = differs_iff existing.data' want.string_data in
    let (l, l') = differs_iff existing.labels want.labels in
    let (m, m') = has_swept_iff prefix existing.labels want.labels in
    let (a, a') = differs_iff existing.annotations want.annotations in
    let (b, b') = has_swept_iff prefix existing.annotations want.annotations in
    (
      λ h. record {
        contents = d (ground (arith, h));
        labels = l (ground (arith, h));
        no_label = m (ground (arith, h));
        annotations = a (ground (arith, h));
        no_annotation = b (ground (arith, h));
      },
      λ u.
          ground (
            arith,
            d' u.contents,
            l' u.labels,
            m' u.no_label,
            a' u.annotations,
            b' u.no_annotation,
          ),
    )
