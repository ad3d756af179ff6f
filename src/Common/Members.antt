-- ===== src/Common/Members.antt =====
-- What sorting and filtering do to the elements of a list.
use mathlib.Core.Path.{◌≡◌, refl}
use mathlib.Core.Bool.{Bool, true, ◌&&◌, ◌||◌}
use mathlib.Core.List.{List, [], ◌∷◌, map}
use native.Mathlib.Omega.{arith}
use argocd_cluster_registrar.Common.Tests.{if_elim}
use argocd_cluster_registrar.Common.Text.{Bytes, ◌==◌, ==_iff}
use argocd_cluster_registrar.Common.Lists.{All, keep, member}
use argocd_cluster_registrar.Common.Sort.{sort_insert, sort_by}

module _ {ℓ} {A : Type ℓ} (before : A → A → Bool) where
  pub All-sort_insert {κ} :
      (P : A → Type κ) (x : A) (ys : List A) → P x → All P ys → All P (sort_insert before x ys)
  unfolding sort_insert
  All-sort_insert P x [] px _ = (px, tt)
  All-sort_insert P x (y ∷ ys) px (py, pys) =
      let rest = All-sort_insert P x ys px pys in
      if_elim (All P) (before y x) (λ e. (py, rest)) (λ e. (px, (py, pys)))

  pub All-sort_by {κ} : (P : A → Type κ) (xs : List A) → All P xs → All P (sort_by before xs)
  unfolding sort_by
  All-sort_by P [] _ = tt
  All-sort_by P (x ∷ xs) (px, pxs) =
      All-sort_insert P x (sort_by before xs) px (All-sort_by P xs pxs)

pub All-keep {ℓ} : {A : Type ℓ} (p : A → Bool) (xs : List A) → All (λ x. p x ≡ true) (keep p xs)
unfolding keep
All-keep p [] = tt
All-keep p (x ∷ xs) =
    let rest = All-keep p xs in if_elim (All (λ y. p y ≡ true)) (p x) (λ e. (e, rest)) (λ e. rest)

module _ (before : Bytes → Bytes → Bool) (k : Bytes) where
  member-sort_insert :
      (x : Bytes) (ys : List Bytes) → member k (sort_insert before x ys) ≡ (x == k || member k ys)
  unfolding sort_insert member
  member-sort_insert x [] = refl
  member-sort_insert x (y ∷ ys) = ground (arith, member-sort_insert x ys)

  pub member-sort_by : (xs : List Bytes) → member k (sort_by before xs) ≡ member k xs
  unfolding sort_by member
  member-sort_by [] = refl
  member-sort_by (x ∷ xs) =
      ground (arith, member-sort_insert x (sort_by before xs), member-sort_by xs)

pub member-keep :
    (p : Bytes → Bool) (k : Bytes) (xs : List Bytes) → member k (keep p xs) ≡ (p k && member k xs)
unfolding keep member
member-keep p k [] = ground arith
member-keep p k (x ∷ xs) = ground (arith, member-keep p k xs, ==_iff x k)

pub All-imp :
    {A : Type 0} {P Q : A → Type 0} → ((x : A) → P x → Q x) → (xs : List A) → All P xs → All Q xs
All-imp f [] h = tt
All-imp f (x ∷ xs) (p, ps) = (f x p, All-imp f xs ps)

pub All-map :
    {A B : Type 0} (P : B → Type 0) (f : A → B) (xs : List A)
    → All (λ x. P (f x)) xs
    → All P (map f xs)
unfolding map
All-map P f [] h = tt
All-map P f (x ∷ xs) (p, ps) = (p, All-map P f xs ps)

pub All-keep_both :
    {A : Type 0} (P : A → Type 0) (q : A → Bool) (xs : List A)
    → All P xs
    → All (λ x. P x × (q x ≡ true)) (keep q xs)
unfolding keep
All-keep_both P q [] h = tt
All-keep_both P q (x ∷ xs) (p, ps) =
    let rest = All-keep_both P q xs ps in
    if_elim (All (λ x. P x × (q x ≡ true))) (q x) (λ e. ((p, e), rest)) (λ e. rest)
