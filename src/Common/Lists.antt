-- ===== src/Common/Lists.antt =====
-- Lists measured by native numbers, quantifiers over their elements, and membership of texts.
use Prim.Native.Nat.{ℕ, suc}
use mathlib.Core.Bool.{Bool, false, ◌||◌}
use mathlib.Core.Path.{◌≡◌, refl}
use mathlib.Core.List.{List, [], ◌∷◌, ◌++◌}
use argocd_cluster_registrar.Common.Tests.{if◌then◌else◌}
use argocd_cluster_registrar.Common.Text.{Bytes, ◌==◌}

module _ {ℓ} {A : Type ℓ} where
  abbrev pub length : List A → ℕ
  length [] = 0
  length (x ∷ xs) = suc (length xs)

  -- The elements that pass a test, in order.
  unfoldable pub keep : (A → Bool) → List A → List A
  keep p [] = []
  keep p (x ∷ xs) = let rest = keep p xs in if p x then x ∷ rest else rest

  unfoldable pub any : (A → Bool) → List A → Bool
  any p [] = false
  any p (x ∷ xs) = p x || any p xs

  abbrev pub All {κ} : (A → Type κ) → List A → Type κ
  All P [] = Unit
  All P (x ∷ xs) = P x × All P xs

  pub All-append {κ} : (P : A → Type κ) (xs ys : List A) → All P xs → All P ys → All P (xs ++ ys)
  All-append P [] ys _ hy = hy
  All-append P (x ∷ xs) ys (px, hx) hy = (px, All-append P xs ys hx hy)

  pub All-intro {κ} : {P : A → Type κ} → ((x : A) → P x) → (xs : List A) → All P xs
  All-intro h [] = tt
  All-intro h (x ∷ xs) = (h x, All-intro h xs)

  -- A list without elements has no part with any.
  pub append_empty : (xs ys : List A) → xs ++ ys ≡ [] → (xs ≡ []) × (ys ≡ [])
  append_empty [] ys e = (refl, e)
  append_empty (x ∷ xs) ys e = cc

  -- Membership that can be taken apart.
  pub data In (x : A) : List A → Type ℓ where
    here : {xs : List A} → In x (x ∷ xs)
    there : {y : A} {xs : List A} → In x xs → In x (y ∷ xs)

  pub All_of_In {κ} : (P : A → Type κ) {x : A} {xs : List A} → In x xs → All P xs → P x
  All_of_In P here (p, ps) = p
  All_of_In P (there i) (p, ps) = All_of_In P i ps

  pub All-from_In {κ} : (P : A → Type κ) (xs : List A) → ((x : A) → In x xs → P x) → All P xs
  All-from_In P [] h = tt
  All-from_In P (x ∷ xs) h = (h x here, All-from_In P xs (λ y i. h y (there i)))

-- slices.Contains over texts
unfoldable pub member : Bytes → List Bytes → Bool
unfolding ◌==◌
member k [] = false
member k (j ∷ js) = j == k || member k js
