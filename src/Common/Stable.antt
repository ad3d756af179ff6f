-- ===== src/Common/Stable.antt =====
-- A stable sort: what is in order, and what ties keep.
use mathlib.Core.Path.{◌≡◌}
use mathlib.Core.Bool.{Bool, true, false}
use mathlib.Core.Logic.{inl, inr}
use mathlib.Core.List.{List, [], ◌∷◌, ◌++◌}
use argocd_cluster_registrar.Common.Tests.{Bool-cases}
use argocd_cluster_registrar.Common.Lists.{All, All-append}
use argocd_cluster_registrar.Common.Sort.{sort_insert, sort_by}
use argocd_cluster_registrar.Common.Members.{All-sort_insert, All-sort_by, All-imp}

module _ {A : Type 0} where
  -- Each element is related to all that are after it.
  abbrev pub Pairwise : (A → A → Type 0) → List A → Type 0
  Pairwise R [] = Unit {0}
  Pairwise R (x ∷ xs) = All (R x) xs × Pairwise R xs

  pub Pairwise-intro : (R : A → A → Type 0) → ((x y : A) → R x y) → (xs : List A) → Pairwise R xs
  Pairwise-intro R h [] = tt
  Pairwise-intro R h (x ∷ xs) = (each xs, Pairwise-intro R h xs)
    where
      each : (ys : List A) → All (R x) ys
      each [] = tt
      each (y ∷ ys) = (h x y, each ys)

  pub Pairwise-imp :
      {R S : A → A → Type 0}
      → ((x y : A) → R x y → S x y)
      → (xs : List A) → Pairwise R xs
      → Pairwise S xs
  Pairwise-imp h [] k = tt
  Pairwise-imp h (x ∷ xs) (k, ks) = (All-imp (h x) xs k, Pairwise-imp h xs ks)

  pub Pairwise-append :
      (R : A → A → Type 0) (xs ys : List A)
      → Pairwise R xs
      → Pairwise R ys
      → All (λ x. All (R x) ys) xs
      → Pairwise R (xs ++ ys)
  Pairwise-append R [] ys h k between = k
  Pairwise-append R (x ∷ xs) ys (hx, h) k (bx, between) =
      (All-append (R x) xs ys hx bx, Pairwise-append R xs ys h k between)

module _ {A : Type 0} (before : A → A → Bool) (T : A → A → Type 0) where
  -- Not after, and as it was where neither is before the other.
  abbrev pub Kept : A → A → Type 0
  Kept x y = (before y x ≡ false) × (before x y ≡ false → T x y)

  module _ (asym : (x y : A) → before x y ≡ true → before y x ≡ false)
      (trans : (x y z : A) → before y x ≡ false → before z y ≡ false → before z x ≡ false) where
    later :
        (x y : A)
        → before y x ≡ false
        → (zs : List A) → All (T x) zs
        → All (Kept y) zs
        → All (Kept x) zs
    later x y last [] us hs = tt
    later x y last (z ∷ zs) (u, us) (h, hs) =
        ((trans x y z last h.0, λ e. u), later x y last zs us hs)

    sort_insert-Kept :
        (x : A) (ys : List A)
        → All (T x) ys
        → Pairwise Kept ys
        → Pairwise Kept (sort_insert before x ys)
    unfolding sort_insert
    sort_insert-Kept x [] ts k = (tt, tt)
    sort_insert-Kept x (y ∷ ys) (t, ts) (ky, k) = elim (Bool-cases (before y x)) [
      | inl first ↦ rw first (
        All-sort_insert before (Kept y) x ys (asym y x first, λ e. cc (first, e)) ky,
        sort_insert-Kept x ys ts k,
      )
      | inr last ↦ rw last (((last, λ e. t), later x y last ys ts ky), (ky, k))
    ]

    pub sort_by-Kept : (xs : List A) → Pairwise T xs → Pairwise Kept (sort_by before xs)
    unfolding sort_by
    sort_by-Kept [] ts = tt
    sort_by-Kept (x ∷ xs) (t, ts) =
        sort_insert-Kept x (sort_by before xs) (All-sort_by before (T x) xs t) (sort_by-Kept xs ts)
