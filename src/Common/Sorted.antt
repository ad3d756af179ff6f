-- ===== src/Common/Sorted.antt =====
-- Sorted lists of distinct texts.
use mathlib.Core.Path.{◌≡◌, refl, sym, ap, subst, ◌∙◌}
use mathlib.Core.Bool.{true, false}
use mathlib.Core.List.{List, [], ◌∷◌}
use mathlib.Core.Logic.{inl, inr}
use native.Mathlib.Omega.{arith}
use argocd_cluster_registrar.Common.Tests.{Bool-cases}
use argocd_cluster_registrar.Common.Text.{Bytes, ◌==◌, ==_iff, ==_refl, less}
use argocd_cluster_registrar.Common.Lists.{All, member}
use argocd_cluster_registrar.Common.Order.{less_irrefl, not_less_antisymm}
use argocd_cluster_registrar.Common.Sort.{sort_insert, sort_by}
use argocd_cluster_registrar.Common.Members.{All-sort_insert, member-sort_by}

less_trans : (s t u : Bytes) → less s t ≡ true → less t u ≡ true → less s u ≡ true
unfolding less
less_trans [] [] u h k = k
less_trans [] (y ∷ t) [] h k = ground arith
less_trans [] (y ∷ t) (z ∷ u) h k = refl
less_trans (x ∷ s) [] u h k = ground arith
less_trans (x ∷ s) (y ∷ t) [] h k = ground arith
less_trans (x ∷ s) (y ∷ t) (z ∷ u) h k = ground (arith, less_trans s t u)

-- Each text is strictly before all that follow.
abbrev pub Ascending : List Bytes → Type 0
Ascending [] = Unit {0}
Ascending (x ∷ xs) = All (λ y. less x y ≡ true) xs × Ascending xs

All-before :
    (x y : Bytes) (ys : List Bytes)
    → less x y ≡ true
    → All (λ z. less y z ≡ true) ys
    → All (λ z. less x z ≡ true) ys
All-before x y [] h hs = tt
All-before x y (z ∷ ys) h (hz, hs) = (less_trans x y z h hz, All-before x y ys h hs)

-- Of two different texts one is before the other.
before_of_not : (s t : Bytes) → (t == s) ≡ false → less t s ≡ false → less s t ≡ true
before_of_not s t different f = elim (Bool-cases (less s t)) [
  | inl e ↦ e
  | inr e ↦ cc (different, (==_iff t s).1 (not_less_antisymm t s f e))
]

sort_insert-Ascending :
    (x : Bytes) (ys : List Bytes)
    → member x ys ≡ false
    → Ascending ys
    → Ascending (sort_insert less x ys)
unfolding sort_insert member
sort_insert-Ascending x [] new a = (tt, tt)
sort_insert-Ascending x (y ∷ ys) new (hy, a) = elim (Bool-cases (less y x)) [
  | inl first ↦ rw first (
    All-sort_insert less (λ z. less y z ≡ true) x ys first hy,
    sort_insert-Ascending x ys (ground arith) a,
  )
  | inr not_first ↦
      let before = before_of_not x y (ground arith) not_first in
      rw not_first ((before, All-before x y ys before hy), (hy, a))
]

abbrev pub Distinct : List Bytes → Type 0
Distinct [] = Unit {0}
Distinct (x ∷ xs) = (member x xs ≡ false) × Distinct xs

pub sort_by-Ascending : (xs : List Bytes) → Distinct xs → Ascending (sort_by less xs)
unfolding sort_by
sort_by-Ascending [] d = tt
sort_by-Ascending (x ∷ xs) (new, d) =
    sort_insert-Ascending x (sort_by less xs) (member-sort_by less x xs ∙ new)
      (sort_by-Ascending xs d)

-- What is not after the first text is not among the others.
not_member_of_before :
    (x : Bytes) (ys : List Bytes) → All (λ y. less x y ≡ true) ys → member x ys ≡ false
unfolding member
not_member_of_before x [] h = refl
not_member_of_before x (y ∷ ys) (hy, h) = ground (
  arith,
  not_member_of_before x ys h,
  ==_iff y x,
  less_irrefl x,
  ap (λ t. less x t) {x = y} {y = x},
)

abbrev Same : List Bytes → List Bytes → Type 0
Same xs ys = (k : Bytes) → member k xs ≡ member k ys

member_first : (x : Bytes) (xs : List Bytes) → member x (x ∷ xs) ≡ true
unfolding member
member_first x xs = ground (arith, ==_refl x)

member_none : (x : Bytes) → member x [] ≡ false
unfolding member
member_none x = refl

-- A text before the first is in one list only.
not_before :
    (x y : Bytes) (xs ys : List Bytes)
    → All (λ z. less y z ≡ true) ys
    → Same (x ∷ xs) (y ∷ ys)
    → less x y ≡ false
not_before x y xs ys hy h = elim (Bool-cases (less x y)) [
  | inr e ↦ e
  | inl e ↦ cc (not_member_of_before x (y ∷ ys) (e, All-before x y ys e hy), h x, member_first x xs)
]

Same-tail :
    (x : Bytes) (xs ys : List Bytes)
    → All (λ z. less x z ≡ true) xs
    → All (λ z. less x z ≡ true) ys
    → Same (x ∷ xs) (x ∷ ys)
    → Same xs ys
unfolding member
Same-tail x xs ys hx hy h k = elim (Bool-cases (x == k)) [
  | inl e ↦
      subst (λ t. member t xs ≡ member t ys) ((==_iff x k).0 e)
        (not_member_of_before x xs hx ∙ sym (not_member_of_before x ys hy))
  | inr e ↦ ground (arith, h k)
]

-- The elements determine the list.
pub Ascending-unique : (xs ys : List Bytes) → Ascending xs → Ascending ys → Same xs ys → xs ≡ ys
Ascending-unique [] [] a b h = refl
Ascending-unique [] (y ∷ ys) a b h = cc (h y, member_first y ys, member_none y)
Ascending-unique (x ∷ xs) [] a b h = cc (h x, member_first x xs, member_none x)
Ascending-unique (x ∷ xs) (y ∷ ys) (hx, a) (hy, b) h =
    let same =
      not_less_antisymm x y (not_before x y xs ys hy h)
        (not_before y x ys xs hx (λ k. sym (h k))) in
    let hy' = subst (λ t. All (λ z. less t z ≡ true) ys) (sym same) hy in
    let h' = subst (λ t. Same (x ∷ xs) (t ∷ ys)) (sym same) h in
    let rest = Ascending-unique xs ys a b (Same-tail x xs ys hx hy' h') in cc (same, rest)
