-- ===== src/Common/Text.antt =====
-- Go strings as lists of bytes, with the functions of package strings that the source calls.
use Prim.Native.Nat.{ℕ}
use Prim.Native.Char.{code}
use Prim.Native.String.{String}
use mathlib.Core.Path.{◌≡◌, refl}
use mathlib.Core.Logic.{◌↔◌, ◌≢◌, inl, inr}
use mathlib.Core.Bool.{Bool, true, false, ◌&&◌, ◌||◌}
use mathlib.Core.List.{List, [], ◌∷◌}
use mathlib.Core.Option.{Option, none, some}
use native.Mathlib.Omega.{arith}
use argocd_cluster_registrar.Common.Tests.{Bool-cases, ltb, eqb, if◌then◌else◌}

abbrev pub Bytes : Type 0
Bytes = List ℕ

-- The code points of a literal; these are its bytes when the text is ASCII.
abbrev pub codes : String → Bytes
codes String.[] = []
codes (String.◌∷◌ c s) = code c ∷ codes s

infix 50 ◌==◌
unfoldable pub ◌==◌ : Bytes → Bytes → Bool
[] == [] = true
(x ∷ xs) == (y ∷ ys) = eqb x y && xs == ys
_ == _ = false

pub ==_iff : (s t : Bytes) → ((s == t) ≡ true) ↔ (s ≡ t)
unfolding ◌==◌
==_iff [] [] = ground arith
==_iff (x ∷ xs) (y ∷ ys) = ground (arith, ==_iff xs ys)
==_iff [] (y ∷ ys) = ground arith
==_iff (x ∷ xs) [] = ground arith

pub ==_refl : (s : Bytes) → (s == s) ≡ true
==_refl s = (==_iff s s).1 refl

pub ==_ne : (s t : Bytes) → s ≢ t → (s == t) ≡ false
==_ne s t h = elim (Bool-cases (s == t)) [ inl e ↦ absurd (h ((==_iff s t).0 e)) | inr e ↦ e ]

-- s != ""
unfoldable pub nonempty : Bytes → Bool
nonempty [] = false
nonempty (c ∷ s) = true

pub nonempty_iff : (s : Bytes) → (nonempty s ≡ false) ↔ (s ≡ [])
unfolding nonempty
nonempty_iff [] = ground arith
nonempty_iff (c ∷ s) = ground arith

-- `a < b` on strings: the order of their bytes.
unfoldable pub less : Bytes → Bytes → Bool
less [] [] = false
less [] (y ∷ ys) = true
less (x ∷ xs) [] = false
less (x ∷ xs) (y ∷ ys) = ltb x y || (eqb x y && less xs ys)

-- strings.HasPrefix
unfoldable pub has_prefix : Bytes → Bytes → Bool
has_prefix s [] = true
has_prefix [] (p ∷ ps) = false
has_prefix (c ∷ s) (p ∷ ps) = eqb c p && has_prefix s ps

-- strings.CutPrefix
unfoldable pub cut_prefix : Bytes → Bytes → Option Bytes
cut_prefix s [] = some s
cut_prefix [] (p ∷ ps) = none
cut_prefix (c ∷ s) (p ∷ ps) = if eqb c p then cut_prefix s ps else none

-- strings.HasSuffix
unfoldable pub has_suffix : Bytes → Bytes → Bool
unfolding ◌==◌
has_suffix [] t = [] == t
has_suffix (c ∷ s) t = (c ∷ s) == t || has_suffix s t

-- strings.Contains of one byte
unfoldable pub contains_byte : Bytes → ℕ → Bool
contains_byte [] b = false
contains_byte (c ∷ s) b = eqb c b || contains_byte s b

-- strings.TrimRight with a cutset of one byte: the bytes before the final run of it.
unfoldable pub trim_right : Bytes → ℕ → Bytes
trim_right [] b = []
trim_right (c ∷ s) b =
    let rest = trim_right s b in
    elim rest [ [] ↦ (if eqb c b then [] else c ∷ []) | d ∷ r ↦ c ∷ d ∷ r ]

-- strings.Split by one byte
unfoldable pub split : Bytes → ℕ → List Bytes
split [] sep = [] ∷ []
split (c ∷ s) sep =
    let parts = split s sep in
    if eqb c sep then [] ∷ parts else elim parts [ [] ↦ (c ∷ []) ∷ [] | p ∷ ps ↦ (c ∷ p) ∷ ps ]
