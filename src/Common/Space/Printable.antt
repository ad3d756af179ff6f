-- ===== src/Common/Space/Printable.antt =====
-- Texts of printable ASCII: nothing is trimmed from them.
use Prim.Native.Nat.{ℕ}
use mathlib.Core.Path.{◌≡◌, refl, sym, ap, subst, ◌∙◌}
use mathlib.Core.Bool.{Bool, true, false, ◌&&◌}
use mathlib.Core.List.{List, [], ◌∷◌, reverse, reverse-cons, reverse-reverse, map}
use native.Mathlib.Omega.{arith}
use argocd_cluster_registrar.Common.Tests.{leb}
use argocd_cluster_registrar.Common.Text.{Bytes, has_prefix}
use argocd_cluster_registrar.Common.Lists.{All, All-append, any}
use argocd_cluster_registrar.Common.Space.{white_space, width, trim_from, trim_space}

-- A byte from '!' to '~'.
abbrev pub is_printable : ℕ → Bool
is_printable c = leb 0x21 c && leb c 0x7e

abbrev pub Printable : Bytes → Type 0
Printable s = All (λ c. is_printable c ≡ true) s

-- The entry is empty or starts with a printable byte.
starts_printable : Bytes → Bool
starts_printable [] = true
starts_printable (c ∷ s) = is_printable c

width-printable :
    (table : List Bytes) (c : ℕ) (s : Bytes)
    → any starts_printable table ≡ false
    → is_printable c ≡ true
    → width table (c ∷ s) ≡ 0
unfolding width any starts_printable has_prefix
width-printable [] c s h k = refl
width-printable ([] ∷ ws) c s h k = cc
width-printable ((b ∷ w) ∷ ws) c s h k = ground (arith, width-printable ws c s, h, k)

trim_from-Printable :
    (table : List Bytes) (s : Bytes)
    → any starts_printable table ≡ false
    → Printable s
    → trim_from table 0 s ≡ s
unfolding trim_from
trim_from-Printable table [] h k = refl
trim_from-Printable table (c ∷ s) h (k, ks) = rw (width-printable table c s h k, trim_from) refl

reverse-Printable : (s : Bytes) → Printable s → Printable (reverse s)
reverse-Printable [] k = tt
reverse-Printable (c ∷ s) (k, ks) =
    subst Printable (sym (reverse-cons c s)) (
      All-append (λ b. is_printable b ≡ true) (reverse s) (c ∷ []) (reverse-Printable s ks) (k, tt))

pub trim_space-Printable : (s : Bytes) → Printable s → trim_space s ≡ s
unfolding trim_space any starts_printable
trim_space-Printable s k =
    ap (λ t. reverse (trim_from (map reverse white_space) 0 (reverse t)))
      (trim_from-Printable white_space s refl k)
    ∙ ap reverse
        (trim_from-Printable (map reverse white_space) (reverse s) refl (reverse-Printable s k))
    ∙ reverse-reverse s
