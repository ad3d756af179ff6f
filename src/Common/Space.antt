-- ===== src/Common/Space.antt =====
-- strings.TrimSpace over bytes, and path.Base.
pub mod Printable
use Prim.Native.Nat.{ℕ, zero, suc}
use mathlib.Core.Path.{◌≡◌, refl}
use mathlib.Core.List.{List, [], ◌∷◌, reverse, map}
use argocd_cluster_registrar.Common.Tests.{if◌then◌else◌}
use argocd_cluster_registrar.Common.Text.{Bytes, codes, has_prefix, trim_right, split}
use argocd_cluster_registrar.Common.Lists.{length}

-- The UTF-8 encodings of the code points that unicode.IsSpace accepts.
abbrev white_space : List Bytes
white_space =
    (0x09 ∷ [])
    ∷ (0x0a ∷ [])
    ∷ (0x0b ∷ [])
    ∷ (0x0c ∷ [])
    ∷ (0x0d ∷ [])
    ∷ (0x20 ∷ [])
    ∷ (0xc2 ∷ 0x85 ∷ [])
    ∷ (0xc2 ∷ 0xa0 ∷ [])
    ∷ (0xe1 ∷ 0x9a ∷ 0x80 ∷ [])
    ∷ (0xe2 ∷ 0x80 ∷ 0x80 ∷ [])
    ∷ (0xe2 ∷ 0x80 ∷ 0x81 ∷ [])
    ∷ (0xe2 ∷ 0x80 ∷ 0x82 ∷ [])
    ∷ (0xe2 ∷ 0x80 ∷ 0x83 ∷ [])
    ∷ (0xe2 ∷ 0x80 ∷ 0x84 ∷ [])
    ∷ (0xe2 ∷ 0x80 ∷ 0x85 ∷ [])
    ∷ (0xe2 ∷ 0x80 ∷ 0x86 ∷ [])
    ∷ (0xe2 ∷ 0x80 ∷ 0x87 ∷ [])
    ∷ (0xe2 ∷ 0x80 ∷ 0x88 ∷ [])
    ∷ (0xe2 ∷ 0x80 ∷ 0x89 ∷ [])
    ∷ (0xe2 ∷ 0x80 ∷ 0x8a ∷ [])
    ∷ (0xe2 ∷ 0x80 ∷ 0xa8 ∷ [])
    ∷ (0xe2 ∷ 0x80 ∷ 0xa9 ∷ [])
    ∷ (0xe2 ∷ 0x80 ∷ 0xaf ∷ [])
    ∷ (0xe2 ∷ 0x81 ∷ 0x9f ∷ [])
    ∷ (0xe3 ∷ 0x80 ∷ 0x80 ∷ [])
    ∷ []

-- The length of the first entry of the table that the text starts with, or 0.
width : List Bytes → Bytes → ℕ
width [] s = 0
width (w ∷ ws) s = let rest = width ws s in if has_prefix s w then length w else rest

-- Drop `skip` bytes, and then every entry of the table from the front.
trim_from : List Bytes → ℕ → Bytes → Bytes
unfolding width has_prefix
trim_from table skip [] = []
trim_from table (suc skip) (c ∷ s) = trim_from table skip s
trim_from table zero (c ∷ s) = elim (width table (c ∷ s)) [
  | zero ↦ c ∷ s
  | suc more ↦ trim_from table more s
]

unfoldable pub trim_space : Bytes → Bytes
unfolding trim_from
trim_space s = reverse (trim_from (map reverse white_space) 0 (reverse (trim_from white_space 0 s)))

last_part : Bytes → List Bytes → Bytes
last_part p [] = p
last_part p (q ∷ qs) = last_part q qs

unfoldable pub base : Bytes → Bytes
unfolding last_part trim_right split
base [] = codes "."
base (c ∷ s) = elim (trim_right (c ∷ s) b'/') [
  | [] ↦ codes "/"
  | d ∷ t ↦ last_part [] (split (d ∷ t) b'/')
]

trim_space_test : trim_space (codes " \ta b\n ") ≡ codes "a b"
unfolding trim_space
trim_space_test = refl

base_test : base (codes "/usr/bin/aws/") ≡ codes "aws"
unfolding base
base_test = refl
