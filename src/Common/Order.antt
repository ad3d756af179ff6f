-- ===== src/Common/Order.antt =====
-- The order of Go strings is total.
use mathlib.Core.Path.{◌≡◌, refl}
use mathlib.Core.Bool.{true, false}
use mathlib.Core.List.{[], ◌∷◌}
use native.Mathlib.Omega.{arith}
use argocd_cluster_registrar.Common.Text.{Bytes, less}

pub less_irrefl : (s : Bytes) → less s s ≡ false
unfolding less
less_irrefl [] = refl
less_irrefl (x ∷ s) = ground (arith, less_irrefl s)

pub less_asymm : (s t : Bytes) → less s t ≡ true → less t s ≡ false
unfolding less
less_asymm [] [] h = refl
less_asymm [] (y ∷ t) h = refl
less_asymm (x ∷ s) [] h = ground arith
less_asymm (x ∷ s) (y ∷ t) h = ground (arith, less_asymm s t)

-- `s` is not before `t`, and `t` not before `u`.
pub not_less_trans : (s t u : Bytes) → less s t ≡ false → less t u ≡ false → less s u ≡ false
unfolding less
not_less_trans [] [] u h k = k
not_less_trans [] (y ∷ t) u h k = ground arith
not_less_trans (x ∷ s) [] [] h k = refl
not_less_trans (x ∷ s) [] (z ∷ u) h k = ground arith
not_less_trans (x ∷ s) (y ∷ t) [] h k = refl
not_less_trans (x ∷ s) (y ∷ t) (z ∷ u) h k = ground (arith, not_less_trans s t u)

pub not_less_antisymm : (s t : Bytes) → less s t ≡ false → less t s ≡ false → s ≡ t
unfolding less
not_less_antisymm [] [] h k = refl
not_less_antisymm [] (y ∷ t) h k = ground arith
not_less_antisymm (x ∷ s) [] h k = ground arith
not_less_antisymm (x ∷ s) (y ∷ t) h k = ground (arith, not_less_antisymm s t)
