-- ===== src/Common/Duration.antt =====
-- int64 durations in nanoseconds. `negsuc n` is -(n + 1).
use Prim.Native.Nat.{ℕ, ◌-◌, ◌^◌, min}
use mathlib.Core.Bool.{Bool, true, false}
use argocd_cluster_registrar.Common.Tests.{ltb, leb, if◌then◌else◌}

pub data ℤ : Type 0 where
  pos : ℕ → ℤ
  negsuc : ℕ → ℤ

-- a < b
abbrev pub ltb_ℤ : ℤ → ℤ → Bool
ltb_ℤ (pos a) (pos b) = ltb a b
ltb_ℤ (pos a) (negsuc b) = false
ltb_ℤ (negsuc a) (pos b) = true
ltb_ℤ (negsuc a) (negsuc b) = ltb b a

abbrev pub max_duration : ℕ
max_duration = 2 ^ 63 - 1

-- time.Time.Sub of two instants, which stops at the least and the greatest Duration.
unfoldable pub time_sub : ℕ → ℕ → ℤ
time_sub t u =
    if leb u t then pos (min (t - u) max_duration) else negsuc (min (u - t - 1) max_duration)
