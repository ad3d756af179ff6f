-- ===== src/Metrics.antt =====
-- The series that exist from the start: `conflictReasons` and `init` of
-- internal/registrar/metrics.go. The collectors and their registration are the library's.
pub mod Published
use mathlib.Core.List.{map}
use argocd_cluster_registrar.Common.{List, [], ◌∷◌, ◌++◌}
use argocd_cluster_registrar.Api.{
  Reason, not_managed, orphan_cluster_mismatch, incumbent, contested_name, create_race,
  server_collision, RegistrationState, active, demoted, Bucket,
}
use argocd_cluster_registrar.Audit.{expiry_buckets}

abbrev pub conflict_reasons : List Reason
conflict_reasons =
    not_managed ∷ orphan_cluster_mismatch ∷ incumbent ∷ contested_name ∷ create_race
    ∷ server_collision ∷ []

-- A series of one of the two collectors that have labels, by the values of its labels.
pub data Series : Type 0 where
  conflicts : Reason → Series
  registrations : RegistrationState → Bucket → Series

-- What `WithLabelValues` is called with, in order.
unfoldable pub initial_series : List Series
initial_series =
    map conflicts conflict_reasons
    ++ (map (registrations active) expiry_buckets ++ map (registrations demoted) expiry_buckets)
