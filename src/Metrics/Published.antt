-- ===== src/Metrics/Published.antt =====
-- No series is missing before its first event.
use mathlib.Core.List.{map}
use argocd_cluster_registrar.Common.{List, [], ◌∷◌, ◌++◌, In, here, there}
use argocd_cluster_registrar.Api.{
  Reason, not_managed, orphan_cluster_mismatch, incumbent, contested_name, create_race,
  server_collision, active, demoted, Bucket, expired, lt_24h, lt_7d, lt_30d, ok, token, exec,
  unreadable, absent,
}
use argocd_cluster_registrar.Audit.{expiry_buckets}
use argocd_cluster_registrar.Metrics.{
  conflict_reasons, Series, conflicts, registrations, initial_series,
}

In-map : {A B : Type 0} (f : A → B) (x : A) (xs : List A) → In x xs → In (f x) (map f xs)
unfolding map
In-map f x [] i = elim i [ ]
In-map f x (y ∷ ys) here = here
In-map f x (y ∷ ys) (there i) = there (In-map f x ys i)

In-append_left : {A : Type 0} (x : A) (xs ys : List A) → In x xs → In x (xs ++ ys)
In-append_left x [] ys i = elim i [ ]
In-append_left x (y ∷ xs) ys here = here
In-append_left x (y ∷ xs) ys (there i) = there (In-append_left x xs ys i)

In-append_right : {A : Type 0} (x : A) (xs ys : List A) → In x ys → In x (xs ++ ys)
In-append_right x [] ys i = i
In-append_right x (y ∷ xs) ys i = there (In-append_right x xs ys i)

conflict_reasons-In : (r : Reason) → In r conflict_reasons
conflict_reasons-In not_managed = here
conflict_reasons-In orphan_cluster_mismatch = there here
conflict_reasons-In incumbent = there (there here)
conflict_reasons-In contested_name = there (there (there here))
conflict_reasons-In create_race = there (there (there (there here)))
conflict_reasons-In server_collision = there (there (there (there (there here))))

expiry_buckets-In : (b : Bucket) → In b expiry_buckets
expiry_buckets-In expired = here
expiry_buckets-In lt_24h = there here
expiry_buckets-In lt_7d = there (there here)
expiry_buckets-In lt_30d = there (there (there here))
expiry_buckets-In ok = there (there (there (there here)))
expiry_buckets-In token = there (there (there (there (there here))))
expiry_buckets-In exec = there (there (there (there (there (there here)))))
expiry_buckets-In unreadable = there (there (there (there (there (there (there here))))))
expiry_buckets-In absent = there (there (there (there (there (there (there (there here)))))))

-- Every series of the two collectors with labels is there from the start.
initial_series-In : (s : Series) → In s initial_series
unfolding initial_series
initial_series-In (conflicts r) =
    In-append_left _ (map conflicts conflict_reasons) _
      (In-map conflicts r conflict_reasons (conflict_reasons-In r))
initial_series-In (registrations active b) = In-append_right _ (map conflicts conflict_reasons) _ (
    In-append_left _ (map (registrations active) expiry_buckets) _
      (In-map (registrations active) b expiry_buckets (expiry_buckets-In b)))
initial_series-In (registrations demoted b) = In-append_right _ (map conflicts conflict_reasons) _ (
    In-append_right _ (map (registrations active) expiry_buckets) _
      (In-map (registrations demoted) b expiry_buckets (expiry_buckets-In b)))
