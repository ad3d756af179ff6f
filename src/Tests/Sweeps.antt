-- ===== src/Tests/Sweeps.antt =====
-- The theorems on sweeps, on verdicts and on configurations, at the concrete objects.
use argocd_cluster_registrar.Common.{
  ◌≡◌, ◌↔◌, refl, false, [], ◌∷◌, Assoc, codes, member, lookup, ◌==◌, ==_iff, arith,
}
use argocd_cluster_registrar.Common.Result.{ok}
use argocd_cluster_registrar.Api.Safe.{Runs, Safe, Anything}
use argocd_cluster_registrar.Config.{validate}
use argocd_cluster_registrar.Config.Valid.{IsValid, validate_iff}
use argocd_cluster_registrar.Propagate.{annotation_limits, keys, propagate}
use argocd_cluster_registrar.Propagate.Order.{SameEntries, propagate-SameEntries}
use argocd_cluster_registrar.Apply.{apply}
use argocd_cluster_registrar.Apply.Outcomes.{Explained}
use argocd_cluster_registrar.Apply.Verdicts.{apply-Explained}
use argocd_cluster_registrar.Audit.{audit_unrouted}
use argocd_cluster_registrar.Audit.Series.{IsAudited, audit_unrouted-IsAudited}
use argocd_cluster_registrar.Reconcile.{reconcile_one, keys_of, reconcile}
use argocd_cluster_registrar.Reconcile.Branches.{Branch, reconcile_one-Branch}
use argocd_cluster_registrar.Reconcile.Sourced.{MaySet, reconcile_one-MaySet}
use argocd_cluster_registrar.Reconcile.Keys.{IsKeys, keys_of-IsKeys}
use argocd_cluster_registrar.Reconcile.Visits.{Ends, reconcile-Ends}
use argocd_cluster_registrar.Tests.Data.{table, config, child, registration, older, younger}

apply-Explained_example : Runs (Explained config child) [] (apply config child)
apply-Explained_example = apply-Explained config child []

reconcile-Ends_example : Runs (Ends table config) [] (reconcile table config)
reconcile-Ends_example = reconcile-Ends table config

keys_of-IsKeys_example :
    IsKeys table config
      (younger ∷ older ∷ [])
      (registration ∷ [])
      (keys_of table config (younger ∷ older ∷ []) (registration ∷ []))
keys_of-IsKeys_example = keys_of-IsKeys table config (younger ∷ older ∷ []) (registration ∷ [])

audit_unrouted-IsAudited_example : Runs (IsAudited table config) [] (audit_unrouted table config)
audit_unrouted-IsAudited_example = audit_unrouted-IsAudited table config []

validate_iff_example : (validate table config ≡ ok tt) ↔ IsValid table config
validate_iff_example = validate_iff table config

tier_not_a : (codes "b/tier" == codes "b/a") ≡ false
unfolding ◌==◌
tier_not_a = refl

abbrev one_order : Assoc
one_order = (codes "b/tier", codes "gold") ∷ (codes "b/a", codes "x") ∷ []

abbrev other_order : Assoc
other_order = (codes "b/a", codes "x") ∷ (codes "b/tier", codes "gold") ∷ []

same : SameEntries one_order other_order
unfolding lookup
same k =
    let different : (codes "b/tier" == codes "b/a") ≡ false = tier_not_a in
    ground (arith, different, ==_iff (codes "b/tier") k, ==_iff (codes "b/a") k)

propagate-SameEntries_example :
    propagate one_order (codes "b/") annotation_limits
    ≡ propagate other_order (codes "b/") annotation_limits
unfolding keys member lookup ◌==◌
propagate-SameEntries_example =
    propagate-SameEntries one_order other_order (codes "b/") annotation_limits (refl, (refl, tt))
      (refl, (refl, tt)) same

reconcile_one-MaySet_example :
    Safe
      (MaySet table config (codes "team-a"))
      Anything
      []
      (reconcile_one table config (codes "team-a"))
reconcile_one-MaySet_example = reconcile_one-MaySet table config (codes "team-a") []

reconcile_one-Branch_example :
    Runs (Branch table config (codes "team-a")) [] (reconcile_one table config (codes "team-a"))
reconcile_one-Branch_example = reconcile_one-Branch table config (codes "team-a") []
