-- ===== src/Tests/Discoveries.antt =====
-- The theorems on the discovery of kubeconfigs, at the concrete objects.
use argocd_cluster_registrar.Common.{
  ◌≡◌, ◌↔◌, refl, false, [], ◌∷◌, codes, less, sort_by, member, keep, has_key, lookup, ◌==◌,
}
use argocd_cluster_registrar.Kube.{Namespace, Secret}
use argocd_cluster_registrar.Provider.{provenance}
use argocd_cluster_registrar.Api.Safe.{Runs}
use argocd_cluster_registrar.Discover.{
  Candidate, search_secrets, scan_secret, by_provenance, candidates_of, discover_one,
}
use argocd_cluster_registrar.Discover.Searched.{IsOffers, search_secrets-IsOffers}
use argocd_cluster_registrar.Discover.Found.{DiscoveredOr, discover_one-IsDiscovered}
use argocd_cluster_registrar.Apply.{changed, wanted}
use argocd_cluster_registrar.Apply.Drift.{IsUpToDate, changed_iff}
use argocd_cluster_registrar.Tests.Data.{table, config, child, registration, vcluster, younger}

-- A Secret that the provider's pattern matches.
abbrev pub source : Secret
source = record registration { name = codes "vc-one"; data' = (codes "config", codes "raw") ∷ [] }

abbrev pub offer : Candidate
offer = record {
  secret = source;
  provider = codes "vcluster";
  key = codes "config";
  provenance' = 0;
  allow_exec = false;
}

abbrev labelled : Namespace
labelled = record younger { labels = (codes "argocd-cluster-registrar/cluster", codes "two") ∷ [] }

search_secrets-IsOffers_example :
    IsOffers table (vcluster ∷ []) (registration ∷ source ∷ []) (offer ∷ [])
unfolding search_secrets scan_secret by_provenance candidates_of sort_by less member keep has_key
    lookup ◌==◌ provenance
search_secrets-IsOffers_example =
    search_secrets-IsOffers table (vcluster ∷ []) (registration ∷ source ∷ []) (offer ∷ []) [] refl

discover_one-IsDiscovered_example :
    Runs (DiscoveredOr table config labelled) [] (discover_one table config labelled)
discover_one-IsDiscovered_example = discover_one-IsDiscovered table config labelled []

changed_iff_example :
    (changed registration (wanted config child) config.label_prefix ≡ false)
    ↔ IsUpToDate registration (wanted config child) config.label_prefix
changed_iff_example = changed_iff registration (wanted config child) config.label_prefix
