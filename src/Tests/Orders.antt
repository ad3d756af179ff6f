-- ===== src/Tests/Orders.antt =====
-- The order of the candidates of one namespace.
use argocd_cluster_registrar.Common.{
  refl, false, some, ◌||◌, [], ◌∷◌, codes, less, sort_by, member, keep, has_key, lookup, ◌==◌,
  Pairwise,
}
use argocd_cluster_registrar.Kube.{Secret}
use argocd_cluster_registrar.Libraries.{Libraries}
use argocd_cluster_registrar.Provider.{Provider, provenance}
use argocd_cluster_registrar.Discover.{
  Candidate, search_secrets, scan_secret, by_provenance, candidates_of,
}
use argocd_cluster_registrar.Discover.Ordered.{Precedes}
use argocd_cluster_registrar.Discover.Ordering.{search_secrets-Ordered}
use argocd_cluster_registrar.Tests.Data.{table, vcluster}
use argocd_cluster_registrar.Tests.Discoveries.{source, offer}

-- The pattern of every name, and those without a special character.
abbrev patterns : Libraries
patterns = record table {
  path_match = λ pattern name. some (pattern == codes "*" || pattern == name);
}

-- A provider that types its Secrets, and two Secrets of which only the later one has the type.
abbrev typed : Provider
typed = record vcluster { secret_name_pattern = codes "*"; secret_type = codes "kubeconfig" }

abbrev written : Secret
written = record source { name = codes "vc-z"; type = codes "kubeconfig" }

abbrev typed_offer : Candidate
typed_offer = record {
  secret = written;
  provider = codes "vcluster";
  key = codes "config";
  provenance' = 2;
  allow_exec = false;
}

search_secrets-Ordered_example : Pairwise Precedes (typed_offer ∷ offer ∷ [])
unfolding search_secrets scan_secret by_provenance candidates_of sort_by less member keep has_key
    lookup ◌==◌ provenance
search_secrets-Ordered_example =
    search_secrets-Ordered patterns (typed ∷ []) (source ∷ written ∷ []) (typed_offer ∷ offer ∷ [])
      [] (refl, tt) refl
