-- ===== src/Discover/Ordering.antt =====
-- The search offers the kubeconfigs of one provider in order.
use argocd_cluster_registrar.Common.{
  ◌≡◌, ap, subst, ◌∙◌, true, false, ==_refl, Option, none, some, List, [], ◌∷◌, Bytes, member, All,
  All-imp, Pairwise, Distinct, arith,
}
use mathlib.Core.List.{map}
use argocd_cluster_registrar.Kube.{Secret}
use argocd_cluster_registrar.Libraries.{Libraries}
use argocd_cluster_registrar.Provider.{Provider}
use argocd_cluster_registrar.Discover.{
  Candidate, Scan, no_scan, candidates, scan_secrets, matching, by_provenance, scan_providers,
  finish_scan, search_secrets,
}
use argocd_cluster_registrar.Discover.Searched.{finish_scan-out}
use argocd_cluster_registrar.Discover.Ordered.{
  Precedes, Named, Awaits, Listed, by_name-Named, by_provenance-Ranked, scan_secrets-Ordered,
  scan_secrets-All, matching-Listed,
}

module _ (lib : Libraries) where
  abbrev names : List Provider → List Bytes
  names qs = map (λ (q : Provider). q.name) qs

  -- What a provider that is still to come has made.
  abbrev Done : List Provider → Candidate → Type 0
  Done qs c = member c.provider (names qs) ≡ false

  abbrev OrderedOr : Option Scan → Type 0
  OrderedOr none = Unit {0}
  OrderedOr (some st) = Pairwise Precedes st.out

  await :
      (p : Provider) (qs : List Provider) (rest : List Secret) (c : Candidate)
      → Done (p ∷ qs) c
      → Awaits lib p rest c
  unfolding member
  await p qs rest c d same =
      let impossible : true ≡ false = ground (arith, d, same, ==_refl p.name) in cc impossible

  leave : (p : Provider) (qs : List Provider) (c : Candidate) → Done (p ∷ qs) c → Done qs c
  unfolding member
  leave p qs c d = ground (arith, d)

  scan_providers-OrderedOr :
      (qs : List Provider) (sorted : List Secret) (st : Scan)
      → Distinct (names qs)
      → Pairwise Named sorted
      → Pairwise Precedes st.out
      → All (Done qs) st.out
      → OrderedOr (scan_providers lib qs sorted st)
  unfolding scan_providers
  scan_providers-OrderedOr [] sorted st new k o d = o
  scan_providers-OrderedOr (p ∷ qs) sorted st (own, new) k o d =
      by_matching (matching lib p sorted) (matching-Listed lib p Named sorted k)
        (λ st'. scan_providers-OrderedOr qs sorted st' new k)
    where
      by_matching :
          (answer : Option (List Secret))
          → Listed lib p Named answer
          → ((st' : Scan)
              → Pairwise Precedes st'.out
              → All (Done qs) st'.out
              → OrderedOr (scan_providers lib qs sorted st'))
          → OrderedOr (elim answer [
            | none ↦ none
            | some found ↦
                scan_providers lib qs sorted (scan_secrets lib p (by_provenance lib p found) st)
          ])
      by_matching none ms next = tt
      by_matching (some found) ms next =
          next (scan_secrets lib p (by_provenance lib p found) st)
            (scan_secrets-Ordered lib p (by_provenance lib p found) st
              (by_provenance-Ranked lib p found ms)
              (o, All-imp (await p qs (by_provenance lib p found)) st.out d))
            (scan_secrets-All lib p (Done qs) (λ c e. ap (λ n. member n (names qs)) e ∙ own)
              (by_provenance lib p found) st (All-imp (leave p qs) st.out d))

  finish_scan-Ordered :
      (answer : Option Scan) (cs : List Candidate) (shadowed : List Bytes)
      → OrderedOr answer
      → finish_scan lib answer ≡ candidates cs shadowed
      → Pairwise Precedes cs
  unfolding finish_scan
  finish_scan-Ordered none cs shadowed o e = cc
  finish_scan-Ordered (some st) cs shadowed o e =
      subst (Pairwise Precedes) (finish_scan-out lib [] [] st cs shadowed e) o

  -- Where the configured providers have different names, a candidate that is before another one
  -- of the same provider has at least its provenance, and where the two have the same, the name
  -- of its Secret is not after that of the other.
  pub search_secrets-Ordered :
      (ps : List Provider) (items : List Secret) (cs : List Candidate) (shadowed : List Bytes)
      → Distinct (map (λ (q : Provider). q.name) ps)
      → search_secrets lib ps items ≡ candidates cs shadowed
      → Pairwise Precedes cs
  unfolding search_secrets
  search_secrets-Ordered ps items cs shadowed new e =
      finish_scan-Ordered _ cs shadowed
        (scan_providers-OrderedOr ps _ no_scan new (by_name-Named items) tt tt) e
