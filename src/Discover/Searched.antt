-- ===== src/Discover/Searched.antt =====
-- What comes out of the search for kubeconfigs.
use argocd_cluster_registrar.Common.{
  ◌≡◌, sym, ap, subst, ◌∙◌, Option, none, some, List, [], ◌∷◌, Bytes, All, All-from_In, All_of_In,
  All-sort_by, All-imp, In,
}
use argocd_cluster_registrar.Kube.{Secret}
use argocd_cluster_registrar.Libraries.{Libraries}
use argocd_cluster_registrar.Provider.{Provider}
use argocd_cluster_registrar.Discover.{
  Candidate, Scan, no_scan, nothing_matched, only_keyless, candidates, scan_secrets, matching,
  by_provenance, scan_providers, finish_scan, search_secrets,
}
use argocd_cluster_registrar.Discover.Offers.{
  IsOffer, Matched, Held, IsScan, AllMatched, matching-AllMatched, scan_secrets-IsScan,
}

module _ (lib : Libraries) (ps : List Provider) (items : List Secret) where
  abbrev ScanOr : Option Scan → Type 0
  ScanOr none = Unit {0}
  ScanOr (some st) = IsScan lib ps items st

  scan_providers-ScanOr :
      (qs : List Provider) (sorted : List Secret) (st : Scan)
      → All (λ p. In p ps) qs
      → All (λ s. In s items) sorted
      → IsScan lib ps items st
      → ScanOr (scan_providers lib qs sorted st)
  unfolding scan_providers by_provenance
  scan_providers-ScanOr [] sorted st is h k = k
  scan_providers-ScanOr (p ∷ qs) sorted st (i, is) h k =
      by_matching (matching lib p sorted) (matching-AllMatched lib ps items p sorted h)
        (λ st'. scan_providers-ScanOr qs sorted st' is h)
    where
      by_matching :
          (answer : Option (List Secret))
          → AllMatched lib ps items p answer
          → ((st' : Scan) → IsScan lib ps items st' → ScanOr (scan_providers lib qs sorted st'))
          → ScanOr (elim answer [
            | none ↦ none
            | some found ↦
                scan_providers lib qs sorted (scan_secrets lib p (by_provenance lib p found) st)
          ])
      by_matching none ms next = tt
      by_matching (some found) ms next = next _ (
          scan_secrets-IsScan lib ps items p (by_provenance lib p found) st i
            (All-sort_by _ (Matched lib ps items p) found ms) k)

  -- Every candidate is an offer, and those of one Secret are by one provider.
  pub record IsOffers (cs : List Candidate) : Type 0 where
    pub offers : All (IsOffer lib ps items) cs
    pub single :
        (c d : Candidate)
        → In c cs
        → In d cs
        → c.secret.name ≡ d.secret.name
        → c.provider ≡ d.provider

  IsScan-IsOffers : (st : Scan) → IsScan lib ps items st → IsOffers st.out
  IsScan-IsOffers st (f, held) = record {
    offers = All-imp (λ c k. k.0) st.out held;
    single = λ c d i j same.
        sym (All_of_In (Held lib ps items f st.claimed) i held).1
        ∙ ap f same
        ∙ (All_of_In (Held lib ps items f st.claimed) j held).1;
  }

  pub finish_scan-out :
      (st : Scan) (cs : List Candidate) (shadowed : List Bytes)
      → finish_scan lib (some st) ≡ candidates cs shadowed
      → st.out ≡ cs
  unfolding finish_scan
  finish_scan-out st cs shadowed e = by_lists st.out st.keyless e
    where
      by_lists :
          (out : List Candidate) (keyless : List Bytes)
          → (elim out [
            | c ∷ cs ↦ candidates (c ∷ cs) st.shadowed
            | [] ↦ elim keyless [ [] ↦ nothing_matched | k ∷ ks ↦ only_keyless (k ∷ ks) ]
          ])
            ≡ candidates cs shadowed
          → out ≡ cs
      by_lists [] [] e = cc
      by_lists [] (k ∷ ks) e = cc
      by_lists (c ∷ out) keyless e = cc

  finish_scan-IsOffers :
      (answer : Option Scan) (cs : List Candidate) (shadowed : List Bytes)
      → ScanOr answer
      → finish_scan lib answer ≡ candidates cs shadowed
      → IsOffers cs
  unfolding finish_scan
  finish_scan-IsOffers none cs shadowed k e = cc
  finish_scan-IsOffers (some st) cs shadowed k e =
      subst IsOffers (finish_scan-out st cs shadowed e) (IsScan-IsOffers st k)

  -- Every candidate of a search is a key that a listed Secret has, by a configured provider whose
  -- pattern matches the name of the Secret and that has the key and the exec consent of the
  -- candidate; and all candidates of Secrets of one name are by providers of one name.
  pub search_secrets-IsOffers :
      (cs : List Candidate) (shadowed : List Bytes)
      → search_secrets lib ps items ≡ candidates cs shadowed
      → IsOffers cs
  unfolding search_secrets
  search_secrets-IsOffers cs shadowed e =
      finish_scan-IsOffers _ cs shadowed
        (scan_providers-ScanOr ps _ no_scan (All-from_In _ ps (λ p i. i))
          (All-sort_by _ (λ s. In s items) items (All-from_In _ items (λ s i. i))) (λ n. n, tt))
        e
