-- ===== src/Discover/Ordered.antt =====
-- The order in which the search offers the kubeconfigs of a namespace.
use argocd_cluster_registrar.Common.{
  ℕ, ◌≤◌, ◌≡◌, refl, sym, ap, subst, ◌∙◌, Bool, true, false, not, ◌&&◌, Option, none, some, List,
  [], ◌∷◌, ◌++◌, Bytes, less, less_irrefl, less_asymm, not_less_trans, ltb, sort_by, has_key, keep,
  member, All, All-append, All-imp, All-map, All-intro, Pairwise, Pairwise-intro, Pairwise-imp,
  Pairwise-append, Kept, sort_by-Kept, arith, if_elim,
}
use argocd_cluster_registrar.Kube.{Secret}
use argocd_cluster_registrar.Libraries.{Libraries}
use argocd_cluster_registrar.Provider.{Provider, provenance}
use argocd_cluster_registrar.Discover.{
  Candidate, Scan, candidates_of, carries_exec, scan_secret, scan_secrets, matching, by_provenance,
}

-- A Secret of more provenance first, ties in the order of the names.
abbrev pub Comes : ℕ → Bytes → ℕ → Bytes → Type 0
Comes m s n t = (n ≤ m) × (m ≡ n → less t s ≡ false)

-- Candidates of one provider are in order.
abbrev pub Precedes : Candidate → Candidate → Type 0
Precedes c d =
    c.provider ≡ d.provider → Comes c.provenance' c.secret.name d.provenance' d.secret.name

abbrev pub Named : Secret → Secret → Type 0
Named s t = less t.name s.name ≡ false

abbrev pub Ranked : Provider → Secret → Secret → Type 0
Ranked p s t = Comes (provenance s p) s.name (provenance t p) t.name

pub by_name-Named :
    (items : List Secret) → Pairwise Named (sort_by (λ a b. less a.name b.name) items)
by_name-Named items =
    Pairwise-imp (λ s t k. k.0) (sort_by (λ a b. less a.name b.name) items)
      (sort_by-Kept (λ a b. less a.name b.name) (λ s t. Unit {0})
        (λ s t e. less_asymm s.name t.name e)
        (λ s t u e e'. not_less_trans u.name t.name s.name e' e) items
        (Pairwise-intro (λ s t. Unit {0}) (λ s t. tt) items))

module _ (lib : Libraries) (p : Provider) where
  pub by_provenance-Ranked :
      (found : List Secret) → Pairwise Named found → Pairwise (Ranked p) (by_provenance lib p found)
  unfolding by_provenance
  by_provenance-Ranked found k = Pairwise-imp ranked _ (
      sort_by-Kept (λ a b. ltb (provenance b p) (provenance a p)) Named
        (λ s t. lower (provenance s p) (provenance t p))
        (λ s t u. higher (provenance s p) (provenance t p) (provenance u p)) found k)
    where
      lower : (m n : ℕ) → ltb n m ≡ true → ltb m n ≡ false
      lower m n e = ground arith

      higher : (m n o : ℕ) → ltb m n ≡ false → ltb n o ≡ false → ltb m o ≡ false
      higher m n o e e' = ground arith

      ranked :
          (s t : Secret)
          → Kept (λ a b. ltb (provenance b p) (provenance a p)) Named s t
          → Ranked p s t
      ranked s t (e, ties) = (ground arith, λ same. ties (ground arith))

  -- A candidate of the provider is in order with what is left of its matches.
  abbrev pub Awaits : List Secret → Candidate → Type 0
  Awaits rest c =
      c.provider ≡ p.name
      → All (λ s. Comes c.provenance' c.secret.name (provenance s p) s.name) rest

  -- The scan is in order so far, and with what is left.
  abbrev Going : List Secret → Scan → Type 0
  Going rest st = Pairwise Precedes st.out × All (Awaits rest) st.out

  abbrev Made : Secret → Candidate → Type 0
  Made s c = (c.secret ≡ s) × (c.provenance' ≡ provenance s p) × (c.provider ≡ p.name)

  candidates_of-Made : (s : Secret) → All (Made s) (candidates_of lib p s)
  unfolding candidates_of
  candidates_of-Made s =
      All-map _ _ (keep (λ k. has_key k s.data') p.secret_keys)
        (All-intro (λ k. (refl, refl, refl)) (keep (λ k. has_key k s.data') p.secret_keys))

  Made-Precedes : (s : Secret) (c d : Candidate) → Made s c → Made s d → Precedes c d
  Made-Precedes s c d (cs, cp, cn) (ds, dp, dn) same = (
    ground (arith, cp, dp),
    λ e.
        ap (λ t. less t.name c.secret.name) ds
        ∙ ap (λ t. less s.name t.name) cs
        ∙ less_irrefl s.name,
  )

  Made-Pairwise : (s : Secret) (cs : List Candidate) → All (Made s) cs → Pairwise Precedes cs
  Made-Pairwise s [] ms = tt
  Made-Pairwise s (c ∷ cs) (m, ms) =
      (All-imp (λ d. Made-Precedes s c d m) cs ms, Made-Pairwise s cs ms)

  Awaits-Made :
      (s : Secret) (rest : List Secret) (c : Candidate)
      → Awaits (s ∷ rest) c
      → (d : Candidate) → Made s d
      → Precedes c d
  Awaits-Made s rest c w d (ds, dp, dn) same =
      subst (λ t. Comes c.provenance' c.secret.name d.provenance' t.name) (sym ds)
        (subst (λ n. Comes c.provenance' c.secret.name n s.name) (sym dp) (w (same ∙ dn)).0)

  Made-Awaits :
      (s : Secret) (rest : List Secret)
      → All (Ranked p s) rest
      → (c : Candidate) → Made s c
      → Awaits rest c
  Made-Awaits s rest r c (cs, cp, cn) same =
      subst (λ t. All (λ u. Comes c.provenance' t.name (provenance u p) u.name) rest) (sym cs)
        (subst (λ n. All (λ u. Comes n s.name (provenance u p) u.name) rest) (sym cp) r)

  scan_secret-Going :
      (s : Secret) (rest : List Secret) (st : Scan)
      → All (Ranked p s) rest
      → Going (s ∷ rest) st
      → Going rest (scan_secret lib p s st)
  unfolding scan_secret
  scan_secret-Going s rest st r (o, w) =
      if_elim (Going rest) (member s.name st.claimed)
        (λ e.
          if_elim (Going rest)
            (p.allow_exec && not (member s.name st.shadowed) && carries_exec lib s p.secret_keys)
            (λ e'. (o, left)) (λ e'. (o, left)))
        (λ e. by_candidates (candidates_of lib p s) (candidates_of-Made s))
    where
      left : All (Awaits rest) st.out
      left = All-imp (λ c a same. (a same).1) st.out w

      by_candidates :
          (cs : List Candidate)
          → All (Made s) cs
          → Going rest (elim cs [
            | [] ↦ record st { keyless = st.keyless ++ s.name ∷ [] }
            | c ∷ cs ↦ record st { out = st.out ++ c ∷ cs; claimed = s.name ∷ st.claimed }
          ])
      by_candidates [] ms = (o, left)
      by_candidates (c ∷ cs) ms = (
        Pairwise-append Precedes st.out (c ∷ cs) o (Made-Pairwise s (c ∷ cs) ms)
            (All-imp (λ d a. All-imp (Awaits-Made s rest d a) (c ∷ cs) ms) st.out w),
        All-append (Awaits rest) st.out (c ∷ cs) left (All-imp (Made-Awaits s rest r) (c ∷ cs) ms),
      )

  pub scan_secrets-Ordered :
      (found : List Secret) (st : Scan)
      → Pairwise (Ranked p) found
      → Going found st
      → Pairwise Precedes (scan_secrets lib p found st).out
  unfolding scan_secrets
  scan_secrets-Ordered [] st rs g = g.0
  scan_secrets-Ordered (s ∷ rest) st (r, rs) g =
      scan_secrets-Ordered rest (scan_secret lib p s st) rs (scan_secret-Going s rest st r g)

  abbrev AllOut : (Candidate → Type 0) → Scan → Type 0
  AllOut P st = All P st.out

  -- What the scan of one provider adds is of that provider.
  pub scan_secrets-All :
      (P : Candidate → Type 0)
      → ((c : Candidate) → c.provider ≡ p.name → P c)
      → (found : List Secret) (st : Scan) → All P st.out
      → All P (scan_secrets lib p found st).out
  unfolding scan_secrets scan_secret
  scan_secrets-All P own [] st h = h
  scan_secrets-All P own (s ∷ rest) st h = scan_secrets-All P own rest (scan_secret lib p s st) (
      if_elim (AllOut P) (member s.name st.claimed)
        (λ e.
          if_elim (AllOut P)
            (p.allow_exec && not (member s.name st.shadowed) && carries_exec lib s p.secret_keys)
            (λ e'. h) (λ e'. h))
        (λ e. by_candidates (candidates_of lib p s) (candidates_of-Made s)))
    where
      by_candidates :
          (cs : List Candidate)
          → All (Made s) cs
          → AllOut P (elim cs [
            | [] ↦ record st { keyless = st.keyless ++ s.name ∷ [] }
            | c ∷ cs ↦ record st { out = st.out ++ c ∷ cs; claimed = s.name ∷ st.claimed }
          ])
      by_candidates [] ms = h
      by_candidates (c ∷ cs) ms =
          All-append P st.out (c ∷ cs) h (All-imp (λ d (ds, dp, dn). own d dn) (c ∷ cs) ms)

  -- A relation between the listed Secrets holds between the matches.
  abbrev pub Listed : (Secret → Secret → Type 0) → Option (List Secret) → Type 0
  Listed R none = Unit {0}
  Listed R (some found) = Pairwise R found

  abbrev Each : (Secret → Type 0) → Option (List Secret) → Type 0
  Each P none = Unit {0}
  Each P (some found) = All P found

  matching-Each :
      (P : Secret → Type 0) (sorted : List Secret) → All P sorted → Each P (matching lib p sorted)
  unfolding matching
  matching-Each P [] h = tt
  matching-Each P (s ∷ rest) (k, h) =
      by_match (lib.path_match p.secret_name_pattern s.name) (matching lib p rest)
        (matching-Each P rest h)
    where
      by_match :
          (answer : Option Bool) (others : Option (List Secret))
          → Each P others
          → Each P (elim answer [
            | none ↦ none
            | some false ↦ others
            | some true ↦ elim others [ none ↦ none | some found ↦ some (s ∷ found) ]
          ])
      by_match none others h' = tt
      by_match (some false) others h' = h'
      by_match (some true) none h' = tt
      by_match (some true) (some found) h' = (k, h')

  pub matching-Listed :
      (R : Secret → Secret → Type 0) (sorted : List Secret)
      → Pairwise R sorted
      → Listed R (matching lib p sorted)
  unfolding matching
  matching-Listed R [] h = tt
  matching-Listed R (s ∷ rest) (k, h) =
      by_match (lib.path_match p.secret_name_pattern s.name) (matching lib p rest)
        (matching-Each (R s) rest k) (matching-Listed R rest h)
    where
      by_match :
          (answer : Option Bool) (others : Option (List Secret))
          → Each (R s) others
          → Listed R others
          → Listed R (elim answer [
            | none ↦ none
            | some false ↦ others
            | some true ↦ elim others [ none ↦ none | some found ↦ some (s ∷ found) ]
          ])
      by_match none others k' h' = tt
      by_match (some false) others k' h' = h'
      by_match (some true) none k' h' = tt
      by_match (some true) (some found) k' h' = (k', h')
