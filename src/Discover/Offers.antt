-- ===== src/Discover/Offers.antt =====
-- What the search for kubeconfigs offers.
use argocd_cluster_registrar.Common.{
  ◌≡◌, refl, ap, Bool, true, false, not, ◌&&◌, Option, none, some, List, [], ◌∷◌, ◌++◌, Bytes, ◌==◌,
  ==_ne, ==_refl, has_key, keep, member, All, All-append, All-from_In, All-imp, All-map,
  All-keep_both, In, arith, if◌then◌else◌, if_elim,
}
use argocd_cluster_registrar.Kube.{Secret}
use argocd_cluster_registrar.Libraries.{Libraries}
use argocd_cluster_registrar.Provider.{Provider}
use argocd_cluster_registrar.Discover.{
  Candidate, Scan, candidates_of, carries_exec, scan_secret, scan_secrets, matching,
}

module _ (lib : Libraries) (ps : List Provider) (items : List Secret) where
  -- The provider allows the Secret, and the key is one of its keys.
  pub record IsFrom (c : Candidate) (p : Provider) : Type 0 where
    pub configured : In p ps
    pub name : c.provider ≡ p.name
    pub key : In c.key p.secret_keys
    pub matched : lib.path_match p.secret_name_pattern c.secret.name ≡ some true
    pub exec : c.allow_exec ≡ p.allow_exec

  -- A key that a listed Secret has, by a configured provider whose pattern its name matches.
  abbrev pub IsOffer : Candidate → Type 0
  IsOffer c =
      In c.secret items × (has_key c.key c.secret.data' ≡ true) × ((p : Provider) × IsFrom c p)

  -- A listed Secret that the pattern matches.
  abbrev pub Matched : Provider → Secret → Type 0
  Matched p s = In s items × (lib.path_match p.secret_name_pattern s.name ≡ some true)

  candidates_of-IsOffer :
      (p : Provider) (s : Secret)
      → In p ps
      → Matched p s
      → All (λ c. IsOffer c × (c.provider ≡ p.name) × (c.secret ≡ s)) (candidates_of lib p s)
  unfolding candidates_of
  candidates_of-IsOffer p s i (listed, m) =
      All-map _ _ (keep (λ k. has_key k s.data') p.secret_keys) (
        All-imp
          (λ k (inside, has). (
            (
              listed,
              has,
              (p, record { configured = i; name = refl; key = inside; matched = m; exec = refl }),
            ),
            refl,
            refl,
          ))
          (keep (λ k. has_key k s.data') p.secret_keys)
          (All-keep_both (λ k. In k p.secret_keys) (λ k. has_key k s.data') p.secret_keys
            (All-from_In (λ k. In k p.secret_keys) p.secret_keys (λ k j. j))))

  -- An offer of a claimed Secret by the provider that has it.
  abbrev pub Held : (Bytes → Bytes) → List Bytes → Candidate → Type 0
  Held f claimed c =
      IsOffer c × (f c.secret.name ≡ c.provider) × (member c.secret.name claimed ≡ true)

  -- Each claimed Secret has one provider.
  abbrev pub IsScan : Scan → Type 0
  IsScan st = (f : Bytes → Bytes) × All (Held f st.claimed) st.out

  -- One more Secret is claimed.
  abbrev assign : (Bytes → Bytes) → Bytes → Bytes → Bytes → Bytes
  assign f name provider n = if name == n then provider else f n

  keep_Held :
      (f : Bytes → Bytes) (p : Provider) (s : Secret) (claimed : List Bytes)
      → member s.name claimed ≡ false
      → (c : Candidate) → Held f claimed c
      → Held (assign f s.name p.name) (s.name ∷ claimed) c
  unfolding member
  keep_Held f p s claimed new c (offer, owner, old) =
      let other : (s.name == c.secret.name) ≡ false =
        ==_ne s.name c.secret.name (λ e. cc (new, old, ap (λ n. member n claimed) e)) in
      (offer, ground (arith, other, owner), ground (arith, old))

  scan_secret-IsScan :
      (p : Provider) (s : Secret) (st : Scan)
      → In p ps
      → Matched p s
      → IsScan st
      → IsScan (scan_secret lib p s st)
  unfolding scan_secret member
  scan_secret-IsScan p s st i m (f, held) =
      if_elim IsScan (member s.name st.claimed)
        (λ e.
          if_elim IsScan
            (p.allow_exec && not (member s.name st.shadowed) && carries_exec lib s p.secret_keys)
            (λ e'. (f, held)) (λ e'. (f, held)))
        (λ e. by_candidates e (candidates_of lib p s) (candidates_of-IsOffer p s i m))
    where
      new_Held :
          (c : Candidate)
          → IsOffer c × (c.provider ≡ p.name) × (c.secret ≡ s)
          → Held (assign f s.name p.name) (s.name ∷ st.claimed) c
      new_Held c (offer, name, same) =
          (offer, ground (arith, name, same, ==_refl s.name), ground (arith, same, ==_refl s.name))

      by_candidates :
          member s.name st.claimed ≡ false
          → (cs : List Candidate) → All (λ c. IsOffer c × (c.provider ≡ p.name) × (c.secret ≡ s)) cs
          → IsScan (elim cs [
            | [] ↦ record st { keyless = st.keyless ++ s.name ∷ [] }
            | c ∷ cs ↦ record st { out = st.out ++ c ∷ cs; claimed = s.name ∷ st.claimed }
          ])
      by_candidates e [] h = (f, held)
      by_candidates e (c ∷ cs) h = (
        assign f s.name p.name,
        All-append (Held (assign f s.name p.name) (s.name ∷ st.claimed)) st.out (c ∷ cs)
            (All-imp (keep_Held f p s st.claimed e) st.out held) (All-imp new_Held (c ∷ cs) h),
      )

  pub scan_secrets-IsScan :
      (p : Provider) (found : List Secret) (st : Scan)
      → In p ps
      → All (Matched p) found
      → IsScan st
      → IsScan (scan_secrets lib p found st)
  unfolding scan_secrets
  scan_secrets-IsScan p [] st i ms k = k
  scan_secrets-IsScan p (s ∷ rest) st i (m, ms) k =
      scan_secrets-IsScan p rest (scan_secret lib p s st) i ms (scan_secret-IsScan p s st i m k)

  -- Where all the matches of a provider come from.
  abbrev pub AllMatched : Provider → Option (List Secret) → Type 0
  AllMatched p none = Unit {0}
  AllMatched p (some found) = All (Matched p) found

  pub matching-AllMatched :
      (p : Provider) (sorted : List Secret)
      → All (λ s. In s items) sorted
      → AllMatched p (matching lib p sorted)
  unfolding matching
  matching-AllMatched p [] h = tt
  matching-AllMatched p (s ∷ rest) (i, h) =
      by_match (lib.path_match p.secret_name_pattern s.name) (matching lib p rest) refl
        (matching-AllMatched p rest h)
    where
      by_match :
          (answer : Option Bool) (others : Option (List Secret))
          → lib.path_match p.secret_name_pattern s.name ≡ answer
          → AllMatched p others
          → AllMatched p (elim answer [
            | none ↦ none
            | some false ↦ others
            | some true ↦ elim others [ none ↦ none | some found ↦ some (s ∷ found) ]
          ])
      by_match none others e k = tt
      by_match (some false) others e k = k
      by_match (some true) none e k = tt
      by_match (some true) (some found) e k = ((i, e), k)
