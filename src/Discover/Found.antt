-- ===== src/Discover/Found.antt =====
-- What stands behind a child that was discovered.
use argocd_cluster_registrar.Common.{
  some_injective, ◌≡◌, refl, subst, true, not, ◌&&◌, Option, none, some, List, [], ◌∷◌, All, Bytes,
  ◌≢◌, false, get, nonempty, All_of_In, In, here, there, arith, if_elim,
}
use argocd_cluster_registrar.Common.Result.{Outcome, ok, err}
use argocd_cluster_registrar.Labels
use argocd_cluster_registrar.Api.{ret, ◌>>=◌, perform, list_secrets}
use argocd_cluster_registrar.Api.Safe.{History, Saw, done, Runs, Safe-perform, Safe-bind, Safe-if}
use argocd_cluster_registrar.Kube.{Namespace, Secret}
use argocd_cluster_registrar.Kubeconfig.Parse.{ParseError, ParsedKubeconfig, parse_kubeconfig}
use argocd_cluster_registrar.Libraries.{Libraries}
use argocd_cluster_registrar.Config.{Config}
use argocd_cluster_registrar.Registrar.{Child, secret_name}
use argocd_cluster_registrar.Discover.{
  Candidate, Search, api_failure, nothing_matched, only_keyless, candidates, search_secrets,
  find_kubeconfig_candidates, first_usable, child_of, usable_child, choose, discover_one,
}
use argocd_cluster_registrar.Discover.Offers.{IsOffer}
use argocd_cluster_registrar.Discover.Searched.{IsOffers, search_secrets-IsOffers}

module _ (lib : Libraries) (cfg : Config) where
  -- What the bytes of a candidate parse to. Exec plugins need the flag and the provider's consent.
  abbrev pub parse : Candidate → Outcome ParseError ParsedKubeconfig
  parse c = parse_kubeconfig lib (get c.secret.data' c.key) (cfg.exec_credentials && c.allow_exec)

  -- The first candidate that parses.
  pub data IsFirst (c : Candidate) (pk : ParsedKubeconfig) : List Candidate → Type 0 where
    first : {cs : List Candidate} → parse c ≡ ok pk → IsFirst c pk (c ∷ cs)
    next :
        {d : Candidate} {cs : List Candidate} {e : ParseError}
        → parse d ≡ err e
        → IsFirst c pk cs
        → IsFirst c pk (d ∷ cs)

  first_usable-IsFirst :
      (cs : List Candidate) (c : Candidate) (pk : ParsedKubeconfig)
      → first_usable lib cfg cs ≡ some (c, pk)
      → IsFirst c pk cs
  unfolding first_usable
  first_usable-IsFirst [] c pk e = cc
  first_usable-IsFirst (d ∷ cs) c pk e = by_parse (parse d) refl e (first_usable-IsFirst cs c pk)
    where
      by_parse :
          (answer : Outcome ParseError ParsedKubeconfig)
          → parse d ≡ answer
          → ◌≡◌ {A = Option (Candidate × ParsedKubeconfig)}
              (elim answer [ err x ↦ first_usable lib cfg cs | ok q ↦ some (d, q) ])
              (some (c, pk))
          → (first_usable lib cfg cs ≡ some (c, pk) → IsFirst c pk cs)
          → IsFirst c pk (d ∷ cs)
      by_parse (ok q) p e rest =
          subst (λ (x : Candidate × ParsedKubeconfig). IsFirst x.0 x.1 (d ∷ cs)) (some_injective e)
            (first p)
      by_parse (err x) p e rest = next p (rest e)

  -- The parse of the candidate fails.
  abbrev pub Unparsed : Candidate → Type 0
  Unparsed c = (e : ParseError) × (parse c ≡ err e)

  first_usable-AllUnparsed :
      (cs : List Candidate) → first_usable lib cfg cs ≡ none → All Unparsed cs
  unfolding first_usable
  first_usable-AllUnparsed [] e = tt
  first_usable-AllUnparsed (d ∷ cs) e = by_parse (parse d) refl e (first_usable-AllUnparsed cs)
    where
      by_parse :
          (answer : Outcome ParseError ParsedKubeconfig)
          → parse d ≡ answer
          → ◌≡◌ {A = Option (Candidate × ParsedKubeconfig)}
              (elim answer [ err x ↦ first_usable lib cfg cs | ok q ↦ some (d, q) ])
              none
          → (first_usable lib cfg cs ≡ none → All Unparsed cs)
          → All Unparsed (d ∷ cs)
      by_parse (ok q) p e rest = cc
      by_parse (err x) p e rest = ((x, p), rest e)

  IsFirst-In :
      (c : Candidate) (pk : ParsedKubeconfig) (cs : List Candidate) → IsFirst c pk cs → In c cs
  IsFirst-In c pk cs (first p) = here
  IsFirst-In c pk (d ∷ cs) (next p k) = there (IsFirst-In c pk cs k)

  module _ (ns : Namespace) where
    -- The choice from the Secrets that were listed.
    pub record IsChosen (items : List Secret) (child : Child) : Type 0 where
      pub cs : List Candidate
      pub shadowed : List Bytes
      pub searched : search_secrets lib cfg.providers items ≡ candidates cs shadowed
      pub offers : IsOffers lib cfg.providers items cs
      pub candidate : Candidate
      pub parsed : ParsedKubeconfig
      pub first_usable : IsFirst candidate parsed cs
      pub offer : IsOffer lib cfg.providers items candidate
      pub same : child ≡ child_of lib cfg ns candidate parsed

    pub record IsDiscovered (h : History) (child : Child) : Type 0 where
      pub named : nonempty (get ns.labels (Labels.cluster_label cfg.label_prefix)) ≡ true
      pub valid :
          lib.is_dns1123_subdomain
            (secret_name (get ns.labels (Labels.cluster_label cfg.label_prefix)))
          ≡ true
      pub items : List Secret
      pub listed : Saw (list_secrets ns.name []) (some items) h
      pub chosen : IsChosen items child

    -- Why the Secrets that were listed yield no child.
    pub data NoneChosen (items : List Secret) : Type 0 where
      unsearched :
          ((cs : List Candidate) (shadowed : List Bytes)
            → search_secrets lib cfg.providers items ≢ candidates cs shadowed)
          → NoneChosen items
      unparsed :
          (cs : List Candidate) (shadowed : List Bytes)
          → search_secrets lib cfg.providers items ≡ candidates cs shadowed
          → All Unparsed cs
          → NoneChosen items
      unprovided :
          (cs : List Candidate) (shadowed : List Bytes) (c : Candidate) (pk : ParsedKubeconfig)
          → search_secrets lib cfg.providers items ≡ candidates cs shadowed
          → IsFirst c pk cs
          → nonempty c.provider ≡ false
          → NoneChosen items

    -- Why a namespace has no child.
    pub data Undiscovered (h : History) : Type 0 where
      unnamed :
          nonempty (get ns.labels (Labels.cluster_label cfg.label_prefix)) ≡ false → Undiscovered h
      misnamed :
          lib.is_dns1123_subdomain
              (secret_name (get ns.labels (Labels.cluster_label cfg.label_prefix)))
            ≡ false
          → Undiscovered h
      unlisted : Saw (list_secrets ns.name []) none h → Undiscovered h
      unchosen :
          (items : List Secret)
          → Saw (list_secrets ns.name []) (some items) h
          → NoneChosen items
          → Undiscovered h

    abbrev ChosenOr : List Secret → Option Child → Type 0
    ChosenOr items none = NoneChosen items
    ChosenOr items (some child) = IsChosen items child

    choose-ChosenOr :
        (items : List Secret) (answer : Search)
        → search_secrets lib cfg.providers items ≡ answer
        → ChosenOr items (choose lib cfg ns answer)
    unfolding choose
    choose-ChosenOr items api_failure e = unsearched (λ cs shadowed e'. cc (e, e'))
    choose-ChosenOr items nothing_matched e = unsearched (λ cs shadowed e'. cc (e, e'))
    choose-ChosenOr items (only_keyless names) e = unsearched (λ cs shadowed e'. cc (e, e'))
    choose-ChosenOr items (candidates cs shadowed) e = by_usable (first_usable lib cfg cs) refl
      where
        by_usable :
            (o : Option (Candidate × ParsedKubeconfig))
            → first_usable lib cfg cs ≡ o
            → ChosenOr items (usable_child lib cfg ns o)
        by_usable none f = unparsed cs shadowed e (first_usable-AllUnparsed cs f)
        by_usable (some (c, pk)) f =
            let offers = search_secrets-IsOffers lib cfg.providers items cs shadowed e in
            let choice = first_usable-IsFirst cs c pk f in
            if_elim (ChosenOr items) (nonempty c.provider)
              (λ _. record {
                cs = cs;
                shadowed = shadowed;
                searched = e;
                offers = offers;
                candidate = c;
                parsed = pk;
                first_usable = choice;
                offer =
                    All_of_In (IsOffer lib cfg.providers items) (IsFirst-In c pk cs choice)
                      offers.offers;
                same = refl;
              })
              (λ f'. unprovided cs shadowed c pk e choice f')

    -- What stands behind a child, or why there is none.
    abbrev pub DiscoveredOr : History → Option Child → Type 0
    DiscoveredOr h none = Undiscovered h
    DiscoveredOr h (some child) = IsDiscovered h child

    -- A child that is discovered, whatever the API server answers, comes from a namespace with a
    -- cluster name of which the Secret name is valid, and from the first of the candidates,
    -- offered by the search of the Secrets that were listed in that namespace, that parses, each
    -- one before it having been refused. Where no child is discovered, the namespace has no
    -- cluster name, or the Secret name is not valid, or that list failed, or the search of it
    -- offers no candidate, or no candidate parses, or the first that does is of no provider.
    pub discover_one-IsDiscovered : (h : History) → Runs DiscoveredOr h (discover_one lib cfg ns)
    unfolding discover_one find_kubeconfig_candidates ◌>>=◌ perform
    discover_one-IsDiscovered h =
        let name = get ns.labels (Labels.cluster_label cfg.label_prefix) in
        Safe-if (not (nonempty name)) (λ e. done (unnamed (ground (arith, e))))
          λ named.
            Safe-if (not (lib.is_dns1123_subdomain (secret_name name)))
              (λ e. done (misnamed (ground (arith, e))))
              λ valid.
                Safe-bind (Safe-perform h (list_secrets ns.name []) tt)
                  (on_listing (ground (arith, named)) (ground (arith, valid)))
      where
        with_child :
            nonempty (get ns.labels (Labels.cluster_label cfg.label_prefix)) ≡ true
            → lib.is_dns1123_subdomain
                (secret_name (get ns.labels (Labels.cluster_label cfg.label_prefix)))
              ≡ true
            → (h' : History) (items : List Secret) → Saw (list_secrets ns.name []) (some items) h'
            → (o : Option Child) → ChosenOr items o
            → DiscoveredOr h' o
        with_child named valid h' items saw none k = unchosen items saw k
        with_child named valid h' items saw (some child) k = record {
          named = named;
          valid = valid;
          items = items;
          listed = saw;
          chosen = k;
        }

        on_listing :
            nonempty (get ns.labels (Labels.cluster_label cfg.label_prefix)) ≡ true
            → lib.is_dns1123_subdomain
                (secret_name (get ns.labels (Labels.cluster_label cfg.label_prefix)))
              ≡ true
            → (h' : History) (answer : Option (List Secret))
            → Saw (list_secrets ns.name []) answer h'
            → Runs {A = Option Child} DiscoveredOr h' (
                ret (
                  choose lib cfg ns (elim answer [
                    | none ↦ api_failure
                    | some items ↦ search_secrets lib cfg.providers items
                  ])))
        on_listing named valid h' none saw = done (unlisted saw)
        on_listing named valid h' (some items) saw = done (
            with_child named valid h' items saw _
              (choose-ChosenOr items (search_secrets lib cfg.providers items) refl))
