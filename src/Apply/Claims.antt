-- ===== src/Apply/Claims.antt =====
-- The two claims behind a new registration: the name is awarded, and the address is free.
use argocd_cluster_registrar.Common.{
  ◌≡◌, ◌≢◌, ◌∙◌, sym, refl, ◌⊎◌, inl, inr, Bool, true, false, not, ◌&&◌, Option, none, some, List,
  [], ◌∷◌, nonempty, All, arith,
}
use mathlib.Core.Bool.{false≢true}
use argocd_cluster_registrar.Api.{
  Found, found, not_found, failed, get_namespace, list_namespaces, list_secrets, Prog, ret,
}
use argocd_cluster_registrar.Api.Safe.{
  History, Saw, earlier, Safe, done, Persists, Safe-perform, Safe-bind, Safe-if, Safe-frame,
  Safe-weaken,
}
use argocd_cluster_registrar.Kube.{Namespace, Secret}
use argocd_cluster_registrar.Config.{Config}
use argocd_cluster_registrar.Registrar.{
  Child, Verdict, allowed, broken, source_of, is_pinned, claimant_selector, list_claimants,
  list_cluster_secrets,
}
use argocd_cluster_registrar.Ownership.{
  award, claim_contested_name, namespace_exists, holds_server, keeps_server, check_servers,
  claim_server,
}
use argocd_cluster_registrar.Apply.Takeover.{
  argo_selector, Verdict-cases, Released, AddressFree, NameAwarded, MayWrite,
}

module _ (cfg : Config) (c : Child) where
  -- What a list of claimants decides, kept with the listing.
  pub claim_contested_name-NameAwarded :
      (h : History)
      → Safe
          (MayWrite cfg c)
          (λ h' v. (v ≢ allowed) ⊎ NameAwarded cfg c h')
          h
          (claim_contested_name cfg c)
  unfolding claim_contested_name
  claim_contested_name-NameAwarded h =
      Safe-bind (Safe-perform h (list_namespaces (claimant_selector cfg c.cluster)) tt)
        λ h' answer saw. done (judge h' answer saw)
    where
      judge :
          (h' : History) (answer : Option (List Namespace))
          → Saw (list_namespaces (claimant_selector cfg c.cluster)) answer h'
          → (elim answer [ none ↦ broken list_claimants | some items ↦ award items c ] ≢ allowed)
            ⊎ NameAwarded cfg c h'
      judge h' none saw = inl (λ e. cc)
      judge h' (some items) saw = elim (Verdict-cases (award items c)) [
        | inl e ↦ inr (items, saw, e)
        | inr n ↦ inl n
      ]

  keeps_server-Released :
      (h : History) (s : Secret)
      → Safe
          (MayWrite cfg c)
          (λ h' kept. (kept ≡ true) ⊎ Released cfg c s h')
          h
          (keeps_server cfg s)
  unfolding keeps_server namespace_exists
  keeps_server-Released h s =
      Safe-if (not (is_pinned cfg s) && nonempty (source_of cfg s))
        (λ e.
          Safe-bind (Safe-perform h (get_namespace (source_of cfg s)) tt)
            λ h' answer saw. done (judge h' answer saw (ground arith)))
        (λ e. done (inl refl))
    where
      judge :
          (h' : History) (answer : Found Namespace)
          → Saw (get_namespace (source_of cfg s)) answer h'
          → (is_pinned cfg s ≡ false) × (nonempty (source_of cfg s) ≡ true)
          → (elim answer [ found ns ↦ true | not_found ↦ false | failed ↦ true ] ≡ true)
            ⊎ Released cfg c s h'
      judge h' (found ns) saw p = inl refl
      judge h' not_found saw p = inr (p.0, p.1, saw)
      judge h' failed saw p = inl refl

  abbrev Clear : List Secret → History → Type 0
  Clear items h = All (λ s. (holds_server cfg s c ≡ false) ⊎ Released cfg c s h) items

  Released-Persists :
      (s : Secret) → Persists (λ h. (holds_server cfg s c ≡ false) ⊎ Released cfg c s h)
  Released-Persists s e h (inl free) = inl free
  Released-Persists s e h (inr r) = inr (r.0, r.1, earlier r.2)

  check_servers-Clear :
      (h : History) (items : List Secret)
      → Safe (MayWrite cfg c) (λ h' v. (v ≢ allowed) ⊎ Clear items h') h (check_servers cfg items c)
  unfolding check_servers
  check_servers-Clear h [] = done (inr tt)
  check_servers-Clear h (s ∷ rest) =
      Safe-if (holds_server cfg s c)
        (λ e. Safe-bind (keeps_server-Released h s) λ h' kept q.
          Safe-if kept (λ k. done (inl (λ v. cc)))
            λ k. with_rest h' (inr (released q k)) (check_servers-Clear h' rest))
        (λ e. with_rest h (inl e) (check_servers-Clear h rest))
    where
      released :
          {h' : History} {kept : Bool}
          → (kept ≡ true) ⊎ Released cfg c s h'
          → kept ≡ false
          → Released cfg c s h'
      released (inl t) f = absurd (false≢true (sym f ∙ t))
      released (inr r) f = r

      with_rest :
          {m : Prog Verdict} (h' : History)
          → (holds_server cfg s c ≡ false) ⊎ Released cfg c s h'
          → Safe (MayWrite cfg c) (λ h'' v. (v ≢ allowed) ⊎ Clear rest h'') h' m
          → Safe (MayWrite cfg c) (λ h'' v. (v ≢ allowed) ⊎ Clear (s ∷ rest) h'') h' m
      with_rest h' head safe =
          Safe-weaken (λ h'' v q. join q.0 q.1) (Safe-frame _ (Released-Persists s) head safe)
        where
          join :
              {h'' : History} {v : Verdict}
              → (holds_server cfg s c ≡ false) ⊎ Released cfg c s h''
              → (v ≢ allowed) ⊎ Clear rest h''
              → (v ≢ allowed) ⊎ Clear (s ∷ rest) h''
          join head' (inl n) = inl n
          join head' (inr k) = inr (head', k)

  pub claim_server-AddressFree :
      (h : History)
      → Safe (MayWrite cfg c) (λ h' v. (v ≢ allowed) ⊎ AddressFree cfg c h') h (claim_server cfg c)
  unfolding claim_server
  claim_server-AddressFree h =
      Safe-bind (Safe-perform h (list_secrets cfg.target_namespace argo_selector) tt) on_listing
    where
      on_listing :
          (h' : History) (answer : Option (List Secret))
          → Saw (list_secrets cfg.target_namespace argo_selector) answer h'
          → Safe
              (MayWrite cfg c)
              (λ h'' v. (v ≢ allowed) ⊎ AddressFree cfg c h'')
              h'
              (elim answer [
                | none ↦ ret (broken list_cluster_secrets)
                | some items ↦ check_servers cfg items c
              ])
      on_listing h' none saw = done (inl (λ e. cc))
      on_listing h' (some items) saw =
          Safe-weaken (λ h'' v q. keep_listing q.0 q.1)
            (Safe-frame (Saw (list_secrets cfg.target_namespace argo_selector) (some items))
              (λ e h'' s. earlier s) saw (check_servers-Clear h' items))
        where
          keep_listing :
              {h'' : History} {v : Verdict}
              → Saw (list_secrets cfg.target_namespace argo_selector) (some items) h''
              → (v ≢ allowed) ⊎ Clear items h''
              → (v ≢ allowed) ⊎ AddressFree cfg c h''
          keep_listing saw' (inl n) = inl n
          keep_listing saw' (inr k) = inr (items, saw', k)
