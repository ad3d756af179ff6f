-- ===== src/Kubeconfig/Named.antt =====
-- The first entry of a name, which the loops of `resolve` stop at.
use argocd_cluster_registrar.Common.{
  some_injective, ◌≡◌, ◌↔◌, refl, ap, Bool, true, false, Option, some, List, [], ◌∷◌, Bytes, ◌==◌,
  if◌then◌else◌,
}
use argocd_cluster_registrar.Kubeconfig.{ContextEntry, find_named, find_context}

-- The value of the first entry of a name: those before it have other names.
pub data IsFirst {X A : Type 0} (key : X → Bytes) (value : X → A) (name : Bytes) (a : A)
    : List X → Type 0 where
  found_here :
      {x : X} {rest : List X}
      → (key x == name) ≡ true
      → value x ≡ a
      → IsFirst key value name a (x ∷ rest)
  further :
      {x : X} {rest : List X}
      → (key x == name) ≡ false
      → IsFirst key value name a rest
      → IsFirst key value name a (x ∷ rest)

abbrev pub IsNamed : {A : Type 0} → Bytes → A → List (Bytes × A) → Type 0
IsNamed name a entries = IsFirst (λ e. e.0) (λ e. e.1) name a entries

abbrev pub IsContext : Bytes → ContextEntry → List ContextEntry → Type 0
IsContext name ctx entries = IsFirst (λ (c : ContextEntry). c.name) (λ c. c) name ctx entries

-- A search that stops at the first entry of the name.
first_iff :
    {X A : Type 0} (key : X → Bytes) (value : X → A) (name : Bytes) (x : X) (rest : List X) (a : A)
    (found : Option A)
    → (found ≡ some a) ↔ IsFirst key value name a rest
    → ((if key x == name then some (value x) else found) ≡ some a)
      ↔ IsFirst key value name a (x ∷ rest)
first_iff key value name x rest a found others = by_name (key x == name) refl
  where
    same : (key x == name) ≡ true → IsFirst key value name a (x ∷ rest) → value x ≡ a
    same e (found_here e' v) = v
    same e (further e' k) = cc

    other :
        (key x == name) ≡ false
        → IsFirst key value name a (x ∷ rest)
        → IsFirst key value name a rest
    other e (found_here e' v) = cc
    other e (further e' k) = k

    by_name :
        (b : Bool)
        → (key x == name) ≡ b
        → ((if b then some (value x) else found) ≡ some a) ↔ IsFirst key value name a (x ∷ rest)
    by_name true e = (λ h. found_here e (some_injective h), λ f. ap some (same e f))
    by_name false e = (λ h. further e (others.0 h), λ f. others.1 (other e f))

pub find_named_iff :
    {A : Type 0} (name : Bytes) (entries : List (Bytes × A)) (a : A)
    → (find_named name entries ≡ some a) ↔ IsNamed name a entries
unfolding find_named
find_named_iff name [] a = (λ e. cc, λ f. elim f [ ])
find_named_iff name (e ∷ rest) a =
    first_iff (λ x. x.0) (λ x. x.1) name e rest a _ (find_named_iff name rest a)

pub find_context_iff :
    (name : Bytes) (entries : List ContextEntry) (ctx : ContextEntry)
    → (find_context name entries ≡ some ctx) ↔ IsContext name ctx entries
unfolding find_context
find_context_iff name [] ctx = (λ e. cc, λ f. elim f [ ])
find_context_iff name (c ∷ rest) ctx =
    first_iff (λ (x : ContextEntry). x.name) (λ x. x) name c rest ctx _
      (find_context_iff name rest ctx)
