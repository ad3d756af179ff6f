-- ===== src/Ownership/Exclusive.antt =====
-- A contested name goes to one namespace, in whatever order the claimants are listed.
use argocd_cluster_registrar.Common.{
  ◌≡◌, sym, subst, ◌∙◌, ◌⊎◌, ◌↔◌, inl, inr, true, false, List, Bytes, ==_iff, nonempty,
  not_less_antisymm, All, All_of_In, In, arith,
}
use argocd_cluster_registrar.Kube.{Namespace}
use argocd_cluster_registrar.Registrar.{Child, allowed}
use argocd_cluster_registrar.Ownership.{Winner, nobody, is_terminating, oldest, award}
use argocd_cluster_registrar.Ownership.Oldest.{
  claim_of, precedes, Unbeaten, none_live, oldest_live, oldest-FromNobody, award-oldest,
}

-- A live claimant that nobody live precedes, of that name.
abbrev pub Wins : List Namespace → Bytes → Type 0
Wins items name =
    (ns : Namespace) × In ns items
    × (ns.name ≡ name)
    × (is_terminating ns ≡ false)
    × Unbeaten (claim_of ns) items

-- There is a claimant that is not being deleted.
abbrev pub SomeLive : List Namespace → Type 0
SomeLive items = (ns : Namespace) × In ns items × (is_terminating ns ≡ false)

-- A live claimant does not precede one that is unbeaten.
behind :
    (ns : Namespace) (w : Winner) (items : List Namespace)
    → In ns items
    → is_terminating ns ≡ false
    → Unbeaten w items
    → precedes (claim_of ns) w ≡ false
behind ns w items i live u =
    elim (All_of_In
      (λ (m : Namespace). (is_terminating m ≡ true) ⊎ (precedes (claim_of m) w ≡ false)) i u) [
        | inl dying ↦ cc (dying, live)
        | inr p ↦ p
      ]

tie : (a b : Winner) → precedes a b ≡ false → precedes b a ≡ false → a.name ≡ b.name
tie a b h k = not_less_antisymm a.name b.name (ground (arith, h, k)) (ground (arith, h, k))

award-Wins :
    (items : List Namespace) (c : Child)
    → All (λ (ns : Namespace). nonempty ns.name ≡ true) items
    → SomeLive items
    → award items c ≡ allowed
    → Wins items c.namespace
award-Wins items c hn (m, i, live) h = elim (award-oldest items c hn h) [
  | inl all ↦ cc (All_of_In (λ (ns : Namespace). is_terminating ns ≡ true) i all, live)
  | inr w ↦ w
]

Wins-award :
    (items : List Namespace) (c : Child)
    → All (λ (ns : Namespace). nonempty ns.name ≡ true) items
    → Wins items c.namespace
    → award items c ≡ allowed
unfolding award
Wins-award items c hn (ns, i, name, live, u) = elim (oldest-FromNobody items hn) [
  | none_live all ↦ cc (All_of_In (λ (m : Namespace). is_terminating m ≡ true) i all, live)
  | oldest_live (m, j, live', e) v ↦
      let same : (oldest items nobody).name ≡ c.namespace =
        tie (oldest items nobody) (claim_of ns)
          (subst (λ w. precedes w (claim_of ns) ≡ false) (sym e)
            (behind m (claim_of ns) items j live' u))
          (behind ns (oldest items nobody) items i live v)
        ∙ name in
      ground (arith, (==_iff (oldest items nobody).name c.namespace).1 same)
]

-- Among listed claimants that all have names and of which one is live, the child is allowed the
-- name exactly if a live claimant of the name of its namespace is listed that no live claimant
-- precedes by age and then by name.
pub award_iff :
    (items : List Namespace) (c : Child)
    → All (λ (ns : Namespace). nonempty ns.name ≡ true) items
    → SomeLive items
    → (award items c ≡ allowed) ↔ Wins items c.namespace
award_iff items c hn live = (award-Wins items c hn live, Wins-award items c hn)

-- Of two listings with the same claimants, each with a name and one of them live, in whatever
-- order, no two award a contested name to children of different namespaces.
pub award-exclusive :
    (items others : List Namespace) (c d : Child)
    → All (λ (ns : Namespace). nonempty ns.name ≡ true) items
    → All (λ (ns : Namespace). nonempty ns.name ≡ true) others
    → ((ns : Namespace) → In ns items ↔ In ns others)
    → SomeLive items
    → award items c ≡ allowed
    → award others d ≡ allowed
    → c.namespace ≡ d.namespace
award-exclusive items others c d hn ho same (l, k, live) h g =
    let (ns, i, name, up, u) = award-Wins items c hn (l, k, live) h in
    let (ms, j, name', up', v) = award-Wins others d ho (l, (same l).0 k, live) g in
    sym name
    ∙ tie (claim_of ns) (claim_of ms) (behind ns (claim_of ms) others ((same ns).0 i) up v)
        (behind ms (claim_of ns) items ((same ms).1 j) up' u)
    ∙ name'
