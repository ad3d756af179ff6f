-- ===== src/Ownership/Oldest.antt =====
-- A contested name goes to the oldest claimant that is not being deleted, ties to the first name.
use argocd_cluster_registrar.Common.{
  ◌≡◌, refl, sym, subst, ◌∙◌, ap, ◌⊎◌, inl, inr, Bool, true, false, ◌&&◌, ◌||◌, List, [], ◌∷◌,
  ==_iff, nonempty, less, less_irrefl, less_asymm, not_less_trans, ltb, eqb, All, All_of_In, In,
  here, there, Bool-cases, arith,
}
use argocd_cluster_registrar.Kube.{Namespace}
use argocd_cluster_registrar.Registrar.{Child, allowed}
use argocd_cluster_registrar.Ownership.{
  Winner, nobody, is_terminating, beats, better, oldest, award,
}

abbrev pub claim_of : Namespace → Winner
claim_of ns = record { name = ns.name; at = ns.creation_timestamp }

-- `a` is older than `b`, or as old with an earlier name.
abbrev pub precedes : Winner → Winner → Bool
precedes a b = ltb a.at b.at || eqb a.at b.at && less a.name b.name

precedes_asymm : (a b : Winner) → precedes a b ≡ true → precedes b a ≡ false
precedes_asymm a b h = ground (arith, less_asymm a.name b.name)

not_precedes_trans :
    (a b c : Winner) → precedes a b ≡ false → precedes b c ≡ false → precedes a c ≡ false
not_precedes_trans a b c h k = ground (arith, not_less_trans a.name b.name c.name)

-- Nobody in the list has a better claim.
abbrev pub Unbeaten : Winner → List Namespace → Type 0
Unbeaten w items = All (λ ns. (is_terminating ns ≡ true) ⊎ (precedes (claim_of ns) w ≡ false)) items

-- The claim is that of a live namespace of the list.
abbrev pub Claimed : Winner → List Namespace → Type 0
Claimed w items = (ns : Namespace) × In ns items × (is_terminating ns ≡ false) × (w ≡ claim_of ns)

-- What the loop has found, from a claim it started with.
record Best (w : Winner) (items : List Namespace) (r : Winner) : Type 0 where
  origin : (r ≡ w) ⊎ Claimed r items
  start : precedes w r ≡ false
  unbeaten : Unbeaten r items

Claimed-there :
    {ns : Namespace} {items : List Namespace} (r : Winner)
    → Claimed r items
    → Claimed r (ns ∷ items)
Claimed-there r (m, i, live, e) = (m, there i, live, e)

-- The three ways of one round.
better-cases :
    (ns : Namespace) (w : Winner)
    → nonempty w.name ≡ true
    → ((better ns w ≡ w) × ((is_terminating ns ≡ true) ⊎ (precedes (claim_of ns) w ≡ false)))
      ⊎ ((better ns w ≡ claim_of ns)
          × (is_terminating ns ≡ false)
          × (precedes (claim_of ns) w ≡ true))
unfolding better beats
better-cases ns w hw = ground arith

oldest-Best :
    (items : List Namespace) (w : Winner)
    → nonempty w.name ≡ true
    → All (λ ns. nonempty ns.name ≡ true) items
    → Best w items (oldest items w)
unfolding oldest
oldest-Best [] w hw hn = record {
  origin = inl refl;
  start = ground (arith, less_irrefl w.name);
  unbeaten = tt;
}
oldest-Best (ns ∷ rest) w hw (hn, hns) = elim (better-cases ns w hw) [
  | inl (same, loses) ↦ rw same (kept w (oldest-Best rest w hw hns) loses)
  | inr (moved, live, first) ↦
      rw moved (displaced w (oldest-Best rest (claim_of ns) hn hns) live first)
]
  where
    kept :
        (v : Winner)
        → Best v rest (oldest rest v)
        → (is_terminating ns ≡ true) ⊎ (precedes (claim_of ns) v ≡ false)
        → Best v (ns ∷ rest) (oldest rest v)
    kept v b loses = record {
      origin = elim b.origin [ inl e ↦ inl e | inr c ↦ inr (Claimed-there _ c) ];
      start = b.start;
      unbeaten = (
        elim loses [ inl d ↦ inl d | inr l ↦ inr (not_precedes_trans (claim_of ns) v _ l b.start) ],
        b.unbeaten,
      );
    }

    displaced :
        (v : Winner)
        → Best (claim_of ns) rest (oldest rest (claim_of ns))
        → is_terminating ns ≡ false
        → precedes (claim_of ns) v ≡ true
        → Best v (ns ∷ rest) (oldest rest (claim_of ns))
    displaced v b live first = record {
      origin = elim b.origin [ inl e ↦ inr (ns, here, live, e) | inr c ↦ inr (Claimed-there _ c) ];
      start = not_precedes_trans v (claim_of ns) _ (precedes_asymm (claim_of ns) v first) b.start;
      unbeaten = (inr b.start, b.unbeaten);
    }

-- What the loop has found when it starts with nobody.
pub data FromNobody (items : List Namespace) (r : Winner) : Type 0 where
  none_live : All (λ ns. is_terminating ns ≡ true) items → FromNobody items r
  oldest_live : Claimed r items → Unbeaten r items → FromNobody items r

pub oldest-FromNobody :
    (items : List Namespace)
    → All (λ ns. nonempty ns.name ≡ true) items
    → FromNobody items (oldest items nobody)
unfolding oldest
oldest-FromNobody [] hn = none_live tt
oldest-FromNobody (ns ∷ rest) (hn, hns) = elim (Bool-cases (is_terminating ns)) [
  | inl dying ↦ rw (skip dying) (past dying (oldest-FromNobody rest hns))
  | inr live ↦ rw (starts live) (first live (oldest-Best rest (claim_of ns) hn hns))
]
  where
    skip : is_terminating ns ≡ true → better ns nobody ≡ nobody
    skip dying = unfold better in ground arith

    starts : is_terminating ns ≡ false → better ns nobody ≡ claim_of ns
    starts live = unfold better beats nonempty in ground arith

    past : {r : Winner} → is_terminating ns ≡ true → FromNobody rest r → FromNobody (ns ∷ rest) r
    past dying (none_live all) = none_live (dying, all)
    past dying (oldest_live c u) = oldest_live (Claimed-there _ c) (inl dying, u)

    first :
        {r : Winner}
        → is_terminating ns ≡ false
        → Best (claim_of ns) rest r
        → FromNobody (ns ∷ rest) r
    first live b =
        oldest_live (elim b.origin [ inl e ↦ (ns, here, live, e) | inr c ↦ Claimed-there _ c ])
          (inr b.start, b.unbeaten)

award_name :
    (items : List Namespace) (c : Child)
    → award items c ≡ allowed
    → nonempty (oldest items nobody).name ≡ true
    → (oldest items nobody).name ≡ c.namespace
unfolding award
award_name items c h full = ground (arith, ==_iff (oldest items nobody).name c.namespace)

-- Among listed claimants that all have names, the child is allowed the name only if no claimant
-- is live, or if a live claimant of the name of its namespace is listed and no live claimant
-- precedes it by age and then by name.
pub award-oldest :
    (items : List Namespace) (c : Child)
    → All (λ ns. nonempty ns.name ≡ true) items
    → award items c ≡ allowed
    → All (λ ns. is_terminating ns ≡ true) items
      ⊎ ((ns : Namespace) × In ns items
          × (ns.name ≡ c.namespace)
          × (is_terminating ns ≡ false)
          × Unbeaten (claim_of ns) items)
award-oldest items c hn h = elim (oldest-FromNobody items hn) [
  | none_live all ↦ inl all
  | oldest_live (ns, i, live, e) u ↦
      inr (ns, i, named ns i e, live, subst (λ w. Unbeaten w items) e u)
]
  where
    named :
        (ns : Namespace) → In ns items → oldest items nobody ≡ claim_of ns → ns.name ≡ c.namespace
    named ns i e =
        let same = ap (λ (w : Winner). w.name) e in
        sym same
        ∙ award_name items c h (
            subst (λ n. nonempty n ≡ true) (sym same)
              (All_of_In (λ (m : Namespace). nonempty m.name ≡ true) i hn))
