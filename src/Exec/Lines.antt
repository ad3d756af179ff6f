-- ===== src/Exec/Lines.antt =====
-- The command lines that `refuseUnsupportedArgs` lets through, as a grammar.
use argocd_cluster_registrar.Common.{
  ◌≡◌, refl, ◌↔◌, true, false, List, [], ◌∷◌, Bytes, codes, has_prefix, contains_byte, member,
  arith, Bool-cases, inl, inr,
}
use argocd_cluster_registrar.Common.Result.{ok}
use argocd_cluster_registrar.Exec.{flag_name, refuse_unsupported_args}

module _ (allowed : List Bytes) where
  -- The argument is a flag that is allowed.
  abbrev IsAllowed : Bytes → Type 0
  IsAllowed a = (has_prefix a (codes "-") ≡ true) × (member (flag_name a) allowed ≡ true)

  -- Words, flags with their value behind '=', flags with their value as the next argument, and
  -- a flag without a value at the end.
  pub data IsLine : List Bytes → Type 0 where
    stop : IsLine []
    word :
        {a : Bytes} {rest : List Bytes}
        → has_prefix a (codes "-") ≡ false
        → IsLine rest
        → IsLine (a ∷ rest)
    assigned :
        {a : Bytes} {rest : List Bytes}
        → IsAllowed a
        → contains_byte a b'=' ≡ true
        → IsLine rest
        → IsLine (a ∷ rest)
    valued :
        {a v : Bytes} {rest : List Bytes}
        → IsAllowed a
        → contains_byte a b'=' ≡ false
        → IsLine rest
        → IsLine (a ∷ v ∷ rest)
    last : {a : Bytes} → IsAllowed a → IsLine (a ∷ [])

  refuse-IsLine : (args : List Bytes) → refuse_unsupported_args args allowed ≡ ok tt → IsLine args
  unfolding refuse_unsupported_args
  refuse-IsLine [] h = stop
  refuse-IsLine (a ∷ []) h = elim (Bool-cases (has_prefix a (codes "-"))) [
    | inr e ↦ word e stop
    | inl e ↦ elim (Bool-cases (member (flag_name a) allowed)) [
      | inl m ↦ last (e, m)
      | inr m ↦ ground (arith, h, e, m)
    ]
  ]
  refuse-IsLine (a ∷ b ∷ rest) h =
      let next = refuse-IsLine (b ∷ rest) in
      let after = refuse-IsLine rest in
      elim (Bool-cases (has_prefix a (codes "-"))) [
        | inr e ↦ word e (next (ground (arith, h, e)))
        | inl e ↦ elim (Bool-cases (member (flag_name a) allowed)) [
          | inr m ↦ ground (arith, h, e, m)
          | inl m ↦ elim (Bool-cases (contains_byte a b'=')) [
            | inl q ↦ assigned (e, m) q (next (ground (arith, h, e, m, q)))
            | inr q ↦ valued (e, m) q (after (ground (arith, h, e, m, q)))
          ]
        ]
      ]

  IsLine-refuse : (args : List Bytes) → IsLine args → refuse_unsupported_args args allowed ≡ ok tt
  unfolding refuse_unsupported_args
  IsLine-refuse [] l = refl
  IsLine-refuse (a ∷ []) (word e l) = ground (arith, e)
  IsLine-refuse (a ∷ []) (assigned (e, m) q l) = ground (arith, e, m)
  IsLine-refuse (a ∷ []) (last (e, m)) = ground (arith, e, m)
  IsLine-refuse (a ∷ b ∷ rest) (word e l) = ground (arith, e, IsLine-refuse (b ∷ rest) l)
  IsLine-refuse (a ∷ b ∷ rest) (assigned (e, m) q l) =
      ground (arith, e, m, q, IsLine-refuse (b ∷ rest) l)
  IsLine-refuse (a ∷ b ∷ rest) (valued (e, m) q l) = ground (arith, e, m, q, IsLine-refuse rest l)

  -- The arguments that are let through are exactly the lines of words, allowed flags with their
  -- value behind an equals sign, allowed flags with their value as the next argument, whatever
  -- that is, and an allowed flag at the end.
  pub refuse_unsupported_args_iff :
      (args : List Bytes) → (refuse_unsupported_args args allowed ≡ ok tt) ↔ IsLine args
  refuse_unsupported_args_iff args = (refuse-IsLine args, IsLine-refuse args)
