-- ===== src/Api/Reach.antt =====
-- The calls that a program comes to.
use argocd_cluster_registrar.Common.{[], ◌∷◌}
use argocd_cluster_registrar.Api.{Op, Answer, Prog, call}
use argocd_cluster_registrar.Api.Safe.{History, Safe, step}

-- After these calls and answers, this is what is left of the program.
pub data Reaches {A : Type 0} (m : Prog A) : History → Prog A → Type 0 where
  start : Reaches m [] m
  answered :
      {h : History} {o : Op} {k : Answer o → Prog A}
      → Reaches m h (call o k)
      → (r : Answer o) → Reaches m ((o, r) ∷ h) (k r)

module _ {P : History → Op → Type 0} {A : Type 0} {Q : History → A → Type 0} where
  rest_of :
      {h : History} {o : Op} {k : Answer o → Prog A}
      → Safe P Q h (call o k)
      → (r : Answer o) → Safe P Q ((o, r) ∷ h) (k r)
  rest_of (step p hk) r = hk r

  call_of : {h : History} {o : Op} {k : Answer o → Prog A} → Safe P Q h (call o k) → P h o
  call_of (step p hk) = p

  Reaches-Safe : {m n : Prog A} {h : History} → Safe P Q [] m → Reaches m h n → Safe P Q h n
  Reaches-Safe s start = s
  Reaches-Safe s (answered r a) = rest_of (Reaches-Safe s r) a

  -- Every call that a safe program comes to is made as it may be.
  pub Reaches-allowed :
      {m : Prog A} {h : History} {o : Op} {k : Answer o → Prog A}
      → Safe P Q [] m
      → Reaches m h (call o k)
      → P h o
  Reaches-allowed s r = call_of (Reaches-Safe s r)
