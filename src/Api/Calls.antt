-- ===== src/Api/Calls.antt =====
-- Every call that a program can make, whatever it is answered, satisfies a predicate.
use argocd_cluster_registrar.Common.{
  ◌≡◌, refl, Bool, true, false, Option, none, some, if◌then◌else◌,
}
use argocd_cluster_registrar.Api.{
  Found, found, not_found, failed, Op, Answer, Prog, ret, call, ◌>>=◌, perform,
}

pub data Calls (P : Op → Type 0) {A : Type 0} : Prog A → Type 0 where
  returns : (a : A) → Calls P (ret a)
  calls :
      {o : Op} {k : Answer o → Prog A} → P o → ((r : Answer o) → Calls P (k r)) → Calls P (call o k)

module _ {P : Op → Type 0} where
  pub Calls-perform : (o : Op) → P o → Calls P (perform o)
  unfolding perform
  Calls-perform o p = calls p (λ r. returns r)

  pub Calls-bind :
      {A B : Type 0} {m : Prog A} {f : A → Prog B}
      → Calls P m
      → ((a : A) → Calls P (f a))
      → Calls P (m >>= f)
  unfolding ◌>>=◌
  Calls-bind (returns a) hf = hf a
  Calls-bind (calls p hk) hf = calls p (λ r. Calls-bind (hk r) hf)

  pub Calls-if :
      {A : Type 0} (b : Bool) {m n : Prog A}
      → (b ≡ true → Calls P m)
      → (b ≡ false → Calls P n)
      → Calls P (if b then m else n)
  Calls-if true hm hn = hm refl
  Calls-if false hm hn = hn refl

  -- A program that goes on by an optional answer, or by a read of one object.
  pub Calls-option :
      {A B : Type 0} (o : Option A) {m : Prog B} {f : A → Prog B}
      → Calls P m
      → ((a : A) → Calls P (f a))
      → Calls P (elim o [ none ↦ m | some a ↦ f a ])
  Calls-option none hm hf = hm
  Calls-option (some a) hm hf = hf a

  pub Calls-found :
      {A B : Type 0} (r : Found A) {f : A → Prog B} {m n : Prog B}
      → ((a : A) → Calls P (f a))
      → Calls P m
      → Calls P n
      → Calls P (elim r [ found a ↦ f a | not_found ↦ m | failed ↦ n ])
  Calls-found (found a) hf hm hn = hf a
  Calls-found not_found hf hm hn = hm
  Calls-found failed hf hm hn = hn

pub Calls-weaken :
    {P Q : Op → Type 0} {A : Type 0} {m : Prog A} → ((o : Op) → P o → Q o) → Calls P m → Calls Q m
Calls-weaken imp (returns a) = returns a
Calls-weaken imp (calls p hk) = calls (imp _ p) (λ r. Calls-weaken imp (hk r))

pub ruleset calls_rules = (returns, Calls-perform, Calls-bind, Calls-if, Calls-option)
