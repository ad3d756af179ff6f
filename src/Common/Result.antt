-- ===== src/Common/Result.antt =====
-- A value or an error: what a Go function returns beside `err`.
use mathlib.Core.Path.{◌≡◌, refl}
use mathlib.Core.Bool.{Bool, true, false}
use mathlib.Core.Logic.{◌↔◌}

pub data Outcome (E A : Type 0) : Type 0 where
  ok : A → Outcome E A
  err : E → Outcome E A

infixl 5 ◌>>=◌ ◌>>◌
-- `if err != nil { return err }`: the next statements run on the value.
abbrev pub ◌>>=◌ :
    {Failure Before After : Type 0}
    → Outcome Failure Before
    → (Before → Outcome Failure After)
    → Outcome Failure After
err failure >>= next = err failure
ok value >>= next = next value

-- `if bad { return err }`
abbrev pub refuse_if : {E : Type 0} → Bool → E → Outcome E (Unit {0})
refuse_if false failure = ok tt
refuse_if true failure = err failure

-- A statement that yields nothing, and the ones after it.
abbrev pub ◌>>◌ :
    {Failure After : Type 0}
    → Outcome Failure (Unit {0})
    → Outcome Failure After
    → Outcome Failure After
check >> after = check >>= λ nothing. after

pub ok_injective : {E A : Type 0} {a b : A} → ◌≡◌ {A = Outcome E A} (ok a) (ok b) → a ≡ b
ok_injective same = cc

module _ {E : Type 0} where
  pub refuse_if-ok : (bad : Bool) (failure : E) → refuse_if bad failure ≡ ok tt → bad ≡ false
  refuse_if-ok false failure passed = refl
  refuse_if-ok true failure passed = cc

  -- A chain that returned has passed its first step, with a value from which the rest returned.
  pub >>=-eq-ok :
      {Before After : Type 0} (first : Outcome E Before) (next : Before → Outcome E After)
      {result : After}
      → (first >>= next) ≡ ok result
      → (value : Before) × (first ≡ ok value) × (next value ≡ ok result)
  >>=-eq-ok (err failure) next returned = cc
  >>=-eq-ok (ok value) next returned = (value, refl, returned)

  -- A check lets the rest go on exactly where it finds nothing.
  pub refuse_if_iff :
      {After : Type 0} (bad : Bool) (failure : E) (after : Outcome E After) (result : After)
      → ((refuse_if bad failure >> after) ≡ ok result) ↔ ((bad ≡ false) × (after ≡ ok result))
  refuse_if_iff false failure after result = (λ h. (refl, h), λ h. h.1)
  refuse_if_iff true failure after result = (λ h. cc, λ h. cc)

  pub checked_iff :
      {After : Type 0} (check : Outcome E (Unit {0})) (after : Outcome E After) (result : After)
      → ((check >> after) ≡ ok result) ↔ ((check ≡ ok tt) × (after ≡ ok result))
  checked_iff (ok _) after result = (λ h. (refl, h), λ h. h.1)
  checked_iff (err failure) after result = (λ h. cc, λ h. cc)
