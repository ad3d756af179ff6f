-- ===== src/Api/Safe.antt =====
-- Calls judged by what came before them. The history holds each call with its answer, the
-- latest first. `Safe P Q h m` says: after `h`, every call of `m` satisfies `P` at the history
-- in which it is made, and a result satisfies `Q` at the history in which it is returned.
use argocd_cluster_registrar.Common.{◌≡◌, refl, Bool, true, false, if◌then◌else◌, List, ◌∷◌}
use argocd_cluster_registrar.Api.{Op, Answer, Prog, ret, call, ◌>>=◌, perform}
use argocd_cluster_registrar.Api.Calls.{Calls, returns, calls}

abbrev pub Event : Type 0
Event = (o : Op) × Answer o

abbrev pub History : Type 0
History = List Event

-- The call `o` was answered `r`.
pub data Saw (o : Op) (r : Answer o) : History → Type 0 where
  latest : {h : History} → Saw o r ((o, r) ∷ h)
  earlier : {e : Event} {h : History} → Saw o r h → Saw o r (e ∷ h)

pub data Safe (P : History → Op → Type 0) {A : Type 0} (Q : History → A → Type 0)
    : History → Prog A → Type 0 where
  done : {h : History} {a : A} → Q h a → Safe P Q h (ret a)
  step :
      {h : History} {o : Op} {k : Answer o → Prog A}
      → P h o
      → ((r : Answer o) → Safe P Q ((o, r) ∷ h) (k r))
      → Safe P Q h (call o k)

-- No claim about the result.
abbrev pub Anything : {A : Type 0} → History → A → Type 0
Anything h a = Unit {0}

-- What the history has shown stays shown.
abbrev pub Persists : (History → Type 0) → Type 0
Persists F = (e : Event) (h : History) → F h → F (e ∷ h)

-- The second history comes after the first, or is it.
pub data Follows (h0 : History) : History → Type 0 where
  same : Follows h0 h0
  more : {e : Event} {h : History} → Follows h0 h → Follows h0 (e ∷ h)

module _ {P : History → Op → Type 0} where
  pub Safe-perform : (h : History) (o : Op) → P h o → Safe P (λ h' r. Saw o r h') h (perform o)
  unfolding perform
  Safe-perform h o p = step p (λ r. done latest)

  pub Safe-bind :
      {A B : Type 0} {Q : History → A → Type 0} {R : History → B → Type 0} {h : History}
      {m : Prog A} {f : A → Prog B}
      → Safe P Q h m
      → ((h' : History) (a : A) → Q h' a → Safe P R h' (f a))
      → Safe P R h (m >>= f)
  unfolding ◌>>=◌
  Safe-bind (done q) hf = hf _ _ q
  Safe-bind (step p hk) hf = step p (λ r. Safe-bind (hk r) hf)

  pub Safe-weaken :
      {A : Type 0} {Q R : History → A → Type 0} {h : History} {m : Prog A}
      → ((h' : History) (a : A) → Q h' a → R h' a)
      → Safe P Q h m
      → Safe P R h m
  Safe-weaken imp (done q) = done (imp _ _ q)
  Safe-weaken imp (step p hk) = step p (λ r. Safe-weaken imp (hk r))

  pub Safe-if :
      {A : Type 0} {Q : History → A → Type 0} {h : History} (b : Bool) {m n : Prog A}
      → (b ≡ true → Safe P Q h m)
      → (b ≡ false → Safe P Q h n)
      → Safe P Q h (if b then m else n)
  Safe-if true hm hn = hm refl
  Safe-if false hm hn = hn refl

  pub Safe-frame :
      {A : Type 0} {Q : History → A → Type 0} {h : History} {m : Prog A} (F : History → Type 0)
      → Persists F
      → F h
      → Safe P Q h m
      → Safe P (λ h' a. F h' × Q h' a) h m
  Safe-frame F keep f (done q) = done (f, q)
  Safe-frame F keep f (step p hk) = step p (λ r. Safe-frame F keep (keep _ _ f) (hk r))

  -- What is known at the start is known at every call.
  pub Safe-hold :
      {A : Type 0} {Q : History → A → Type 0} {h : History} {m : Prog A} (F : History → Type 0)
      → Persists F
      → F h
      → Safe P Q h m
      → Safe (λ h' o. F h' × P h' o) (λ h' a. F h' × Q h' a) h m
  Safe-hold F keep f (done q) = done (f, q)
  Safe-hold F keep f (step p hk) = step (f, p) (λ r. Safe-hold F keep (keep _ _ f) (hk r))

  -- A program whose calls satisfy a predicate that needs no history is safe.
  pub Safe-Calls :
      {A : Type 0} {C : Op → Type 0} {m : Prog A} (h : History)
      → ((h' : History) (o : Op) → C o → P h' o)
      → Calls C m
      → Safe P Anything h m
  Safe-Calls h imp (returns a) = done tt
  Safe-Calls h imp (calls p hk) = step (imp h _ p) (λ r. Safe-Calls _ imp (hk r))

-- Nothing is asked of the calls, only of the result.
abbrev pub AnyCall : History → Op → Type 0
AnyCall h o = Unit {0}

abbrev pub Runs : {A : Type 0} → (History → A → Type 0) → History → Prog A → Type 0
Runs Q h m = Safe AnyCall Q h m

pub whatever : {A : Type 0} (h : History) (m : Prog A) → Runs Anything h m
whatever h (ret a) = done tt
whatever h (call o k) = step tt (λ r. whatever _ (k r))

-- The call was made and answered.
abbrev pub Made : Op → History → Type 0
Made o h = (r : Answer o) × Saw o r h

pub Made-Persists : (o : Op) → Persists (Made o)
Made-Persists o e h (r, saw) = (r, earlier saw)

-- What the program starts with is made.
pub perform-Made :
    {A : Type 0} (h : History) (o : Op) (f : Answer o → Prog A)
    → Runs (λ h' a. Made o h') h (perform o >>= f)
perform-Made h o f = Safe-bind (Safe-perform h o tt) λ h' r saw.
    Safe-weaken (λ h'' a k. k.0)
      (Safe-frame (Made o) (Made-Persists o) (r, saw) (whatever h' (f r)))

-- Two judgements of one program.
pub Safe-both :
    {P P' : History → Op → Type 0} {A : Type 0} {Q Q' : History → A → Type 0} {h : History}
    {m : Prog A}
    → Safe P Q h m
    → Safe P' Q' h m
    → Safe (λ h' o. P h' o × P' h' o) (λ h' a. Q h' a × Q' h' a) h m
Safe-both (done q) (done q') = done (q, q')
Safe-both (step p hk) (step p' hk') = step (p, p') (λ r. Safe-both (hk r) (hk' r))

pub Safe-weaken_calls :
    {P P' : History → Op → Type 0} {A : Type 0} {Q : History → A → Type 0} {h : History}
    {m : Prog A}
    → ((h' : History) (o : Op) → P h' o → P' h' o)
    → Safe P Q h m
    → Safe P' Q h m
Safe-weaken_calls imp (done q) = done q
Safe-weaken_calls imp (step p hk) = step (imp _ _ p) (λ r. Safe-weaken_calls imp (hk r))
