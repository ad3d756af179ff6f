-- ===== src/Startup/Steps.antt =====
-- Chains of steps of which each may fail: what holds of a result that a chain ends with.
use argocd_cluster_registrar.Common.{Bool, true, false, if◌then◌else◌}
use argocd_cluster_registrar.Common.Result.{Outcome, ok, err}
use argocd_cluster_registrar.Api.{Op, Prog, ret}
use argocd_cluster_registrar.Api.Safe.{
  History, Safe, done, Persists, Safe-bind, Safe-frame, Safe-weaken,
}
use argocd_cluster_registrar.Startup.{LaunchError, Launch, on_ok, require}

-- A value with its claim, or an error with its reason.
abbrev pub Ends :
    {A : Type 0} (Good : History → A → Type 0) (Why : History → LaunchError → Type 0)
    → History
    → Outcome LaunchError A
    → Type 0
Ends Good Why h (ok a) = Good h a
Ends Good Why h (err e) = Why h e

module _ {P : History → Op → Type 0} {Why : History → LaunchError → Type 0} where
  -- What was known before a step is known after it.
  pub on_ok-Ends :
      {A B : Type 0} {G : History → A → Type 0} {H : History → B → Type 0}
      (Known : History → Type 0) (h : History) {m : Launch A} {f : A → Launch B}
      → Persists Known
      → Known h
      → Safe P (Ends G Why) h m
      → ((h' : History) (a : A) → Known h' → G h' a → Safe P (Ends H Why) h' (f a))
      → Safe P (Ends H Why) h (on_ok m f)
  unfolding on_ok
  on_ok-Ends {A} {B} {G} {H} Known h {f} keep known hm hf =
      Safe-bind (Safe-frame Known keep known hm) by_result
    where
      by_result :
          (h' : History) (r : Outcome LaunchError A)
          → Known h' × Ends G Why h' r
          → Safe P (Ends H Why) h' (elim r [ ok a ↦ f a | err e ↦ ret (err e) ])
      by_result h' (ok a) (k, g) = hf h' a k g
      by_result h' (err e) (k, w) = done w

  pub require-Ends :
      {S : Bool → History → Type 0} {h : History} {m : Prog Bool} (e : LaunchError)
      → Safe P (λ h' b. S b h') h m
      → ((h' : History) → S false h' → Why h' e)
      → Safe P (Ends (λ h' u. S true h') Why) h (require m e)
  unfolding require
  require-Ends {S} {h} e hm why = Safe-bind hm by_answer
    where
      by_answer :
          (h' : History) (b : Bool)
          → S b h'
          → Safe P {A = Outcome LaunchError (Unit {0})}
              (Ends (λ h'' u. S true h'') Why)
              h'
              (ret (if b then ok tt else err e))
      by_answer h' true s = done s
      by_answer h' false s = done (why h' s)

  -- The last step of a chain, with what was known before it.
  pub last-Ends :
      {A : Type 0} {G H : History → A → Type 0} (Known : History → Type 0) (h : History)
      {m : Launch A}
      → Persists Known
      → Known h
      → Safe P (Ends G Why) h m
      → ((h' : History) (a : A) → Known h' → G h' a → H h' a)
      → Safe P (Ends H Why) h m
  last-Ends {A} {G} {H} Known h keep known hm imp =
      Safe-weaken by_result (Safe-frame Known keep known hm)
    where
      by_result :
          (h' : History) (r : Outcome LaunchError A) → Known h' × Ends G Why h' r → Ends H Why h' r
      by_result h' (ok a) (k, g) = imp h' a k g
      by_result h' (err e) (k, w) = w
