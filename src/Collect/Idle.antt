-- ===== src/Collect/Idle.antt =====
-- While its namespace is being deleted, a registration is left alone.
use argocd_cluster_registrar.Common.{
  ℕ, ◌≡◌, refl, ap, ◌∙◌, Bool, true, false, Option, none, some, List, [], ◌∷◌, Bytes, ◌==◌, length,
  if◌then◌else◌,
}
use argocd_cluster_registrar.Api.{list_secrets, ret, ◌>>=◌}
use argocd_cluster_registrar.Api.Safe.{History, Saw, done, Runs, Safe-perform, Safe-bind}
use argocd_cluster_registrar.Kube.{Secret}
use argocd_cluster_registrar.Libraries.{Libraries}
use argocd_cluster_registrar.Config.{Config}
use argocd_cluster_registrar.Registrar.{Faults, list_cluster_secrets, is_pinned, source_selector}
use argocd_cluster_registrar.Collect.{collect_secret, collect_secrets, collect_one}

if_same : {A : Type 0} (b : Bool) (x : A) → (if b then x else x) ≡ x
if_same true x = refl
if_same false x = refl

module _ (lib : Libraries) (cfg : Config) where
  collect_secret-idle :
      (s : Secret) (n : ℕ) (errs : Faults) → collect_secret lib cfg true [] s n errs ≡ ret (n, errs)
  unfolding collect_secret
  collect_secret-idle s n errs =
      ap (λ m. if s.name == [] then ret (n, errs) else m)
        (if_same (is_pinned cfg s) (ret (n, errs)))
      ∙ if_same (s.name == []) (ret (n, errs))

  collect_secrets-idle :
      (items : List Secret) (n : ℕ) (errs : Faults)
      → collect_secrets lib cfg true [] items n errs ≡ ret (n, errs)
  unfolding collect_secrets ◌>>=◌
  collect_secrets-idle [] n errs = refl
  collect_secrets-idle (s ∷ rest) n errs =
      ap (λ m. m >>= λ r. collect_secrets lib cfg true [] rest r.0 r.1)
        (collect_secret-idle s n errs)
      ∙ collect_secrets-idle rest n errs

  -- The errors are those of the list.
  abbrev pub list_errors : Option (List Secret) → Faults
  list_errors none = list_cluster_secrets ∷ []
  list_errors (some items) = []

  pub collect_one-Idle :
      (ns_name : Bytes) (h : History)
      → Runs
          (λ h' (r : ℕ × Faults).
            (answer : Option (List Secret)) × Saw
              (list_secrets cfg.target_namespace (source_selector cfg ns_name))
              answer
              h'
            × (r.1 ≡ list_errors answer))
          h
          (collect_one lib cfg ns_name true [])
  unfolding collect_one
  collect_one-Idle ns_name h =
      Safe-bind
        (Safe-perform h (list_secrets cfg.target_namespace (source_selector cfg ns_name)) tt)
        on_listing
    where
      on_listing :
          (h' : History) (answer : Option (List Secret))
          → Saw (list_secrets cfg.target_namespace (source_selector cfg ns_name)) answer h'
          → Runs {A = ℕ × Faults}
              (λ h'' r.
                (o : Option (List Secret)) × Saw
                  (list_secrets cfg.target_namespace (source_selector cfg ns_name))
                  o
                  h''
                × (r.1 ≡ list_errors o))
              h'
              (elim answer [
                | none ↦ ret (0, list_cluster_secrets ∷ [])
                | some items ↦ collect_secrets lib cfg true [] items (length items) []
              ])
      on_listing h' none saw = done (none, saw, refl)
      on_listing h' (some items) saw =
          rw (collect_secrets-idle items (length items) []) (done (some items, saw, refl))
