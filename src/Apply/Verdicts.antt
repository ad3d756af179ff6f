-- ===== src/Apply/Verdicts.antt =====
-- Every verdict of `apply` is explained by what was answered.
use argocd_cluster_registrar.Common.{
  ◌≡◌, ◌⊎◌, inl, inr, Bool, true, false, not, ◌&&◌, Option, none, some, List, [], ◌∷◌, codes, ◌==◌,
  nonempty, get, trim_right, In, here, there, Bool-cases, arith, if◌then◌else◌,
}
use argocd_cluster_registrar.Api.{
  Found, found, not_found, failed, Created, created, already_exists, create_failed, get_namespace,
  get_secret, list_secrets, create_secret, update_secret, create_race, ret,
}
use argocd_cluster_registrar.Api.Safe.{
  History, Saw, earlier, done, Persists, Runs, Safe-perform, Safe-bind, Safe-if, Safe-frame,
}
use argocd_cluster_registrar.Kube.{Namespace, Secret}
use argocd_cluster_registrar.Config.{Config}
use argocd_cluster_registrar.Registrar.{
  Child, Verdict, allowed, conflict, broken, source_of, is_pinned, secret_name, get_existing,
  list_cluster_secrets, create, update,
}
use argocd_cluster_registrar.Ownership.{
  namespace_exists, holds_server, keeps_server, check_servers, claim_server,
}
use argocd_cluster_registrar.Apply.{
  changed, wanted, merge, create_wanted, register, update_merged, claim_if_moved, refresh, apply,
}
use argocd_cluster_registrar.Apply.Takeover.{argo_selector}
use argocd_cluster_registrar.Apply.Outcomes.{
  Keeps, pinned, unsourced, sourced, raced, taken, no_read, no_clusters, no_create, no_update, new,
  renewed, unchanged, dry, Explained, Step, and_then-Explained, check_ownership-Step,
  claim_contested_name-Step,
}

module _ (cfg : Config) (c : Child) where
  keeps_server-Keeps :
      (h : History) (s : Secret)
      → Runs (λ h' kept. kept ≡ true → Keeps cfg c h' s) h (keeps_server cfg s)
  unfolding keeps_server namespace_exists
  keeps_server-Keeps h s =
      Safe-if (not (is_pinned cfg s) && nonempty (source_of cfg s))
        (λ e. Safe-bind (Safe-perform h (get_namespace (source_of cfg s)) tt) on_answer)
        (λ e. done (λ t. by_cases (Bool-cases (is_pinned cfg s)) e))
    where
      by_cases :
          (is_pinned cfg s ≡ true) ⊎ (is_pinned cfg s ≡ false)
          → (not (is_pinned cfg s) && nonempty (source_of cfg s)) ≡ false
          → Keeps cfg c h s
      by_cases (inl p) e = pinned p
      by_cases (inr p) e = unsourced (ground arith)

      on_answer :
          (h' : History) (answer : Found Namespace)
          → Saw (get_namespace (source_of cfg s)) answer h'
          → Runs {A = Bool}
              (λ h'' kept. kept ≡ true → Keeps cfg c h'' s)
              h'
              (ret (elim answer [ found ns ↦ true | not_found ↦ false | failed ↦ true ]))
      on_answer h' (found ns) saw = done (λ t. sourced (found ns) saw (λ e. cc))
      on_answer h' not_found saw = done (λ t. cc)
      on_answer h' failed saw = done (λ t. sourced failed saw (λ e. cc))

  -- What a loop knows of the Secrets that are left.
  abbrev Listed : List Secret → History → Type 0
  Listed rest h =
      (items : List Secret) × Saw (list_secrets cfg.target_namespace argo_selector) (some items) h
      × ((s : Secret) → In s rest → In s items)

  Listed-Persists : (rest : List Secret) → Persists (Listed rest)
  Listed-Persists rest e h (items, saw, i) = (items, earlier saw, i)

  check_servers-Step :
      (h : History) (rest : List Secret)
      → Listed rest h
      → Runs (Step cfg c) h (check_servers cfg rest c)
  unfolding check_servers
  check_servers-Step h [] l = done tt
  check_servers-Step h (s ∷ rest) l =
      let tail = λ (h' : History) (l' : Listed (s ∷ rest) h').
        check_servers-Step h' rest (l'.0, l'.1, λ t i. l'.2 t (there i)) in
      Safe-if (holds_server cfg s c)
        (λ e.
          Safe-bind
            (Safe-frame (Listed (s ∷ rest)) (Listed-Persists (s ∷ rest)) l (keeps_server-Keeps h s))
            λ h' kept q.
              Safe-if kept (λ k. done (taken q.0.0 s q.0.1 (q.0.2 s here) e (q.1 k)))
                (λ k. tail h' q.0))
        (λ e. tail h l)

  claim_server-Step : (h : History) → Runs (Step cfg c) h (claim_server cfg c)
  unfolding claim_server
  claim_server-Step h =
      Safe-bind (Safe-perform h (list_secrets cfg.target_namespace argo_selector) tt) on_listing
    where
      on_listing :
          (h' : History) (answer : Option (List Secret))
          → Saw (list_secrets cfg.target_namespace argo_selector) answer h'
          → Runs {A = Verdict} (Step cfg c) h' (elim answer [
            | none ↦ ret (broken list_cluster_secrets)
            | some items ↦ check_servers cfg items c
          ])
      on_listing h' none saw = done (no_clusters saw)
      on_listing h' (some items) saw = check_servers-Step h' items (items, saw, λ s i. i)

  create_wanted-Explained : (h : History) → Runs (Explained cfg c) h (create_wanted cfg c)
  unfolding create_wanted
  create_wanted-Explained h =
      Safe-bind (Safe-perform h (create_secret cfg.target_namespace (wanted cfg c)) tt) on_answer
    where
      on_answer :
          (h' : History) (answer : Created)
          → Saw (create_secret cfg.target_namespace (wanted cfg c)) answer h'
          → Runs {A = Verdict} (Explained cfg c) h' (
              ret (elim answer [
                | created ↦ allowed
                | already_exists ↦ conflict create_race
                | create_failed ↦ broken create
              ]))
      on_answer h' created saw = done (new saw)
      on_answer h' already_exists saw = done (raced saw)
      on_answer h' create_failed saw = done (no_create saw)

  register-Explained : (h : History) → Runs (Explained cfg c) h (register cfg c)
  unfolding register
  register-Explained h =
      and_then-Explained cfg c (λ h'. Unit {0}) h _ _ (λ e h' u. tt) tt
        (claim_contested_name-Step cfg c h)
        λ h' u.
          and_then-Explained cfg c (λ h''. Unit {0}) h' _ _ (λ e h'' u'. tt) tt
            (claim_server-Step h')
            λ h'' u'. Safe-if cfg.dry_run (λ e. done (dry e)) (λ e. create_wanted-Explained h'')

  abbrev Present : Secret → History → Type 0
  Present s h = Saw (get_secret cfg.target_namespace (secret_name c.cluster)) (found s) h

  update_merged-Explained :
      (h : History) (s : Secret) → Present s h → Runs (Explained cfg c) h (update_merged cfg s c)
  unfolding update_merged
  update_merged-Explained h s saw =
      Safe-bind
        (Safe-frame (Present s) (λ e h' k. earlier k) saw
          (Safe-perform h
            (update_secret cfg.target_namespace (merge s (wanted cfg c) cfg.label_prefix)) tt))
        on_answer
    where
      on_answer :
          (h' : History) (accepted : Bool)
          → Present s h'
            × Saw
                (update_secret cfg.target_namespace (merge s (wanted cfg c) cfg.label_prefix))
                accepted
                h'
          → Runs {A = Verdict}
              (Explained cfg c)
              h'
              (ret (if accepted then allowed else broken update))
      on_answer h' true (p, saw') = done (renewed s p saw')
      on_answer h' false (p, saw') = done (no_update s saw')

  claim_if_moved-Step : (h : History) (s : Secret) → Runs (Step cfg c) h (claim_if_moved cfg s c)
  unfolding claim_if_moved
  claim_if_moved-Step h s =
      Safe-if (not (trim_right (get s.data' (codes "server")) b'/' == c.server))
        (λ e. claim_server-Step h) (λ e. done tt)

  refresh-Explained :
      (h : History) (s : Secret) → Present s h → Runs (Explained cfg c) h (refresh cfg s c)
  unfolding refresh
  refresh-Explained h s saw =
      and_then-Explained cfg c (Present s) h _ _ (λ e h' k. earlier k) saw
        (check_ownership-Step cfg c h s saw)
        λ h' p.
          Safe-if (not (changed s (wanted cfg c) cfg.label_prefix))
            (λ e. done (unchanged s p (ground arith)))
            λ e.
              and_then-Explained cfg c (Present s) h' _ _ (λ e' h'' k. earlier k) p
                (claim_if_moved-Step h' s)
                λ h'' p'.
                  Safe-if cfg.dry_run (λ d. done (dry d)) (λ d. update_merged-Explained h'' s p')

  -- Every verdict of apply rests on what the API server answered: without an error the Secret was
  -- created, or updated by the merge, or had nothing to change, or the run is dry; a conflict of
  -- each reason has the Secret, the claimant, the race or the holder of the address behind it;
  -- and an error names the call that failed.
  pub apply-Explained : (h : History) → Runs (Explained cfg c) h (apply cfg c)
  unfolding apply
  apply-Explained h =
      Safe-bind (Safe-perform h (get_secret cfg.target_namespace (secret_name c.cluster)) tt)
        on_answer
    where
      on_answer :
          (h' : History) (answer : Found Secret)
          → Saw (get_secret cfg.target_namespace (secret_name c.cluster)) answer h'
          → Runs {A = Verdict} (Explained cfg c) h' (elim answer [
            | not_found ↦ register cfg c
            | failed ↦ ret (broken get_existing)
            | found existing ↦ refresh cfg existing c
          ])
      on_answer h' (found s) saw = refresh-Explained h' s saw
      on_answer h' not_found saw = register-Explained h'
      on_answer h' failed saw = done (no_read saw)
