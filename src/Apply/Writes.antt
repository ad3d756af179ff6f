-- ===== src/Apply/Writes.antt =====
-- How often `apply` writes: once at most, and not at all where it refuses a child by what it read.
use argocd_cluster_registrar.Common.{
  ℕ, ◌+◌, ◌≤◌, ◌≡◌, refl, Bool, true, false, not, arith, [], ◌∷◌, if◌then◌else◌,
}
use argocd_cluster_registrar.Api.{
  Op, Prog, ret, ◌>>=◌, perform, create_race, Created, created, already_exists, create_failed,
  Found, found, not_found, failed, create_secret, update_secret, delete_secret, get_secret,
}
use argocd_cluster_registrar.Api.Calls.{returns, calls}
use argocd_cluster_registrar.Api.Safe.{History, Runs, done, step, Safe-bind, Safe-if}
use argocd_cluster_registrar.Kube.{Secret}
use argocd_cluster_registrar.Config.{Config}
use argocd_cluster_registrar.Registrar.{
  Child, Verdict, allowed, conflict, broken, create, update, get_existing, and_then, secret_name,
}
use argocd_cluster_registrar.Apply.{
  changed, wanted, merge, create_wanted, register, update_merged, refresh, apply,
}
use argocd_cluster_registrar.Reconcile.Reads.{
  IsRead, Reads, claim_contested_name-Reads, check_ownership-Reads, claim_server-Reads,
  claim_if_moved-Reads,
}

-- The calls that create, update or delete.
abbrev weight : Op → ℕ
weight (create_secret _ _) = 1
weight (update_secret _ _) = 1
weight (delete_secret _ _ _) = 1
weight _ = 0

abbrev pub writes : History → ℕ
writes [] = 0
writes (e ∷ h) = weight e.0 + writes h

-- How many writes may stand behind a verdict.
abbrev pub allowance : Verdict → ℕ
allowance allowed = 1
allowance (conflict create_race) = 1
allowance (conflict _) = 0
allowance (broken create) = 1
allowance (broken update) = 1
allowance (broken _) = 0

weight-IsRead : (o : Op) → IsRead o → weight o ≡ 0
weight-IsRead (create_secret _ _) k = absurd k
weight-IsRead (update_secret _ _) k = absurd k
weight-IsRead (delete_secret _ _ _) k = absurd k
weight-IsRead _ k = refl

-- Reading writes nothing.
Reads-writes :
    {A : Type 0} {m : Prog A} (n : ℕ) (h : History)
    → Reads m
    → writes h ≡ n
    → Runs (λ h' a. writes h' ≡ n) h m
Reads-writes n h (returns a) e = done e
Reads-writes n h (calls p hk) e =
    step tt (λ r. Reads-writes n _ (hk r) (ground (arith, weight-IsRead _ p, e)))

-- At most the allowance on top of `n`.
abbrev Within : ℕ → History → Verdict → Type 0
Within n h v = writes h ≤ n + allowance v

and_then-Within :
    (n : ℕ) (h : History) (m next : Prog Verdict)
    → Reads m
    → writes h ≡ n
    → ((h' : History) → writes h' ≡ n → Runs (Within n) h' next)
    → Runs (Within n) h (and_then m next)
unfolding and_then
and_then-Within n h m next reads e hn = Safe-bind (Reads-writes n h reads e) by_verdict
  where
    by_verdict :
        (h' : History) (v : Verdict)
        → writes h' ≡ n
        → Runs
            (Within n)
            h'
            (elim v [ allowed ↦ next | conflict r ↦ ret (conflict r) | broken f ↦ ret (broken f) ])
    by_verdict h' allowed e' = hn h' e'
    by_verdict h' (conflict r) e' = done (ground arith)
    by_verdict h' (broken f) e' = done (ground arith)

module _ (cfg : Config) (c : Child) where
  create_wanted-Within :
      (n : ℕ) (h : History) → writes h ≡ n → Runs (Within n) h (create_wanted cfg c)
  unfolding create_wanted ◌>>=◌ perform
  create_wanted-Within n h e = step tt by_answer
    where
      by_answer :
          (r : Created)
          → Runs (Within n) ((create_secret cfg.target_namespace (wanted cfg c), r) ∷ h) (
              ret (elim r [
                | created ↦ allowed
                | already_exists ↦ conflict create_race
                | create_failed ↦ broken create
              ]))
      by_answer created = done (ground arith)
      by_answer already_exists = done (ground arith)
      by_answer create_failed = done (ground arith)

  update_merged-Within :
      (n : ℕ) (h : History) (s : Secret) → writes h ≡ n → Runs (Within n) h (update_merged cfg s c)
  unfolding update_merged ◌>>=◌ perform
  update_merged-Within n h s e = step tt by_answer
    where
      by_answer :
          (r : Bool)
          → Runs
              (Within n)
              ((update_secret cfg.target_namespace (merge s (wanted cfg c) cfg.label_prefix), r)
                ∷ h)
              (ret (if r then allowed else broken update))
      by_answer true = done (ground arith)
      by_answer false = done (ground arith)

  register-Within : (n : ℕ) (h : History) → writes h ≡ n → Runs (Within n) h (register cfg c)
  unfolding register
  register-Within n h e = and_then-Within n h _ _ (claim_contested_name-Reads cfg c) e λ h1 e1.
      and_then-Within n h1 _ _ (claim_server-Reads cfg c) e1
        λ h2 e2. Safe-if cfg.dry_run (λ d. done (ground arith)) (λ d. create_wanted-Within n h2 e2)

  refresh-Within :
      (n : ℕ) (h : History) (s : Secret) → writes h ≡ n → Runs (Within n) h (refresh cfg s c)
  unfolding refresh
  refresh-Within n h s e = and_then-Within n h _ _ (check_ownership-Reads cfg s c) e λ h1 e1.
      Safe-if (not (changed s (wanted cfg c) cfg.label_prefix)) (λ k. done (ground arith))
        λ k. and_then-Within n h1 _ _ (claim_if_moved-Reads cfg s c) e1 λ h2 e2.
          Safe-if cfg.dry_run (λ d. done (ground arith)) (λ d. update_merged-Within n h2 s e2)

  -- Whatever the API server answers, applying a child makes one call at most that creates,
  -- updates or deletes, and none where it ends with a refusal other than that of a lost race for
  -- the creation, or with an error other than that of the creation or of the update.
  pub apply-writes :
      (h : History) → Runs (λ h' v. writes h' ≤ writes h + allowance v) h (apply cfg c)
  unfolding apply ◌>>=◌ perform
  apply-writes h = step tt by_answer
    where
      by_answer :
          (answer : Found Secret)
          → Runs
              (Within (writes h))
              ((get_secret cfg.target_namespace (secret_name c.cluster), answer) ∷ h)
              (elim answer [
                | not_found ↦ register cfg c
                | failed ↦ ret (broken get_existing)
                | found existing ↦ refresh cfg existing c
              ])
      by_answer (found s) = refresh-Within (writes h) _ s (ground arith)
      by_answer not_found = register-Within (writes h) _ (ground arith)
      by_answer failed = done (ground arith)
