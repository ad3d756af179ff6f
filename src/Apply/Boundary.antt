-- ===== src/Apply/Boundary.antt =====
-- Every write of `apply` is one that the security boundary allows.
use argocd_cluster_registrar.Common.{◌≢◌, refl, ◌⊎◌, inl, inr, not, ◌==◌, trim_right, get, codes}
use argocd_cluster_registrar.Api.{
  Found, found, not_found, failed, create_secret, update_secret, get_secret, Prog, ret,
}
use argocd_cluster_registrar.Api.Safe.{
  History, Saw, earlier, Safe, done, Anything, Safe-perform, Safe-bind, Safe-if, Safe-frame,
  Safe-weaken,
}
use argocd_cluster_registrar.Kube.{Secret}
use argocd_cluster_registrar.Config.{Config}
use argocd_cluster_registrar.Registrar.{Child, allowed, broken, secret_name, get_existing}
use argocd_cluster_registrar.Apply.{
  changed, wanted, merge, create_wanted, register, update_merged, claim_if_moved, refresh, apply,
}
use argocd_cluster_registrar.Apply.Takeover.{
  MayWrite, NameAwarded, AddressFree, and_then-MayWrite, check_ownership-MayTake,
}
use argocd_cluster_registrar.Apply.Claims.{
  claim_contested_name-NameAwarded, claim_server-AddressFree,
}

-- What a verdict that is `allowed` leaves of a claim.
given : {X : Type 0} → (allowed ≢ allowed) ⊎ X → X
given (inl n) = absurd (n refl)
given (inr x) = x

module _ (cfg : Config) (c : Child) where
  abbrev Bounded : {A : Type 0} → History → Prog A → Type 0
  Bounded h m = Safe (MayWrite cfg c) Anything h m

  create_wanted-Bounded :
      (h : History)
      → Saw (get_secret cfg.target_namespace (secret_name c.cluster)) not_found h
      → NameAwarded cfg c h
      → AddressFree cfg c h
      → Bounded h (create_wanted cfg c)
  unfolding create_wanted
  create_wanted-Bounded h absent name address =
      Safe-bind
        (Safe-perform h (create_secret cfg.target_namespace (wanted cfg c))
          (refl, refl, absent, name, address))
        (λ h' r q. done tt)

  register-Bounded :
      (h : History)
      → Saw (get_secret cfg.target_namespace (secret_name c.cluster)) not_found h
      → Bounded h (register cfg c)
  unfolding register
  register-Bounded h absent =
      and_then-MayWrite cfg c h _ _
        (Safe-frame (Absent) (λ e h' s. earlier s) absent
          (claim_contested_name-NameAwarded cfg c h))
        λ h' q.
          and_then-MayWrite cfg c h' _ _
            (Safe-frame (λ h''. Absent h'' × NameAwarded cfg c h'')
              (λ e h'' k. (earlier k.0, (k.1.0, earlier k.1.1, k.1.2))) (q.0, given q.1)
              (claim_server-AddressFree cfg c h'))
            λ h'' q'.
              Safe-if cfg.dry_run (λ e. done tt)
                λ e. create_wanted-Bounded h'' q'.0.0 q'.0.1 (given q'.1)
    where
      Absent : History → Type 0
      Absent h' = Saw (get_secret cfg.target_namespace (secret_name c.cluster)) not_found h'

  refresh-Bounded :
      (h : History) (s : Secret)
      → Saw (get_secret cfg.target_namespace (secret_name c.cluster)) (found s) h
      → Bounded h (refresh cfg s c)
  unfolding refresh claim_if_moved update_merged
  refresh-Bounded h s saw =
      and_then-MayWrite cfg c h _ _
        (Safe-frame Present (λ e h' k. earlier k) saw (check_ownership-MayTake cfg c h s))
        λ h' q.
          Safe-if (not (changed s (wanted cfg c) cfg.label_prefix)) (λ e. done tt)
            λ e.
              and_then-MayWrite cfg c h' _ _
                (Safe-frame Present (λ e' h'' k. earlier k) q.0
                  (Safe-if {Q = λ h'' v. Unit {0}}
                    (not (trim_right (get s.data' (codes "server")) b'/' == c.server))
                    (λ e'. Safe-weaken (λ h'' v k. tt) (claim_server-AddressFree cfg c h'))
                    (λ e'. done tt)))
                λ h'' q'.
                  Safe-if cfg.dry_run (λ e'. done tt)
                    λ e'.
                      Safe-bind
                        (Safe-perform h''
                          (update_secret cfg.target_namespace
                            (merge s (wanted cfg c) cfg.label_prefix))
                          (refl, s, q'.0, q.1.0 refl, refl))
                        (λ h3 r k. done tt)
    where
      Present : History → Type 0
      Present h' = Saw (get_secret cfg.target_namespace (secret_name c.cluster)) (found s) h'

  -- Whatever the API server answers, apply deletes nothing, creates only the wanted Secret where
  -- its name is free, the name is awarded to the child and its address is free or released, and
  -- updates only the Secret that it read and may take, by the merge of what is wanted.
  pub apply-Bounded : (h : History) → Bounded h (apply cfg c)
  unfolding apply
  apply-Bounded h =
      Safe-bind (Safe-perform h (get_secret cfg.target_namespace (secret_name c.cluster)) tt)
        on_answer
    where
      on_answer :
          (h' : History) (answer : Found Secret)
          → Saw (get_secret cfg.target_namespace (secret_name c.cluster)) answer h'
          → Bounded h' (elim answer [
            | not_found ↦ register cfg c
            | failed ↦ ret (broken get_existing)
            | found existing ↦ refresh cfg existing c
          ])
      on_answer h' (found s) saw = refresh-Bounded h' s saw
      on_answer h' not_found saw = register-Bounded h' saw
      on_answer h' failed saw = done tt
