-- ===== src/Apply/Settled.antt =====
-- What `apply` wrote is left alone by the next pass.
use argocd_cluster_registrar.Common.{
  ◌≡◌, refl, sym, ap, subst, ◌∙◌, Bool, true, false, [], ==_refl, if◌then◌else◌,
}
use argocd_cluster_registrar.Common.Result.{ok}
use argocd_cluster_registrar.Labels
use argocd_cluster_registrar.Api.{
  Op, Answer, Found, found, not_found, failed, Created, created, already_exists, create_failed,
  get_secret, create_secret, update_secret, create_race, Prog, ret, ◌>>=◌, perform, run,
}
use argocd_cluster_registrar.Api.Server.{run-bind, IsServer}
use argocd_cluster_registrar.Kube.{Namespace, Secret}
use argocd_cluster_registrar.Libraries.{Libraries}
use argocd_cluster_registrar.Config.{Config, validate}
use argocd_cluster_registrar.Kubeconfig.Parse.{ParsedKubeconfig}
use argocd_cluster_registrar.Discover.{Candidate, child_of}
use argocd_cluster_registrar.Discover.Trust.{child_of-IsComputed}
use argocd_cluster_registrar.Registrar.{
  Child, Verdict, allowed, conflict, broken, and_then, secret_name, owner_of, source_of, create,
  update, get_existing,
}
use argocd_cluster_registrar.Ownership.{check_ownership, claim_contested_name, claim_server}
use argocd_cluster_registrar.Apply.{
  changed, wanted, merge, create_wanted, register, update_merged, claim_if_moved, refresh, apply,
}
use argocd_cluster_registrar.Apply.Stored.{get_wanted, changed-stored_merge, changed-stored_new}
use argocd_cluster_registrar.Apply.Live.{refresh-drifted, register-live}

-- The Secret of the child is stored as it is wanted.
abbrev pub Settled : {W : Type 0} → ((o : Op) → W → Answer o × W) → Config → Child → W → Type 0
Settled handle cfg c w =
    (s : Secret) × ((handle (get_secret cfg.target_namespace (secret_name c.cluster)) w).0
      ≡ found s)
    × (changed s (wanted cfg c) cfg.label_prefix ≡ false)

module _ (lib : Libraries) (cfg : Config) (valid : validate lib cfg ≡ ok tt) (ns : Namespace)
    (k : Candidate) (pk : ParsedKubeconfig) where
  abbrev c : Child
  c = child_of lib cfg ns k pk

  -- A Secret that records what is wanted.
  refresh-unchanged :
      (s : Secret)
      → changed s (wanted cfg (child_of lib cfg ns k pk)) cfg.label_prefix ≡ false
      → refresh cfg s (child_of lib cfg ns k pk) ≡ ret allowed
  unfolding refresh check_ownership and_then owner_of source_of ◌>>=◌ child_of
  refresh-unchanged s same =
      let computed = child_of-IsComputed lib cfg ns k pk valid in
      let owner =
        get_wanted s (wanted cfg c) cfg.label_prefix (Labels.managed_by_label cfg.label_prefix)
          cfg.managed_by_value same computed.owner in
      let source =
        get_wanted s (wanted cfg c) cfg.label_prefix
          (Labels.source_namespace_label cfg.label_prefix) ns.name same computed.source in
      rw owner (rw source (rw (==_refl cfg.managed_by_value) (rw (==_refl ns.name) (rw same refl))))

  module _ {W : Type 0} (handle : (o : Op) → W → Answer o × W) (server : IsServer handle)
      (live : cfg.dry_run ≡ false) where
    -- Where a step ends without an error, the Secret is settled.
    abbrev Lands : Prog Verdict → W → Type 0
    Lands m w =
        (run handle m w).0 ≡ allowed
        → Settled handle cfg (child_of lib cfg ns k pk) (run handle m w).1

    and_then-Lands : (m n : Prog Verdict) (w : W) → ((w' : W) → Lands n w') → Lands (and_then m n) w
    unfolding and_then run
    and_then-Lands m n w h =
        rw (run-bind handle m _ w) (by_verdict (run handle m w).0 (run handle m w).1)
      where
        by_verdict :
            (v : Verdict) (w' : W)
            → Lands
                (elim v [ allowed ↦ n | conflict r ↦ ret (conflict r) | broken f ↦ ret (broken f) ])
                w'
        by_verdict allowed w' = h w'
        by_verdict (conflict r) w' = λ e. cc
        by_verdict (broken f) w' = λ e. cc

    create_wanted-Lands : (w : W) → Lands (create_wanted cfg c) w
    unfolding create_wanted run perform ◌>>=◌ wanted
    create_wanted-Lands w =
        by_answer (handle (create_secret cfg.target_namespace (wanted cfg c)) w).0 refl
      where
        by_answer :
            (answer : Created)
            → (handle (create_secret cfg.target_namespace (wanted cfg c)) w).0 ≡ answer
            → ◌≡◌ {A = Verdict}
                (elim answer [
                  | created ↦ allowed
                  | already_exists ↦ conflict create_race
                  | create_failed ↦ broken create
                ])
                allowed
            → Settled handle cfg
                (child_of lib cfg ns k pk)
                (handle (create_secret cfg.target_namespace (wanted cfg c)) w).1
        by_answer created e v =
            let (stored, saw, r) = server.created cfg.target_namespace (wanted cfg c) w e in
            (stored, saw, changed-stored_new (wanted cfg c) stored cfg.label_prefix r)
        by_answer already_exists e v = cc
        by_answer create_failed e v = cc

    -- The Secret was read under its name.
    record Existing (s : Secret) : Type 0 where
      name : s.name ≡ secret_name (child_of lib cfg ns k pk).cluster
      plain : s.string_data ≡ []

    update_merged-Lands : (s : Secret) (w : W) → Existing s → Lands (update_merged cfg s c) w
    unfolding update_merged run perform ◌>>=◌ merge
    update_merged-Lands s w x =
        by_answer (handle (update_secret cfg.target_namespace updated) w).0 refl
      where
        updated : Secret
        updated = merge s (wanted cfg (child_of lib cfg ns k pk)) cfg.label_prefix

        by_answer :
            (accepted : Bool)
            → (handle (update_secret cfg.target_namespace updated) w).0 ≡ accepted
            → ◌≡◌ {A = Verdict} (if accepted then allowed else broken update) allowed
            → Settled handle cfg
                (child_of lib cfg ns k pk)
                (handle (update_secret cfg.target_namespace updated) w).1
        by_answer true e v =
            let (stored, saw, r) = server.updated cfg.target_namespace updated w e in
            (
              stored,
              ap
                    (λ n.
                      (handle (get_secret cfg.target_namespace n)
                        (handle (update_secret cfg.target_namespace updated) w).1).0)
                    (sym x.name)
                  ∙ saw,
              changed-stored_merge s (wanted cfg (child_of lib cfg ns k pk)) stored cfg.label_prefix
                  x.plain r,
            )
        by_answer false e v = cc

    refresh-Lands :
        (s : Secret) (w : W)
        → changed s (wanted cfg c) cfg.label_prefix ≡ true
        → Existing s
        → Lands (refresh cfg s c) w
    refresh-Lands s w drifted x =
        subst (λ m. Lands m w) (sym (refresh-drifted cfg s c drifted live))
          (and_then-Lands (check_ownership cfg s c) _ w
            λ w'. and_then-Lands (claim_if_moved cfg s c) _ w' λ w''. update_merged-Lands s w'' x)

    register-Lands : (w : W) → Lands (register cfg c) w
    register-Lands w =
        subst (λ m. Lands m w) (sym (register-live cfg c live))
          (and_then-Lands (claim_contested_name cfg c) _ w
            λ w'. and_then-Lands (claim_server cfg c) _ w' create_wanted-Lands)

    apply-Lands : (w : W) → Lands (apply cfg c) w
    unfolding apply run perform ◌>>=◌
    apply-Lands w = by_answer (handle read w).0 refl
      where
        read : Op
        read = get_secret cfg.target_namespace (secret_name (child_of lib cfg ns k pk).cluster)

        on_found :
            (s : Secret) (drifted : Bool)
            → (handle read w).0 ≡ found s
            → changed s (wanted cfg (child_of lib cfg ns k pk)) cfg.label_prefix ≡ drifted
            → Lands (refresh cfg s (child_of lib cfg ns k pk)) (handle read w).1
        on_found s true e d =
            refresh-Lands s (handle read w).1 d
              (record { name = server.named _ _ w s e; plain = server.plain _ _ w s e })
        on_found s false e d =
            subst (λ m. Lands m (handle read w).1) (sym (refresh-unchanged s d))
              (λ v. (s, ap (λ w'. (handle read w').0) (server.pure _ _ w) ∙ e, d))

        by_answer :
            (answer : Found Secret)
            → (handle read w).0 ≡ answer
            → Lands
                (elim answer [
                  | not_found ↦ register cfg (child_of lib cfg ns k pk)
                  | failed ↦ ret (broken get_existing)
                  | found existing ↦ refresh cfg existing (child_of lib cfg ns k pk)
                ])
                (handle read w).1
        by_answer not_found e = register-Lands (handle read w).1
        by_answer failed e = λ v. cc
        by_answer (found s) e =
            on_found s (changed s (wanted cfg (child_of lib cfg ns k pk)) cfg.label_prefix) e refl

    -- A settled Secret is read once and left alone.
    apply-unwritten :
        (w : W)
        → Settled handle cfg (child_of lib cfg ns k pk) w
        → run handle (apply cfg c) w ≡ (allowed, w)
    unfolding apply run perform ◌>>=◌
    apply-unwritten w (s, saw, same) =
        rw saw (rw (refresh-unchanged s same) (ap (λ w'. (allowed, w')) (server.pure _ _ w)))

    -- Without dry-run and under a configuration that Validate accepts, against a server that
    -- gives back what it accepted: where apply ends without an error for a discovered child, the
    -- stored Secret no longer differs from what is wanted, and applying the child again ends
    -- without an error and leaves the server as it is.
    pub apply-Settled :
        (w : W)
        → (run handle (apply cfg (child_of lib cfg ns k pk)) w).0 ≡ allowed
        → Settled handle cfg
            (child_of lib cfg ns k pk)
            (run handle (apply cfg (child_of lib cfg ns k pk)) w).1
          × (run handle
                (apply cfg (child_of lib cfg ns k pk))
                (run handle (apply cfg (child_of lib cfg ns k pk)) w).1
              ≡ (allowed, (run handle (apply cfg (child_of lib cfg ns k pk)) w).1))
    apply-Settled w v = let settled = apply-Lands w v in (settled, apply-unwritten _ settled)
