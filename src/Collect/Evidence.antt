-- ===== src/Collect/Evidence.antt =====
-- What a deletion rests on, and that the steps of garbage collection delete nothing without it.
pub mod Replaced
pub mod Leftover
use argocd_cluster_registrar.Common.{
  ℕ, ◌≡◌, refl, Option-cases, inl, inr, Bool, true, false, not, ◌||◌, Option, none, some, List, [],
  ◌∷◌, ◌++◌, Bytes, ◌==◌, nonempty, In, here, there, ltb_ℤ, pos, time_sub, arith, length,
  if◌then◌else◌,
}
use argocd_cluster_registrar.Api.{
  Op, found, not_found, update_secret, delete_secret, get_namespace, list_secrets, now, Prog, ret,
  ◌>>=◌,
}
use argocd_cluster_registrar.Api.Calls.{Calls, returns, Calls-perform, Calls-bind, Calls-if}
use argocd_cluster_registrar.Api.Safe.{
  History, Saw, earlier, Safe, done, Anything, Persists, Safe-perform, Safe-bind, Safe-if,
  Safe-frame, Safe-Calls,
}
use argocd_cluster_registrar.Kube.{Namespace, Secret, Preconditions}
use argocd_cluster_registrar.Libraries.{Libraries}
use argocd_cluster_registrar.Config.{Config}
use argocd_cluster_registrar.Registrar.{
  list_cluster_secrets, Faults, is_demoted, is_pinned, source_uid_of, stale_since_of,
  source_selector,
}
use argocd_cluster_registrar.Apply.{demote_secret}
use argocd_cluster_registrar.Collect.{
  uid_only, uid_and_version, delete_orphan_secret, delete_expired_secret, collect_orphan,
  collect_stale_secret, collect_stale_secrets, collect_stale_uid, outlived, demoted_ttl_expired,
  collect_demoted, collect_secret, collect_secrets, collect_one,
}

-- The call deletes nothing.
abbrev pub IsKept : Op → Type 0
IsKept (delete_secret _ _ _) = ⊥
IsKept _ = Unit {0}

module _ (lib : Libraries) (cfg : Config) (ns_name : Bytes) where
  -- The Secret was listed as owned and recorded against the namespace.
  abbrev pub Listed : Secret → History → Type 0
  Listed s h =
      (items : List Secret) × Saw (list_secrets cfg.target_namespace (source_selector cfg ns_name))
        (some items) h
      × In s items

  -- The clock was read, and is more than the TTL past the stamp of the demotion.
  abbrev pub Outlived : Secret → History → Type 0
  Outlived s h =
      (at since : ℕ) × Saw now at h
      × (lib.parse_stale_since (stale_since_of cfg s) ≡ some since)
      × (ltb_ℤ cfg.demoted_ttl (time_sub at since) ≡ true)

  -- The three proofs that a registration may go.
  pub data Evidence (h : History) (s : Secret) (p : Preconditions) : Type 0 where
    -- the namespace read back as not found
    gone : Saw (get_namespace ns_name) not_found h → Evidence h s p
    -- the namespace has another UID than the one that the Secret records
    replaced :
        (ns : Namespace)
        → Saw (get_namespace ns_name) (found ns) h
        → nonempty (source_uid_of cfg s) ≡ true
        → (source_uid_of cfg s == ns.uid) ≡ false
        → Evidence h s p
    -- the Secret is demoted and has outlived the TTL, and must not have been written since
    expired :
        (ns : Namespace)
        → Saw (get_namespace ns_name) (found ns) h
        → is_demoted cfg s ≡ true
        → ltb_ℤ (pos 0) cfg.demoted_ttl ≡ true
        → Outlived s h
        → p.resource_version ≡ some s.resource_version
        → Evidence h s p

  -- What a call must meet at its history: nothing, but for a deletion.
  abbrev pub Justified : History → Op → Type 0
  Justified h (delete_secret ns name p) =
      (s : Secret) × (ns ≡ cfg.target_namespace)
      × (name ≡ s.name)
      × (p.uid ≡ some s.uid)
      × Listed s h
      × (is_pinned cfg s ≡ false)
      × Evidence h s p
  Justified h _ = Unit {0}

  abbrev pub Rests : {A : Type 0} → History → Prog A → Type 0
  Rests h m = Safe Justified Anything h m

  IsKept-Justified : (h : History) (o : Op) → IsKept o → Justified h o
  IsKept-Justified h (delete_secret _ _ _) k = absurd k
  IsKept-Justified h _ k = tt

  pub Rests-Calls : {A : Type 0} {m : Prog A} (h : History) → Calls IsKept m → Rests h m
  Rests-Calls h c = Safe-Calls h IsKept-Justified c

  pub Listed-Persists : (s : Secret) → Persists (Listed s)
  Listed-Persists s e h (items, saw, i) = (items, earlier saw, i)

  -- What was read of the namespace, by the caller's claim that it exists.
  abbrev pub Read : Bool → History → Type 0
  Read true h = (ns : Namespace) × Saw (get_namespace ns_name) (found ns) h
  Read false h = Saw (get_namespace ns_name) not_found h

  pub Read-Persists : (exists : Bool) → Persists (Read exists)
  Read-Persists true e h (ns, saw) = (ns, earlier saw)
  Read-Persists false e h saw = earlier saw

  delete_orphan_secret-Rests :
      (h : History) (s : Secret)
      → Listed s h
      → is_pinned cfg s ≡ false
      → ((p : Preconditions) → Evidence h s p)
      → Rests h (delete_orphan_secret cfg s)
  unfolding delete_orphan_secret
  delete_orphan_secret-Rests h s l u ev =
      Safe-if cfg.dry_run (λ e. done tt)
        λ e.
          Safe-bind
            (Safe-perform h (delete_secret cfg.target_namespace s.name (uid_only s))
              (s, refl, refl, refl, l, u, ev _))
            (λ h' r q. done tt)

  -- What a loop knows: every Secret that is left was listed, and a fact about the namespace.
  abbrev Known : List Secret → (History → Type 0) → History → Type 0
  Known items G h = ((s : Secret) → In s items → Listed s h) × G h

  Known-tail :
      (s : Secret) (rest : List Secret) (G : History → Type 0)
      → Persists G
      → Persists (λ h. Known rest G h)
  Known-tail s rest G keep e h (l, g) = (λ t i. Listed-Persists t e h (l t i), keep e h g)

  -- One round of a loop, and then the rest of it.
  round :
      {A : Type 0} {m : Prog A} {f : A → Prog A} (h : History) (s : Secret) (rest : List Secret)
      (G : History → Type 0)
      → Persists G
      → Known (s ∷ rest) G h
      → Rests h m
      → ((h' : History) (a : A) → Known rest G h' → Rests h' (f a))
      → Rests h (m >>= f)
  round h s rest G keep (l, g) body next =
      Safe-bind
        (Safe-frame (λ h'. Known rest G h') (Known-tail s rest G keep) (λ t i. l t (there i), g)
          body)
        λ h' a k. next h' a k.0
