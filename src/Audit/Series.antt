-- ===== src/Audit/Series.antt =====
-- What an audit publishes.
use argocd_cluster_registrar.Common.{
  ℕ, ◌≡◌, refl, subst, ◌∙◌, Option, none, some, List, [], ◌∷◌, All, All-imp, arith,
}
use argocd_cluster_registrar.Api.{
  now, list_secrets, set_registrations, set_unrouted, RegistrationState, active, demoted, Bucket,
  ret, ◌>>=◌, perform,
}
use argocd_cluster_registrar.Api.Safe.{
  History, Saw, earlier, done, Persists, Runs, Safe-perform, Safe-bind, Safe-frame, Safe-weaken,
}
use argocd_cluster_registrar.Kube.{Secret}
use argocd_cluster_registrar.Libraries.{Libraries}
use argocd_cluster_registrar.Config.{Config}
use argocd_cluster_registrar.Registrar.{Faults, list_cluster_secrets, owned_selector}
use argocd_cluster_registrar.Audit.{
  Counts, no_counts, expiry_buckets, count_secrets, set_buckets, publish, audit_unrouted,
}
use argocd_cluster_registrar.Audit.Counted.{
  Count, InSeries, Unrouted, count_secrets-counts, count_secrets-unrouted,
}

-- The gauges of a state were set to the counts.
abbrev AllSetTo : Counts → RegistrationState → List Bucket → History → Type 0
AllSetTo c state bs h = All (λ b. Saw (set_registrations state b (c.counts state b)) tt h) bs

AllSetTo-Persists :
    (c : Counts) (state : RegistrationState) (bs : List Bucket) → Persists (AllSetTo c state bs)
AllSetTo-Persists c state bs e h k = All-imp (λ b saw. earlier saw) bs k

set_buckets-AllSetTo :
    (h : History) (c : Counts) (state : RegistrationState) (bs : List Bucket)
    → Runs (λ h' u. AllSetTo c state bs h') h (set_buckets c state bs)
unfolding set_buckets
set_buckets-AllSetTo h c state [] = done tt
set_buckets-AllSetTo h c state (b ∷ bs) =
    let gauge = set_registrations state b (c.counts state b) in
    Safe-bind (Safe-perform h gauge tt) λ h' u saw.
      Safe-frame (Saw gauge tt) (λ e h'' k. earlier k) saw (set_buckets-AllSetTo h' c state bs)

-- Every gauge was set to its count.
abbrev PublishedTo : Counts → History → Type 0
PublishedTo c h =
    AllSetTo c active expiry_buckets h
    × AllSetTo c demoted expiry_buckets h
    × Saw (set_unrouted c.unrouted) tt h

publish-PublishedTo :
    (h : History) (c : Counts) → Runs (λ h' errs. PublishedTo c h' × (errs ≡ [])) h (publish c)
unfolding publish
publish-PublishedTo h c =
    let Actives = AllSetTo c active expiry_buckets in
    let Demotions = AllSetTo c demoted expiry_buckets in
    Safe-bind (set_buckets-AllSetTo h c active expiry_buckets) λ h1 u a.
      Safe-bind
        (Safe-frame Actives (AllSetTo-Persists c active expiry_buckets) a
          (set_buckets-AllSetTo h1 c demoted expiry_buckets))
        λ h2 u' k.
          Safe-bind
            (Safe-frame (λ h'. Actives h' × Demotions h')
              (λ e h' k'. (
                AllSetTo-Persists c active expiry_buckets e h' k'.0,
                AllSetTo-Persists c demoted expiry_buckets e h' k'.1,
              ))
              k (Safe-perform h2 (set_unrouted c.unrouted) tt))
            λ h3 u'' k''. done ((k''.0.0, k''.0.1, k''.1), refl)

module _ (lib : Libraries) (cfg : Config) where
  -- The gauge of a state and a bucket was set to the number of the listed Secrets that belong to
  -- that series.
  abbrev pub WasSet : ℕ → List Secret → RegistrationState → Bucket → History → Type 0
  WasSet at items state b h =
      (n : ℕ) × Count (InSeries lib cfg at state b) items n × Saw (set_registrations state b n) tt h

  abbrev pub AllSet : ℕ → List Secret → RegistrationState → List Bucket → History → Type 0
  AllSet at items state bs h = All (λ b. WasSet at items state b h) bs

  -- Every series at the moment `at`, from the Secrets that were listed, and the number of those
  -- that record no source namespace.
  pub record IsPublished (at : ℕ) (items : List Secret) (h : History) : Type 0 where
    pub actives : AllSet at items active expiry_buckets h
    pub demotions : AllSet at items demoted expiry_buckets h
    pub unrouted : (n : ℕ) × Count (Unrouted lib cfg) items n × Saw (set_unrouted n) tt h

  AllSetTo-AllSet :
      (at : ℕ) (items : List Secret) (state : RegistrationState) (bs : List Bucket) (h : History)
      → AllSetTo (count_secrets lib cfg at items no_counts) state bs h
      → AllSet at items state bs h
  AllSetTo-AllSet at items state bs h k =
      All-imp
        (λ b saw.
          let (n, count, e) = count_secrets-counts lib cfg at items no_counts state b in
          (n, count, subst (λ m. Saw (set_registrations state b m) tt h) (e ∙ ground arith) saw))
        bs k

  PublishedTo-IsPublished :
      (at : ℕ) (items : List Secret) (h : History)
      → PublishedTo (count_secrets lib cfg at items no_counts) h
      → IsPublished at items h
  PublishedTo-IsPublished at items h (a, d, u) =
      let (n, count, e) = count_secrets-unrouted lib cfg at items no_counts in
      record {
        actives = AllSetTo-AllSet at items active expiry_buckets h a;
        demotions = AllSetTo-AllSet at items demoted expiry_buckets h d;
        unrouted = (n, count, subst (λ m. Saw (set_unrouted m) tt h) (e ∙ ground arith) u);
      }

  -- The list failed, or all of it was published.
  pub data IsAudited (h : History) (errs : Faults) : Type 0 where
    unlisted :
        Saw (list_secrets cfg.target_namespace (owned_selector cfg)) none h
        → errs ≡ list_cluster_secrets ∷ []
        → IsAudited h errs
    published :
        (items : List Secret) (at : ℕ)
        → Saw (list_secrets cfg.target_namespace (owned_selector cfg)) (some items) h
        → Saw now at h
        → IsPublished at items h
        → errs ≡ []
        → IsAudited h errs

  -- Whatever the API server answers, an audit ends either with a list that failed and its error,
  -- or without an error, and then each gauge was set, all at one moment: that of a state and a
  -- bucket to the number of the listed Secrets that are in that state, which is demoted where the
  -- label with the hidden type is there and not empty and else active, and whose `config` is in
  -- that bucket; and that of the unrouted Secrets to the number of those that record no source
  -- namespace.
  pub audit_unrouted-IsAudited : (h : History) → Runs IsAudited h (audit_unrouted lib cfg)
  unfolding audit_unrouted
  audit_unrouted-IsAudited h =
      Safe-bind (Safe-perform h (list_secrets cfg.target_namespace (owned_selector cfg)) tt)
        on_listing
    where
      on_listing :
          (h' : History) (answer : Option (List Secret))
          → Saw (list_secrets cfg.target_namespace (owned_selector cfg)) answer h'
          → Runs {A = Faults} IsAudited h' (elim answer [
            | none ↦ ret (list_cluster_secrets ∷ [])
            | some items ↦ perform now >>= λ at. publish (count_secrets lib cfg at items no_counts)
          ])
      on_listing h' none saw = done (unlisted saw refl)
      on_listing h' (some items) saw =
          let Listed = λ (h : History).
            Saw (list_secrets cfg.target_namespace (owned_selector cfg)) (some items) h in
          Safe-bind (Safe-frame Listed (λ e h'' k. earlier k) saw (Safe-perform h' now tt))
            λ h'' at k.
              Safe-weaken
                (λ h3 errs k'.
                  published items at k'.0.0 k'.0.1 (PublishedTo-IsPublished at items h3 k'.1.0)
                    k'.1.1)
                (Safe-frame (λ h3. Listed h3 × Saw now at h3)
                  (λ e h3 k'. (earlier k'.0, earlier k'.1)) k
                  (publish-PublishedTo h'' (count_secrets lib cfg at items no_counts)))
