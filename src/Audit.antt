-- ===== src/Audit.antt =====
-- `AuditUnrouted` of internal/registrar/registrar.go, with the states and the buckets of
-- internal/registrar/metrics.go.
pub mod Counted
pub mod Series
use argocd_cluster_registrar.Common.{
  ℕ, suc, Bool, true, false, ◌&&◌, none, some, List, [], ◌∷◌, codes, get, nonempty, if◌then◌else◌,
}
use argocd_cluster_registrar.Api.{
  Prog, ret, ◌>>=◌, ◌>>◌, perform, list_secrets, now, set_registrations, set_unrouted,
  RegistrationState, active, demoted, Bucket, expired, lt_24h, lt_7d, lt_30d, ok, token, exec,
  unreadable, absent,
}
use argocd_cluster_registrar.Expiry.{credential_expiry}
use argocd_cluster_registrar.Kube.{Secret}
use argocd_cluster_registrar.Libraries.{Libraries}
use argocd_cluster_registrar.Config.{Config}
use argocd_cluster_registrar.Registrar.{
  Faults, list_cluster_secrets, is_demoted, source_of, owned_selector,
}

abbrev pub expiry_buckets : List Bucket
expiry_buckets = expired ∷ lt_24h ∷ lt_7d ∷ lt_30d ∷ ok ∷ token ∷ exec ∷ unreadable ∷ absent ∷ []

same_state : RegistrationState → RegistrationState → Bool
same_state active active = true
same_state demoted demoted = true
same_state _ _ = false

same_bucket : Bucket → Bucket → Bool
same_bucket expired expired = true
same_bucket lt_24h lt_24h = true
same_bucket lt_7d lt_7d = true
same_bucket lt_30d lt_30d = true
same_bucket ok ok = true
same_bucket token token = true
same_bucket exec exec = true
same_bucket unreadable unreadable = true
same_bucket absent absent = true
same_bucket _ _ = false

-- `counts` and `unrouted`. A map of which every missing key reads as 0 is a function.
pub record Counts : Type 0 where
  pub counts : RegistrationState → Bucket → ℕ
  pub unrouted : ℕ

abbrev pub no_counts : Counts
no_counts = record { counts = λ state b. 0; unrouted = 0 }

-- `counts[{state, bucket}]++`
unfoldable pub increment :
    RegistrationState → Bucket → (RegistrationState → Bucket → ℕ) → RegistrationState → Bucket → ℕ
unfolding same_state same_bucket
increment state b counts state' b' =
    if same_state state state' && same_bucket b b' then suc (counts state' b') else counts state' b'

module _ (lib : Libraries) (cfg : Config) where
  unfoldable pub state_of : Secret → RegistrationState
  unfolding is_demoted
  state_of s = if is_demoted cfg s then demoted else active

  unfoldable pub bucket_of : ℕ → Secret → Bucket
  unfolding credential_expiry get
  bucket_of at s = (credential_expiry lib at (get s.data' (codes "config"))).0

  -- One round of the loop over the Secrets; the log lines are left out.
  unfoldable pub count_secret : ℕ → Secret → Counts → Counts
  unfolding state_of bucket_of increment source_of nonempty
  count_secret at s c =
      let counts' = increment (state_of s) (bucket_of at s) c.counts in
      if nonempty (source_of cfg s)
      then record { counts = counts'; unrouted = c.unrouted }
      else record { counts = counts'; unrouted = suc c.unrouted }

  unfoldable pub count_secrets : ℕ → List Secret → Counts → Counts
  unfolding count_secret
  count_secrets at [] c = c
  count_secrets at (s ∷ rest) c = count_secrets at rest (count_secret at s c)

-- The gauges of one state, bucket by bucket.
unfoldable pub set_buckets : Counts → RegistrationState → List Bucket → Prog (Unit {0})
set_buckets c state [] = ret tt
set_buckets c state (b ∷ bs) =
    perform (set_registrations state b (c.counts state b)) >> set_buckets c state bs

unfoldable pub publish : Counts → Prog Faults
unfolding set_buckets
publish c = do
  set_buckets c active expiry_buckets
  set_buckets c demoted expiry_buckets
  perform (set_unrouted c.unrouted)
  ret []

module _ (lib : Libraries) (cfg : Config) where
  unfoldable pub audit_unrouted : Prog Faults
  unfolding publish count_secrets owned_selector
  audit_unrouted = do
    answer ← perform (list_secrets cfg.target_namespace (owned_selector cfg))
    elim answer [
      | none ↦ ret (list_cluster_secrets ∷ [])
      | some items ↦ perform now >>= λ at. publish (count_secrets lib cfg at items no_counts)
    ]
