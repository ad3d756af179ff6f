-- ===== src/Tests/Servers.antt =====
-- A server that keeps one Secret, and the theorem on two passes of `apply` against it.
use argocd_cluster_registrar.Common.{
  ◌≡◌, refl, sym, ap, ◌∙◌, Bool, true, false, Option, none, some, [], Bytes, ◌==◌, ==_iff, ==_refl,
  copy, nonempty, member, has_prefix, has_suffix, contains_byte, if◌then◌else◌,
}
use argocd_cluster_registrar.Labels
use argocd_cluster_registrar.Labels.{argo_domain}
use argocd_cluster_registrar.Kube.{Secret}
use argocd_cluster_registrar.Api.{
  Op, Answer, Found, found, not_found, created, already_exists, delete_failed, get_namespace,
  list_namespaces, get_secret, list_secrets, create_secret, update_secret, delete_secret, now,
  count_conflict, count_adoption, set_registrations, set_unrouted, in_cluster_config,
  kubeconfig_config, new_client, add_to_scheme, new_manager, add_check, complete, add_seeder,
  run_manager, run,
}
use argocd_cluster_registrar.Api.Server.{Rereads, IsServer}
use argocd_cluster_registrar.Common.Result.{ok}
use argocd_cluster_registrar.Api.{◌>>=◌, perform}
use argocd_cluster_registrar.Registrar.{allowed, and_then}
use argocd_cluster_registrar.Config.{validate, validate_provider}
use argocd_cluster_registrar.Discover.{child_of}
use argocd_cluster_registrar.Ownership.{
  award, oldest, claim_contested_name, check_servers, claim_server,
}
use argocd_cluster_registrar.Apply.{create_wanted, register, apply}
use argocd_cluster_registrar.Apply.Settled.{Settled, apply-Settled}
use argocd_cluster_registrar.Tests.Data.{table, config, younger}
use argocd_cluster_registrar.Tests.Reads.{candidate, parsed}

-- `stringData` is merged when it is read.
abbrev stored : Secret → Secret
stored s = record s { data' = copy s.data' s.string_data; string_data = [] }

read : Option Secret → Bytes → Found Secret
read none name = not_found
read (some s) name = if s.name == name then found (stored s) else not_found

shelf : (o : Op) → Option Secret → Answer o × Option Secret
unfolding read
shelf (get_namespace _) w = (not_found, w)
shelf (list_namespaces _) w = (some [], w)
shelf (get_secret _ name) w = (read w name, w)
shelf (list_secrets _ _) w = (some [], w)
shelf (create_secret _ s) none = (created, some s)
shelf (create_secret _ s) (some t) = (already_exists, some t)
shelf (update_secret _ s) w = (true, some s)
shelf (delete_secret _ _ _) w = (delete_failed, w)
shelf now w = (0, w)
shelf (count_conflict _) w = (tt, w)
shelf count_adoption w = (tt, w)
shelf (set_registrations _ _ _) w = (tt, w)
shelf (set_unrouted _) w = (tt, w)
shelf in_cluster_config w = (none, w)
shelf kubeconfig_config w = (none, w)
shelf (new_client _) w = (false, w)
shelf add_to_scheme w = (false, w)
shelf (new_manager _ _) w = (false, w)
shelf (add_check _) w = (false, w)
shelf (complete _) w = (false, w)
shelf add_seeder w = (false, w)
shelf run_manager w = (false, w)

found_injective : {s t : Secret} → ◌≡◌ {A = Found Secret} (found s) (found t) → s ≡ t
found_injective e = cc

read-found :
    (w : Option Secret) (name : Bytes) (s : Secret)
    → read w name ≡ found s
    → (s.name ≡ name) × (s.string_data ≡ [])
unfolding read
read-found none name s e = cc
read-found (some t) name s e = of_name (t.name == name) refl e
  where
    of_name :
        (b : Bool)
        → (t.name == name) ≡ b
        → ◌≡◌ {A = Found Secret} (if b then found (stored t) else not_found) (found s)
        → (s.name ≡ name) × (s.string_data ≡ [])
    of_name true f e =
        let same = found_injective e in
        (
          ap (λ (x : Secret). x.name) (sym same) ∙ (==_iff t.name name).0 f,
          ap (λ (x : Secret). x.string_data) (sym same),
        )
    of_name false f e = cc

create-Rereads :
    (s : Secret) (w : Option Secret)
    → (shelf (create_secret [] s) w).0 ≡ created
    → Rereads shelf [] s (shelf (create_secret [] s) w).1
unfolding shelf read
create-Rereads s none e = (
  stored s,
  rw (==_refl s.name) refl,
  record { labels = refl; annotations = refl; contents = refl },
)
create-Rereads s (some t) e = cc

shelf-IsServer : IsServer shelf
unfolding shelf read
shelf-IsServer = record {
  pure = λ namespace name w. refl;
  named = λ namespace name w s e. (read-found w name s e).0;
  plain = λ namespace name w s e. (read-found w name s e).1;
  created = λ namespace s w e. create-Rereads s w e;
  updated = λ namespace s w e. (
    stored s,
    rw (==_refl s.name) refl,
    record { labels = refl; annotations = refl; contents = refl },
  );
}

valid : validate table config ≡ ok tt
unfolding validate validate_provider nonempty member ◌==◌ has_prefix has_suffix contains_byte
    argo_domain Labels.managed_by_label
valid = refl

accepted :
    (run shelf (apply config (child_of table config younger candidate parsed)) none).0 ≡ allowed
unfolding run apply register and_then claim_contested_name award oldest claim_server check_servers
    create_wanted ◌>>=◌ perform shelf read nonempty
accepted = refl

apply-Settled_example :
    Settled shelf config
      (child_of table config younger candidate parsed)
      (run shelf (apply config (child_of table config younger candidate parsed)) none).1
    × (run shelf
          (apply config (child_of table config younger candidate parsed))
          (run shelf (apply config (child_of table config younger candidate parsed)) none).1
        ≡ (
          allowed,
          (run shelf (apply config (child_of table config younger candidate parsed)) none).1,
        ))
apply-Settled_example =
    apply-Settled table config valid younger candidate parsed shelf shelf-IsServer refl none
      accepted
