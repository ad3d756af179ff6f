-- ===== src/Apply/Stored.antt =====
-- What `changed` says of a Secret that was stored as it was written.
use argocd_cluster_registrar.Common.{
  ◌≡◌, refl, ap, ◌∙◌, false, some, [], Bytes, get, lookup, has_key, copy, lookup-copy, arith,
}
use argocd_cluster_registrar.Api.Server.{IsStored}
use argocd_cluster_registrar.Kube.{Secret}
use argocd_cluster_registrar.Apply.{is_swept, changed, merge}
use argocd_cluster_registrar.Apply.Merge.{changed-merge}
use argocd_cluster_registrar.Apply.Drift.{changed_iff}

-- A key that is wanted reads as wanted.
pub get_wanted :
    (s want : Secret) (prefix k v : Bytes)
    → changed s want prefix ≡ false
    → lookup k want.labels ≡ some v
    → get s.labels k ≡ v
unfolding get has_key
get_wanted s want prefix k v same has =
    let u = (changed_iff s want prefix).0 same in ground (arith, u.labels k, has)

-- Only the labels, the annotations and the data are compared.
changed-fields :
    (s t want : Secret) (prefix : Bytes)
    → s.labels ≡ t.labels
    → s.annotations ≡ t.annotations
    → s.data' ≡ t.data'
    → changed s want prefix ≡ changed t want prefix
unfolding changed
changed-fields s t want prefix l a d = rw l (rw a (rw d refl))

pub changed-stored_merge :
    (existing want stored : Secret) (prefix : Bytes)
    → existing.string_data ≡ []
    → IsStored (merge existing want prefix) stored
    → changed stored want prefix ≡ false
unfolding merge copy
changed-stored_merge existing want stored prefix plain r =
    changed-fields stored (merge existing want prefix) want prefix r.labels r.annotations
      (r.contents ∙ ap (copy (merge existing want prefix).data') plain)
    ∙ changed-merge existing want prefix

pub changed-stored_new :
    (want stored : Secret) (prefix : Bytes)
    → IsStored want stored
    → changed stored want prefix ≡ false
unfolding is_swept get has_key
changed-stored_new want stored prefix r = (changed_iff stored want prefix).1 (record {
  contents = λ k e. ground (arith, r.contents, lookup-copy k want.data' want.string_data, e);
  labels = λ k e. ap (λ m. get m k) r.labels;
  no_label = λ k e s. ground (arith, e, s.2, ap (has_key k) r.labels);
  annotations = λ k e. ap (λ m. get m k) r.annotations;
  no_annotation = λ k e s. ground (arith, e, s.2, ap (has_key k) r.annotations);
})
