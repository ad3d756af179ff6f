-- ===== src/Apply/Merge.antt =====
-- What the read-modify-write of `apply` leaves in the Secret.
use argocd_cluster_registrar.Common.{
  ◌≡◌, refl, Bool, true, false, not, none, List, [], ◌∷◌, Bytes, Assoc, ==_refl, get, lookup,
  has_key, copy, keep_keys, any, In, here, there, arith, lookup-keep_keys, lookup-copy, or_else,
  if◌then◌else◌,
}
use argocd_cluster_registrar.Kube.{Secret}
use argocd_cluster_registrar.Apply.{differs, is_swept, has_swept, changed, merge_keys, merge}
use argocd_cluster_registrar.Apply.Swept.{IsSwept, is_swept_iff, not-IsSwept_iff}

-- No element passes the test.
any_none :
    {A : Type 0} (p : A → Bool) (xs : List A) → ((x : A) → In x xs → p x ≡ false) → any p xs ≡ false
unfolding any
any_none p [] h = refl
any_none p (x ∷ xs) h = ground (arith, h x here, any_none p xs (λ y i. h y (there i)))

has_key_of_In : (e : Bytes × Bytes) (m : Assoc) → In e m → has_key e.0 m ≡ true
unfolding has_key lookup
has_key_of_In (k, v) [] i = elim i [ ]
has_key_of_In (k, v) ((j, w) ∷ m) here = ground (arith, ==_refl k)
has_key_of_In (k, v) ((j, w) ∷ m) (there i) = ground (arith, has_key_of_In (k, v) m i)

get-copy : (k : Bytes) (dst src : Assoc) → has_key k src ≡ true → get (copy dst src) k ≡ get src k
unfolding get has_key
get-copy k dst src h = ground (arith, lookup-copy k dst src)

-- The value of a key after the merge: swept, wanted, or as it was.
pub lookup-merge_keys :
    (prefix k : Bytes) (existing want : Assoc)
    → lookup k (merge_keys prefix existing want)
      ≡ (if is_swept prefix want k then none else or_else (lookup k want) (lookup k existing))
unfolding merge_keys
lookup-merge_keys prefix k existing want = ground (
  arith,
  lookup-keep_keys (λ j. not (is_swept prefix want j)) k (copy existing want),
  lookup-copy k existing want,
)

get-merge_keys :
    (prefix k : Bytes) (existing want : Assoc)
    → has_key k want ≡ true
    → get (merge_keys prefix existing want) k ≡ get want k
unfolding get has_key is_swept
get-merge_keys prefix k existing want h = ground (arith, lookup-merge_keys prefix k existing want)

differs-copy : (existing want : Assoc) → differs (copy existing want) want ≡ false
unfolding differs
differs-copy existing want = any_none _ want λ e i.
    ground (arith, get-copy e.0 existing want (has_key_of_In e want i), ==_refl (get want e.0))

differs-merge_keys :
    (prefix : Bytes) (existing want : Assoc)
    → differs (merge_keys prefix existing want) want ≡ false
unfolding differs
differs-merge_keys prefix existing want = any_none _ want λ e i. ground (
  arith,
  get-merge_keys prefix e.0 existing want (has_key_of_In e want i),
  ==_refl (get want e.0),
)

any-keep_keys :
    (p : Bytes → Bool) (m : Assoc) → any (λ e. p e.0) (keep_keys (λ k. not (p k)) m) ≡ false
unfolding any keep_keys
any-keep_keys p [] = refl
any-keep_keys p ((k, v) ∷ m) = ground (arith, any-keep_keys p m)

has_swept-merge_keys :
    (prefix : Bytes) (existing want : Assoc)
    → has_swept prefix (merge_keys prefix existing want) want ≡ false
unfolding has_swept merge_keys
has_swept-merge_keys prefix existing want =
    any-keep_keys (is_swept prefix want) (copy existing want)

-- After the merge of what is wanted into any existing Secret, changed answers no: what apply
-- writes is not written again.
pub changed-merge :
    (existing want : Secret) (prefix : Bytes)
    → changed (merge existing want prefix) want prefix ≡ false
unfolding changed merge
changed-merge existing want prefix = ground (
  arith,
  differs-copy existing.data' want.string_data,
  differs-merge_keys prefix existing.labels want.labels,
  has_swept-merge_keys prefix existing.labels want.labels,
  differs-merge_keys prefix existing.annotations want.annotations,
  has_swept-merge_keys prefix existing.annotations want.annotations,
)

-- A swept key is gone; any other has the value that is wanted, or the one that was there.
abbrev pub AreMerged : Bytes → Assoc → Assoc → Assoc → Type 0
AreMerged prefix existing want updated =
    (k : Bytes)
    → (IsSwept prefix want k → lookup k updated ≡ none)
      × ((IsSwept prefix want k → ⊥)
          → lookup k updated ≡ or_else (lookup k want) (lookup k existing))

merge_keys-AreMerged :
    (prefix : Bytes) (existing want : Assoc)
    → AreMerged prefix existing want (merge_keys prefix existing want)
merge_keys-AreMerged prefix existing want k = (
  λ s. ground (arith, lookup-merge_keys prefix k existing want, (is_swept_iff prefix k want).1 s),
  λ n.
      ground (arith, lookup-merge_keys prefix k existing want, (not-IsSwept_iff prefix k want).1 n),
)

-- How the Secret that is written comes about, key by key.
pub record IsMerged (existing want : Secret) (prefix : Bytes) (updated : Secret) : Type 0 where
  pub labels : AreMerged prefix existing.labels want.labels updated.labels
  pub annotations : AreMerged prefix existing.annotations want.annotations updated.annotations
  pub contents :
      (k : Bytes)
      → lookup k updated.data' ≡ or_else (lookup k want.string_data) (lookup k existing.data')
  pub name : updated.name ≡ existing.name
  pub uid : updated.uid ≡ existing.uid
  pub resource_version : updated.resource_version ≡ existing.resource_version
  pub type : updated.type ≡ existing.type

-- The read-modify-write drops exactly the labels and annotations whose key begins with the
-- prefix, is not the prune opt-out, and is not wanted. Every other label and annotation, and
-- every key of the data, has the wanted value, or the value that was there where none is wanted.
-- The name, the UID, the resource version and the type of the Secret are kept.
pub merge-IsMerged :
    (existing want : Secret) (prefix : Bytes)
    → IsMerged existing want prefix (merge existing want prefix)
unfolding merge
merge-IsMerged existing want prefix = record {
  labels = merge_keys-AreMerged prefix existing.labels want.labels;
  annotations = merge_keys-AreMerged prefix existing.annotations want.annotations;
  contents = λ k. lookup-copy k existing.data' want.string_data;
  name = refl;
  uid = refl;
  resource_version = refl;
  type = refl;
}
