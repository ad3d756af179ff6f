-- ===== src/Provider/RoundTrip.antt =====
-- Provider specs: what is printed is parsed.
use mathlib.Core.List.{map}
use argocd_cluster_registrar.Common.{
  ℕ, ◌≡◌, append-nil, refl, sym, ap, ◌∙◌, Bool, true, false, List, [], ◌∷◌, ◌++◌, Bytes, codes,
  ◌==◌, nonempty, contains_byte, split, trim_space, keep, All, All-append, Printable, is_printable,
  trim_space-Printable, arith, if◌then◌else◌,
}
use argocd_cluster_registrar.Common.Result.{ok}
use argocd_cluster_registrar.Provider.{Provider, shape, split_keys, parse_parts, parse_provider}

-- The keys with commas between them.
abbrev pub print_keys : List Bytes → Bytes
print_keys [] = []
print_keys (k ∷ []) = k
print_keys (k ∷ l ∷ ks) = k ++ b',' ∷ print_keys (l ∷ ks)

-- The last fields.
abbrev pub print_end : List Bytes → Bool → Bytes
print_end ks exec = print_keys ks ++ (if exec then codes "=exec" else [])

-- The spec of a provider: name=pattern=key[,key...][=exec]
abbrev pub print_provider : Provider → Bytes
print_provider p =
    p.name ++ (b'=' ∷ (p.secret_name_pattern ++ (b'=' ∷ print_end p.secret_keys p.allow_exec)))

-- A field of a spec: printable, without the separator of the fields.
pub record IsField (s : Bytes) : Type 0 where
  pub printable : Printable s
  pub unseparated : contains_byte s b'=' ≡ false

-- A key is not empty either, and has no comma.
pub record IsKey (k : Bytes) : Type 0 where
  pub field : IsField k
  pub full : nonempty k ≡ true
  pub single : contains_byte k b',' ≡ false

-- What a spec can say.
pub record IsPrintable (p : Provider) : Type 0 where
  pub name : IsField p.name
  pub pattern : IsField p.secret_name_pattern
  pub keys : All IsKey p.secret_keys
  pub untyped : p.secret_type ≡ []

split-whole : (s : Bytes) (sep : ℕ) → contains_byte s sep ≡ false → split s sep ≡ s ∷ []
unfolding split contains_byte
split-whole [] sep h = refl
split-whole (c ∷ s) sep h = ground (arith, split-whole s sep, h)

split-first :
    (s rest : Bytes) (sep : ℕ)
    → contains_byte s sep ≡ false
    → split (s ++ sep ∷ rest) sep ≡ s ∷ split rest sep
unfolding split contains_byte
split-first [] rest sep h = ground arith
split-first (c ∷ s) rest sep h = ground (arith, split-first s rest sep, h)

contains_byte-append :
    (s t : Bytes) (b : ℕ)
    → contains_byte s b ≡ false
    → contains_byte t b ≡ false
    → contains_byte (s ++ t) b ≡ false
unfolding contains_byte
contains_byte-append [] t b h k = k
contains_byte-append (c ∷ s) t b h k = ground (arith, contains_byte-append s t b, h, k)

-- The separated list of keys has no '=' and is printable.
print_keys-IsField : (ks : List Bytes) → All IsKey ks → IsField (print_keys ks)
unfolding contains_byte
print_keys-IsField [] h = record { printable = tt; unseparated = refl }
print_keys-IsField (k ∷ []) (h, hs) = h.field
print_keys-IsField (k ∷ l ∷ ks) (h, hs) =
    let rest = print_keys-IsField (l ∷ ks) hs in
    record {
      printable =
          All-append (λ c. is_printable c ≡ true) k (b',' ∷ print_keys (l ∷ ks)) h.field.printable
            (refl, rest.printable);
      unseparated =
          contains_byte-append k (b',' ∷ print_keys (l ∷ ks)) b'=' h.field.unseparated
            (ground (arith, rest.unseparated));
    }

kept :
    (k : Bytes) (parts : List Bytes)
    → IsKey k
    → keep nonempty (map trim_space (k ∷ parts)) ≡ k ∷ keep nonempty (map trim_space parts)
unfolding keep map
kept k parts h = rw (trim_space-Printable k h.field.printable) (rw h.full refl)

split_keys-print_keys : (ks : List Bytes) → All IsKey ks → split_keys (print_keys ks) ≡ ks
unfolding split_keys split keep nonempty map trim_space
split_keys-print_keys [] h = refl
split_keys-print_keys (k ∷ []) (h, hs) =
    ap (λ parts. keep nonempty (map trim_space parts)) (split-whole k b',' h.single) ∙ kept k [] h
split_keys-print_keys (k ∷ l ∷ ks) (h, hs) =
    ap (λ parts. keep nonempty (map trim_space parts))
      (split-first k (print_keys (l ∷ ks)) b',' h.single)
    ∙ kept k (split (print_keys (l ∷ ks)) b',') h
    ∙ ap (λ rest. k ∷ rest) (split_keys-print_keys (l ∷ ks) hs)

-- The fields of a printed spec.
abbrev tail_fields : Bytes → Bool → List Bytes
tail_fields keys true = keys ∷ codes "exec" ∷ []
tail_fields keys false = keys ∷ []

split-tail :
    (keys : Bytes) (exec : Bool)
    → contains_byte keys b'=' ≡ false
    → split (keys ++ (if exec then codes "=exec" else [])) b'=' ≡ tail_fields keys exec
unfolding split
split-tail keys true h = split-first keys (codes "exec") b'=' h
split-tail keys false h = ap (λ s. split s b'=') (append-nil keys) ∙ split-whole keys b'=' h

split-print_provider :
    (p : Provider)
    → IsPrintable p
    → split (print_provider p) b'='
      ≡ p.name ∷ p.secret_name_pattern ∷ tail_fields (print_keys p.secret_keys) p.allow_exec
split-print_provider p h =
    split-first p.name (p.secret_name_pattern ++ (b'=' ∷ print_end p.secret_keys p.allow_exec)) b'='
      h.name.unseparated
    ∙ ap (λ rest. p.name ∷ rest)
        (split-first p.secret_name_pattern (print_end p.secret_keys p.allow_exec) b'='
            h.pattern.unseparated
          ∙ ap (λ rest. p.secret_name_pattern ∷ rest)
              (split-tail (print_keys p.secret_keys) p.allow_exec
                (print_keys-IsField p.secret_keys h.keys).unseparated))

print_provider-Printable : (p : Provider) → IsPrintable p → Printable (print_provider p)
print_provider-Printable p h =
    let P = λ (c : ℕ). is_printable c ≡ true in
    All-append P p.name
      (b'=' ∷ (p.secret_name_pattern ++ (b'=' ∷ print_end p.secret_keys p.allow_exec)))
      h.name.printable
      (
        refl,
        All-append P p.secret_name_pattern (b'=' ∷ print_end p.secret_keys p.allow_exec)
            h.pattern.printable
            (
              refl,
              All-append P (print_keys p.secret_keys) (if p.allow_exec then codes "=exec" else [])
                  (print_keys-IsField p.secret_keys h.keys).printable (of_tail p.allow_exec),
            ),
      )
  where
    of_tail : (exec : Bool) → Printable (if exec then codes "=exec" else [])
    of_tail true = (refl, (refl, (refl, (refl, (refl, tt)))))
    of_tail false = tt

parse_parts-fields :
    (name pattern keys : Bytes) (ks : List Bytes) (exec : Bool)
    → trim_space name ≡ name
    → trim_space pattern ≡ pattern
    → split_keys keys ≡ ks
    → parse_parts (name ∷ pattern ∷ tail_fields keys exec) ≡ ok (shape name pattern ks exec)
unfolding parse_parts trim_space ◌==◌
parse_parts-fields name pattern keys ks true n q k = rw n (rw q (rw k refl))
parse_parts-fields name pattern keys ks false n q k = rw n (rw q (rw k refl))

-- Printed specs do not look like a preset.
nonempty-print_provider : (name rest : Bytes) → nonempty (name ++ (b'=' ∷ rest)) ≡ true
unfolding nonempty
nonempty-print_provider [] rest = refl
nonempty-print_provider (c ∷ name) rest = refl

contains_byte-print_provider :
    (name rest : Bytes) → contains_byte (name ++ (b'=' ∷ rest)) b'=' ≡ true
unfolding contains_byte
contains_byte-print_provider [] rest = refl
contains_byte-print_provider (c ∷ name) rest =
    ground (arith, contains_byte-print_provider name rest)

-- The printed spec of a provider without a Secret type, whose name, pattern and keys are
-- printable ASCII without an equals sign, and whose keys are not empty and have no comma, parses
-- to that provider.
pub parse_provider-print_provider :
    (p : Provider) → IsPrintable p → parse_provider (print_provider p) ≡ ok p
unfolding parse_provider shape
parse_provider-print_provider p h =
    rw (trim_space-Printable (print_provider p) (print_provider-Printable p h)) (
      rw (nonempty-print_provider p.name _) (
        rw (contains_byte-print_provider p.name _) (
          ap parse_parts (split-print_provider p h)
          ∙ parse_parts-fields p.name p.secret_name_pattern (print_keys p.secret_keys) p.secret_keys
              p.allow_exec (trim_space-Printable p.name h.name.printable)
              (trim_space-Printable p.secret_name_pattern h.pattern.printable)
              (split_keys-print_keys p.secret_keys h.keys)
          ∙ ap (λ type. ok (record p { secret_type = type })) (sym h.untyped))))
