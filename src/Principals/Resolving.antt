-- ===== src/Principals/Resolving.antt =====
-- `PrincipalResolver.resolve` of app/auth/principals.py: who is let in, and who is not.
use mathlib.Core.List.{Memᴰ}
use brunova_knowledge_gatewa.Prelude.{
  ℕ, String, ◌≡◌, refl, ◌≢◌, ◌⊎◌, inl, inr, true, false, List, [], ◌∷◌, Option, none, some, arith,
  eq_iff, Bool-cases, Option-cases, map, Distinct, Distinct-dedupe, ap, All, elem-map_of_listed,
}
use brunova_knowledge_gatewa.Errors.{ok, err, type_error, >>=-eq-ok}
use brunova_knowledge_gatewa.Principals.{
  Principal, PrincipalRecord, PrincipalResolver, PrincipalStatus, record_hash, record_status,
  record_expires_at, management_principal, from_record, is_ascii, compare_digest, is_expired_at,
  find_record, resolve_record, bearer_token, principals_must_be_unique, resolve_token, resolve,
  Resolution,
}

compare_digest-true : (a b : String) → compare_digest a b ≡ ok true → a ≡ b
unfolding compare_digest
compare_digest-true a b h = ground (arith, eq_iff a b)

find_record_sound :
    (f : String) (records : List PrincipalRecord) (item : PrincipalRecord)
    → find_record f records ≡ ok (some item)
    → Memᴰ item records × (f ≡ record_hash item)
unfolding find_record
find_record_sound f [] item h = cc
find_record_sound f (x ∷ xs) item h =
    let (b, compared, chosen) = >>=-eq-ok (compare_digest f (record_hash x)) _ h in
    elim (Bool-cases b) [
      | inl same ↦ (Memᴰ.head (ground arith), ground (arith, compare_digest-true f (record_hash x)))
      | inr other ↦ let (m, s) = find_record_sound f xs item (ground arith) in (Memᴰ.tail m, s)
    ]

-- What a caller that `resolve` lets in has shown.
pub record IsRegistered (sha256_hex : String → String) (resolver : PrincipalResolver) (now : ℕ)
    (token : String) (p : Principal) : Type 0 where
  pub item : PrincipalRecord
  pub listed : Memᴰ item resolver.records
  pub hashed : sha256_hex token ≡ record_hash item
  pub live : record_status item ≡ PrincipalStatus.active
  pub in_time : is_expired_at (record_expires_at item) now ≡ false
  pub granted : p ≡ from_record item

resolve_record_sound :
    (now : ℕ) (found : Option PrincipalRecord) (p : Principal)
    → resolve_record now found ≡ (some p, none)
    → (item : PrincipalRecord) × (found ≡ some item)
      × (record_status item ≡ PrincipalStatus.active)
      × (is_expired_at (record_expires_at item) now ≡ false)
      × (p ≡ from_record item)
unfolding resolve_record
resolve_record_sound now none p h = ground arith
resolve_record_sound now (some item) p h = (item, refl, ground arith, ground arith, ground arith)

resolve_record_some :
    (now : ℕ) (found : Option PrincipalRecord) (r : Resolution)
    → resolve_record now found ≡ r
    → r ≢ (none, none)
unfolding resolve_record
resolve_record_some now none r h = ground arith
resolve_record_some now (some item) r h = ground arith

module _ (sha256_hex : String → String) (resolver : PrincipalResolver) (now : ℕ) where
  resolve_token_sound :
      (token : String) (p : Principal)
      → resolve_token sha256_hex resolver now token ≡ ok (some p, none)
      → ((p ≡ management_principal) × (token ≡ resolver.management_token))
        ⊎ IsRegistered sha256_hex resolver now token p
  unfolding resolve_token
  resolve_token_sound token p h =
      let (b, compared, rest) = >>=-eq-ok (compare_digest token resolver.management_token) _ h in
      elim (Bool-cases b) [
        | inl same ↦
            inl (ground arith, ground (arith, compare_digest-true token resolver.management_token))
        | inr other ↦
            let (found, searched, last) =
              >>=-eq-ok (find_record (sha256_hex token) resolver.records) _ (rw other at rest) in
            let (item, is_found, live, in_time, granted) =
              resolve_record_sound now found p (ground arith) in
            let (listed, hashed) =
              find_record_sound (sha256_hex token) resolver.records item
                (rw is_found at searched) in
            inr (record {
              item = item;
              listed = listed;
              hashed = hashed;
              live = live;
              in_time = in_time;
              granted = granted;
            })
      ]

  resolve_token_some :
      (token : String) → resolve_token sha256_hex resolver now token ≢ ok (none, none)
  unfolding resolve_token
  resolve_token_some token h =
      let (b, compared, rest) = >>=-eq-ok (compare_digest token resolver.management_token) _ h in
      elim (Bool-cases b) [
        | inl same ↦ ground arith
        | inr other ↦
            let (found, searched, last) =
              >>=-eq-ok (find_record (sha256_hex token) resolver.records) _ (rw other at rest) in
            resolve_record_some now found (none, none) (ground arith) refl
      ]

module _ (sha256_hex casefold : String → String) (resolver : PrincipalResolver) (now : ℕ) where
  -- Whoever is let in holds the management token, or the token of a listed record that is active
  -- and not expired, and gets exactly the principal of that record.
  pub resolve_sound :
      (header : String) (p : Principal)
      → resolve sha256_hex casefold resolver now (some header) ≡ ok (some p, none)
      → (token : String) × (bearer_token casefold header ≡ some token)
        × (((p ≡ management_principal) × (token ≡ resolver.management_token))
            ⊎ IsRegistered sha256_hex resolver now token p)
  unfolding resolve
  resolve_sound header p h = elim (Option-cases (bearer_token casefold header)) [
    | inl missing ↦ cc (rw (missing, resolve) at h)
    | inr (token, read) ↦
        (token, read, resolve_token_sound sha256_hex resolver now token p (rw (read, resolve) at h))
  ]

  -- `resolve` never returns a pair of two `None`: without an error there is a principal.
  pub resolve_some :
      (authorization : Option String)
      → resolve sha256_hex casefold resolver now authorization ≢ ok (none, none)
  unfolding resolve
  resolve_some none h = cc
  resolve_some (some header) h = elim (Option-cases (bearer_token casefold header)) [
    | inl missing ↦ cc (rw (missing, resolve) at h)
    | inr (token, read) ↦ resolve_token_some sha256_hex resolver now token (rw (read, resolve) at h)
  ]

  -- A bearer token with a character beyond ASCII is not answered by an error code: the comparison
  -- of the management token raises `TypeError`.
  pub resolve_not_ascii :
      (header token : String)
      → bearer_token casefold header ≡ some token
      → is_ascii token ≡ false
      → resolve sha256_hex casefold resolver now (some header) ≡ err type_error
  unfolding resolve resolve_token compare_digest
  resolve_not_ascii header token read other = rw (read, resolve) (ground arith)

find_record_listed :
    (f : String) (records : List PrincipalRecord) (item : PrincipalRecord)
    → is_ascii f ≡ true
    → All (λ r. is_ascii (record_hash r) ≡ true) records
    → Distinct (map record_hash records)
    → Memᴰ item records
    → f ≡ record_hash item
    → find_record f records ≡ ok (some item)
unfolding find_record compare_digest
find_record_listed f [] item plain ascii distinct m same = elim m [ ]
find_record_listed f (x ∷ xs) item plain ascii distinct (Memᴰ.head e) same =
    ground (arith, eq_iff f (record_hash x), ap record_hash e)
find_record_listed f (x ∷ xs) item plain ascii distinct (Memᴰ.tail m) same = ground (
  arith,
  find_record_listed f xs item plain ascii.1 distinct.1 m same,
  eq_iff f (record_hash x),
  elem-map_of_listed record_hash item xs m,
)

Distinct-of_unique :
    (records : List PrincipalRecord)
    → principals_must_be_unique records ≡ ok records
    → Distinct (map record_hash records)
unfolding principals_must_be_unique
Distinct-of_unique records h = (Distinct-dedupe (map record_hash records)).0 (ground arith)

-- In a document that passed `principals_must_be_unique`, the token of an active record that has
-- not expired is resolved to that record's principal, whatever the other records are. The digest
-- of the token and the hashes are ASCII, as hexadecimal texts are.
pub resolve_registered :
    (sha256_hex casefold : String → String) (resolver : PrincipalResolver) (now : ℕ)
    (header token : String) (item : PrincipalRecord)
    → principals_must_be_unique resolver.records ≡ ok resolver.records
    → bearer_token casefold header ≡ some token
    → is_ascii token ≡ true
    → is_ascii resolver.management_token ≡ true
    → is_ascii (sha256_hex token) ≡ true
    → All (λ r. is_ascii (record_hash r) ≡ true) resolver.records
    → token ≢ resolver.management_token
    → Memᴰ item resolver.records
    → sha256_hex token ≡ record_hash item
    → record_status item ≡ PrincipalStatus.active
    → is_expired_at (record_expires_at item) now ≡ false
    → resolve sha256_hex casefold resolver now (some header) ≡ ok (some (from_record item), none)
unfolding resolve resolve_token compare_digest resolve_record
resolve_registered sha256_hex casefold resolver now header token item unique read plain plain_m
      plain_f ascii other listed hashed live in_time =
    rw (read, resolve)
      (ground (
        arith,
        eq_iff token resolver.management_token,
        find_record_listed (sha256_hex token) resolver.records item plain_f ascii
            (Distinct-of_unique resolver.records unique) listed hashed,
      ))
