-- ===== src/Principals.antt =====
-- app/auth/principals.py and app/auth/gateway_auth.py: principals, bearer-token resolution and
-- scoped authorization. A `datetime` is the number of its instant, in microseconds; the hash
-- `hashlib.sha256(...).hexdigest()` and `str.casefold` are parameters. Reading the environment and
-- the JSON document is I/O and left out, and so is the unused `metadata`.
pub mod Resolving
pub mod Scopes
use brunova_knowledge_gatewa.Prelude.{
  ℕ, String, ◌≡◌, ◌==◌, Bool, true, false, not, ◌&&◌, ◌||◌, List, [], ◌∷◌, map, Option, none, some,
  leb, elem, length, dedupe, eqb, if◌then◌else◌,
}
use brunova_knowledge_gatewa.Prelude.Text.{every, is_empty, partition}
use brunova_knowledge_gatewa.Errors.{
  Result, ok, err, value_error, type_error, require, ◌>>=◌, ◌>>◌, provider_denied,
  capability_denied, source_denied, source_capability_denied,
}
use brunova_knowledge_gatewa.Registry.{SourceDefinition, SourceCapabilities, is_unique}

pub record ProviderScope : Type 0 where
  pub workspace : Bool
  pub hubspot : Bool
  pub n8n : Bool
  pub openwa : Bool

pub record CapabilityScope : Type 0 where
  pub read : Bool
  pub create : Bool
  pub update : Bool
  pub move : Bool
  pub delete : Bool
  pub share : Bool
  pub convert : Bool

-- the attribute names that the callers pass to `getattr`
pub data Provider : Type 0 where
  workspace hubspot n8n openwa : Provider

pub data Capability : Type 0 where
  read create update move delete share convert : Capability

pub data PrincipalType : Type 0 where
  management developer signal_worker : PrincipalType

pub data PrincipalStatus : Type 0 where
  active revoked : PrincipalStatus

pub data SignalWorkerOperation : Type 0 where
  list get claim release complete dismiss : SignalWorkerOperation

-- frozensets are lists: the code only asks for membership
pub record DeveloperPrincipalRecord : Type 0 where
  pub id : String
  pub status : PrincipalStatus
  pub token_sha256 : String
  pub providers : ProviderScope
  pub sources : List String
  pub capabilities : CapabilityScope
  pub expires_at : Option ℕ

pub record SignalWorkerPrincipalRecord : Type 0 where
  pub id : String
  pub status : PrincipalStatus
  pub token_sha256 : String
  pub signal_types : List String
  pub operations : List SignalWorkerOperation
  pub expires_at : Option ℕ

pub data PrincipalRecord : Type 0 where
  developer_record : DeveloperPrincipalRecord → PrincipalRecord
  worker_record : SignalWorkerPrincipalRecord → PrincipalRecord

-- the attributes that both kinds of record have
abbrev pub record_id : PrincipalRecord → String
record_id (developer_record r) = r.id
record_id (worker_record r) = r.id

abbrev pub record_hash : PrincipalRecord → String
record_hash (developer_record r) = r.token_sha256
record_hash (worker_record r) = r.token_sha256

abbrev pub record_status : PrincipalRecord → PrincipalStatus
record_status (developer_record r) = r.status
record_status (worker_record r) = r.status

abbrev pub record_expires_at : PrincipalRecord → Option ℕ
record_expires_at (developer_record r) = r.expires_at
record_expires_at (worker_record r) = r.expires_at

-- PrincipalRegistryDocument.principals_must_be_unique
unfoldable pub principals_must_be_unique : List PrincipalRecord → Result (List PrincipalRecord)
unfolding is_unique
principals_must_be_unique value =
    if not (is_unique (map record_id value))
    then err value_error
    else if not (is_unique (map record_hash value))
    then err value_error
    else ok value

pub record Principal : Type 0 where
  pub id : String
  pub type : PrincipalType
  pub status : PrincipalStatus
  pub providers : ProviderScope
  pub sources : Option (List String)
  pub capabilities : CapabilityScope
  pub signal_types : List String
  pub signal_operations : List SignalWorkerOperation
  pub expires_at : Option ℕ

abbrev pub no_providers : ProviderScope
no_providers = record { workspace = false; hubspot = false; n8n = false; openwa = false }

abbrev pub no_capabilities : CapabilityScope
no_capabilities = record {
  read = false;
  create = false;
  update = false;
  move = false;
  delete = false;
  share = false;
  convert = false;
}

-- Principal.management
abbrev pub management_principal : Principal
management_principal = record {
  id = "management";
  type = management;
  status = active;
  providers = record { workspace = true; hubspot = true; n8n = true; openwa = true };
  sources = none;
  capabilities = record {
    read = true;
    create = true;
    update = true;
    move = true;
    delete = true;
    share = true;
    convert = true;
  };
  signal_types = [];
  signal_operations = [];
  expires_at = none;
}

-- Principal.from_record
unfoldable pub from_record : PrincipalRecord → Principal
from_record (worker_record r) = record {
  id = r.id;
  type = signal_worker;
  status = r.status;
  providers = no_providers;
  sources = some [];
  capabilities = no_capabilities;
  signal_types = r.signal_types;
  signal_operations = r.operations;
  expires_at = r.expires_at;
}
from_record (developer_record r) = record {
  id = r.id;
  type = developer;
  status = r.status;
  providers = r.providers;
  sources = some r.sources;
  capabilities = r.capabilities;
  signal_types = [];
  signal_operations = [];
  expires_at = r.expires_at;
}

unfoldable pub allows_provider : Principal → Provider → Bool
allows_provider p workspace = p.providers.workspace
allows_provider p hubspot = p.providers.hubspot
allows_provider p n8n = p.providers.n8n
allows_provider p openwa = p.providers.openwa

unfoldable pub allows_capability : Principal → Capability → Bool
allows_capability p read = p.capabilities.read
allows_capability p create = p.capabilities.create
allows_capability p update = p.capabilities.update
allows_capability p move = p.capabilities.move
allows_capability p delete = p.capabilities.delete
allows_capability p share = p.capabilities.share
allows_capability p convert = p.capabilities.convert

unfoldable pub allows_source : Principal → String → Bool
allows_source p source_id = elim p.sources [ none ↦ true | some ids ↦ elem source_id ids ]

-- getattr(source.capabilities, capability)
unfoldable pub source_allows : SourceCapabilities → Capability → Bool
source_allows c read = c.read
source_allows c create = c.create
source_allows c update = c.update
source_allows c move = c.move
source_allows c delete = c.delete
source_allows c share = c.share
source_allows c convert = c.convert

unfoldable pub authorize_provider : Principal → Provider → Result (Unit {0})
unfolding allows_provider
authorize_provider principal provider =
    require (allows_provider principal provider) provider_denied 403

-- the checks of `authorize_workspace_operation` that look at the source, if one is given
unfoldable pub authorize_source_scope :
    Principal → Capability → Option SourceDefinition → Result (Unit {0})
unfolding allows_source source_allows
authorize_source_scope principal capability none = ok tt
authorize_source_scope principal capability (some source) = do
  require (allows_source principal source.id) source_denied 403
  require (source_allows source.capabilities capability) source_capability_denied 403

unfoldable pub authorize_workspace_operation :
    Principal → Capability → Option SourceDefinition → Result (Unit {0})
unfolding authorize_provider allows_capability authorize_source_scope
authorize_workspace_operation principal capability source = do
  authorize_provider principal workspace
  require (allows_capability principal capability) capability_denied 403
  authorize_source_scope principal capability source

-- The second component of `resolve`'s result.
pub data AuthError : Type 0 where
  missing_authentication invalid_authentication principal_revoked principal_expired : AuthError

-- s.isascii()
unfoldable pub is_ascii : String → Bool
unfolding every
is_ascii = every (λ c. leb c 127)

-- hmac.compare_digest on two `str`: `TypeError` unless both are ASCII.
unfoldable pub compare_digest : String → String → Result Bool
unfolding is_ascii
compare_digest a b = if is_ascii a && is_ascii b then ok (a == b) else err type_error

unfoldable pub is_expired_at : Option ℕ → ℕ → Bool
is_expired_at none now = false
is_expired_at (some expires) now = leb expires now

abbrev pub is_active : PrincipalStatus → Bool
is_active active = true
is_active revoked = false

-- next((item for item in records if compare_digest(fingerprint, item.token_sha256)), None)
unfoldable pub find_record : String → List PrincipalRecord → Result (Option PrincipalRecord)
unfolding compare_digest
find_record fingerprint [] = ok none
find_record fingerprint (item ∷ records) =
    let rest = find_record fingerprint records in
    do
      matched ← compare_digest fingerprint (record_hash item)
      if matched then ok (some item) else rest

abbrev pub Resolution : Type 0
Resolution = Option Principal × Option AuthError

-- the end of `resolve`, for the record that the fingerprint selects
unfoldable pub resolve_record : ℕ → Option PrincipalRecord → Resolution
unfolding from_record is_expired_at
resolve_record now none = (none, some invalid_authentication)
resolve_record now (some item) =
    if not (is_active (record_status item))
    then (some (from_record item), some principal_revoked)
    else if is_expired_at (record_expires_at item) now
    then (some (from_record item), some principal_expired)
    else (some (from_record item), none)

pub record PrincipalResolver : Type 0 where
  pub management_token : String
  pub records : List PrincipalRecord

-- the token of a header `Bearer <token>`
unfoldable pub bearer_token : (String → String) → String → Option String
unfolding partition
bearer_token casefold authorization = elim (partition 32 authorization) [
  | none ↦ none
  | some (scheme, token) ↦
      if not (casefold scheme == "bearer") || is_empty token then none else some token
]

unfoldable pub resolve_token :
    (String → String) → PrincipalResolver → ℕ → String → Result Resolution
unfolding find_record resolve_record compare_digest
resolve_token sha256_hex resolver now token = do
  is_management ← compare_digest token resolver.management_token
  if is_management
      then ok (some management_principal, none)
      else do found ← find_record (sha256_hex token) resolver.records; ok (resolve_record now found)

module _ (sha256_hex casefold : String → String) where
  -- PrincipalResolver.resolve, at the time `now`
  unfoldable pub resolve : PrincipalResolver → ℕ → Option String → Result Resolution
  unfolding bearer_token resolve_token
  resolve resolver now none = ok (none, some missing_authentication)
  resolve resolver now (some authorization) = elim (bearer_token casefold authorization) [
    | none ↦ ok (none, some invalid_authentication)
    | some token ↦ resolve_token sha256_hex resolver now token
  ]

-- GatewayTokenAuthenticator.authenticate
unfoldable pub authenticate_token :
    (String → String) → String → Option String → Result (Option AuthError)
unfolding bearer_token compare_digest
authenticate_token casefold expected none = ok (some missing_authentication)
authenticate_token casefold expected (some authorization) =
    elim (bearer_token casefold authorization) [
      | none ↦ ok (some invalid_authentication)
      | some token ↦ do
        same ← compare_digest token expected
        ok (if same then none else some invalid_authentication)
    ]
