-- ===== src/Tests/Access.antt =====
-- A registry of two sources, a developer and a signal worker, and requests of theirs.
use brunova_knowledge_gatewa.Prelude.{
  String, ◌≡◌, refl, ◌⊎◌, Bool, true, false, dedupe, List, [], ◌∷◌, none, some,
}
use brunova_knowledge_gatewa.Prelude.Text.{partition, every}
use brunova_knowledge_gatewa.Errors.{ok, err, type_error}
use brunova_knowledge_gatewa.Registry.{
  is_unique, is_valid_definition, SourceDefinition, SourceRegistry, SourceCapabilities,
  Classification, SourceStatus, SourceType, LocationType, from_document,
}
use brunova_knowledge_gatewa.Principals.{
  authorize_provider, allows_provider, allows_capability, authorize_source_scope, allows_source,
  source_allows, find_record, resolve_record, is_expired_at, resolve_token, compare_digest,
  Principal, PrincipalResolver, PrincipalStatus, DeveloperPrincipalRecord,
  SignalWorkerPrincipalRecord, SignalWorkerOperation, developer_record, worker_record, from_record,
  management_principal, resolve, bearer_token, authorize_workspace_operation, Capability,
  principals_must_be_unique, is_ascii,
}
use brunova_knowledge_gatewa.Principals.Resolving.{resolve_sound, resolve_not_ascii, IsRegistered}

abbrev capabilities : Bool → SourceCapabilities
capabilities b = record {
  read = true;
  create = b;
  update = b;
  move = b;
  delete = false;
  share = false;
  convert = false;
}

abbrev pub playbooks : SourceDefinition
playbooks = record {
  id = "playbooks";
  name = "Playbooks";
  location_type = LocationType.shared_drive;
  location_id = "drive00001";
  classification = Classification.internal_delivery;
  owners = "ops" ∷ [];
  status = SourceStatus.active;
  source_type = SourceType.knowledge_source;
  capabilities = capabilities true;
}

abbrev pub contracts : SourceDefinition
contracts = record {
  id = "contracts";
  name = "Contracts";
  location_type = LocationType.folder;
  location_id = "folder0002";
  classification = Classification.management_only;
  owners = "legal" ∷ [];
  status = SourceStatus.active;
  source_type = SourceType.knowledge_source;
  capabilities = capabilities false;
}

abbrev pub sources : List SourceDefinition
sources = playbooks ∷ contracts ∷ []

abbrev pub registry : SourceRegistry
registry = record { sources = sources }

pub loaded : from_document sources ≡ ok registry
unfolding from_document is_unique is_valid_definition dedupe
loaded = refl

-- a digest for the tests: the hash of a token is the token
abbrev pub digest : String → String
digest s = s

abbrev pub casefold : String → String
casefold s = s

abbrev ana_record : DeveloperPrincipalRecord
ana_record = record {
  id = "ana";
  status = PrincipalStatus.active;
  token_sha256 = "token-of-ana";
  providers = record { workspace = true; hubspot = false; n8n = false; openwa = false };
  sources = "playbooks" ∷ [];
  capabilities = record {
    read = true;
    create = true;
    update = false;
    move = false;
    delete = false;
    share = false;
    convert = false;
  };
  expires_at = some 100;
}

abbrev pub worker : String → SignalWorkerPrincipalRecord
worker id = record {
  id = id;
  status = PrincipalStatus.active;
  token_sha256 = "token-of-worker";
  signal_types = "attention" ∷ [];
  operations = SignalWorkerOperation.claim ∷ [];
  expires_at = none;
}

abbrev pub ana : Principal
ana = from_record (developer_record ana_record)

abbrev pub resolver : PrincipalResolver
resolver = record {
  management_token = "root-token";
  records = worker_record (worker "w1") ∷ developer_record ana_record ∷ [];
}

header_read : bearer_token casefold "bearer token-of-ana" ≡ some "token-of-ana"
unfolding bearer_token partition
header_read = refl

pub ana_resolved :
    resolve digest casefold resolver 7 (some "bearer token-of-ana") ≡ ok (some ana, none)
unfolding resolve bearer_token partition resolve_token compare_digest is_ascii every find_record
    resolve_record is_expired_at
ana_resolved = refl

resolve_sound_example :
    (token : String) × (bearer_token casefold "bearer token-of-ana" ≡ some token)
    × (((ana ≡ management_principal) × (token ≡ resolver.management_token))
        ⊎ IsRegistered digest resolver 7 token ana)
resolve_sound_example =
    resolve_sound digest casefold resolver 7 "bearer token-of-ana" ana ana_resolved

foreign_read : bearer_token casefold "bearer señal" ≡ some "señal"
unfolding bearer_token partition
foreign_read = refl

foreign_not_ascii : is_ascii "señal" ≡ false
unfolding is_ascii every
foreign_not_ascii = refl

resolve_not_ascii_example :
    resolve digest casefold resolver 7 (some "bearer señal") ≡ err type_error
resolve_not_ascii_example =
    resolve_not_ascii digest casefold resolver 7 "bearer señal" "señal" foreign_read
      foreign_not_ascii

unique : principals_must_be_unique resolver.records ≡ ok resolver.records
unfolding principals_must_be_unique is_unique dedupe
unique = refl

plain :
    (is_ascii "token-of-ana" ≡ true)
    × (is_ascii "token-of-worker" ≡ true)
    × (is_ascii "root-token" ≡ true)
unfolding is_ascii every
plain = (refl, refl, refl)

may_create : authorize_workspace_operation ana Capability.create (some playbooks) ≡ ok tt
unfolding authorize_workspace_operation authorize_provider allows_provider allows_capability
    authorize_source_scope allows_source source_allows from_record
may_create = refl
