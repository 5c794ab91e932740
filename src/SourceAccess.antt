-- ===== src/SourceAccess.antt =====
-- app/policies/source_access.py: the fail-closed access policy for registered sources.
pub mod Confinement
pub mod Reading
use brunova_knowledge_gatewa.Prelude.{
  ℕ, String, ◌==◌, Bool, true, false, not, ◌&&◌, ◌||◌, List, [], ◌∷◌, ◌++◌, Option, none, some, any,
  all, keep, elem, if◌then◌else◌,
}
use brunova_knowledge_gatewa.Prelude.Text.{matches, is_id_char, is_empty}
use brunova_knowledge_gatewa.Errors.{
  Result, ok, err, adapter, value_error, require, ◌>>=◌, ◌>>◌, source_policy_unconfigured,
  source_not_allowed, source_not_readable, source_capability_denied, resource_not_in_source,
}
use brunova_knowledge_gatewa.Registry.{
  SourceDefinition, SourceRegistry, SourceContext, SourceType, LocationType, knowledge_source,
  archive_destination, validation_source, shared_drive, folder, get, same_source, is_active,
  classify,
}

pub record AllowedSource : Type 0 where
  pub definition : SourceDefinition
  pub context : SourceContext

pub record AllowedSources : Type 0 where
  pub shared_drives : List AllowedSource
  pub folders : List AllowedSource

pub record SourceAccessPolicy : Type 0 where
  pub registry : SourceRegistry
  pub blocked : List String

-- adapters/google_workspace/models.py; the policy reads the id, the ancestors and the drive
pub record WorkspaceResource : Type 0 where
  pub id : String
  pub name : String
  pub mime_type : String
  pub modified_time : String
  pub drive_id : Option String
  pub ancestor_ids : List String
  pub parent_ids : List String

-- SOURCE_ID_PATTERN.fullmatch
unfoldable pub is_source_id : String → Bool
unfolding matches
is_source_id = matches is_id_char 10 200

-- `__init__` with `_validate_configured_ids`
unfoldable pub create : SourceRegistry → List String → Result SourceAccessPolicy
unfolding is_source_id
create registry blocked =
    if any (λ value. not (is_source_id value)) blocked
    then err value_error
    else ok (record { registry = registry; blocked = blocked })

abbrev pub is_knowledge : SourceType → Bool
is_knowledge knowledge_source = true
is_knowledge _ = false

-- source_type in {KNOWLEDGE_SOURCE, VALIDATION_SOURCE}
abbrev pub is_readable_type : SourceType → Bool
is_readable_type archive_destination = false
is_readable_type _ = true

abbrev pub is_shared_drive : LocationType → Bool
is_shared_drive shared_drive = true
is_shared_drive folder = false

-- the test of the loop in `allowed_sources`
unfoldable pub is_allowed : SourceAccessPolicy → SourceDefinition → Bool
is_allowed policy source =
    is_active source.status
    && is_knowledge source.source_type
    && source.capabilities.read
    && not (elem source.location_id policy.blocked)

-- the loop of `allowed_sources`
unfoldable pub collect_allowed :
    SourceAccessPolicy → List SourceDefinition → Result (List AllowedSource)
unfolding is_allowed classify
collect_allowed policy [] = ok []
collect_allowed policy (source ∷ sources) =
    let rest = collect_allowed policy sources in
    if is_allowed policy source
    then (do
      context ← classify source
      allowed ← rest
      ok (record { definition = source; context = context } ∷ allowed))
    else rest

abbrev partition_allowed : List AllowedSource → Result AllowedSources
partition_allowed [] = err (adapter source_policy_unconfigured 503)
partition_allowed (first ∷ rest) = ok (record {
  shared_drives = keep (λ s. is_shared_drive s.definition.location_type) (first ∷ rest);
  folders = keep (λ s. not (is_shared_drive s.definition.location_type)) (first ∷ rest);
})

unfoldable pub allowed_sources : SourceAccessPolicy → Result AllowedSources
unfolding collect_allowed
allowed_sources policy = do
  allowed ← collect_allowed policy policy.registry.sources
  partition_allowed allowed

-- `authorize_source`, once the registry has been asked for the source's id
unfoldable pub authorize_registered :
    SourceAccessPolicy → SourceDefinition → Bool → Option SourceDefinition → Result AllowedSource
unfolding classify
authorize_registered policy source require_read none = err (adapter source_not_allowed 403)
authorize_registered policy source require_read (some registered) = do
  require (same_source registered source && not (elem source.location_id policy.blocked))
      source_not_allowed 403
  require (not require_read || is_readable_type source.source_type) source_not_readable 403
  require (not require_read || source.capabilities.read) source_capability_denied 403
  context ← classify source
  ok (record { definition = source; context = context })

unfoldable pub authorize_source :
    SourceAccessPolicy → SourceDefinition → Bool → Result AllowedSource
unfolding authorize_registered get
authorize_source policy source require_read =
    authorize_registered policy source require_read (get policy.registry source.id)

-- `if resource.drive_id: resource_locations.add(resource.drive_id)`
abbrev pub drive_location : Option String → List String
drive_location none = []
drive_location (some drive_id) = if is_empty drive_id then [] else drive_id ∷ []

-- the set `resource_locations`
unfoldable pub resource_locations : WorkspaceResource → List String
resource_locations resource =
    resource.id ∷ resource.ancestor_ids ++ drive_location resource.drive_id

-- resource_locations & self._blocked
unfoldable pub is_blocked : SourceAccessPolicy → List String → Bool
is_blocked policy locations = any (λ location. elem location policy.blocked) locations

-- the loop of `authorize`
unfoldable pub authorize_first : List String → List SourceDefinition → Result SourceContext
unfolding classify
authorize_first locations [] = err (adapter source_not_allowed 403)
authorize_first locations (source ∷ sources) =
    let rest = authorize_first locations sources in
    if is_readable_type source.source_type && elem source.location_id locations
    then classify source
    else rest

unfoldable pub authorize : SourceAccessPolicy → WorkspaceResource → Result SourceContext
unfolding authorize_first
authorize policy resource = do
  require (not (is_blocked policy (resource_locations resource))) source_not_allowed 403
  authorize_first (resource_locations resource) policy.registry.sources

unfoldable pub authorize_resource_for_source :
    SourceAccessPolicy → WorkspaceResource → AllowedSource → Result SourceContext
authorize_resource_for_source policy resource source = do
  require (not (is_blocked policy (resource_locations resource))) source_not_allowed 403
  require (elem source.definition.location_id (resource_locations resource)) resource_not_in_source
      403
  ok source.context

unfoldable pub is_blocked_id : SourceAccessPolicy → String → Bool
is_blocked_id policy resource_id = elem resource_id policy.blocked
