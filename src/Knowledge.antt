-- ===== src/Knowledge.antt =====
-- Mutations of artifacts in app/knowledge.py: deleting, sharing, renaming and moving. The adapter of Google Drive,
-- the decoding of a reference and the active principal are parameters. A result keeps the
-- resource that the adapter returned, of which the code copies three fields.
pub mod Mutations
pub mod Confinement
use brunova_knowledge_gatewa.Prelude.{
  ℕ, String, ◌==◌, Bool, true, false, not, if◌then◌else◌, Option, none, some,
}
use brunova_knowledge_gatewa.Prelude.Text.{is_empty}
use brunova_knowledge_gatewa.Errors.{
  Error, Result, ok, err, adapter, require, ◌>>=◌, mutation_source_root_protected,
  mutation_destination_invalid,
}
use brunova_knowledge_gatewa.Exec.{Exec}
use brunova_knowledge_gatewa.Registry.{SourceContext}
use brunova_knowledge_gatewa.Principals.{Principal}
use brunova_knowledge_gatewa.SourceAccess.{
  SourceAccessPolicy, WorkspaceResource, AllowedSource, authorize_resource_for_source,
}
use brunova_knowledge_gatewa.Mutation
use brunova_knowledge_gatewa.Mutation.{
  MutationOperation, authorize_archive_destination, validate_name, validate_audience,
}

-- What the operations call of `GoogleWorkspaceAdapter`; `S` is the state of the provider.
pub record WorkspaceAdapter (S : Type 0) : Type 0 where
  pub get_resource : String → Exec S WorkspaceResource
  pub delete_resource : WorkspaceResource → Exec S WorkspaceResource
  pub share_resource : WorkspaceResource → String → Exec S WorkspaceResource
  pub rename_resource : WorkspaceResource → String → Exec S WorkspaceResource
  pub move_resource : WorkspaceResource → WorkspaceResource → Exec S WorkspaceResource

pub record MutationResult : Type 0 where
  pub artifact : WorkspaceResource
  pub source : SourceContext
  pub status : String

-- the arguments that a mutation has been checked with
pub record Target : Type 0 where
  pub allowed : AllowedSource
  pub artifact_id : String

unfoldable pub protect_source_root : String → AllowedSource → Result (Unit {0})
protect_source_root resource_id allowed =
    require (not (resource_id == allowed.definition.location_id)) mutation_source_root_protected 403

-- `value` after a check
abbrev pub after {ℓ} : {A : Type ℓ} → Result (Unit {0}) → A → Result A
after (err e) value = err e
after (ok u) value = ok value

-- `if text:` of an optional text
abbrev pub given : Option String → Option String
given none = none
given (some s) = if is_empty s then none else some s

abbrev pub as_unit : Result SourceContext → Result (Unit {0})
as_unit (ok context) = ok tt
as_unit (err e) = err e

module _ (policy : SourceAccessPolicy) (principal : Principal) where
  -- the checks of a deletion and a sharing before the artifact is fetched
  unfoldable pub checked_target : MutationOperation → String → String → String → Result Target
  unfolding protect_source_root
  checked_target operation source_id artifact_id approval_reference = do
    allowed ← Mutation.authorize policy principal source_id operation approval_reference
    safe ← Mutation.validate_resource_id artifact_id
    after (protect_source_root safe allowed) (record { allowed = allowed; artifact_id = safe })

  -- those of a move, which does not protect the source's root
  unfoldable pub movable_target : String → String → String → Result Target
  movable_target source_id artifact_id approval_reference = do
    allowed ←
        Mutation.authorize policy principal source_id MutationOperation.move approval_reference
    safe ← Mutation.validate_resource_id artifact_id
    ok (record { allowed = allowed; artifact_id = safe })

  -- those of a renaming, where `decode` is the codec's
  unfoldable pub referenced_target :
      (String → String → Result String) → String → String → String → Result Target
  referenced_target decode source_id artifact_ref approval_reference = do
    allowed ←
        Mutation.authorize policy principal source_id MutationOperation.update approval_reference
    artifact_id ← decode artifact_ref source_id
    ok (record { allowed = allowed; artifact_id = artifact_id })

  -- a resource that was fetched, if it lies in the source
  unfoldable pub confined : AllowedSource → WorkspaceResource → Result WorkspaceResource
  confined allowed resource =
      after (as_unit (authorize_resource_for_source policy resource allowed)) resource

  -- where a move goes: the id to fetch, and whether it must lie in the source
  unfoldable pub destination_of : Option String → Option String → Result (String × Bool)
  destination_of (some archive_id) (some folder) = err (adapter mutation_destination_invalid 422)
  destination_of (some archive_id) none = do
    archive ← authorize_archive_destination policy archive_id
    ok (archive.definition.location_id, false)
  destination_of none (some folder) = do
    safe ← Mutation.validate_resource_id folder
    ok (safe, true)
  destination_of none none = err (adapter mutation_destination_invalid 422)

  unfoldable pub checked_destination : Option String → Option String → Result (String × Bool)
  unfolding destination_of
  checked_destination folder_id destination_source_id =
      destination_of (given destination_source_id) (given folder_id)

  unfoldable pub confined_destination :
      Bool → AllowedSource → WorkspaceResource → Result WorkspaceResource
  unfolding confined
  confined_destination within allowed destination =
      if within then confined allowed destination else ok destination

abbrev pub result_of : AllowedSource → String → WorkspaceResource → MutationResult
result_of allowed status artifact = record {
  artifact = artifact;
  source = allowed.context;
  status = status;
}
