-- ===== src/Tests/Knowledge.antt =====
-- A document of the playbooks that the management moves, and the playbooks themselves.
use brunova_knowledge_gatewa.Prelude.{String, ◌≡◌, refl, true, none, some, List, [], ◌∷◌}
use brunova_knowledge_gatewa.Prelude.Text.{strip, lstrip, rstrip, is_space, matches, matches_after}
use brunova_knowledge_gatewa.Errors.{Result, ok}
use brunova_knowledge_gatewa.Registry
use brunova_knowledge_gatewa.Principals
use brunova_knowledge_gatewa.Principals.{management_principal}
use brunova_knowledge_gatewa.SourceAccess.{
  SourceAccessPolicy, WorkspaceResource, AllowedSource, authorize_source, authorize_registered,
  authorize_resource_for_source, is_blocked, resource_locations,
}
use brunova_knowledge_gatewa.SourceAccess.Confinement.{allowed_of}
use brunova_knowledge_gatewa.Mutation
use brunova_knowledge_gatewa.Mutation.{
  MutationOperation, validate_audience, validate_name, authorize_archive_destination,
}
use brunova_knowledge_gatewa.Knowledge.{
  WorkspaceAdapter, MutationResult, result_of, checked_target, referenced_target,
  protect_source_root, movable_target, checked_destination, destination_of, confined_destination,
  confined,
}
use brunova_knowledge_gatewa.Knowledge.Mutations.{
  share_authorized_source_artifact, rename_authorized_source_artifact,
  move_authorized_source_artifact,
}
use brunova_knowledge_gatewa.Knowledge.Confinement.{IsInSource, IsGoverned}
use brunova_knowledge_gatewa.Knowledge.Confinement.Sharing.{
  share_authorized_source_artifact-IsGoverned,
}
use brunova_knowledge_gatewa.Knowledge.Confinement.Moving.{
  IsDestination, move_authorized_source_artifact-IsConfined,
}
use brunova_knowledge_gatewa.Registry.{
  SourceDefinition, SourceCapabilities, SourceRegistry, SourceType,
}
use brunova_knowledge_gatewa.Tests.Access.{casefold, playbooks}

abbrev pub archive : SourceDefinition
archive = record playbooks {
  capabilities = record playbooks.capabilities { delete = true; share = true };
}

abbrev pub policy : SourceAccessPolicy
policy = record { registry = record { sources = archive ∷ [] }; blocked = "blocked001" ∷ [] }

abbrev document : WorkspaceResource
document = record {
  id = "document01";
  name = "Onboarding";
  mime_type = "application/vnd.google-apps.document";
  modified_time = "2026-03-01T10:00:00Z";
  drive_id = none;
  ancestor_ids = "folder0009" ∷ "drive00001" ∷ [];
  parent_ids = "folder0009" ∷ [];
}

-- a source that moves may go to
abbrev shelf : SourceDefinition
shelf = record playbooks {
  id = "shelf";
  location_id = "folder0077";
  source_type = SourceType.archive_destination;
}

abbrev moving : SourceAccessPolicy
moving = record policy { registry = record { sources = archive ∷ shelf ∷ [] } }

-- the document's copy with another id
abbrev resource_at : String → WorkspaceResource
resource_at id = record document { id = id }

-- the state is the list of what was moved
abbrev workspace : WorkspaceAdapter (List String)
workspace = record {
  get_resource = λ id s. (ok (resource_at id), s);
  delete_resource = λ resource s. (ok resource, s);
  share_resource = λ resource audience s. (ok resource, s);
  rename_resource = λ resource name s. (ok resource, s);
  move_resource = λ resource destination s. (ok resource, resource.id ∷ s);
}

abbrev result : MutationResult
result = result_of (allowed_of archive) "moved" document

authorized :
    Mutation.authorize moving management_principal "playbooks" MutationOperation.move "op-17"
    ≡ ok (allowed_of archive)
unfolding Mutation.authorize Mutation.authorize_found Mutation.is_approved Mutation.authorize_scope
    Mutation.is_approval_reference Mutation.normalized_approval_reference authorize_source
    authorize_registered Registry.get Registry.classify Registry.same_source
    Principals.source_allows strip lstrip rstrip is_space matches matches_after
authorized = refl

archived : authorize_archive_destination moving "shelf" ≡ ok (allowed_of shelf)
unfolding authorize_archive_destination authorize_source authorize_registered Registry.get
    Registry.classify Registry.same_source
archived = refl

moved :
    move_authorized_source_artifact workspace moving management_principal "playbooks" "document01"
      none
      (some "shelf")
      "op-17"
      []
    ≡ (ok result, "document01" ∷ [])
unfolding move_authorized_source_artifact movable_target checked_destination destination_of
    confined_destination confined Mutation.validate_resource_id authorize_resource_for_source
    resource_locations is_blocked matches
moved = simp (authorized, archived)

move_authorized_source_artifact-IsConfined_example :
    (allowed : AllowedSource) × (resource : WorkspaceResource) × (destination : WorkspaceResource)
    × (s1 : List String) × (s2 : List String) × (Mutation.authorize moving management_principal
          "playbooks" MutationOperation.move "op-17"
        ≡ ok allowed)
    × (workspace.get_resource "document01" [] ≡ (ok resource, s1))
    × IsInSource moving allowed resource
    × IsDestination workspace moving management_principal allowed none
        (some "shelf")
        destination
        s1
        s2
    × (workspace.move_resource resource destination s2 ≡ (ok result.artifact, "document01" ∷ []))
    × (result.source ≡ allowed.context)
move_authorized_source_artifact-IsConfined_example =
    move_authorized_source_artifact-IsConfined workspace moving management_principal "playbooks"
      "document01" none (some "shelf") "op-17" result [] ("document01" ∷ []) moved

valid_root : Mutation.validate_resource_id "drive00001" ≡ ok "drive00001"
unfolding Mutation.validate_resource_id matches
valid_root = refl

root_inside :
    confined moving management_principal (allowed_of archive) (resource_at "drive00001")
    ≡ ok (resource_at "drive00001")
unfolding confined authorize_resource_for_source resource_locations is_blocked
root_inside = refl

authorized_sharing :
    Mutation.authorize moving management_principal "playbooks" MutationOperation.share "op-17"
    ≡ ok (allowed_of archive)
unfolding Mutation.authorize Mutation.authorize_found Mutation.is_approved Mutation.authorize_scope
    Mutation.is_approval_reference Mutation.normalized_approval_reference authorize_source
    authorize_registered Registry.get Registry.classify Registry.same_source
    Principals.source_allows strip lstrip rstrip is_space matches matches_after
authorized_sharing = refl

authorized_update :
    Mutation.authorize moving management_principal "playbooks" MutationOperation.update "op-17"
    ≡ ok (allowed_of archive)
unfolding Mutation.authorize Mutation.authorize_found Mutation.is_approved Mutation.authorize_scope
    Mutation.is_approval_reference Mutation.normalized_approval_reference authorize_source
    authorize_registered Registry.get Registry.classify Registry.same_source
    Principals.source_allows strip lstrip rstrip is_space matches matches_after
authorized_update = refl

abbrev audience : String
audience = "eva@brunova.mx"

valid_audience : validate_audience casefold audience ≡ ok audience
unfolding validate_audience strip lstrip rstrip is_space
valid_audience = refl

shared :
    share_authorized_source_artifact workspace moving management_principal casefold "playbooks"
      "document01" audience "op-17" []
    ≡ (ok (result_of (allowed_of archive) "shared" document), [])
unfolding share_authorized_source_artifact checked_target protect_source_root confined
    Mutation.validate_resource_id authorize_resource_for_source resource_locations is_blocked
    matches
shared = simp (authorized_sharing, valid_audience)

share_authorized_source_artifact-IsGoverned_example :
    (safe : String) × (validate_audience casefold audience ≡ ok safe)
    × IsGoverned workspace moving management_principal MutationOperation.share
        (λ resource. workspace.share_resource resource safe)
        "playbooks"
        "document01"
        "op-17"
        []
        []
        (result_of (allowed_of archive) "shared" document)
share_authorized_source_artifact-IsGoverned_example =
    share_authorized_source_artifact-IsGoverned workspace moving management_principal casefold
      "playbooks" "document01" audience "op-17" (result_of (allowed_of archive) "shared" document)
      [] [] shared

-- a codec that knows one reference
abbrev decode : String → String → Result String
decode artifact_ref source_id = ok "document01"

renamed :
    rename_authorized_source_artifact workspace moving management_principal decode "playbooks" "ref"
      "Welcome" "op-17" []
    ≡ (ok (result_of (allowed_of archive) "renamed" document), [])
unfolding rename_authorized_source_artifact referenced_target protect_source_root confined
    authorize_resource_for_source resource_locations is_blocked validate_name strip lstrip rstrip
    is_space
renamed = simp authorized_update
