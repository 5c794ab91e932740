-- ===== src/Tests/Drive.antt =====
-- A document two folders below the location of the playbooks, on a drive where it is the only file.
use brunova_knowledge_gatewa.Prelude.{
  String, ◌==◌, ◌≡◌, ◌≢◌, ◌≤◌, refl, ap, sym, ◌↔◌, true, false, none, some, List, [], ◌∷◌, elem,
  length, All, Distinct, if◌then◌else◌, arith,
}
use brunova_knowledge_gatewa.Prelude.Text.{strip, lstrip, rstrip, is_space, matches, matches_after}
use brunova_knowledge_gatewa.Errors.{ok}
use brunova_knowledge_gatewa.Google.{returned}
use brunova_knowledge_gatewa.Registry
use brunova_knowledge_gatewa.Registry.{LocationType}
use brunova_knowledge_gatewa.Principals
use brunova_knowledge_gatewa.Principals.{management_principal}
use brunova_knowledge_gatewa.SourceAccess.{
  WorkspaceResource, AllowedSources, AllowedSource, allowed_sources, collect_allowed, is_allowed,
  authorize_source, authorize_registered, authorize_resource_for_source, is_blocked, is_blocked_id,
  resource_locations,
}
use brunova_knowledge_gatewa.SourceAccess.Confinement.{allowed_of}
use brunova_knowledge_gatewa.Mutation
use brunova_knowledge_gatewa.Mutation.{MutationOperation}
use brunova_knowledge_gatewa.Knowledge.{
  result_of, MutationResult, checked_target, protect_source_root, confined,
}
use brunova_knowledge_gatewa.Knowledge.Mutations.{delete_authorized_source_artifact}
use brunova_knowledge_gatewa.Drive.{DriveApi, FileMetadata, FileItem, parents_of}
use brunova_knowledge_gatewa.Drive.Ancestors.{get_resource}
use brunova_knowledge_gatewa.Drive.Ancestors.Above.{IsAbove}
use brunova_knowledge_gatewa.Drive.Ancestors.Resource.{get_resource-IsAbove, get_resource_iff}
use brunova_knowledge_gatewa.Drive.Listing.{
  DriveFile, file_of, file_type, append_allowed_files, list_each, list_allowed_sources, list_files,
  both,
}
use brunova_knowledge_gatewa.Drive.Listing.Confinement.{AreSelected, list_files-AreSelected}
use brunova_knowledge_gatewa.Drive.Changes.{delete_resource, google_workspace}
use brunova_knowledge_gatewa.Drive.Governed.{LiesIn, delete_trashes}
use brunova_knowledge_gatewa.Proposals.{CandidateSource}
use brunova_knowledge_gatewa.Drive.Discovery.{
  candidate_of, root_reasons, collect, discover_source_candidates, discover, proposed_id,
}
use brunova_knowledge_gatewa.Drive.Discovery
use brunova_knowledge_gatewa.Drive.Discovery.Unregistered.{IsUnregistered, discover-IsUnregistered}
use brunova_knowledge_gatewa.Tests.Access.{casefold}
use brunova_knowledge_gatewa.Tests.Knowledge.{archive, policy}

abbrev parents : String → List String
parents id =
    if id == "document01"
    then "folder0009" ∷ []
    else if id == "folder0009"
    then "drive00001" ∷ []
    else []

abbrev file : String → FileMetadata
file id = record {
  id = some id;
  name = none;
  mime_type = none;
  modified_time = none;
  drive_id = none;
  parents = some (parents id);
}

abbrev item : FileItem
item = record { id = some "document01"; name = some "Onboarding"; mime_type = none }

-- the state is the list of what was trashed
abbrev api : DriveApi (List String)
api = record {
  connect = λ s. (returned tt, s);
  files_get = λ id s. (returned (file id), s);
  files_list = λ type id page_size s. (returned (item ∷ item ∷ []), s);
  drives_list = λ page_size s. (returned [], s);
  root_folders = λ page_size s. (returned [], s);
  files_trash = λ id s. (returned (file id), id ∷ s);
  files_rename = λ id name s. (returned (file id), s);
  files_copy = λ id name parent s. (returned (file id), s);
  files_create = λ name mime_type parent s. (returned (file name), s);
  files_move = λ id added removed s. (returned (file id), s);
  permissions_create = λ id audience s. (returned tt, s);
}

file_answered :
    (id : String) (s s' : List String) (metadata : FileMetadata)
    → api.files_get id s ≡ (returned metadata, s')
    → file id ≡ metadata
file_answered id s s' metadata h = ap (λ x. elim (x.0) [ returned m ↦ m | _ ↦ file id ]) h

named :
    (id : String) (s s' : List String) (metadata : FileMetadata)
    → api.files_get id s ≡ (returned metadata, s')
    → metadata.id ≡ some id
named id s s' metadata h = ap (λ m. m.id) (sym (file_answered id s s' metadata h))

steady :
    (id : String) (s s' : List String) (metadata : FileMetadata)
    → api.files_get id s ≡ (returned metadata, s')
    → parents_of metadata ≡ parents id
steady id s s' metadata h = ap parents_of (sym (file_answered id s s' metadata h))

abbrev resource : WorkspaceResource
resource = record {
  id = "document01";
  name = "";
  mime_type = "";
  modified_time = "";
  drive_id = none;
  ancestor_ids = "folder0009" ∷ "drive00001" ∷ [];
  parent_ids = "folder0009" ∷ [];
}

fetched : get_resource api 20 "document01" [] ≡ (ok resource, [])
unfolding get_resource
fetched = refl

get_resource-IsAbove_example :
    ((a : String) → elem a resource.ancestor_ids ≡ true → IsAbove api "document01" a)
    × Distinct resource.ancestor_ids
    × (length resource.ancestor_ids ≤ 20)
get_resource-IsAbove_example = get_resource-IsAbove api 20 "document01" resource [] [] fetched

get_resource_iff_example :
    (elem "drive00001" resource.ancestor_ids ≡ true) ↔ IsAbove api "document01" "drive00001"
get_resource_iff_example =
    get_resource_iff api 20 parents steady "document01" resource [] [] fetched (omega arith)
      "drive00001"

abbrev files : List DriveFile
files = file_of (allowed_of archive).context item ∷ []

listed : list_files policy 5 api [] ≡ (ok files, [])
unfolding list_files list_allowed_sources list_each append_allowed_files is_blocked_id
    allowed_sources collect_allowed is_allowed Registry.classify file_type
listed = refl

list_files-AreSelected_example :
    (sources : AllowedSources) × (allowed_sources policy ≡ ok sources)
    × AreSelected policy 5 api (both policy 5 api sources) files
list_files-AreSelected_example = list_files-AreSelected policy 5 api files [] [] listed

abbrev result : MutationResult
result = result_of (allowed_of archive) "deleted" (record resource { modified_time = "" })

deleted :
    delete_authorized_source_artifact
      (google_workspace api 20)
      policy
      management_principal
      "playbooks"
      "document01"
      "op-17"
      []
    ≡ (ok result, "document01" ∷ [])
unfolding delete_authorized_source_artifact checked_target protect_source_root confined
    Mutation.authorize Mutation.authorize_found Mutation.is_approved Mutation.authorize_scope
    Mutation.validate_resource_id Mutation.is_approval_reference
    Mutation.normalized_approval_reference authorize_source authorize_registered
    authorize_resource_for_source resource_locations is_blocked Registry.get Registry.classify
    Registry.same_source Principals.source_allows strip lstrip rstrip is_space matches matches_after
    get_resource delete_resource
deleted = refl

delete_trashes_example :
    (allowed : AllowedSource) × (t : List String) × (metadata : FileMetadata) × (Mutation.authorize
        policy management_principal "playbooks" MutationOperation.delete "op-17"
      ≡ ok allowed)
    × ("document01" ≢ allowed.definition.location_id)
    × (elem "document01" policy.blocked ≡ false)
    × LiesIn api "document01" allowed.definition.location_id
    × (api.files_trash "document01" t ≡ (returned metadata, "document01" ∷ []))
delete_trashes_example =
    delete_trashes api 20 named policy management_principal "playbooks" "document01" "op-17" result
      [] ("document01" ∷ []) deleted

-- A registered shared drive and an unknown folder.
abbrev drives : DriveApi (List String)
drives = record api {
  drives_list = λ page_size s. (returned (record { id = some "drive00001"; name = none } ∷ []), s);
  root_folders =
      λ page_size s. (returned (record { id = some "folder0042"; name = some "Ventas" } ∷ []), s);
}

abbrev unknown : CandidateSource
unknown =
    candidate_of "folder" root_reasons (record { id = some "folder0042"; name = some "Ventas" })

discovered :
    discover drives casefold policy.registry policy.blocked 25 []
    ≡ (ok (Discovery.result_of casefold (unknown ∷ [])), [])
unfolding discover discover_source_candidates collect
discovered = refl

discover-IsUnregistered_example :
    All (IsUnregistered policy.registry policy.blocked) (unknown ∷ [])
    × (length (unknown ∷ []) ≤ 25)
discover-IsUnregistered_example =
    discover-IsUnregistered drives casefold policy.registry policy.blocked 25
      (Discovery.result_of casefold (unknown ∷ [])) [] [] (omega arith) discovered

proposed : proposed_id casefold "  ventas & clientes!" ≡ "ventas_clientes"
unfolding proposed_id strip lstrip rstrip is_space
proposed = refl
