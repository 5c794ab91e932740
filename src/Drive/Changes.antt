-- ===== src/Drive/Changes.antt =====
-- The changes of a file in app/adapters/google_workspace/drive.py, and the adapter as the interface
-- that app/knowledge.py uses.
use brunova_knowledge_gatewa.Prelude.{ℕ, String, ◌==◌, Bool, not, Option, none, List, [], ◌∷◌, elem}
use brunova_knowledge_gatewa.Errors.{require, mutation_destination_invalid}
use brunova_knowledge_gatewa.Exec.{Exec, pure, lift, ◌>>=◌, ◌>>◌}
use brunova_knowledge_gatewa.Google.{Call, execute}
use brunova_knowledge_gatewa.SourceAccess.{WorkspaceResource, AllowedSource}
use brunova_knowledge_gatewa.Drive.{DriveApi, FileMetadata, drive, get_or, or_else, required}
use brunova_knowledge_gatewa.Drive.Ancestors.{get_resource}
use brunova_knowledge_gatewa.Knowledge.{WorkspaceAdapter}

abbrev pub google_doc_mime_type : String
google_doc_mime_type = "application/vnd.google-apps.document"

abbrev pub google_sheet_mime_type : String
google_sheet_mime_type = "application/vnd.google-apps.spreadsheet"

abbrev pub google_folder_mime_type : String
google_folder_mime_type = "application/vnd.google-apps.folder"

abbrev has_parents : List String → Bool
has_parents [] = Bool.false
has_parents (p ∷ ps) = Bool.true

-- The resource after a change: what the answer lacks is taken from `expected`. All but a renaming
-- take "" for the time of the change.
abbrev pub updated_resource : WorkspaceResource → FileMetadata → String → WorkspaceResource
updated_resource expected metadata id = record {
  id = id;
  name = get_or metadata.name expected.name;
  mime_type = get_or metadata.mime_type expected.mime_type;
  modified_time = get_or metadata.modified_time expected.modified_time;
  drive_id = or_else metadata.drive_id expected.drive_id;
  ancestor_ids = expected.ancestor_ids;
  parent_ids = get_or metadata.parents expected.parent_ids;
}

module _ {S : Type 0} (api : DriveApi S) where
  abbrev pub answer_resource : WorkspaceResource → FileMetadata → Exec S WorkspaceResource
  answer_resource expected metadata =
      lift (required metadata.id) >>= λ id. pure (updated_resource expected metadata id)

  abbrev pub change_file : Call S FileMetadata → WorkspaceResource → Exec S WorkspaceResource
  change_file call expected = (drive api >> execute call) >>= answer_resource expected

  unfoldable pub delete_resource : WorkspaceResource → Exec S WorkspaceResource
  unfolding required
  delete_resource resource =
      change_file (api.files_trash resource.id) (record resource { modified_time = "" })

  unfoldable pub rename_resource : WorkspaceResource → String → Exec S WorkspaceResource
  unfolding required
  rename_resource resource name =
      change_file (api.files_rename resource.id name) (record resource { name = name })

  unfoldable pub share_resource : WorkspaceResource → String → Exec S WorkspaceResource
  share_resource resource audience =
      drive api >> execute (api.permissions_create resource.id audience) >> pure resource

  -- where a copied or a moved file lies
  abbrev pub placed : WorkspaceResource → WorkspaceResource → Option String → WorkspaceResource
  placed resource destination drive_id = record resource {
    modified_time = "";
    drive_id = drive_id;
    ancestor_ids = destination.id ∷ destination.ancestor_ids;
    parent_ids = destination.id ∷ [];
  }

  unfoldable pub copy_resource :
      WorkspaceResource → String → WorkspaceResource → Exec S WorkspaceResource
  unfolding required
  copy_resource resource name destination =
      lift (
        require (destination.mime_type == google_folder_mime_type) mutation_destination_invalid 422)
      >> change_file (api.files_copy resource.id name destination.id)
          (record (placed resource destination destination.drive_id) { name = name })

  unfoldable pub move_resource : WorkspaceResource → WorkspaceResource → Exec S WorkspaceResource
  unfolding required
  move_resource resource destination =
      lift (
        require (destination.mime_type == google_folder_mime_type) mutation_destination_invalid 422)
      >> lift
          (require (not (elem destination.id resource.parent_ids)) mutation_destination_invalid 422)
      >> lift (require (has_parents resource.parent_ids) mutation_destination_invalid 422)
      >> change_file (api.files_move resource.id destination.id resource.parent_ids)
          (placed resource destination resource.drive_id)

  -- a new file at the root of the source
  abbrev pub created_resource : AllowedSource → String → String → WorkspaceResource
  created_resource source name mime_type = record {
    id = "";
    name = name;
    mime_type = mime_type;
    modified_time = "";
    drive_id = none;
    ancestor_ids = source.definition.location_id ∷ [];
    parent_ids = source.definition.location_id ∷ [];
  }

  unfoldable pub create_document : AllowedSource → String → Exec S WorkspaceResource
  unfolding required
  create_document source name =
      change_file (api.files_create name google_doc_mime_type source.definition.location_id)
        (created_resource source name google_doc_mime_type)

  unfoldable pub create_spreadsheet : AllowedSource → String → Exec S WorkspaceResource
  unfolding required
  create_spreadsheet source name =
      change_file (api.files_create name google_sheet_mime_type source.definition.location_id)
        (created_resource source name google_sheet_mime_type)

  -- `GoogleWorkspaceAdapter`, with the setting `workspace_source_max_depth`
  abbrev pub google_workspace : ℕ → WorkspaceAdapter S
  google_workspace max_depth = record {
    get_resource = get_resource api max_depth;
    delete_resource = delete_resource;
    share_resource = share_resource;
    rename_resource = rename_resource;
    move_resource = move_resource;
  }
