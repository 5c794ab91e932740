-- ===== src/Drive/Ancestors.antt =====
-- `get_resource` of app/adapters/google_workspace/drive.py: a file and the folders above it.
pub mod Above
pub mod Resource
use brunova_knowledge_gatewa.Prelude.{
  ℕ, zero, suc, String, Option, none, some, List, [], ◌∷◌, ◌++◌, elem, if◌then◌else◌,
}
use brunova_knowledge_gatewa.Errors.{ok}
use brunova_knowledge_gatewa.Exec.{Exec, pure, lift, ◌>>=◌, ◌>>◌}
use brunova_knowledge_gatewa.SourceAccess.{WorkspaceResource}
use brunova_knowledge_gatewa.Drive.{
  DriveApi, FileMetadata, drive, get_file_metadata, parents_of, get_or, required,
}

abbrev pub resource_from : FileMetadata → List String → String → WorkspaceResource
resource_from metadata ancestors id = record {
  id = id;
  name = get_or metadata.name "";
  mime_type = get_or metadata.mime_type "";
  modified_time = get_or metadata.modified_time "";
  drive_id = metadata.drive_id;
  ancestor_ids = ancestors;
  parent_ids = parents_of metadata;
}

module _ {S : Type 0} (api : DriveApi S) where
  -- The loop. `left` is what `depth` lacks to the maximum. The set `visited` holds the same
  -- ids as `ancestors`, which stands for both.
  unfoldable pub walk : ℕ → List String → List String → Exec S (List String)
  walk zero pending ancestors = pure ancestors
  walk (suc left) [] ancestors = pure ancestors
  walk (suc left) (parent_id ∷ pending) ancestors =
      let again = walk (suc left) pending ancestors in
      let visit : Exec S (List String) = get_file_metadata api parent_id >>= λ parent.
      walk left (pending ++ parents_of parent) (ancestors ++ parent_id ∷ []) in
      if elem parent_id ancestors then again else visit

  abbrev pub finish : FileMetadata → List String → Exec S WorkspaceResource
  finish metadata ancestors =
      lift (required metadata.id) >>= λ id. pure (resource_from metadata ancestors id)

  abbrev pub with_metadata : ℕ → FileMetadata → Exec S WorkspaceResource
  with_metadata max_depth metadata = walk max_depth (parents_of metadata) [] >>= finish metadata

  unfoldable pub get_resource : ℕ → String → Exec S WorkspaceResource
  unfolding walk required
  get_resource max_depth resource_id =
      drive api >> get_file_metadata api resource_id >>= with_metadata max_depth
