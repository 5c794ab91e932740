-- ===== src/Drive/Listing.antt =====
-- `list_files` and `list_source_files` of app/adapters/google_workspace/drive.py: the files directly
-- in the locations of the sources.
pub mod Selected
pub mod Confinement
use brunova_knowledge_gatewa.Prelude.{
  ℕ, ◌-◌, String, ◌==◌, Bool, ◌||◌, Option, none, some, List, [], ◌∷◌, ◌++◌, elem, leb, length,
  if◌then◌else◌,
}
use brunova_knowledge_gatewa.Prelude.Text.{is_empty}
use brunova_knowledge_gatewa.Errors.{ok}
use brunova_knowledge_gatewa.Exec.{Exec, pure, lift, ◌>>=◌, ◌>>◌}
use brunova_knowledge_gatewa.Google.{execute}
use brunova_knowledge_gatewa.Registry.{SourceContext, Classification}
use brunova_knowledge_gatewa.SourceAccess.{
  SourceAccessPolicy, AllowedSource, AllowedSources, allowed_sources, is_blocked_id,
}
use brunova_knowledge_gatewa.Drive.{DriveApi, FileItem, get_or}

-- adapters/google_workspace/models.py
pub record SourceMetadata : Type 0 where
  pub id : String
  pub name : String
  pub classification : Classification

pub record DriveFile : Type 0 where
  pub id : String
  pub name : String
  pub type : String
  pub source : SourceMetadata

-- MIME_TYPES.get(mime_type, "file")
unfoldable pub file_type : Option String → String
file_type none = "file"
file_type (some mime_type) =
    if mime_type == "application/vnd.google-apps.document"
    then "document"
    else if mime_type == "application/vnd.google-apps.spreadsheet"
    then "spreadsheet"
    else if mime_type == "application/vnd.google-apps.presentation"
    then "presentation"
    else if mime_type == "application/vnd.google-apps.folder"
    then "folder"
    else "file"

abbrev pub metadata_of : SourceContext → SourceMetadata
metadata_of context = record {
  id = context.source_id;
  name = context.source_name;
  classification = context.classification;
}

-- item.get("id", "")
abbrev pub id_of : FileItem → String
id_of item = get_or item.id ""

abbrev pub file_of : SourceContext → FileItem → DriveFile
file_of context item = record {
  id = id_of item;
  name = get_or item.name "";
  type = file_type item.mime_type;
  source = metadata_of context;
}

-- `files` and `seen_ids`, which the calls of `_append_allowed_files` fill
pub record Listing : Type 0 where
  pub files : List DriveFile
  pub seen_ids : List String

abbrev pub is_skipped : SourceAccessPolicy → String → List String → Bool
is_skipped policy id seen_ids = is_empty id || elem id seen_ids || is_blocked_id policy id

abbrev pub with_file : DriveFile → Listing → Listing
with_file file l = record { files = l.files ++ file ∷ []; seen_ids = file.id ∷ l.seen_ids }

module _ (policy : SourceAccessPolicy) (limit : ℕ) where
  unfoldable pub append_allowed_files : SourceContext → List FileItem → Listing → Listing
  unfolding is_blocked_id
  append_allowed_files context [] l = l
  append_allowed_files context (item ∷ items) l =
      let skipped = append_allowed_files context items l in
      let grown = with_file (file_of context item) l in
      let more = append_allowed_files context items grown in
      if is_skipped policy (id_of item) l.seen_ids
      then skipped
      else if leb limit (length grown.files)
      then grown
      else more

  module _ {S : Type 0} (api : DriveApi S) where
    -- `_list_source_location`
    abbrev pub list_source_location : AllowedSource → ℕ → Exec S (List FileItem)
    list_source_location source page_size =
        execute
          (api.files_list source.definition.location_type source.definition.location_id page_size)

    -- the loop of `_list_allowed_sources`
    unfoldable pub list_each : List AllowedSource → Listing → Exec S (List DriveFile)
    list_each [] l = pure l.files
    list_each (source ∷ sources) l =
        let next : Exec S (List DriveFile) =
          list_source_location source (limit - length l.files) >>= λ items.
          list_each sources (append_allowed_files source.context items l) in
        if leb limit (length l.files) then pure l.files else next

    -- Unlike the other methods, this one does not catch an `OSError` of the credentials.
    unfoldable pub list_allowed_sources : List AllowedSource → Exec S (List DriveFile)
    unfolding list_each
    list_allowed_sources sources =
        execute api.connect >> list_each sources (record { files = []; seen_ids = [] })

    abbrev pub both : AllowedSources → List AllowedSource
    both sources = sources.shared_drives ++ sources.folders

    unfoldable pub list_files : Exec S (List DriveFile)
    unfolding list_allowed_sources
    list_files = lift (allowed_sources policy) >>= λ sources. list_allowed_sources (both sources)

    unfoldable pub list_source_files : AllowedSource → Exec S (List DriveFile)
    unfolding list_allowed_sources
    list_source_files source = list_allowed_sources (source ∷ [])
