-- ===== src/Drive.antt =====
-- app/adapters/google_workspace/drive.py: the adapter of Google Drive. The Drive client is the
-- parameter `DriveApi`, with one call for each request that the modelled methods build.
pub mod Ancestors
pub mod Listing
pub mod Changes
pub mod Discovery
pub mod Governed
use brunova_knowledge_gatewa.Prelude.{ℕ, String, Option, none, some, List, [], ◌∷◌}
use brunova_knowledge_gatewa.Errors.{
  Error, Result, ok, err, adapter, key_error, credentials_unavailable,
}
use brunova_knowledge_gatewa.Exec.{Exec, lift, ◌>>=◌}
use brunova_knowledge_gatewa.Google.{
  ClientError, io_error, Answer, returned, raised, Call, map_google_error, execute,
}
use brunova_knowledge_gatewa.Registry.{LocationType}

-- The metadata of a file, as `files.get` and the changes of a file answer it: each key may be
-- missing.
pub record FileMetadata : Type 0 where
  pub id : Option String
  pub name : Option String
  pub mime_type : Option String
  pub modified_time : Option String
  pub drive_id : Option String
  pub parents : Option (List String)

-- an entry of `files.list`
pub record FileItem : Type 0 where
  pub id : Option String
  pub name : Option String
  pub mime_type : Option String

-- an entry of `drives.list`, or of the listing of the root folders
pub record LocationItem : Type 0 where
  pub id : Option String
  pub name : Option String

pub record DriveApi (S : Type 0) : Type 0 where
  -- credentials and the service that is built with them
  pub connect : Call S (Unit {0})
  pub files_get : String → Call S FileMetadata
  -- the files of a location, at most as many as the page size
  pub files_list : LocationType → String → ℕ → Call S (List FileItem)
  pub drives_list : ℕ → Call S (List LocationItem)
  pub root_folders : ℕ → Call S (List LocationItem)
  pub files_trash : String → Call S FileMetadata
  pub files_rename : String → String → Call S FileMetadata
  -- the file, its new name and its new parent
  pub files_copy : String → String → String → Call S FileMetadata
  -- a name, a MIME type and a parent
  pub files_create : String → String → String → Call S FileMetadata
  -- the file, the parent to add and those to remove
  pub files_move : String → String → List String → Call S FileMetadata
  -- a reader's permission for one address
  pub permissions_create : String → String → Call S (Unit {0})

-- d.get(key, default)
abbrev pub get_or {ℓ} : {A : Type ℓ} → Option A → A → A
get_or none default = default
get_or (some a) default = a

-- an optional value, with another one where it is missing
abbrev pub or_else {ℓ} : {A : Type ℓ} → Option A → Option A → Option A
or_else none other = other
or_else (some a) other = some a

-- metadata["id"]
unfoldable pub required : Option String → Result String
required none = err key_error
required (some id) = ok id

-- metadata.get("parents", [])
abbrev pub parents_of : FileMetadata → List String
parents_of metadata = get_or metadata.parents []

unfoldable pub map_connection_error : ClientError → Error
map_connection_error io_error = adapter credentials_unavailable 503
map_connection_error error = map_google_error error

module _ {S : Type 0} where
  abbrev connected : Answer (Unit {0}) × S → Result (Unit {0}) × S
  connected (returned u, s) = (ok tt, s)
  connected (raised e, s) = (err (map_connection_error e), s)

  -- `_drive`
  abbrev pub drive : DriveApi S → Exec S (Unit {0})
  drive api s = connected (api.connect s)

  -- `_get_file_metadata`
  abbrev pub get_file_metadata : DriveApi S → String → Exec S FileMetadata
  get_file_metadata api id = execute (api.files_get id)
