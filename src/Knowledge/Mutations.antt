-- ===== src/Knowledge/Mutations.antt =====
-- The four operations of app/knowledge.py over the provider: each fetches what its checks let through, and
-- changes it.
use brunova_knowledge_gatewa.Prelude.{String, Bool, Option}
use brunova_knowledge_gatewa.Errors.{Result}
use brunova_knowledge_gatewa.Exec.{Exec, pure, lift, ◌>>=◌}
use brunova_knowledge_gatewa.Principals.{Principal}
use brunova_knowledge_gatewa.SourceAccess.{SourceAccessPolicy, WorkspaceResource, AllowedSource}
use brunova_knowledge_gatewa.Mutation.{MutationOperation, validate_name, validate_audience}
use brunova_knowledge_gatewa.Knowledge.{
  WorkspaceAdapter, MutationResult, Target, protect_source_root, checked_target, movable_target,
  referenced_target, confined, checked_destination, confined_destination, result_of,
}

module _ {S : Type 0} (workspace : WorkspaceAdapter S) (policy : SourceAccessPolicy)
    (principal : Principal) where
  -- get_resource, then authorize_resource_for_source
  abbrev pub fetch_target : Target → Exec S WorkspaceResource
  fetch_target target = workspace.get_resource target.artifact_id >>= λ resource.
      lift (confined policy principal target.allowed resource)

  -- a change of the provider and its result
  abbrev pub changed : Exec S WorkspaceResource → AllowedSource → String → Exec S MutationResult
  changed change allowed status = change >>= λ artifact. pure (result_of allowed status artifact)

  abbrev pub delete_target : Target → Exec S MutationResult
  delete_target target = fetch_target target >>= λ resource.
      changed (workspace.delete_resource resource) target.allowed "deleted"

  unfoldable pub delete_authorized_source_artifact :
      String → String → String → Exec S MutationResult
  delete_authorized_source_artifact source_id artifact_id approval_reference =
      lift (
        checked_target policy principal MutationOperation.delete source_id artifact_id
          approval_reference)
      >>= delete_target

  abbrev pub share_target : Target → String → Exec S MutationResult
  share_target target audience = fetch_target target >>= λ resource.
      changed (workspace.share_resource resource audience) target.allowed "shared"

  unfoldable pub share_authorized_source_artifact :
      (String → String) → String → String → String → String → Exec S MutationResult
  share_authorized_source_artifact casefold source_id artifact_id audience approval_reference =
      lift (
        checked_target policy principal MutationOperation.share source_id artifact_id
          approval_reference)
      >>= λ target. lift (validate_audience casefold audience) >>= λ safe_audience.
          share_target target safe_audience

  abbrev pub rename_resource : Target → String → WorkspaceResource → Exec S MutationResult
  rename_resource target name resource =
      lift (protect_source_root resource.id target.allowed) >>= λ free.
      lift (validate_name name) >>= λ safe_name.
      changed (workspace.rename_resource resource safe_name) target.allowed "renamed"

  abbrev pub rename_target : String → Target → Exec S MutationResult
  rename_target name target = fetch_target target >>= rename_resource target name

  unfoldable pub rename_authorized_source_artifact :
      (String → String → Result String) → String → String → String → String → Exec S MutationResult
  rename_authorized_source_artifact decode source_id artifact_ref name approval_reference =
      lift (referenced_target policy principal decode source_id artifact_ref approval_reference)
      >>= rename_target name

  abbrev pub move_to : Target → WorkspaceResource → String × Bool → Exec S MutationResult
  move_to target resource (id, within) = workspace.get_resource id >>= λ found.
      lift (confined_destination policy principal within target.allowed found) >>= λ destination.
      changed (workspace.move_resource resource destination) target.allowed "moved"

  abbrev pub move_target : Option String → Option String → Target → Exec S MutationResult
  move_target folder_id destination_source_id target = fetch_target target >>= λ resource.
      lift (checked_destination policy principal folder_id destination_source_id)
      >>= move_to target resource

  unfoldable pub move_authorized_source_artifact :
      String → String → Option String → Option String → String → Exec S MutationResult
  move_authorized_source_artifact source_id artifact_id folder_id destination_source_id
        approval_reference =
      lift (movable_target policy principal source_id artifact_id approval_reference)
      >>= move_target folder_id destination_source_id
