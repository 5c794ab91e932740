-- ===== src/Drive/Governed.antt =====
-- Mutations of app/knowledge.py through app/adapters/google_workspace/drive.py: what the two
-- together call of Google Drive.
use brunova_knowledge_gatewa.Prelude.{
  ℕ, String, ◌≡◌, ◌≢◌, ap, sym, ◌∙◌, ◌⊎◌, inl, inr, true, false, Option, none, some, [], ◌∷◌, elem,
  elem-append, Bool-cases, arith, eq_iff, if◌then◌else◌,
}
use brunova_knowledge_gatewa.Prelude.Text.{is_empty}
use brunova_knowledge_gatewa.Errors.{ok}
use brunova_knowledge_gatewa.Exec.{bind-eq-ok, lift, pure, ◌>>◌}
use brunova_knowledge_gatewa.Google.{Call, returned, execute, answered-eq-ok}
use brunova_knowledge_gatewa.Principals.{Principal}
use brunova_knowledge_gatewa.SourceAccess.{
  SourceAccessPolicy, WorkspaceResource, AllowedSource, resource_locations, is_blocked,
  drive_location,
}
use brunova_knowledge_gatewa.Mutation
use brunova_knowledge_gatewa.Mutation.{MutationOperation}
use brunova_knowledge_gatewa.Knowledge.{MutationResult}
use brunova_knowledge_gatewa.Knowledge.Mutations.{delete_authorized_source_artifact}
use brunova_knowledge_gatewa.Knowledge.Confinement.{
  IsInSource, delete_authorized_source_artifact-IsGoverned,
}
use brunova_knowledge_gatewa.Drive.{DriveApi, FileMetadata, drive, required}
use brunova_knowledge_gatewa.Drive.Ancestors.{get_resource}
use brunova_knowledge_gatewa.Drive.Ancestors.Above.{IsAbove}
use brunova_knowledge_gatewa.Drive.Ancestors.Resource.{get_resource-IsAbove, get_resource-IsFetched}
use brunova_knowledge_gatewa.Drive.Changes.{
  delete_resource, change_file, answer_resource, google_workspace, updated_resource,
}

elem-drive_location :
    (a : String) (o : Option String) → elem a (drive_location o) ≡ true → o ≡ some a
elem-drive_location a none h = cc
elem-drive_location a (some d) h = elim (Bool-cases (is_empty d)) [
  | inl empty ↦ cc (rw (empty, drive_location) at h)
  | inr there ↦ ground (arith, ap (elem a) (ap (λ b. if b then [] else d ∷ []) there), eq_iff a d)
]

-- The locations of a resource are its id, its ancestors and its drive.
elem-resource_locations :
    (a : String) (resource : WorkspaceResource)
    → elem a (resource_locations resource) ≡ true
    → (a ≡ resource.id) ⊎ (elem a resource.ancestor_ids ≡ true) ⊎ (resource.drive_id ≡ some a)
unfolding resource_locations
elem-resource_locations a resource h = ground (
  arith,
  eq_iff a resource.id,
  elem-append a resource.ancestor_ids (drive_location resource.drive_id),
  elem-drive_location a resource.drive_id,
)

module _ {S : Type 0} (api : DriveApi S) where
  -- Drive answered, at some time, that the file lies on the shared drive.
  abbrev pub IsOnDrive : String → String → Type 0
  IsOnDrive id drive_id =
      (s : S) × (s' : S) × (metadata : FileMetadata) × (api.files_get id s
        ≡ (returned metadata, s'))
      × (metadata.drive_id ≡ some drive_id)

  change_file-eq-ok :
      (call : Call S FileMetadata) (expected resource : WorkspaceResource) (s s' : S)
      → change_file api call expected s ≡ (ok resource, s')
      → (t : S) × (metadata : FileMetadata) × (call t ≡ (returned metadata, s'))
  change_file-eq-ok call expected resource s s' h =
      let (metadata, s1, e, h1) =
        bind-eq-ok (drive api >> execute call) (answer_resource api expected) s s' resource h in
      let (u, t, e0, e1) = bind-eq-ok (drive api) (λ _. execute call) s s1 metadata e in
      let (id, s2, e2, h2) =
        bind-eq-ok (lift (required metadata.id)) (λ i. pure (updated_resource expected metadata i))
          s1 s' resource h1 in
      (
        t,
        metadata,
        answered-eq-ok (call t) metadata s'
            (e1 ∙ ap (λ (x : S). (ok metadata, x)) (ap (λ x. x.1) e2 ∙ ap (λ x. x.1) h2)),
      )

  -- Drive gave the location as a folder above the file, or as the shared drive of the file.
  abbrev pub LiesIn : String → String → Type 0
  LiesIn id location = IsAbove api id location ⊎ IsOnDrive id location

  module _ (max_depth : ℕ)
      (named : (id : String) (s s' : S) (metadata : FileMetadata)
        → api.files_get id s ≡ (returned metadata, s')
        → metadata.id ≡ some id) where
    fetched_id :
        (id : String) (resource : WorkspaceResource) (s s' : S)
        → get_resource api max_depth id s ≡ (ok resource, s')
        → id ≡ resource.id
    fetched_id id resource s s' h =
        let (s2, s3, s4, metadata, e, w, d, n) =
          get_resource-IsFetched api max_depth id resource s s' h in
        ground (arith, named id s2 s3 metadata e)

    fetched-LiesIn :
        (policy : SourceAccessPolicy) (allowed : AllowedSource) (id : String)
        (resource : WorkspaceResource) (s s' : S)
        → get_resource api max_depth id s ≡ (ok resource, s')
        → IsInSource policy allowed resource
        → id ≢ allowed.definition.location_id
        → LiesIn id allowed.definition.location_id
    fetched-LiesIn policy allowed id resource s s' h inside other =
        let location = allowed.definition.location_id in
        let (s2, s3, s4, metadata, e, w, d, n) =
          get_resource-IsFetched api max_depth id resource s s' h in
        elim (elem-resource_locations location resource inside.1) [
          | inl root ↦ absurd (other (fetched_id id resource s s' h ∙ sym root))
          | inr (inl listed) ↦
              inl ((get_resource-IsAbove api max_depth id resource s s' h).0 location listed)
          | inr (inr drive_id) ↦ inr (s2, s3, metadata, e, sym d ∙ drive_id)
        ]

    -- Where Drive answers a file's own id: a deletion that returned has trashed the artifact and was authorized for the source; the artifact is not the source's root, its id is not blocked, and
    -- the source's location is a folder that Drive gave as reached from the artifact by parents, or the shared drive that it gave for the artifact.
    pub delete_trashes :
        (policy : SourceAccessPolicy) (principal : Principal)
        (source_id artifact_id reference : String) (result : MutationResult) (s s' : S)
        → delete_authorized_source_artifact
            (google_workspace api max_depth)
            policy
            principal
            source_id
            artifact_id
            reference
            s
          ≡ (ok result, s')
        → (allowed : AllowedSource) × (t : S) × (metadata : FileMetadata) × (Mutation.authorize
              policy principal source_id MutationOperation.delete reference
            ≡ ok allowed)
          × (artifact_id ≢ allowed.definition.location_id)
          × (elem artifact_id policy.blocked ≡ false)
          × LiesIn artifact_id allowed.definition.location_id
          × (api.files_trash artifact_id t ≡ (returned metadata, s'))
    unfolding is_blocked resource_locations delete_resource
    delete_trashes policy principal source_id artifact_id reference result s s' h =
        let (allowed, resource, s1, authorized, free, fetched, inside, done, source) =
          delete_authorized_source_artifact-IsGoverned (google_workspace api max_depth) policy
            principal source_id artifact_id reference result s s' h in
        let same = fetched_id artifact_id resource s s1 fetched in
        let (t, trashed, call) =
          change_file-eq-ok (api.files_trash resource.id) (record resource { modified_time = "" })
            result.artifact s1 s' done in
        (
          allowed,
          t,
          trashed,
          authorized,
          free,
          ground arith,
          fetched-LiesIn policy allowed artifact_id resource s s1 fetched inside free,
          rw same call,
        )
