-- ===== src/Drive/Ancestors/Resource.antt =====
-- The resource that `get_resource` of app/adapters/google_workspace/drive.py makes of a file.
use brunova_knowledge_gatewa.Prelude.{
  ℕ, ◌≤◌, ◌<◌, String, ◌≡◌, sym, ap, ◌∙◌, ◌↔◌, true, Option, none, some, List, [], elem, length,
  Distinct, arith,
}
use brunova_knowledge_gatewa.Errors.{ok, ok-injective}
use brunova_knowledge_gatewa.Exec.{bind-eq-ok, lift, pure, ◌>>◌}
use brunova_knowledge_gatewa.Google.{returned, answered-eq-ok}
use brunova_knowledge_gatewa.SourceAccess.{WorkspaceResource}
use brunova_knowledge_gatewa.Drive.{
  DriveApi, FileMetadata, drive, get_file_metadata, parents_of, required,
}
use brunova_knowledge_gatewa.Drive.Ancestors.{
  walk, get_resource, with_metadata, finish, resource_from,
}
use brunova_knowledge_gatewa.Drive.Ancestors.Above.{
  IsAbove, parent, walk-IsAbove, walk_bounds, walk_complete, closed-IsAbove,
}

required-eq-ok : (id : Option String) (given : String) → required id ≡ ok given → id ≡ some given
unfolding required
required-eq-ok none given h = cc
required-eq-ok (some id) given h = ap some (ok-injective h)

module _ {S : Type 0} (api : DriveApi S) (max_depth : ℕ) where
  -- What was called for a resource that was returned.
  abbrev pub IsFetched : String → WorkspaceResource → Type 0
  IsFetched id resource =
      (s : S) × (s1 : S) × (s2 : S) × (metadata : FileMetadata) × (api.files_get id s
        ≡ (returned metadata, s1))
      × (walk api max_depth (parents_of metadata) [] s1 ≡ (ok resource.ancestor_ids, s2))
      × (resource.drive_id ≡ metadata.drive_id)
      × (metadata.id ≡ some resource.id)

  pub get_resource-IsFetched :
      (id : String) (resource : WorkspaceResource) (s s' : S)
      → get_resource api max_depth id s ≡ (ok resource, s')
      → IsFetched id resource
  unfolding get_resource
  get_resource-IsFetched id resource s s' h =
      let (metadata, s1, e, h1) =
        bind-eq-ok (drive api >> get_file_metadata api id) (with_metadata api max_depth) s s'
          resource h in
      let (u, s0, e0, e1) =
        bind-eq-ok (drive api) (λ _. get_file_metadata api id) s s1 metadata e in
      let (ancestors, s2, e2, h2) =
        bind-eq-ok (walk api max_depth (parents_of metadata) []) (finish api metadata) s1 s'
          resource h1 in
      let (given, s3, e3, h3) =
        bind-eq-ok (lift (required metadata.id)) (λ i. pure (resource_from metadata ancestors i)) s2
          s' resource h2 in
      let same : resource_from metadata ancestors given ≡ resource =
        ok-injective (ap (λ x. x.0) h3) in
      (
        s0,
        s1,
        s2,
        metadata,
        answered-eq-ok (api.files_get id s0) metadata s1 e1,
        e2 ∙ ap (λ (r : WorkspaceResource). (ok r.ancestor_ids, s2)) same,
        ap (λ r. r.drive_id) (sym same),
        required-eq-ok metadata.id given (ap (λ x. x.0) e3)
            ∙ ap (λ (r : WorkspaceResource). some r.id) same,
      )

  -- The ancestors of a resource that was fetched are folders that Drive gave, at the time, as reached
  -- from its id by parents; none is listed twice, and there are no more than the maximal depth.
  pub get_resource-IsAbove :
      (id : String) (resource : WorkspaceResource) (s s' : S)
      → get_resource api max_depth id s ≡ (ok resource, s')
      → ((a : String) → elem a resource.ancestor_ids ≡ true → IsAbove api id a)
        × Distinct resource.ancestor_ids
        × (length resource.ancestor_ids ≤ max_depth)
  get_resource-IsAbove id resource s s' h =
      let (s0, s1, s2, metadata, e, w, d, n) = get_resource-IsFetched id resource s s' h in
      let (distinct, short) =
        walk_bounds api max_depth (parents_of metadata) [] resource.ancestor_ids s1 s2 tt w in
      (
        walk-IsAbove api id max_depth (parents_of metadata) [] resource.ancestor_ids s1 s2
            (λ a m. parent (s0, s1, metadata, e, m)) (λ a m. cc) w,
        distinct,
        omega arith,
      )

  -- Where Drive answers the same parents for a file each time, and a resource that was fetched has
  -- fewer ancestors than the maximal depth, they are exactly the folders that are reached from its id
  -- by parents.
  pub get_resource_iff :
      (parents : String → List String)
      → ((id : String) (s s' : S) (metadata : FileMetadata)
          → api.files_get id s ≡ (returned metadata, s')
          → parents_of metadata ≡ parents id)
      → (id : String) (resource : WorkspaceResource) (s s' : S)
      → get_resource api max_depth id s ≡ (ok resource, s')
      → length resource.ancestor_ids < max_depth
      → (a : String) → (elem a resource.ancestor_ids ≡ true) ↔ IsAbove api id a
  get_resource_iff parents steady id resource s s' h short a =
      let (s0, s1, s2, metadata, e, w, d, n) = get_resource-IsFetched id resource s s' h in
      let (all, closed) =
        walk_complete api parents steady max_depth (parents_of metadata) [] resource.ancestor_ids s1
          s2 (λ x p m n. cc) w (omega arith) in
      (
        (get_resource-IsAbove id resource s s' h).0 a,
        closed-IsAbove api parents steady id resource.ancestor_ids
            (λ p m. all p (rw (steady id s0 s1 metadata e) m)) closed a,
      )
