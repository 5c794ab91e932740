-- ===== src/Knowledge/Confinement/Moving.antt =====
-- Moving an artifact in app/knowledge.py: what a move has been checked for, and what it has not.
use brunova_knowledge_gatewa.Prelude.{
  String, ◌≡◌, refl, ap, ◌∙◌, subst, ◌⊎◌, inl, inr, Bool, true, false, Option, none, some, arith,
  if◌then◌else◌,
}
use brunova_knowledge_gatewa.Errors.{ok, >>=-eq-ok, ok-injective}
use brunova_knowledge_gatewa.Exec.{lift, bind-eq-ok, pair_eq, ◌>>=◌}
use brunova_knowledge_gatewa.Principals.{Principal}
use brunova_knowledge_gatewa.SourceAccess.{SourceAccessPolicy, WorkspaceResource, AllowedSource}
use brunova_knowledge_gatewa.Mutation
use brunova_knowledge_gatewa.Mutation.{MutationOperation, authorize_archive_destination}
use brunova_knowledge_gatewa.Knowledge.{
  WorkspaceAdapter, MutationResult, Target, movable_target, destination_of, checked_destination,
  confined_destination, given,
}
use brunova_knowledge_gatewa.Knowledge.Mutations.{
  fetch_target, changed, move_to, move_target, move_authorized_source_artifact,
}
use brunova_knowledge_gatewa.Knowledge.Confinement.{
  IsInSource, fetch_target-IsInSource, confined-IsInSource, changed-eq-ok,
}

validated : (id safe : String) → Mutation.validate_resource_id id ≡ ok safe → id ≡ safe
unfolding Mutation.validate_resource_id
validated id safe h = ground arith

module _ {S : Type 0} (workspace : WorkspaceAdapter S) (policy : SourceAccessPolicy)
    (principal : Principal) where
  movable_target-eq-ok :
      (source_id artifact_id reference : String) (target : Target)
      → movable_target policy principal source_id artifact_id reference ≡ ok target
      → (Mutation.authorize policy principal source_id MutationOperation.move reference
          ≡ ok target.allowed)
        × (artifact_id ≡ target.artifact_id)
  unfolding movable_target
  movable_target-eq-ok source_id artifact_id reference target h =
      let (allowed, e, h1) =
        >>=-eq-ok (Mutation.authorize policy principal source_id MutationOperation.move reference) _
          h in
      let (safe, e1, h2) = >>=-eq-ok (Mutation.validate_resource_id artifact_id) _ h1 in
      let same = ok-injective h2 in
      (
        e ∙ ap (λ (t : Target). ok t.allowed) same,
        validated artifact_id safe e1 ∙ ap (λ t. t.artifact_id) same,
      )

  -- Where a move may go: the location of an archive that is authorized as one, or a folder of
  -- the same source; exactly one of the two was asked for.
  abbrev pub IsDestination :
      AllowedSource → Option String → Option String → WorkspaceResource → S → S → Type 0
  IsDestination allowed folder_id destination_source_id destination t t' =
      ((archive_id : String) × (archive : AllowedSource) × (given destination_source_id
          ≡ some archive_id)
        × (given folder_id ≡ none)
        × (authorize_archive_destination policy archive_id ≡ ok archive)
        × (workspace.get_resource archive.definition.location_id t ≡ (ok destination, t')))
      ⊎ ((folder : String) × (given destination_source_id ≡ none)
          × (given folder_id ≡ some folder)
          × (workspace.get_resource folder t ≡ (ok destination, t'))
          × IsInSource policy allowed destination)

  -- the fetched destination, after the check that is asked for
  fetched_at :
      (id : String) (within : Bool) (allowed : AllowedSource)
      (found destination : WorkspaceResource) (t t' : S)
      → workspace.get_resource id t ≡ (ok found, t')
      → confined_destination policy principal within allowed found ≡ ok destination
      → (workspace.get_resource id t ≡ (ok destination, t'))
        × (if within then IsInSource policy allowed destination else Unit {0})
  unfolding confined_destination
  fetched_at id false allowed found destination t t' e h = (e ∙ pair_eq h refl, tt)
  fetched_at id true allowed found destination t t' e h =
      let (same, inside) =
        confined-IsInSource workspace policy principal allowed found destination h in
      (e ∙ pair_eq (ap ok same) refl, subst (IsInSource policy allowed) same inside)

  destination_of-IsDestination :
      (allowed : AllowedSource) (archive_id folder : Option String) (id : String) (within : Bool)
      (found destination : WorkspaceResource) (t t' : S)
      (folder_id destination_source_id : Option String)
      → given destination_source_id ≡ archive_id
      → given folder_id ≡ folder
      → destination_of policy principal archive_id folder ≡ ok (id, within)
      → workspace.get_resource id t ≡ (ok found, t')
      → confined_destination policy principal within allowed found ≡ ok destination
      → IsDestination allowed folder_id destination_source_id destination t t'
  unfolding destination_of
  destination_of-IsDestination allowed (some a) (some f) id within found destination t t' folder_id
        destination_source_id p q h e c =
      cc
  destination_of-IsDestination allowed none none id within found destination t t' folder_id
        destination_source_id p q h e c =
      cc
  destination_of-IsDestination allowed (some a) none id within found destination t t' folder_id
        destination_source_id p q h e c =
      let (archive, authorized, h1) = >>=-eq-ok (authorize_archive_destination policy a) _ h in
      let (fetched, u) = fetched_at id within allowed found destination t t' e c in
      inl (a, archive, p, q, authorized, rw (ap (λ x. x.0) (ok-injective h1)) fetched)
  destination_of-IsDestination allowed none (some f) id within found destination t t' folder_id
        destination_source_id p q h e c =
      let (safe, valid, h1) = >>=-eq-ok (Mutation.validate_resource_id f) _ h in
      let same = ok-injective h1 in
      let (fetched, inside) =
        fetched_at id true allowed found destination t t' e (rw (ap (λ x. x.1) same) c) in
      inr (f, p, q, rw (validated f safe valid ∙ ap (λ x. x.0) same) fetched, inside)

  move_to-IsDestination :
      (target : Target) (resource : WorkspaceResource)
      (folder_id destination_source_id : Option String) (id : String) (within : Bool)
      (result : MutationResult) (s s' : S)
      → checked_destination policy principal folder_id destination_source_id ≡ ok (id, within)
      → move_to workspace policy principal target resource (id, within) s ≡ (ok result, s')
      → (destination : WorkspaceResource) × (t : S) × IsDestination target.allowed folder_id
          destination_source_id destination s t
        × (workspace.move_resource resource destination t ≡ (ok result.artifact, s'))
        × (result.source ≡ target.allowed.context)
  unfolding checked_destination
  move_to-IsDestination target resource folder_id destination_source_id id within result s s'
        checked h =
      let move = λ (d : WorkspaceResource).
        changed workspace policy principal (workspace.move_resource resource d) target.allowed
          "moved" in
      let (found, t, e, h1) =
        bind-eq-ok (workspace.get_resource id)
          (λ f.
            lift (confined_destination policy principal within target.allowed f) >>= λ d. move d)
          s s' result h in
      let (destination, t', e1, h2) =
        bind-eq-ok (lift (confined_destination policy principal within target.allowed found))
          (λ d. move d) t s' result h1 in
      let (done, source) =
        changed-eq-ok workspace policy principal (workspace.move_resource resource destination)
          target.allowed "moved" result t' s' h2 in
      (
        destination,
        t',
        destination_of-IsDestination target.allowed (given destination_source_id) (given folder_id)
            id within found destination s t' folder_id destination_source_id refl refl checked
            (e ∙ pair_eq refl (ap (λ x. x.1) e1)) (ap (λ x. x.0) e1),
        done,
        source,
      )

  -- A move that returned was authorized for the source; the artifact that the provider gave lies in
  -- the source and in no blocked location, and was moved to a folder that is an authorized archive's
  -- location or lies in the same source, one of which was asked for.
  pub move_authorized_source_artifact-IsConfined :
      (source_id artifact_id : String) (folder_id destination_source_id : Option String)
      (reference : String) (result : MutationResult) (s s' : S)
      → move_authorized_source_artifact workspace policy principal source_id artifact_id folder_id
          destination_source_id reference s
        ≡ (ok result, s')
      → (allowed : AllowedSource) × (resource : WorkspaceResource)
        × (destination : WorkspaceResource) × (s1 : S) × (s2 : S) × (Mutation.authorize policy
              principal source_id MutationOperation.move reference
            ≡ ok allowed)
        × (workspace.get_resource artifact_id s ≡ (ok resource, s1))
        × IsInSource policy allowed resource
        × IsDestination allowed folder_id destination_source_id destination s1 s2
        × (workspace.move_resource resource destination s2 ≡ (ok result.artifact, s'))
        × (result.source ≡ allowed.context)
  unfolding move_authorized_source_artifact checked_destination
  move_authorized_source_artifact-IsConfined source_id artifact_id folder_id destination_source_id
        reference result s s' h =
      let (target, s0, e, h1) =
        bind-eq-ok (lift (movable_target policy principal source_id artifact_id reference))
          (move_target workspace policy principal folder_id destination_source_id) s s' result h in
      let (authorized, id) =
        movable_target-eq-ok source_id artifact_id reference target (ap (λ x. x.0) e) in
      let (resource, s1, e1, h2) =
        bind-eq-ok (fetch_target workspace policy principal target)
          (λ r.
            lift (checked_destination policy principal folder_id destination_source_id)
            >>= move_to workspace policy principal target r)
          s0 s' result h1 in
      let (fetched, inside) =
        fetch_target-IsInSource workspace policy principal target resource s0 s1 e1 in
      let (place, s2, e2, h3) =
        bind-eq-ok (lift (checked_destination policy principal folder_id destination_source_id))
          (move_to workspace policy principal target resource) s1 s' result h2 in
      let (destination, t, there, done, source) =
        move_to-IsDestination target resource folder_id destination_source_id place.0 place.1 result
          s2 s' (ap (λ x. x.0) e2) h3 in
      (
        target.allowed,
        resource,
        destination,
        s2,
        t,
        authorized,
        ap (λ i. workspace.get_resource i s) id
            ∙ ap (workspace.get_resource target.artifact_id) (ap (λ x. x.1) e)
            ∙ fetched
            ∙ pair_eq refl (ap (λ x. x.1) e2),
        inside,
        there,
        done,
        source,
      )
