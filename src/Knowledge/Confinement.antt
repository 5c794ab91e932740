-- ===== src/Knowledge/Confinement.antt =====
-- What a mutation of app/knowledge.py that returned has been checked for.
pub mod Moving
pub mod Sharing
use brunova_knowledge_gatewa.Prelude.{
  String, ◌≡◌, ◌≢◌, refl, sym, ap, ◌∙◌, subst, true, false, elem, arith, eq_iff,
}
use brunova_knowledge_gatewa.Errors.{Result, ok, err, >>=-eq-ok, ok-injective}
use brunova_knowledge_gatewa.Exec.{Exec, pure, lift, bind-eq-ok, pair_eq}
use brunova_knowledge_gatewa.Registry.{SourceContext}
use brunova_knowledge_gatewa.Principals.{Principal}
use brunova_knowledge_gatewa.SourceAccess.{
  SourceAccessPolicy, WorkspaceResource, AllowedSource, authorize_resource_for_source, is_blocked,
  resource_locations,
}
use brunova_knowledge_gatewa.Mutation
use brunova_knowledge_gatewa.Mutation.{MutationOperation}
use brunova_knowledge_gatewa.Knowledge.{
  WorkspaceAdapter, MutationResult, Target, protect_source_root, checked_target, confined, after,
  as_unit, result_of,
}
use brunova_knowledge_gatewa.Knowledge.Mutations.{
  fetch_target, changed, delete_target, delete_authorized_source_artifact,
}

protect_source_root-ne :
    (id : String) (allowed : AllowedSource) (u : Unit {0})
    → protect_source_root id allowed ≡ ok u
    → id ≢ allowed.definition.location_id
unfolding protect_source_root
protect_source_root-ne id allowed u h =
    λ same. ground (arith, h, (eq_iff id allowed.definition.location_id).1 same)

after-eq-ok :
    {A : Type 0} (r : Result (Unit {0})) (a b : A) → after r a ≡ ok b → (r ≡ ok tt) × (a ≡ b)
after-eq-ok (ok u) a b h = (refl, ok-injective h)
after-eq-ok (err e) a b h = cc

as_unit-eq-ok : (r : Result SourceContext) → as_unit r ≡ ok tt → (c : SourceContext) × (r ≡ ok c)
as_unit-eq-ok (ok c) h = (c, refl)
as_unit-eq-ok (err e) h = cc

-- A resource of the source: none of its locations is blocked, and one is the source's.
abbrev pub IsInSource : SourceAccessPolicy → AllowedSource → WorkspaceResource → Type 0
IsInSource policy allowed resource =
    (is_blocked policy (resource_locations resource) ≡ false)
    × (elem allowed.definition.location_id (resource_locations resource) ≡ true)

authorize_resource_for_source-IsInSource :
    (policy : SourceAccessPolicy) (resource : WorkspaceResource) (allowed : AllowedSource)
    (c : SourceContext)
    → authorize_resource_for_source policy resource allowed ≡ ok c
    → IsInSource policy allowed resource
unfolding authorize_resource_for_source
authorize_resource_for_source-IsInSource policy resource allowed c h = ground arith

module _ {S : Type 0} (workspace : WorkspaceAdapter S) (policy : SourceAccessPolicy)
    (principal : Principal) where
  confined-IsInSource :
      (allowed : AllowedSource) (found resource : WorkspaceResource)
      → confined policy principal allowed found ≡ ok resource
      → (found ≡ resource) × IsInSource policy allowed found
  unfolding confined
  confined-IsInSource allowed found resource h =
      let (e, same) =
        after-eq-ok (as_unit (authorize_resource_for_source policy found allowed)) found resource
          h in
      let (c, authorized) = as_unit-eq-ok (authorize_resource_for_source policy found allowed) e in
      (same, authorize_resource_for_source-IsInSource policy found allowed c authorized)

  fetch_target-IsInSource :
      (target : Target) (resource : WorkspaceResource) (s s' : S)
      → fetch_target workspace policy principal target s ≡ (ok resource, s')
      → (workspace.get_resource target.artifact_id s ≡ (ok resource, s'))
        × IsInSource policy target.allowed resource
  fetch_target-IsInSource target resource s s' h =
      let (found, s1, e, h1) =
        bind-eq-ok (workspace.get_resource target.artifact_id)
          (λ r. lift (confined policy principal target.allowed r)) s s' resource h in
      let (same, inside) = confined-IsInSource target.allowed found resource (ap (λ x. x.0) h1) in
      (
        e ∙ pair_eq (ap ok same) (ap (λ x. x.1) h1),
        subst (IsInSource policy target.allowed) same inside,
      )

  checked_target-eq-ok :
      (operation : MutationOperation) (source_id artifact_id reference : String) (target : Target)
      → checked_target policy principal operation source_id artifact_id reference ≡ ok target
      → (Mutation.authorize policy principal source_id operation reference ≡ ok target.allowed)
        × (artifact_id ≡ target.artifact_id)
        × (artifact_id ≢ target.allowed.definition.location_id)
  unfolding checked_target Mutation.validate_resource_id
  checked_target-eq-ok operation source_id artifact_id reference target h =
      let (allowed, e, h1) =
        >>=-eq-ok (Mutation.authorize policy principal source_id operation reference) _ h in
      let (safe, e1, h2) = >>=-eq-ok (Mutation.validate_resource_id artifact_id) _ h1 in
      let made : Target = record { allowed = allowed; artifact_id = safe } in
      let (free, same) = after-eq-ok (protect_source_root safe allowed) made target h2 in
      let id : artifact_id ≡ safe = ground (arith, e1) in
      (
        e ∙ ap (λ (t : Target). ok t.allowed) same,
        id ∙ ap (λ t. t.artifact_id) same,
        λ root.
            protect_source_root-ne safe allowed tt free
              (sym id ∙ root ∙ ap (λ t. t.allowed.definition.location_id) (sym same)),
      )

  changed-eq-ok :
      (change : Exec S WorkspaceResource) (allowed : AllowedSource) (status : String)
      (result : MutationResult) (s s' : S)
      → changed workspace policy principal change allowed status s ≡ (ok result, s')
      → (change s ≡ (ok result.artifact, s')) × (result.source ≡ allowed.context)
  changed-eq-ok change allowed status result s s' h =
      let (artifact, s1, e, h1) =
        bind-eq-ok change (λ x. pure (result_of allowed status x)) s s' result h in
      let same : result_of allowed status artifact ≡ result = ok-injective (ap (λ x. x.0) h1) in
      (
        e ∙ pair_eq (ap (λ (r : MutationResult). ok r.artifact) same) (ap (λ x. x.1) h1),
        ap (λ r. r.source) (sym same),
      )

  -- What an operation that changed an artifact to `result` had checked: the mutation is authorized for the
  -- source, the artifact is not the source's root, and the resource that the provider gave for it lies
  -- in the source; that resource is the one that the provider then changed.
  abbrev pub IsGoverned :
      MutationOperation
      → (WorkspaceResource → Exec S WorkspaceResource)
      → String
      → String
      → String
      → S
      → S
      → MutationResult
      → Type 0
  IsGoverned operation change source_id artifact_id reference s s' result =
      (allowed : AllowedSource) × (resource : WorkspaceResource) × (s1 : S) × (Mutation.authorize
          policy principal source_id operation reference
        ≡ ok allowed)
      × (artifact_id ≢ allowed.definition.location_id)
      × (workspace.get_resource artifact_id s ≡ (ok resource, s1))
      × IsInSource policy allowed resource
      × (change resource s1 ≡ (ok result.artifact, s'))
      × (result.source ≡ allowed.context)

  -- A deletion that returned was authorized for the source, was not of the source's root, and
  -- deleted the resource that the provider gave for the artifact's id, which lies in the source and in no
  -- blocked location; the result names that source.
  pub delete_authorized_source_artifact-IsGoverned :
      (source_id artifact_id reference : String) (result : MutationResult) (s s' : S)
      → delete_authorized_source_artifact workspace policy principal source_id artifact_id reference
          s
        ≡ (ok result, s')
      → IsGoverned MutationOperation.delete workspace.delete_resource source_id artifact_id
          reference s s' result
  unfolding delete_authorized_source_artifact
  delete_authorized_source_artifact-IsGoverned source_id artifact_id reference result s s' h =
      let (target, s1, e, h1) =
        bind-eq-ok
          (lift (
            checked_target policy principal MutationOperation.delete source_id artifact_id
              reference))
          (delete_target workspace policy principal) s s' result h in
      let (authorized, id, free) =
        checked_target-eq-ok MutationOperation.delete source_id artifact_id reference target
          (ap (λ x. x.0) e) in
      let (resource, s2, e1, h2) =
        bind-eq-ok (fetch_target workspace policy principal target)
          (λ r.
            changed workspace policy principal (workspace.delete_resource r) target.allowed
              "deleted")
          s1 s' result h1 in
      let (fetched, inside) = fetch_target-IsInSource target resource s1 s2 e1 in
      let (done, source) =
        changed-eq-ok (workspace.delete_resource resource) target.allowed "deleted" result s2 s'
          h2 in
      (
        target.allowed,
        resource,
        s2,
        authorized,
        free,
        ap (λ i. workspace.get_resource i s) id
            ∙ ap (workspace.get_resource target.artifact_id) (ap (λ x. x.1) e)
            ∙ fetched,
        inside,
        done,
        source,
      )
