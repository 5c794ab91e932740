-- ===== src/Knowledge/Confinement/Sharing.antt =====
-- Sharing and renaming an artifact in app/knowledge.py.
use brunova_knowledge_gatewa.Prelude.{String, ◌≡◌, ◌≢◌, ap, ◌∙◌}
use brunova_knowledge_gatewa.Errors.{Result, ok, >>=-eq-ok, ok-injective}
use brunova_knowledge_gatewa.Exec.{lift, bind-eq-ok, ◌>>=◌}
use brunova_knowledge_gatewa.Principals.{Principal}
use brunova_knowledge_gatewa.SourceAccess.{SourceAccessPolicy, WorkspaceResource, AllowedSource}
use brunova_knowledge_gatewa.Mutation
use brunova_knowledge_gatewa.Mutation.{MutationOperation, validate_audience, validate_name}
use brunova_knowledge_gatewa.Knowledge.{
  WorkspaceAdapter, MutationResult, Target, checked_target, referenced_target, protect_source_root,
}
use brunova_knowledge_gatewa.Knowledge.Mutations.{
  fetch_target, changed, share_target, share_authorized_source_artifact, rename_resource,
  rename_target, rename_authorized_source_artifact,
}
use brunova_knowledge_gatewa.Knowledge.Confinement.{
  IsInSource, IsGoverned, fetch_target-IsInSource, changed-eq-ok, checked_target-eq-ok,
  protect_source_root-ne,
}

module _ {S : Type 0} (workspace : WorkspaceAdapter S) (policy : SourceAccessPolicy)
    (principal : Principal) where
  -- A sharing that returned gave an audience that passed its validation access to the resource that
  -- the provider gave for the artifact's id; the sharing was authorized for the source, the artifact is
  -- not the source's root, and the resource lies in the source and in no blocked location.
  pub share_authorized_source_artifact-IsGoverned :
      (casefold : String → String) (source_id artifact_id audience reference : String)
      (result : MutationResult) (s s' : S)
      → share_authorized_source_artifact workspace policy principal casefold source_id artifact_id
          audience reference s
        ≡ (ok result, s')
      → (safe : String) × (validate_audience casefold audience ≡ ok safe)
        × IsGoverned workspace policy principal MutationOperation.share
            (λ resource. workspace.share_resource resource safe)
            source_id
            artifact_id
            reference
            s
            s'
            result
  unfolding share_authorized_source_artifact
  share_authorized_source_artifact-IsGoverned casefold source_id artifact_id audience reference
        result s s' h =
      let share = share_target workspace policy principal in
      let (target, s1, e, h1) =
        bind-eq-ok
          (lift (
            checked_target policy principal MutationOperation.share source_id artifact_id
              reference))
          (λ t. lift (validate_audience casefold audience) >>= λ safe. share t safe) s s' result
          h in
      let (authorized, id, free) =
        checked_target-eq-ok workspace policy principal MutationOperation.share source_id
          artifact_id reference target (ap (λ x. x.0) e) in
      let (safe, s2, e1, h2) =
        bind-eq-ok (lift (validate_audience casefold audience)) (λ a. share target a) s1 s' result
          h1 in
      let (resource, s3, e2, h3) =
        bind-eq-ok (fetch_target workspace policy principal target)
          (λ r.
            changed workspace policy principal (workspace.share_resource r safe) target.allowed
              "shared")
          s2 s' result h2 in
      let (fetched, inside) =
        fetch_target-IsInSource workspace policy principal target resource s2 s3 e2 in
      let (done, source) =
        changed-eq-ok workspace policy principal (workspace.share_resource resource safe)
          target.allowed "shared" result s3 s' h3 in
      (
        safe,
        ap (λ x. x.0) e1,
        (
          target.allowed,
          resource,
          s3,
          authorized,
          free,
          ap (λ i. workspace.get_resource i s) id
              ∙ ap (workspace.get_resource target.artifact_id) (ap (λ x. x.1) e ∙ ap (λ x. x.1) e1)
              ∙ fetched,
          inside,
          done,
          source,
        ),
      )

  referenced_target-eq-ok :
      (decode : String → String → Result String) (source_id artifact_ref reference : String)
      (target : Target)
      → referenced_target policy principal decode source_id artifact_ref reference ≡ ok target
      → (Mutation.authorize policy principal source_id MutationOperation.update reference
          ≡ ok target.allowed)
        × (decode artifact_ref source_id ≡ ok target.artifact_id)
  unfolding referenced_target
  referenced_target-eq-ok decode source_id artifact_ref reference target h =
      let (allowed, e, h1) =
        >>=-eq-ok (Mutation.authorize policy principal source_id MutationOperation.update reference)
          _ h in
      let (id, e1, h2) = >>=-eq-ok (decode artifact_ref source_id) _ h1 in
      let same = ok-injective h2 in
      (e ∙ ap (λ (t : Target). ok t.allowed) same, e1 ∙ ap (λ (t : Target). ok t.artifact_id) same)

  rename_resource-renamed :
      (target : Target) (name : String) (resource : WorkspaceResource) (result : MutationResult)
      (s s' : S)
      → rename_resource workspace policy principal target name resource s ≡ (ok result, s')
      → (safe : String) × (validate_name name ≡ ok safe)
        × (resource.id ≢ target.allowed.definition.location_id)
        × (workspace.rename_resource resource safe s ≡ (ok result.artifact, s'))
  rename_resource-renamed target name resource result s s' h =
      let rename = λ (safe : String).
        changed workspace policy principal (workspace.rename_resource resource safe) target.allowed
          "renamed" in
      let (u, s1, e, h1) =
        bind-eq-ok (lift (protect_source_root resource.id target.allowed))
          (λ _. lift (validate_name name) >>= λ safe. rename safe) s s' result h in
      let (safe, s2, e1, h2) =
        bind-eq-ok (lift (validate_name name)) (λ n. rename n) s1 s' result h1 in
      let (done, source) =
        changed-eq-ok workspace policy principal (workspace.rename_resource resource safe)
          target.allowed "renamed" result s2 s' h2 in
      (
        safe,
        ap (λ x. x.0) e1,
        protect_source_root-ne resource.id target.allowed u (ap (λ x. x.0) e),
        ap (workspace.rename_resource resource safe) (ap (λ x. x.1) e ∙ ap (λ x. x.1) e1) ∙ done,
      )

  -- A renaming that returned was an authorized update of the source; its reference decodes for that
  -- source to the id of a resource that lies in the source, in no blocked location, and is not the
  -- source's root, and the resource was given the name, which passed its validation.
  pub rename_authorized_source_artifact-IsConfined :
      (decode : String → String → Result String) (source_id artifact_ref name reference : String)
      (result : MutationResult) (s s' : S)
      → rename_authorized_source_artifact workspace policy principal decode source_id artifact_ref
          name reference s
        ≡ (ok result, s')
      → (allowed : AllowedSource) × (artifact_id : String) × (resource : WorkspaceResource)
        × (safe : String) × (s1 : S) × (Mutation.authorize policy principal source_id
              MutationOperation.update reference
            ≡ ok allowed)
        × (decode artifact_ref source_id ≡ ok artifact_id)
        × (workspace.get_resource artifact_id s ≡ (ok resource, s1))
        × IsInSource policy allowed resource
        × (resource.id ≢ allowed.definition.location_id)
        × (validate_name name ≡ ok safe)
        × (workspace.rename_resource resource safe s1 ≡ (ok result.artifact, s'))
  unfolding rename_authorized_source_artifact
  rename_authorized_source_artifact-IsConfined decode source_id artifact_ref name reference result s
        s' h =
      let (target, s0, e, h1) =
        bind-eq-ok
          (lift (referenced_target policy principal decode source_id artifact_ref reference))
          (rename_target workspace policy principal name) s s' result h in
      let (authorized, decoded) =
        referenced_target-eq-ok decode source_id artifact_ref reference target (ap (λ x. x.0) e) in
      let (resource, s1, e1, h2) =
        bind-eq-ok (fetch_target workspace policy principal target)
          (rename_resource workspace policy principal target name) s0 s' result h1 in
      let (fetched, inside) =
        fetch_target-IsInSource workspace policy principal target resource s0 s1 e1 in
      let (safe, valid, free, done) =
        rename_resource-renamed target name resource result s1 s' h2 in
      (
        target.allowed,
        target.artifact_id,
        resource,
        safe,
        s1,
        authorized,
        decoded,
        ap (workspace.get_resource target.artifact_id) (ap (λ x. x.1) e) ∙ fetched,
        inside,
        free,
        valid,
        done,
      )
