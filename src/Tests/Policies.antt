-- ===== src/Tests/Policies.antt =====
-- Reading and changing the two test sources.
use brunova_knowledge_gatewa.Prelude.{
  String, ◌≡◌, refl, ◌↔◌, true, false, [], ◌∷◌, none, some, elem,
}
use brunova_knowledge_gatewa.Prelude.Text.{strip, lstrip, rstrip, matches_after, is_space}
use brunova_knowledge_gatewa.Errors.{ok}
use brunova_knowledge_gatewa.Registry.{get, is_active}
use brunova_knowledge_gatewa.Principals.{
  Principal, from_record, worker_record, source_allows, PrincipalType,
}
use brunova_knowledge_gatewa.SourceAccess.{
  SourceAccessPolicy, WorkspaceResource, AllowedSource, collect_allowed, is_allowed,
  authorize_source, authorize_resource_for_source,
}
use brunova_knowledge_gatewa.SourceAccess
use brunova_knowledge_gatewa.SourceAccess.Confinement.{
  IsAuthorized, allowed_of, authorize_source_iff,
}
use brunova_knowledge_gatewa.Mutation
use brunova_knowledge_gatewa.Mutation.{
  MutationOperation, capability_of, is_approval_reference, normalized_approval_reference,
  validate_name,
}
use brunova_knowledge_gatewa.Mutation.Granting.{MayMutate, authorize_iff}
use brunova_knowledge_gatewa.Tests.Access.{playbooks, contracts, registry, ana, worker}

abbrev policy : SourceAccessPolicy
policy = record { registry = registry; blocked = "blocked001" ∷ [] }

abbrev notes : WorkspaceResource
notes = record {
  id = "notes00001";
  name = "Notes";
  mime_type = "text/plain";
  modified_time = "2026-03-01T10:00:00Z";
  drive_id = none;
  ancestor_ids = "folder0002" ∷ [];
  parent_ids = "folder0002" ∷ [];
}

authorize_source_iff_example :
    (authorize_source policy contracts true ≡ ok (allowed_of contracts))
    ↔ IsAuthorized policy contracts true
authorize_source_iff_example = authorize_source_iff policy contracts true

authorize_iff_example :
    (Mutation.authorize policy ana "playbooks" MutationOperation.create ""
      ≡ ok (allowed_of playbooks))
    ↔ (MayMutate PrincipalType.developer ana MutationOperation.create playbooks ""
        × (elem "drive00001" policy.blocked ≡ false)
        × (is_active playbooks.status ≡ true)
        × (source_allows playbooks.capabilities (capability_of MutationOperation.create) ≡ true))
unfolding from_record
authorize_iff_example =
    authorize_iff policy ana "playbooks" MutationOperation.create "" playbooks (unfold get in refl)

abbrev worker_principal : String → Principal
worker_principal id = from_record (worker_record (worker id))

reference_read : normalized_approval_reference " REF-1 " ≡ some "REF-1"
unfolding normalized_approval_reference strip lstrip rstrip is_approval_reference matches_after
    is_space
reference_read = refl

name_read : validate_name " Plan " ≡ ok "Plan"
unfolding validate_name strip lstrip rstrip is_space
name_read = refl
