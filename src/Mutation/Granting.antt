-- ===== src/Mutation/Granting.antt =====
-- Which mutations app/policies/content_mutation.py grants.
use brunova_knowledge_gatewa.Prelude.{
  String, ◌≡◌, refl, ◌==◌, ◌↔◌, ◌≢◌, inl, inr, true, false, List, [], ◌∷◌, none, some, elem, arith,
  eq_iff, Bool-cases, find,
}
use brunova_knowledge_gatewa.Errors.{ok, require, >>=-eq-ok, mutation_approval_required}
use brunova_knowledge_gatewa.Registry.{SourceDefinition, SourceRegistry, get, is_active}
use brunova_knowledge_gatewa.Principals.{
  Principal, PrincipalType, management, developer, signal_worker, source_allows,
}
use brunova_knowledge_gatewa.Principals.Scopes.{MayOperate, authorize_workspace_operation_iff}
use brunova_knowledge_gatewa.SourceAccess.{SourceAccessPolicy, authorize_source}
use brunova_knowledge_gatewa.SourceAccess.Confinement.{allowed_of, authorize_source_iff}
use brunova_knowledge_gatewa.Mutation.{
  MutationOperation, capability_of, is_approved, normalized_approval_reference, authorize_scope,
  authorize_found, authorize,
}

find_id :
    (source_id : String) (sources : List SourceDefinition) (s : SourceDefinition)
    → find (λ x. x.id == source_id) sources ≡ some s
    → s.id ≡ source_id
find_id source_id [] s h = cc
find_id source_id (x ∷ xs) s h = elim (Bool-cases (x.id == source_id)) [
  | inl here ↦ ground (arith, eq_iff x.id source_id)
  | inr later ↦ find_id source_id xs s (rw later at h)
]

get_id :
    (registry : SourceRegistry) (source_id : String) (s : SourceDefinition)
    → get registry source_id ≡ some s
    → get registry s.id ≡ some s
unfolding get
get_id registry source_id s h = simp (find_id source_id registry.sources s h) h

-- What a principal of each type must show for a mutation of a source.
abbrev pub MayMutate :
    PrincipalType → Principal → MutationOperation → SourceDefinition → String → Type 0
MayMutate management p operation source reference = normalized_approval_reference reference ≢ none
MayMutate developer p operation source reference =
    MayOperate p (capability_of operation) (some source)
MayMutate signal_worker p operation source reference = Unit

MayMutate-iff :
    (type : PrincipalType) (p : Principal) (operation : MutationOperation)
    (source : SourceDefinition) (reference : String)
    → ((is_approved type reference ≡ true)
        × (authorize_scope type p (capability_of operation) source ≡ ok tt))
      ↔ MayMutate type p operation source reference
unfolding is_approved authorize_scope
MayMutate-iff management p operation source reference = ground arith
MayMutate-iff developer p operation source reference =
    let e = authorize_workspace_operation_iff p (capability_of operation) (some source) in
    (λ h. e.0 h.1, λ h. (refl, e.1 h))
MayMutate-iff signal_worker p operation source reference = ground arith

-- A mutation of a registered source is granted exactly if the principal shows what its type needs,
-- the source's location is not blocked, the source is active and it allows the operation.
pub authorize_iff :
    (policy : SourceAccessPolicy) (p : Principal) (source_id : String)
    (operation : MutationOperation) (reference : String) (source : SourceDefinition)
    → get policy.registry source_id ≡ some source
    → (authorize policy p source_id operation reference ≡ ok (allowed_of source)) ↔ (
        MayMutate p.type p operation source reference
        × (elem source.location_id policy.blocked ≡ false)
        × (is_active source.status ≡ true)
        × (source_allows source.capabilities (capability_of operation) ≡ true))
unfolding authorize
authorize_iff policy p source_id operation reference source found =
    let registered = get_id policy.registry source_id source found in
    let may = MayMutate-iff p.type p operation source reference in
    let access = authorize_source_iff policy source false in
    rw (found, authorize_found)
      (
        λ h.
            let (_, approved, h1) =
              >>=-eq-ok (require (is_approved p.type reference) mutation_approval_required 403) _
                h in
            let (_, scoped, h2) =
              >>=-eq-ok (authorize_scope p.type p (capability_of operation) source) _ h1 in
            let (allowed, opened, h3) = >>=-eq-ok (authorize_source policy source false) _ h2 in
            let given = access.0 (ground arith) in
            (may.0 (ground arith, scoped), given.1, given.4, ground arith),
        λ (m, unblocked, live, capable).
            let (approved, scoped) = may.1 m in
            let opened = access.1 (registered, unblocked, refl, refl, live) in
            rw (approved, scoped, opened, capable),
      )
