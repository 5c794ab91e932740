-- ===== src/SourceAccess/Reading.antt =====
-- `SourceAccessPolicy.authorize` of app/policies/source_access.py and the capability `read`.
use brunova_knowledge_gatewa.Prelude.{String, ◌≡◌, refl, Bool, List, [], ◌∷◌, map}
use brunova_knowledge_gatewa.Registry.{SourceDefinition, classify}
use brunova_knowledge_gatewa.SourceAccess.{
  SourceAccessPolicy, WorkspaceResource, resource_locations, is_blocked, authorize_first, authorize,
}

abbrev pub set_read : Bool → SourceDefinition → SourceDefinition
set_read b source = record source { capabilities = record source.capabilities { read = b } }

-- The policy over the registry in which the capability `read` of every source is `b`.
abbrev pub with_read : Bool → SourceAccessPolicy → SourceAccessPolicy
with_read b policy = record policy {
  registry = record { sources = map (set_read b) policy.registry.sources };
}

authorize_first_ignores_read :
    (b : Bool) (locations : List String) (sources : List SourceDefinition)
    → authorize_first locations (map (set_read b) sources) ≡ authorize_first locations sources
unfolding authorize_first classify
authorize_first_ignores_read b locations [] = refl
authorize_first_ignores_read b locations (x ∷ xs) = rw (authorize_first_ignores_read b locations xs)

-- `authorize` never looks at the capability `read`: granting it to all sources or taking it from
-- all changes no answer.
pub authorize_ignores_read :
    (b : Bool) (policy : SourceAccessPolicy) (resource : WorkspaceResource)
    → authorize (with_read b policy) resource ≡ authorize policy resource
unfolding authorize is_blocked
authorize_ignores_read b policy resource =
    rw (authorize_first_ignores_read b (resource_locations resource) policy.registry.sources)
