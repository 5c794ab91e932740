-- ===== src/SourceAccess/Confinement.antt =====
-- What app/policies/source_access.py lets be read, and in which context.
use mathlib.Core.List.{Memᴰ}
use mathlib.Core.Bool.{decide_iff}
use brunova_knowledge_gatewa.Prelude.{
  String, ◌≡◌, refl, inl, inr, ◌↔◌, Bool, true, false, not, ◌||◌, List, [], ◌∷◌, Option, none, some,
  elem, keep, map, arith, Bool-cases,
}
use brunova_knowledge_gatewa.Errors.{ok}
use brunova_knowledge_gatewa.Registry.{
  SourceDefinition, SourceContext, get, from_document, same_source, SourceDefinition-discrete,
  is_active, classify,
}
use brunova_knowledge_gatewa.Registry.Unique.{get_listed}
use brunova_knowledge_gatewa.SourceAccess.{
  AllowedSource, SourceAccessPolicy, WorkspaceResource, is_readable_type, is_allowed,
  collect_allowed, authorize_registered, authorize_source, resource_locations, is_blocked,
  authorize_resource_for_source,
}

-- The context that a source gives to what is read from it.
abbrev pub context_of : SourceDefinition → SourceContext
context_of source = record {
  source_id = source.id;
  source_name = source.name;
  classification = source.classification;
}

-- A source through which a resource at some locations is read.
pub record IsSource (locations : List String) (sources : List SourceDefinition)
    (context : SourceContext) : Type 0 where
  pub source : SourceDefinition
  pub listed : Memᴰ source sources
  pub readable : is_readable_type source.source_type ≡ true
  pub located : elem source.location_id locations ≡ true
  pub live : is_active source.status ≡ true
  pub described : context ≡ context_of source

-- What `authorize_source` asks of a source, apart from the order of the checks.
abbrev pub IsAuthorized : SourceAccessPolicy → SourceDefinition → Bool → Type 0
IsAuthorized policy source require_read =
    (get policy.registry source.id ≡ some source)
    × (elem source.location_id policy.blocked ≡ false)
    × ((not require_read || is_readable_type source.source_type) ≡ true)
    × ((not require_read || source.capabilities.read) ≡ true)
    × (is_active source.status ≡ true)

abbrev pub allowed_of : SourceDefinition → AllowedSource
allowed_of source = record { definition = source; context = context_of source }

pub same_source_iff : (a b : SourceDefinition) → (same_source a b ≡ true) ↔ (a ≡ b)
unfolding same_source
same_source_iff a b = decide_iff (SourceDefinition-discrete a b)

authorize_registered_iff :
    (policy : SourceAccessPolicy) (source : SourceDefinition) (require_read : Bool)
    (found : Option SourceDefinition)
    → (authorize_registered policy source require_read found ≡ ok (allowed_of source)) ↔ (
        (found ≡ some source)
        × (elem source.location_id policy.blocked ≡ false)
        × ((not require_read || is_readable_type source.source_type) ≡ true)
        × ((not require_read || source.capabilities.read) ≡ true)
        × (is_active source.status ≡ true))
unfolding authorize_registered classify
authorize_registered_iff policy source require_read none = (λ h. cc, λ h. cc (h.0))
authorize_registered_iff policy source true (some r) =
    let e = same_source_iff r source in ground (arith, e)
authorize_registered_iff policy source false (some r) =
    let e = same_source_iff r source in ground (arith, e)

-- A source is authorized, as itself and in its own context, exactly if it is the registered source
-- of its id, stands at no blocked location, is active and, for a read, is no archive and allows
-- reading.
pub authorize_source_iff :
    (policy : SourceAccessPolicy) (source : SourceDefinition) (require_read : Bool)
    → (authorize_source policy source require_read ≡ ok (allowed_of source))
      ↔ IsAuthorized policy source require_read
unfolding authorize_source
authorize_source_iff policy source require_read =
    authorize_registered_iff policy source require_read (get policy.registry source.id)

classify_active :
    (source : SourceDefinition)
    → is_active source.status ≡ true
    → classify source ≡ ok (context_of source)
unfolding classify
classify_active source h = ground arith

-- The loop of `allowed_sources` never raises: it returns the sources that pass its test, in order,
-- each in its own context.
pub collect_allowed_lem :
    (policy : SourceAccessPolicy) (sources : List SourceDefinition)
    → collect_allowed policy sources ≡ ok (map allowed_of (keep (is_allowed policy) sources))
unfolding collect_allowed
collect_allowed_lem policy [] = refl
collect_allowed_lem policy (x ∷ xs) = elim (Bool-cases (is_allowed policy x)) [
  | inl here ↦
      rw
        (here, collect_allowed_lem policy xs, classify_active x (unfold is_allowed in ground arith))
  | inr out ↦ rw out (collect_allowed_lem policy xs)
]

-- In a loaded registry, every source that `allowed_sources` lists passes `authorize_source` for
-- reading: the two policies agree.
pub authorize_source-is_allowed :
    (document : List SourceDefinition) (policy : SourceAccessPolicy) (source : SourceDefinition)
    → from_document document ≡ ok policy.registry
    → Memᴰ source policy.registry.sources
    → is_allowed policy source ≡ true
    → authorize_source policy source true ≡ ok (allowed_of source)
unfolding is_allowed
authorize_source-is_allowed document policy source loaded listed allowed =
    (authorize_source_iff policy source true).1 (
      get_listed document policy.registry source loaded listed,
      ground arith,
      ground arith,
      ground arith,
      ground arith,
    )

-- A resource belongs to a selected source exactly if none of its locations is blocked and the
-- source's location is one of them; the answer is the context of the source.
pub authorize_resource_for_source_iff :
    (policy : SourceAccessPolicy) (resource : WorkspaceResource) (source : AllowedSource)
    (context : SourceContext)
    → (authorize_resource_for_source policy resource source ≡ ok context) ↔ (
        (is_blocked policy (resource_locations resource) ≡ false)
        × (elem source.definition.location_id (resource_locations resource) ≡ true)
        × (source.context ≡ context))
unfolding authorize_resource_for_source
authorize_resource_for_source_iff policy resource source context = ground arith
