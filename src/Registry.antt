-- ===== src/Registry.antt =====
-- app/source_registry.py and app/policies/classification.py: the versioned registry of sources.
-- `system` and `version` admit one value each and are left out; reading the YAML file is I/O.
pub mod Unique
use mathlib.Core.Bool.{decide}
use brunova_knowledge_gatewa.Prelude.{
  ℕ, String, ◌≡◌, ◌==◌, Bool, true, false, not, ◌&&◌, ◌||◌, List, [], ◌∷◌, map, Option, none, some,
  find, keep, leb, all, eqb, length, dedupe, if◌then◌else◌, String-discrete,
}
use brunova_knowledge_gatewa.Prelude.Text.{
  len, matches, matches_after, is_id_char, is_lower, is_digit,
}
use brunova_knowledge_gatewa.Errors.{Result, ok, err, adapter, value_error, source_disabled}

pub data Classification : Type 0 where
  management_only internal_delivery client_shareable public : Classification

pub data SourceStatus : Type 0 where
  active disabled : SourceStatus

pub data SourceType : Type 0 where
  knowledge_source archive_destination validation_source : SourceType

pub data LocationType : Type 0 where
  shared_drive folder : LocationType

pub record SourceCapabilities : Type 0 where
  pub read : Bool
  pub create : Bool
  pub update : Bool
  pub move : Bool
  pub delete : Bool
  pub share : Bool
  pub convert : Bool

pub record SourceDefinition : Type 0 where
  pub id : String
  pub name : String
  pub location_type : LocationType
  pub location_id : String
  pub classification : Classification
  pub owners : List String
  pub status : SourceStatus
  pub source_type : SourceType
  pub capabilities : SourceCapabilities

-- `==` of two frozen pydantic models compares every field.
unfoldable pub SourceDefinition-discrete : Discrete SourceDefinition
unfolding String-discrete
SourceDefinition-discrete = hlevel String-discrete

unfoldable pub same_source : SourceDefinition → SourceDefinition → Bool
unfolding SourceDefinition-discrete decide
same_source a b = decide (SourceDefinition-discrete a b)

-- the field constraints that pydantic checks when a definition is read
unfoldable pub is_valid_definition : SourceDefinition → Bool
unfolding matches_after matches
is_valid_definition source =
    matches_after is_lower (λ c. is_lower c || is_digit c || eqb c b'_') 2 63 source.id
    && leb 1 (len source.name)
    && leb (len source.name) 100
    && matches is_id_char 10 200 source.location_id
    && leb 1 (length source.owners)

-- SourceRegistry: the sources of a document that has passed `__init__`.
pub record SourceRegistry : Type 0 where
  pub sources : List SourceDefinition

-- len(xs) == len(set(xs))
unfoldable pub is_unique : List String → Bool
unfolding dedupe
is_unique xs = eqb (length xs) (length (dedupe xs))

abbrev pub ids : List SourceDefinition → List String
ids = map (λ source. source.id)

abbrev pub locations : List SourceDefinition → List String
locations = map (λ source. source.location_id)

-- SourceRegistryDocument.model_validate and SourceRegistry.__init__: the document's sources are
-- checked one by one, then `_validate_uniqueness` raises `ValueError`.
unfoldable pub from_document : List SourceDefinition → Result SourceRegistry
unfolding is_valid_definition is_unique
from_document sources =
    if not (all is_valid_definition sources)
    then err value_error
    else if not (is_unique (ids sources))
    then err value_error
    else if not (is_unique (locations sources))
    then err value_error
    else ok (record { sources = sources })

-- `get`; `none` is the `KeyError`.
unfoldable pub get : SourceRegistry → String → Option SourceDefinition
get registry source_id = find (λ source. source.id == source_id) registry.sources

unfoldable pub sources_for_location : SourceRegistry → String → List SourceDefinition
sources_for_location registry location_id =
    keep (λ source. source.location_id == location_id) registry.sources

-- classification.py
pub record SourceContext : Type 0 where
  pub source_id : String
  pub source_name : String
  pub classification : Classification

abbrev pub is_active : SourceStatus → Bool
is_active active = true
is_active disabled = false

-- ClassificationPolicy.apply
unfoldable pub classify : SourceDefinition → Result SourceContext
classify source =
    if not (is_active source.status)
    then err (adapter source_disabled 403)
    else ok (record {
      source_id = source.id;
      source_name = source.name;
      classification = source.classification;
    })
