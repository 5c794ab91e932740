-- ===== src/Hubspot.antt =====
-- app/policies/hubspot.py: default-deny governance of the tools of the HubSpot MCP server. `str.casefold`
-- and the size in bytes of the text that `json.dumps` writes, if it writes one, are parameters.
pub mod Arguments
pub mod Granting
pub mod Tokens
use brunova_knowledge_gatewa.Prelude.{
  ℕ, String, ◌==◌, Bool, true, false, not, ◌&&◌, ◌||◌, List, [], ◌∷◌, Option, none, some, elem, leb,
  if◌then◌else◌,
}
use brunova_knowledge_gatewa.Errors.{
  Result, ok, err, adapter, require, ◌>>=◌, ◌>>◌, hubspot_tool_not_allowed,
  hubspot_mutation_intent_required, hubspot_approval_required, hubspot_arguments_invalid,
  hubspot_arguments_too_large,
}
use brunova_knowledge_gatewa.Json.{Json, Items, Fields, array, object, nil, cons, end, field}
use brunova_knowledge_gatewa.Mutation.{is_approval_reference}

abbrev pub read_tools : List String
read_tools =
    "get_user_details" ∷ "search_crm_objects" ∷ "get_crm_objects" ∷ "search_properties"
    ∷ "get_properties" ∷ "search_owners" ∷ "get_campaign_contacts_by_type"
    ∷ "get_campaign_analytics" ∷ "get_campaign_asset_types" ∷ "get_campaign_asset_metrics"
    ∷ "search_conversations" ∷ "get_conversation_channel_metadata" ∷ []

abbrev pub mutation_tools : List String
mutation_tools = "manage_crm_objects" ∷ []

abbrev pub sensitive_argument_names : List String
sensitive_argument_names = "access_token" ∷ "refresh_token" ∷ "client_secret" ∷ "authorization" ∷ []

pub data ToolClass : Type 0 where
  read mutation unknown : ToolClass

pub record HubSpotToolDecision : Type 0 where
  pub classification : ToolClass
  pub allowed : Bool
  pub approval_required : Bool

unfoldable pub classify : String → HubSpotToolDecision
classify tool_name =
    if elem tool_name read_tools
    then record { classification = read; allowed = true; approval_required = false }
    else if elem tool_name mutation_tools
    then record { classification = mutation; allowed = true; approval_required = true }
    else record { classification = unknown; allowed = false; approval_required = false }

abbrev pub is_mutation : ToolClass → Bool
is_mutation mutation = true
is_mutation _ = false

-- APPROVAL_PATTERN.fullmatch, of a reference that is given: it is the pattern of content mutations
abbrev pub is_approved : Option String → Bool
is_approved none = false
is_approved (some reference) = is_approval_reference reference

module _ (casefold : String → String) where
  abbrev pub is_sensitive : String → Bool
  is_sensitive key = elem (casefold key) sensitive_argument_names

  unfoldable mutual
    pub contains_sensitive_key : Json → Bool
    contains_sensitive_key (object fields) = any_field fields
    contains_sensitive_key (array items) = any_item items
    contains_sensitive_key (Json.null) = false
    contains_sensitive_key (Json.boolean b) = false
    contains_sensitive_key (Json.number n) = false
    contains_sensitive_key (Json.text s) = false

    pub any_item : Items → Bool
    any_item nil = false
    any_item (cons child items) = contains_sensitive_key child || any_item items

    pub any_field : Fields → Bool
    any_field end = false
    any_field (field key child fields) =
        is_sensitive key || contains_sensitive_key child || any_field fields

  module _ (dumps_size : Fields → Option ℕ) where
    abbrev pub max_argument_bytes : ℕ
    max_argument_bytes = 100000

    abbrev pub sized : Option ℕ → Result (Unit {0})
    sized none = err (adapter hubspot_arguments_invalid 422)
    sized (some size) = require (leb size max_argument_bytes) hubspot_arguments_too_large 422

    -- `_validate_arguments`
    unfoldable pub validate_arguments : Fields → Result (Unit {0})
    validate_arguments arguments = do
      require (not (contains_sensitive_key (object arguments))) hubspot_arguments_invalid 422
      sized (dumps_size arguments)

    -- the checks of a mutation
    unfoldable pub authorize_mutation : ToolClass → Option String → Bool → Result (Unit {0})
    authorize_mutation mutation approval_reference explicit_intent = do
      require explicit_intent hubspot_mutation_intent_required 403
      require (is_approved approval_reference) hubspot_approval_required 403
    authorize_mutation _ approval_reference explicit_intent = ok tt

    unfoldable pub authorize : String → Fields → Option String → Bool → Result HubSpotToolDecision
    unfolding classify validate_arguments authorize_mutation
    authorize tool_name arguments approval_reference explicit_intent = do
      require (classify tool_name).allowed hubspot_tool_not_allowed 403
      validate_arguments arguments
      authorize_mutation (classify tool_name).classification approval_reference explicit_intent
      ok (classify tool_name)
