-- ===== src/Hubspot/Granting.antt =====
-- Which calls of HubSpot tools app/policies/hubspot.py grants.
use brunova_knowledge_gatewa.Prelude.{ℕ, ◌≤◌, String, ◌≡◌, Bool, true, false, Option, none, some}
use brunova_knowledge_gatewa.Json.{Fields, object}
use brunova_knowledge_gatewa.Hubspot.{
  ToolClass, read, mutation, unknown, is_approved, contains_sensitive_key,
}

-- What a tool of each class needs for a call, besides acceptable arguments.
abbrev pub MayCall : ToolClass → Option String → Bool → Type 0
MayCall read reference intent = Unit
MayCall mutation reference intent = (intent ≡ true) × (is_approved reference ≡ true)
MayCall unknown reference intent = ⊥

abbrev Fits : Option ℕ → Type 0
Fits none = ⊥
Fits (some size) = size ≤ 100000

-- The arguments hold no credential and are written in at most 100000 bytes.
abbrev pub IsAcceptable : (String → String) → (Fields → Option ℕ) → Fields → Type 0
IsAcceptable casefold dumps_size arguments =
    (contains_sensitive_key casefold (object arguments) ≡ false) × Fits (dumps_size arguments)
