-- ===== src/Tools/Catalog.antt =====
-- The tools that a developer may call and sees, after app/mcp_server.py.
use brunova_knowledge_gatewa.Prelude.{
  ℕ, String, ◌==◌, ◌≡◌, ◌↔◌, refl, sym, ap, ◌∙◌, subst, Bool, true, false, not, ◌&&◌, Option, none,
  some, List, [], ◌∷◌, any, all, keep, elem, eqb, arith, eq_iff, eqb_iff, Bool-cases, inl, inr,
  if◌then◌else◌,
}
use mathlib.Core.List.{Memᴰ}
use brunova_knowledge_gatewa.Prelude.Text.{starts_with}
use brunova_knowledge_gatewa.Errors.{Code, provider_denied}
use brunova_knowledge_gatewa.Json.{lookup}
use brunova_knowledge_gatewa.Registry.{SourceDefinition, SourceRegistry}
use brunova_knowledge_gatewa.Principals.{
  Principal, developer, Provider, Capability, allows_provider, allows_capability,
}
use brunova_knowledge_gatewa.Tools.{
  management_only_tools, tool_capabilities, tool_provider, has_provider, capability_error,
  developer_error, error_of, tool_authorization_error, all_capabilities, usable_source,
  capabilities_of, effective_developer_capabilities, capability_index, has_capability, shows,
  principal_can_see_tool, is_management,
}

all-lookup :
    {V : Type 0} (p : String → Bool) (key : String) (v : V) (entries : List (String × V))
    → all (λ e. p e.0) entries ≡ true
    → lookup key entries ≡ some v
    → p key ≡ true
unfolding lookup
all-lookup p key v [] every found = cc
all-lookup p key v ((k, w) ∷ entries) every found = elim (Bool-cases (k == key)) [
  | inl here ↦ subst (λ (x : String). p x ≡ true) ((eq_iff k key).0 here) (ground (arith, every))
  | inr there ↦ all-lookup p key v entries (ground (arith, every)) (rw (there, lookup) at found)
]

-- a name that the table of capabilities may hold: of the Workspace, and not of the acquisition tools
abbrev is_workspace_name : String → Bool
is_workspace_name name =
    not (starts_with "acquisition_" name)
    && elim (tool_provider name) [ some Provider.workspace ↦ true | _ ↦ false ]

table_of_workspace : all (λ e. is_workspace_name e.0) tool_capabilities ≡ true
unfolding tool_capabilities tool_provider
table_of_workspace = refl

workspace_name_parts :
    (name : String)
    → is_workspace_name name ≡ true
    → (starts_with "acquisition_" name ≡ false) × (tool_provider name ≡ some Provider.workspace)
workspace_name_parts name h = parts (starts_with "acquisition_" name) (tool_provider name) h
  where
    parts :
        (acquisition : Bool) (provider : Option Provider)
        → (not acquisition && elim provider [ some Provider.workspace ↦ true | _ ↦ false ]) ≡ true
        → (acquisition ≡ false) × (provider ≡ some Provider.workspace)
    parts true provider k = cc
    parts false none k = cc
    parts false (some Provider.workspace) k = (refl, refl)
    parts false (some Provider.hubspot) k = cc
    parts false (some Provider.n8n) k = cc
    parts false (some Provider.openwa) k = cc

-- What lets a developer call a tool.
abbrev pub MayUse : Principal → String → Type 0
MayUse p name =
    (capability : Capability) × (lookup name tool_capabilities ≡ some capability)
    × (elem name management_only_tools ≡ false)
    × (allows_provider p Provider.workspace ≡ true)
    × (allows_capability p capability ≡ true)

capability_error-eq-none :
    (p : Principal) (o : Option Capability)
    → capability_error p o ≡ none
    → (capability : Capability) × (o ≡ some capability) × (allows_capability p capability ≡ true)
capability_error-eq-none p none h = cc
capability_error-eq-none p (some c) h = (c, refl, ground (arith, h))

module _ (p : Principal) (name : String) where
  developer_error-MayUse : developer_error p name ≡ none → MayUse p name
  developer_error-MayUse h = elim (Bool-cases (elem name management_only_tools)) [
    | inl managed ↦ cc (rw managed at h)
    | inr open_to ↦
        let h1 : (if not (has_provider p (tool_provider name))
              then some provider_denied
              else capability_error p (lookup name tool_capabilities))
            ≡ none =
          rw open_to at h in
        elim (Bool-cases (has_provider p (tool_provider name))) [
          | inr refused ↦ cc (rw refused at h1)
          | inl given ↦
              let (c, listed, allowed) =
                capability_error-eq-none p (lookup name tool_capabilities) (rw given at h1) in
              let (_, workspace) =
                workspace_name_parts name (
                  all-lookup is_workspace_name name c tool_capabilities table_of_workspace
                    listed) in
              (c, listed, open_to, rw workspace at given, allowed)
        ]
  ]

  MayUse-developer_error : MayUse p name → developer_error p name ≡ none
  MayUse-developer_error (c, listed, open_to, provider, allowed) =
      let (_, workspace) =
        workspace_name_parts name
          (all-lookup is_workspace_name name c tool_capabilities table_of_workspace listed) in
      rw (open_to, workspace, provider, listed, allowed)

  -- A developer may call a tool exactly if the table of capabilities lists it with a capability that
  -- the developer holds, it is no management tool and the developer holds the Workspace
  -- provider.
  pub tool_authorization_error-MayUse :
      p.type ≡ developer → (tool_authorization_error p name ≡ none) ↔ MayUse p name
  unfolding tool_authorization_error
  tool_authorization_error-MayUse is_dev =
      let as_developer : error_of p.type p name ≡ developer_error p name =
        ap (λ t. error_of t p name) is_dev in
      let no_manager : is_management p.type ≡ false = ap is_management is_dev in
      (
        λ (h : tool_authorization_error p name ≡ none).
            elim (Bool-cases (starts_with "acquisition_" name)) [
              | inl acquisition ↦ cc (rw (acquisition, no_manager, tool_authorization_error) at h)
              | inr ordinary ↦
                  developer_error-MayUse
                    (sym as_developer ∙ rw (ordinary, tool_authorization_error) at h)
            ],
        λ (may : MayUse p name).
            let (ordinary, _) = workspace_name_parts name (
              all-lookup is_workspace_name name may.0 tool_capabilities table_of_workspace may.1) in
            rw ordinary (as_developer ∙ MayUse-developer_error may),
      )

any-Mem :
    {A : Type 0} (q : A → Bool) (xs : List A) → any q xs ≡ true → (x : A) × Memᴰ x xs × (q x ≡ true)
any-Mem q [] h = cc
any-Mem q (x ∷ xs) h = elim (Bool-cases (q x)) [
  | inl here ↦ (x, Memᴰ.head refl, here)
  | inr there ↦ let (y, m, found) = any-Mem q xs (rw there at h) in (y, Memᴰ.tail m, found)
]

any-keep :
    {A : Type 0} (q r : A → Bool) (xs : List A)
    → any q (keep r xs) ≡ true
    → (x : A) × (q x ≡ true) × (r x ≡ true)
any-keep q r [] h = cc
any-keep q r (x ∷ xs) h = elim (Bool-cases (r x)) [
  | inr dropped ↦ any-keep q r xs (rw dropped at h)
  | inl kept ↦ elim (Bool-cases (q x)) [
    | inl here ↦ (x, here, kept)
    | inr there ↦ any-keep q r xs (rw (kept, there) at h)
  ]
]

abbrev capability_at : ℕ → Capability
capability_at n =
    if eqb n 0
    then Capability.read
    else if eqb n 1
    then Capability.create
    else if eqb n 2
    then Capability.update
    else if eqb n 3
    then Capability.move
    else if eqb n 4
    then Capability.delete
    else if eqb n 5
    then Capability.share
    else Capability.convert

capability_at-capability_index : (c : Capability) → capability_at (capability_index c) ≡ c
capability_at-capability_index Capability.read = refl
capability_at-capability_index Capability.create = refl
capability_at-capability_index Capability.update = refl
capability_at-capability_index Capability.move = refl
capability_at-capability_index Capability.delete = refl
capability_at-capability_index Capability.share = refl
capability_at-capability_index Capability.convert = refl

shows-parts :
    (o : Option Code) (capability : Option Capability) (effective : List Capability)
    → shows o capability (some effective) ≡ true
    → (o ≡ none) × (has_capability capability effective ≡ true)
shows-parts none capability effective h = (refl, h)
shows-parts (some e) capability effective h = cc

-- A tool that a developer sees is one that it may call, and the registry has an active source on
-- which the developer may use the tool's capability: the source is in its scope and allows the capability.
pub principal_can_see_tool-usable :
    (p : Principal) (name : String) (registry : SourceRegistry)
    → p.type ≡ developer
    → principal_can_see_tool p name (effective_developer_capabilities p (some registry)) ≡ true
    → MayUse p name
      × (capability : Capability) × (lookup name tool_capabilities ≡ some capability)
      × (source : SourceDefinition) × Memᴰ source registry.sources
      × (usable_source p capability source ≡ true)
unfolding principal_can_see_tool effective_developer_capabilities
principal_can_see_tool-usable p name registry is_dev h =
    let held : Capability → Bool =
      λ c. allows_capability p c && any (usable_source p c) registry.sources in
    let effective : capabilities_of p.type p registry.sources ≡ some (keep held all_capabilities) =
      ap (λ t. capabilities_of t p registry.sources) is_dev in
    let shown : shows (tool_authorization_error p name) (lookup name tool_capabilities)
          (some (keep held all_capabilities))
        ≡ true =
      ap (shows (tool_authorization_error p name) (lookup name tool_capabilities)) (sym effective)
      ∙ h in
    let (callable, has) =
      shows-parts (tool_authorization_error p name) (lookup name tool_capabilities)
        (keep held all_capabilities) shown in
    let may : MayUse p name = (tool_authorization_error-MayUse p name is_dev).0 callable in
    let has_it : any (λ c. eqb (capability_index c) (capability_index may.0))
          (keep held all_capabilities)
        ≡ true =
      ap (λ o. has_capability o (keep held all_capabilities)) (sym may.1) ∙ has in
    let (c, same_index, is_held) =
      any-keep (λ c. eqb (capability_index c) (capability_index may.0)) held all_capabilities
        has_it in
    let index : capability_index c ≡ capability_index may.0 =
      (eqb_iff (capability_index c) (capability_index may.0)).0 same_index in
    let same : c ≡ may.0 =
      sym (capability_at-capability_index c)
      ∙ ap capability_at index
      ∙ capability_at-capability_index may.0 in
    let on_some : any (usable_source p c) registry.sources ≡ true = ground (arith, is_held) in
    let (source, m, usable) = any-Mem (usable_source p c) registry.sources on_some in
    (
      may,
      may.0,
      may.1,
      source,
      m,
      subst (λ (x : Capability). usable_source p x source ≡ true) same usable,
    )
