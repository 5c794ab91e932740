-- ===== src/Tools/Execution.antt =====
-- What `_execute_tool` of app/mcp_server.py lets a developer do.
use brunova_knowledge_gatewa.Prelude.{
  subst, String, ◌≡◌, ◌⊎◌, refl, sym, ap, ◌∙◌, Bool, true, Option, none, some, List, Option-cases,
  inl, inr,
}
use brunova_knowledge_gatewa.Errors.{
  Error, Result, ok, err, adapter, object_conflict, value_error, type_error, assertion_error,
  key_error, os_error, http_exception, >>=-eq-ok, ok-injective,
}
use brunova_knowledge_gatewa.Exec.{Exec, pair_eq}
use brunova_knowledge_gatewa.Json.{lookup}
use brunova_knowledge_gatewa.Registry
use brunova_knowledge_gatewa.Registry.{Classification, SourceDefinition, SourceRegistry}
use brunova_knowledge_gatewa.Principals.{
  Principal, developer, Capability, authorize_workspace_operation,
}
use brunova_knowledge_gatewa.Principals.Scopes.{MayOperate, authorize_workspace_operation_iff}
use brunova_knowledge_gatewa.Tools.Audit.{
  AuditRecord, Details, Callbacks, ToolCall, describe, with_details, conclude,
}
use brunova_knowledge_gatewa.Tools.{
  tool_capabilities, registered_source, is_developer, truthy, for_developer, check_destination,
  checked_source, check_scope, check_call, run, execute_tool,
}

-- The principal may use the capability on the registered source of the id.
abbrev pub MayOperateOn : SourceRegistry → Principal → Capability → String → Type 0
MayOperateOn registry p capability source_id =
    (source : SourceDefinition) × (Registry.get registry source_id ≡ some source)
    × MayOperate p capability (some source)

abbrev pub MayReach : SourceRegistry → Principal → Capability → Option String → Type 0
MayReach registry p capability none = Unit
MayReach registry p capability (some destination_id) =
    MayOperateOn registry p capability destination_id

-- What a call on a source, if one is named, and on a destination needs; a destination is looked at
-- beside a source only.
abbrev pub MayCallOn :
    SourceRegistry → Principal → Capability → Option String → Option String → Type 0
MayCallOn registry p capability none destination = MayOperate p capability none
MayCallOn registry p capability (some source_id) destination =
    MayOperateOn registry p capability source_id × MayReach registry p capability destination

registered_source-eq-ok :
    (registry : SourceRegistry) (id : String) (source : SourceDefinition)
    → registered_source registry id ≡ ok source
    → Registry.get registry id ≡ some source
unfolding registered_source
registered_source-eq-ok registry id source h = elim (Option-cases (Registry.get registry id)) [
  | inl nothing ↦ cc (rw (nothing, registered_source) at h)
  | inr (x, e) ↦
      let same : x ≡ source = ok-injective (rw (e, registered_source) at h) in e ∙ ap some same
]

module _ (p : Principal) (is_dev : p.type ≡ developer) where
  for_developer_checked :
      (check : Result (Unit {0})) (u : Unit {0}) → for_developer p check ≡ ok u → check ≡ ok u
  for_developer_checked check u h =
      let dev : is_developer p.type ≡ true = ap is_developer is_dev in rw dev at h

  check_destination-MayReach :
      (registry : SourceRegistry) (c : Capability) (destination : Option String) (u : Unit {0})
      → check_destination registry p (some c) destination ≡ ok u
      → MayReach registry p c destination
  unfolding check_destination
  check_destination-MayReach registry c none u h = tt
  check_destination-MayReach registry c (some id) u h =
      let (source, e, h1) =
        >>=-eq-ok (registered_source registry id) _ (for_developer_checked _ u h) in
      (
        source,
        registered_source-eq-ok registry id source e,
        (authorize_workspace_operation_iff p c (some source)).0 h1,
      )

  with_source-MayCallOn :
      (registry : SourceRegistry) (c : Capability) (destination : Option String) (u : Unit {0})
      (source_id : String) (found : Result SourceDefinition)
      → registered_source registry source_id ≡ found
      → (checked_source registry p (some c) destination found).1 ≡ ok u
      → MayOperateOn registry p c source_id × MayReach registry p c (truthy destination)
  with_source-MayCallOn registry c destination u source_id (err e) was h = cc
  with_source-MayCallOn registry c destination u source_id (ok source) was h =
      let (v, e, h1) =
        >>=-eq-ok (for_developer p (authorize_workspace_operation p c (some source))) _ h in
      (
        (
          source,
          registered_source-eq-ok registry source_id source was,
          (authorize_workspace_operation_iff p c (some source)).0
              (for_developer_checked (authorize_workspace_operation p c (some source)) v e),
        ),
        check_destination-MayReach registry c (truthy destination) u h1,
      )

  check_scope-MayCallOn :
      (registry : SourceRegistry) (c : Capability) (source destination : Option String)
      (u : Unit {0})
      → (check_scope registry p (some c) source destination).1 ≡ ok u
      → MayCallOn registry p c source (truthy destination)
  unfolding check_scope
  check_scope-MayCallOn registry c none destination u h =
      (authorize_workspace_operation_iff p c none).0
        (for_developer_checked (authorize_workspace_operation p c none) u h)
  check_scope-MayCallOn registry c (some source_id) destination u h =
      with_source-MayCallOn registry c destination u source_id
        (registered_source registry source_id) refl h

  check_call-MayCallOn :
      (registry : SourceRegistry) (o : Option Capability) (source destination : Option String)
      (u : Unit {0})
      → (check_call (ok registry) p o source destination).1 ≡ ok u
      → (c : Capability) × (o ≡ some c)
        × MayCallOn registry p c (truthy source) (truthy destination)
  unfolding check_call
  check_call-MayCallOn registry none source destination u h =
      let dev : is_developer p.type ≡ true = ap is_developer is_dev in cc (rw dev at h)
  check_call-MayCallOn registry (some c) source destination u h =
      (c, refl, check_scope-MayCallOn registry c (truthy source) destination u h)

module _ {T : Type 0} where
  -- What the answer of an operation becomes: itself, unless a callback raises on its result.
  abbrev pub IsAnswer : Callbacks T → Option String → Result T → Result T → Type 0
  IsAnswer callbacks resource_id raised r =
      (r ≡ raised)
      ⊎ ((t : T) × (e : Error) × (raised ≡ ok t)
          × (describe callbacks resource_id t ≡ err e)
          × (r ≡ err e))

  with_details_cases :
      (callbacks : Callbacks T) (resource_id : Option String) (raised : Result T)
      → ((t : T) × (details : Details) × (raised ≡ ok t)
          × (with_details callbacks resource_id raised ≡ ok (t, details)))
        ⊎ ((e : Error) × (with_details callbacks resource_id raised ≡ err e)
            × IsAnswer callbacks resource_id raised (err e))
  with_details_cases callbacks resource_id (err e) = inr (e, refl, inl refl)
  with_details_cases callbacks resource_id (ok t) =
      on_details (describe callbacks resource_id t) refl
    where
      on_details :
          (d : Result Details)
          → describe callbacks resource_id t ≡ d
          → ((u : T) × (details : Details) × (◌≡◌ {A = Result T} (ok t) (ok u))
              × (with_details callbacks resource_id (ok t) ≡ ok (u, details)))
            ⊎ ((e : Error) × (with_details callbacks resource_id (ok t) ≡ err e)
                × IsAnswer callbacks resource_id (ok t) (err e))
      on_details (ok details) h = inl (t, details, refl, rw h refl)
      on_details (err e) h = inr (e, rw h refl, inr (t, e, refl, h, refl))

  module _ (enabled : Bool) (request : ToolCall) (classification : Option Classification)
      (log : List AuditRecord) where
    conclude-err :
        (e : Error) → (conclude {T = T} enabled request classification (err e) log).0 ≡ err e
    conclude-err (adapter code status) = refl
    conclude-err object_conflict = refl
    conclude-err value_error = refl
    conclude-err type_error = refl
    conclude-err assertion_error = refl
    conclude-err key_error = refl
    conclude-err os_error = refl
    conclude-err (http_exception n) = refl

    conclude-IsAnswer :
        (callbacks : Callbacks T) (raised : Result T)
        → IsAnswer callbacks request.resource_id raised
            (conclude enabled request classification
              (with_details callbacks request.resource_id raised)
              log).0
    conclude-IsAnswer callbacks raised =
        elim (with_details_cases callbacks request.resource_id raised) [
          | inl (t, details, e, described_it) ↦ inl (rw described_it (sym e))
          | inr (e, stopped, answer) ↦
              subst (IsAnswer callbacks request.resource_id raised)
                (sym (
                  ap (λ x. (conclude enabled request classification x log).0) stopped
                  ∙ conclude-err e))
                answer
        ]

module _ {S T : Type 0} where
  -- whether the checks let the call through
  run_cases :
      (checks : Result (Unit {0})) (operation : Exec S T) (s : S)
      → ((u : Unit {0}) × (checks ≡ ok u) × (run checks operation s ≡ operation s))
        ⊎ ((e : Error) × (run checks operation s ≡ (err e, s)))
  run_cases (ok u) operation s = inl (u, refl, refl)
  run_cases (err e) operation s = inr (e, refl)

  -- A developer's tool call either raises and leaves the services as they were, or it ran the operation
  -- and the developer was entitled to it: the tool has a capability, and the developer may use it
  -- on the registered source that the call names and on the registered destination, or, if it names
  -- no source, may use it at all. In the second case the services are as the operation left them, and
  -- the answer is that of the operation, unless it returned and a callback raised on its result.
  pub execute_tool-MayCallOn :
      (enabled : Bool) (p : Principal) (registry : SourceRegistry) (request : ToolCall)
      (callbacks : Callbacks T) (operation : Exec S T) (s s' : S) (log log' : List AuditRecord)
      (r : Result T)
      → p.type ≡ developer
      → execute_tool enabled (ok registry) p request callbacks operation (s, log) ≡ (r, (s', log'))
      → ((s' ≡ s) × (e : Error) × (r ≡ err e))
        ⊎ ((capability : Capability) × (raised : Result T) × (lookup request.action
                tool_capabilities
              ≡ some capability)
            × MayCallOn registry p capability
                (truthy request.source_id)
                (truthy request.destination_source_id)
            × (operation s ≡ (raised, s'))
            × IsAnswer callbacks request.resource_id raised r)
  unfolding execute_tool
  execute_tool-MayCallOn enabled p registry request callbacks operation s s' log log' r is_dev h =
      let (classification, checks) =
        check_call (ok registry) p (lookup request.action tool_capabilities) request.source_id
          request.destination_source_id in
      let result : (conclude enabled request classification
            (with_details callbacks request.resource_id (run checks operation s).0) log).0
          ≡ r =
        ap (λ x. x.0) h in
      let state : (run checks operation s).1 ≡ s' = ap (λ x. x.1.0) h in
      elim (run_cases checks operation s) [
        | inr (e, stopped) ↦ inl (
          sym state ∙ ap (λ x. x.1) stopped,
          e,
          sym result
              ∙ ap
                  (λ (x : Result T × S).
                    (conclude enabled request classification
                      (with_details callbacks request.resource_id x.0) log).0)
                  stopped
              ∙ conclude-err enabled request classification log e,
        )
        | inl (u, passed, ran) ↦
            let (c, listed, may) =
              check_call-MayCallOn p is_dev registry (lookup request.action tool_capabilities)
                request.source_id request.destination_source_id u passed in
            inr (
              c,
              (run checks operation s).0,
              listed,
              may,
              sym ran ∙ pair_eq refl state,
              subst (IsAnswer callbacks request.resource_id (run checks operation s).0) result (
                  conclude-IsAnswer enabled request classification log callbacks
                    (run checks operation s).0),
            )
      ]
