-- ===== src/History/Confinement.antt =====
-- Which entries `list_authorized_operation_history` of app/operation_history.py shows.
use brunova_knowledge_gatewa.Prelude.{
  ℕ, zero, suc, ◌*◌, ◌≤◌, min, find, String, ◌==◌, ◌≡◌, refl, sym, ap, ◌∙◌, subst, Bool, true,
  false, Option, none, some, List, [], ◌∷◌, keep, take, elem, length, length-take, All, arith,
  eq_iff, Bool-cases, Option-cases, inl, inr,
}
use brunova_knowledge_gatewa.Errors.{
  Result, ok, err, ok-injective, require, operation_history_limit_invalid,
}
use brunova_knowledge_gatewa.Exec.{Exec, pure, lift, bind-eq-ok}
use brunova_knowledge_gatewa.Registry
use brunova_knowledge_gatewa.Registry.{SourceDefinition, SourceRegistry, is_active}
use brunova_knowledge_gatewa.SourceAccess.{
  SourceAccessPolicy, AllowedSource, authorize_source, authorize_registered,
}
use brunova_knowledge_gatewa.SourceAccess.Confinement.{same_source_iff}
use brunova_knowledge_gatewa.History.{
  max_operation_history_limit, returned, authorized_ids, selected_ids, allowed_source_ids,
  is_in_range, visible, fetched, listed_for, list_authorized_operation_history,
}

-- An id is that of a registered source that is active and whose location is not blocked.
abbrev pub IsOpen : SourceAccessPolicy → String → Type 0
IsOpen policy id =
    (source : SourceDefinition) × (source.id ≡ id)
    × (Registry.get policy.registry source.id ≡ some source)
    × (elem source.location_id policy.blocked ≡ false)
    × (is_active source.status ≡ true)

authorize_registered_open :
    (policy : SourceAccessPolicy) (source : SourceDefinition) (o : Option SourceDefinition)
    (allowed : AllowedSource)
    → authorize_registered policy source false o ≡ ok allowed
    → (o ≡ some source)
      × (elem source.location_id policy.blocked ≡ false)
      × (is_active source.status ≡ true)
unfolding authorize_registered
authorize_registered_open policy source none allowed h = cc
authorize_registered_open policy source (some registered) allowed h = (
  ap some ((same_source_iff registered source).0 (ground (arith, h))),
  ground (arith, h),
  ground (arith, h),
)

authorize_source-IsOpen :
    (policy : SourceAccessPolicy) (source : SourceDefinition) (allowed : AllowedSource)
    → authorize_source policy source false ≡ ok allowed
    → IsOpen policy source.id
unfolding authorize_source
authorize_source-IsOpen policy source allowed h =
    let (registered, unblocked, active) =
      authorize_registered_open policy source (Registry.get policy.registry source.id) allowed h in
    (source, refl, registered, unblocked, active)

returned-eq-true :
    (r : Result AllowedSource) → returned r ≡ true → (allowed : AllowedSource) × (r ≡ ok allowed)
returned-eq-true (ok allowed) h = (allowed, refl)
returned-eq-true (err e) h = cc

authorized_ids-IsOpen :
    (policy : SourceAccessPolicy) (sources : List SourceDefinition) (id : String)
    → elem id (authorized_ids policy sources) ≡ true
    → IsOpen policy id
unfolding authorized_ids
authorized_ids-IsOpen policy [] id h = cc
authorized_ids-IsOpen policy (source ∷ sources) id h =
    elim (Bool-cases (returned (authorize_source policy source false))) [
      | inr refused ↦ authorized_ids-IsOpen policy sources id (rw (refused, authorized_ids) at h)
      | inl passed ↦ elim (Bool-cases (id == source.id)) [
        | inr other ↦
            authorized_ids-IsOpen policy sources id (rw (passed, other, authorized_ids) at h)
        | inl same ↦
            let (allowed, e) = returned-eq-true (authorize_source policy source false) passed in
            subst (IsOpen policy) (sym ((eq_iff id source.id).0 same))
              (authorize_source-IsOpen policy source allowed e)
      ]
    ]

selected_ids-eq-ok :
    (r : Result AllowedSource) (source_id : String) (ids : List String)
    → selected_ids r source_id ≡ ok ids
    → (allowed : AllowedSource) × (r ≡ ok allowed) × (source_id ∷ [] ≡ ids)
selected_ids-eq-ok (ok allowed) source_id ids h = (allowed, refl, ok-injective h)
selected_ids-eq-ok (err e) source_id ids h = cc

id_of_found :
    (id : String) (sources : List SourceDefinition) (source : SourceDefinition)
    → find (λ x. x.id == id) sources ≡ some source
    → source.id ≡ id
id_of_found id [] source h = cc
id_of_found id (x ∷ xs) source h = elim (Bool-cases (x.id == id)) [
  | inr other ↦ id_of_found id xs source (rw other at h)
  | inl here ↦
      let same : some x ≡ some source = rw here at h in
      let first : x ≡ source = ap (elim [ none ↦ x | some y ↦ y ]) same in
      subst (λ (y : SourceDefinition). y.id ≡ id) first ((eq_iff x.id id).0 here)
]

found_in :
    (registry : SourceRegistry) (id : String) (source : SourceDefinition)
    → Registry.get registry id ≡ some source
    → find (λ x. x.id == id) registry.sources ≡ some source
unfolding Registry.get
found_in registry id source h = h

-- An id that the query may show: of an open source, and the one that was asked for, if one was.
abbrev pub IsAsked : Option String → String → Type 0
IsAsked none id = Unit
IsAsked (some source_id) id = id ≡ source_id

in_range :
    (b : Bool) (u : Unit {0}) → require b operation_history_limit_invalid 422 ≡ ok u → b ≡ true
in_range true u h = refl
in_range false u h = cc

module _ {Entry : Type 0} (source_of : Entry → String) (ids : List String) where
  abbrev IsShown : List Entry → Type 0
  IsShown = All (λ entry. elem (source_of entry) ids ≡ true)

  All-mono :
      (P : String → Type 0)
      → ((id : String) → elem id ids ≡ true → P id)
      → (entries : List Entry) → IsShown entries
      → All (λ entry. P (source_of entry)) entries
  All-mono P f [] shown = tt
  All-mono P f (entry ∷ entries) (m, rest) = (f (source_of entry) m, All-mono P f entries rest)

  IsShown-keep :
      (entries : List Entry) → IsShown (keep (λ entry. elem (source_of entry) ids) entries)
  IsShown-keep [] = tt
  IsShown-keep (entry ∷ entries) = elim (Bool-cases (elem (source_of entry) ids)) [
    | inl stays ↦ rw stays (stays, IsShown-keep entries)
    | inr goes ↦ rw goes (IsShown-keep entries)
  ]

  IsShown-take : (n : ℕ) (entries : List Entry) → IsShown entries → IsShown (take n entries)
  IsShown-take zero entries shown = tt
  IsShown-take (suc n) [] shown = tt
  IsShown-take (suc n) (entry ∷ entries) (m, rest) = (m, IsShown-take n entries rest)

fetched-IsShown :
    {S Entry Operation : Type 0} (source_of : Entry → String)
    (list : Option String → Option Operation → ℕ → Exec S (List Entry)) (source_id : Option String)
    (operation : Option Operation) (limit : ℕ) (ids : List String) (entries : List Entry) (s s' : S)
    → fetched source_of list source_id operation limit ids s ≡ (ok entries, s')
    → (length entries ≤ limit) × IsShown source_of ids entries
fetched-IsShown source_of list source_id operation limit [] entries s s' h =
    let nothing : [] ≡ entries = ok-injective (ap (λ x. x.0) h) in
    subst (λ (x : List _). (length x ≤ limit) × IsShown source_of [] x) nothing (omega arith, tt)
fetched-IsShown source_of list source_id operation limit (id ∷ ids) entries s s' h =
    let (all_entries, s1, e, h1) =
      bind-eq-ok (list source_id operation (min (limit * 5) (max_operation_history_limit * 5)))
        (λ x. pure (visible source_of (id ∷ ids) limit x)) s s' entries h in
    let shown : visible source_of (id ∷ ids) limit all_entries ≡ entries =
      ok-injective (ap (λ x. x.0) h1) in
    subst (λ (x : List _). (length x ≤ limit) × IsShown source_of (id ∷ ids) x) shown
      (
        length-take limit (keep (λ entry. elem (source_of entry) (id ∷ ids)) all_entries),
        IsShown-take source_of (id ∷ ids) limit
            (keep (λ entry. elem (source_of entry) (id ∷ ids)) all_entries)
            (IsShown-keep source_of (id ∷ ids) all_entries),
      )

module _ (policy : SourceAccessPolicy) where
  allowed_source_ids-IsOpen :
      (source_id : Option String) (ids : List String) (id : String)
      → allowed_source_ids policy.registry policy source_id ≡ ok ids
      → elem id ids ≡ true
      → IsOpen policy id × IsAsked source_id id
  unfolding allowed_source_ids
  allowed_source_ids-IsOpen none ids id h m = (
    authorized_ids-IsOpen policy policy.registry.sources id (ap (elem id) (ok-injective h) ∙ m),
    tt,
  )
  allowed_source_ids-IsOpen (some source_id) ids id h m =
      elim (Option-cases (Registry.get policy.registry source_id)) [
        | inl nothing ↦ cc (rw (nothing, allowed_source_ids) at h)
        | inr (source, e) ↦
            let (allowed, authorized, single) =
              selected_ids-eq-ok (authorize_source policy source false) source_id ids
                (rw (e, allowed_source_ids) at h) in
            let listed : elem id (source_id ∷ []) ≡ true = ap (elem id) single ∙ m in
            let same : id ≡ source_id = ground (arith, listed, eq_iff id source_id) in
            let found : source.id ≡ source_id =
              id_of_found source_id policy.registry.sources source
                (found_in policy.registry source_id source e) in
            (
              subst (IsOpen policy) (found ∙ sym same)
                  (authorize_source-IsOpen policy source allowed authorized),
              same,
            )
      ]

  -- An answer has at most as many entries as were asked for, which is 1 to 50, and each is of
  -- a registered source that is active and not blocked when the query is answered, and of the source that was
  -- asked for if one was, whatever the store returned. The registry is that of the policy.
  pub list_authorized_operation_history-IsOpen :
      {S Entry Operation : Type 0} (source_of : Entry → String)
      (list : Option String → Option Operation → ℕ → Exec S (List Entry))
      (source_id : Option String) (operation : Option Operation) (limit : ℕ) (entries : List Entry)
      (s s' : S)
      → list_authorized_operation_history source_of list policy.registry policy source_id operation
          limit s
        ≡ (ok entries, s')
      → ((1 ≤ limit) × (limit ≤ 50))
        × (length entries ≤ limit)
        × All
            (λ entry. IsOpen policy (source_of entry) × IsAsked source_id (source_of entry))
            entries
  unfolding list_authorized_operation_history
  list_authorized_operation_history-IsOpen source_of list source_id operation limit entries s s' h =
      let (u, s1, e, h1) =
        bind-eq-ok (lift (require (is_in_range limit) operation_history_limit_invalid 422))
          (listed_for source_of list policy.registry policy source_id operation limit) s s' entries
          h in
      let (ids, s2, e2, h2) =
        bind-eq-ok (lift (allowed_source_ids policy.registry policy source_id))
          (fetched source_of list source_id operation limit) s1 s' entries h1 in
      let range : is_in_range limit ≡ true = in_range (is_in_range limit) u (ap (λ x. x.0) e) in
      let allowed = allowed_source_ids-IsOpen source_id ids in
      let (few, inside) =
        fetched-IsShown source_of list source_id operation limit ids entries s2 s' h2 in
      (
        (ground (arith, range), ground (arith, range)),
        few,
        All-mono source_of ids (λ id. IsOpen policy id × IsAsked source_id id)
            (λ id m. allowed id (ap (λ x. x.0) e2) m) entries inside,
      )
