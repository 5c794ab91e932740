-- ===== src/Hubspot/Arguments.antt =====
-- The search for credentials in the arguments of a tool, of app/policies/hubspot.py.
use brunova_knowledge_gatewa.Prelude.{String, ◌≡◌, true, ◌↔◌, arith, Bool-cases, inl, inr}
use brunova_knowledge_gatewa.Json.{Json, Items, Fields, array, object, nil, cons, end, field}
use brunova_knowledge_gatewa.Hubspot.{contains_sensitive_key, any_item, any_field, is_sensitive}

-- A key occurs in a value, at any depth.
mutual
  pub data Occurs (key : String) : Json → Type 0 where
    in_object : {fields : Fields} → OccursField key fields → Occurs key (object fields)
    in_array : {items : Items} → OccursItem key items → Occurs key (array items)

  pub data OccursItem (key : String) : Items → Type 0 where
    first_item :
        {child : Json} {items : Items} → Occurs key child → OccursItem key (cons child items)
    later_item :
        {child : Json} {items : Items} → OccursItem key items → OccursItem key (cons child items)

  pub data OccursField (key : String) : Fields → Type 0 where
    named : {child : Json} {fields : Fields} → OccursField key (field key child fields)
    below :
        {k : String} {child : Json} {fields : Fields}
        → Occurs key child
        → OccursField key (field k child fields)
    later_field :
        {k : String} {child : Json} {fields : Fields}
        → OccursField key fields
        → OccursField key (field k child fields)

module _ (casefold : String → String) where
  mutual
    unfolding contains_sensitive_key any_item any_field

    find_key :
        (value : Json)
        → contains_sensitive_key casefold value ≡ true
        → (key : String) × (is_sensitive casefold key ≡ true) × Occurs key value
    find_key (object fields) h = let (key, s, o) = find_field fields h in (key, s, in_object o)
    find_key (array items) h = let (key, s, o) = find_item items h in (key, s, in_array o)
    find_key Json.null h = cc
    find_key (Json.boolean b) h = cc
    find_key (Json.number n) h = cc
    find_key (Json.text s) h = cc

    find_item :
        (items : Items)
        → any_item casefold items ≡ true
        → (key : String) × (is_sensitive casefold key ≡ true) × OccursItem key items
    find_item nil h = cc
    find_item (cons child items) h = elim (Bool-cases (contains_sensitive_key casefold child)) [
      | inl here ↦ let (key, s, o) = find_key child here in (key, s, first_item o)
      | inr other ↦ let (key, s, o) = find_item items (ground arith) in (key, s, later_item o)
    ]

    find_field :
        (fields : Fields)
        → any_field casefold fields ≡ true
        → (key : String) × (is_sensitive casefold key ≡ true) × OccursField key fields
    find_field end h = cc
    find_field (field k child fields) h = elim (Bool-cases (is_sensitive casefold k)) [
      | inl here ↦ (k, here, named)
      | inr other ↦ elim (Bool-cases (contains_sensitive_key casefold child)) [
        | inl deep ↦ let (key, s, o) = find_key child deep in (key, s, below o)
        | inr shallow ↦
            let (key, s, o) = find_field fields (ground arith) in (key, s, later_field o)
      ]
    ]

  module _ (key : String) (sensitive : is_sensitive casefold key ≡ true) where
    mutual
      unfolding contains_sensitive_key any_item any_field

      found_key : (value : Json) → Occurs key value → contains_sensitive_key casefold value ≡ true
      found_key (object fields) (in_object o) = found_field fields o
      found_key (array items) (in_array o) = found_item items o
      found_key Json.null o = elim o [ ]
      found_key (Json.boolean b) o = elim o [ ]
      found_key (Json.number n) o = elim o [ ]
      found_key (Json.text s) o = elim o [ ]

      found_item : (items : Items) → OccursItem key items → any_item casefold items ≡ true
      found_item nil o = elim o [ ]
      found_item (cons child items) (first_item o) = ground (arith, found_key child o)
      found_item (cons child items) (later_item o) = ground (arith, found_item items o)

      found_field : (fields : Fields) → OccursField key fields → any_field casefold fields ≡ true
      found_field end o = elim o [ ]
      found_field (field k child fields) named = ground arith
      found_field (field k child fields) (below o) = ground (arith, found_key child o)
      found_field (field k child fields) (later_field o) = ground (arith, found_field fields o)

  -- The search finds a credential exactly if a sensitive name, in any case, is the key of an entry at
  -- any depth, through objects and arrays.
  pub contains_sensitive_key_iff :
      (value : Json)
      → (contains_sensitive_key casefold value ≡ true)
        ↔ ((key : String) × (is_sensitive casefold key ≡ true) × Occurs key value)
  contains_sensitive_key_iff value =
      (find_key value, λ (key, sensitive, o). found_key key sensitive value o)
