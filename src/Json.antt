-- ===== src/Json.antt =====
-- JSON values, as Python's `json` reads them. A number is kept as its text: no modelled code computes
-- with it. A `dict` is the list of its entries, with one entry for each key.
use brunova_knowledge_gatewa.Prelude.{
  String, ◌==◌, ◌≡◌, refl, Bool, Option, none, some, List, [], ◌∷◌, arith, eq_iff, if◌then◌else◌,
  map,
}

mutual
  pub data Json : Type 0 where
    null : Json
    boolean : Bool → Json
    number : String → Json
    text : String → Json
    array : Items → Json
    object : Fields → Json

  pub data Items : Type 0 where
    nil : Items
    cons : Json → Items → Items

  pub data Fields : Type 0 where
    end : Fields
    field : String → Json → Fields → Fields

module _ {ℓ} {V : Type ℓ} where
  -- d.get(key)
  unfoldable pub lookup : String → List (String × V) → Option V
  lookup key [] = none
  lookup key ((k, v) ∷ d) = if k == key then some v else lookup key d

  -- d[key] = value
  unfoldable pub put : String → V → List (String × V) → List (String × V)
  put key value [] = (key, value) ∷ []
  put key value ((k, v) ∷ d) = if k == key then (k, value) ∷ d else (k, v) ∷ put key value d

  pub lookup-put :
      (key j : String) (value : V) (d : List (String × V))
      → lookup j (put key value d) ≡ (if key == j then some value else lookup j d)
  unfolding lookup put
  lookup-put key j value [] = refl
  lookup-put key j value ((k, v) ∷ d) =
      ground (arith, eq_iff key j, eq_iff k key, eq_iff k j, lookup-put key j value d)

  -- Writing what is there changes nothing.
  pub put_same :
      (key : String) (value : V) (d : List (String × V))
      → lookup key d ≡ some value
      → put key value d ≡ d
  unfolding lookup put
  put_same key value [] h = cc
  put_same key value ((k, v) ∷ d) h = ground (arith, put_same key value d)

  -- set(d)
  abbrev pub keys : List (String × V) → List String
  keys = map (λ e. e.0)
