-- ===== src/Registry/Unique.antt =====
-- What the uniqueness check of source_registry.py gives: lookups by id and by location are exact.
use mathlib.Core.List.{Memᴰ}
use brunova_knowledge_gatewa.Prelude.{
  ◌≤◌, String, ◌≡◌, refl, ◌==◌, true, false, List, [], ◌∷◌, map, some, arith, find, keep, elem,
  length, elem-map_of_listed, Distinct, Distinct-dedupe, eq_iff, eq_refl, eqb_iff, inl, inr,
  Bool-cases,
}
use brunova_knowledge_gatewa.Errors.{ok}
use brunova_knowledge_gatewa.Registry.{
  SourceDefinition, SourceRegistry, from_document, get, sources_for_location, ids, locations,
  is_unique,
}

Distinct-of_is_unique : (xs : List String) → is_unique xs ≡ true → Distinct xs
unfolding is_unique
Distinct-of_is_unique xs h = (Distinct-dedupe xs).0 ((eqb_iff _ _).0 h)

find_listed :
    (s : SourceDefinition) (xs : List SourceDefinition)
    → Distinct (ids xs)
    → Memᴰ s xs
    → find (λ x. x.id == s.id) xs ≡ some s
find_listed s [] d m = elim m [ ]
find_listed s (x ∷ xs) (_, d) (Memᴰ.head e) = rw (← e) (ground (arith, eq_refl s.id))
find_listed s (x ∷ xs) (fresh, d) (Memᴰ.tail m) = ground (
  arith,
  find_listed s xs d m,
  eq_iff x.id s.id,
  elem-map_of_listed (λ (y : SourceDefinition). y.id) s xs m,
)

-- In a registry that was loaded, looking up the id of a listed source finds that source.
pub get_listed :
    (document : List SourceDefinition) (registry : SourceRegistry) (s : SourceDefinition)
    → from_document document ≡ ok registry
    → Memᴰ s registry.sources
    → get registry s.id ≡ some s
unfolding from_document get
get_listed document registry s h m = ground (
  arith,
  find_listed s registry.sources (Distinct-of_is_unique (ids registry.sources) (ground arith)) m,
)

length-keep_absent :
    (f : SourceDefinition → String) (l : String) (xs : List SourceDefinition)
    → elem l (map f xs) ≡ false
    → length (keep (λ x. f x == l) xs) ≡ 0
length-keep_absent f l [] h = refl
length-keep_absent f l (x ∷ xs) h =
    ground (arith, length-keep_absent f l xs, eq_iff (f x) l, eq_iff l (f x))

length-keep-Distinct :
    (f : SourceDefinition → String) (l : String) (xs : List SourceDefinition)
    → Distinct (map f xs)
    → length (keep (λ x. f x == l) xs) ≤ 1
length-keep-Distinct f l [] h = omega arith
length-keep-Distinct f l (x ∷ xs) (fresh, h) = elim (Bool-cases (f x == l)) [
  | inl here ↦
      rw here (omega (arith, length-keep_absent f l xs (rw (← (eq_iff (f x) l).0 here) fresh)))
  | inr other ↦ rw other (length-keep-Distinct f l xs h)
]

-- At most one source of a loaded registry stands at a location.
pub length-sources_for_location :
    (document : List SourceDefinition) (registry : SourceRegistry) (location : String)
    → from_document document ≡ ok registry
    → length (sources_for_location registry location) ≤ 1
unfolding from_document sources_for_location
length-sources_for_location document registry location h =
    length-keep-Distinct (λ x. x.location_id) location registry.sources
      (ground (arith, Distinct-of_is_unique (locations registry.sources)))
