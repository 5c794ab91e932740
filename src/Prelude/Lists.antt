-- ===== src/Prelude/Lists.antt =====
-- Lists measured by native numbers, and Boolean and propositional quantifiers over them.
use Prim.Native.Nat.{ℕ, zero, suc, ◌+◌, ◌≤◌}
use Prim.Native.String.{String}
use mathlib.Core.Path.{◌≡◌, refl, ap}
use mathlib.Core.Logic.{◌↔◌}
use mathlib.Core.Bool.{Bool, true, false, ◌&&◌, ◌||◌}
use mathlib.Core.List.{List, [], ◌∷◌, ◌++◌, map, Memᴰ}
use mathlib.Core.Option.{Option, none, some}
use native.Mathlib.Omega.{arith}
use text.Mathlib.Text.{◌==◌}
use text.Mathlib.TextEquality.{eq_iff}
use brunova_knowledge_gatewa.Prelude.Tests.{if◌then◌else◌}

module _ {ℓ} {A : Type ℓ} where
  abbrev pub length : List A → ℕ
  length [] = 0
  length (x ∷ xs) = suc (length xs)

  abbrev pub take : ℕ → List A → List A
  take zero xs = []
  take (suc n) [] = []
  take (suc n) (x ∷ xs) = x ∷ take n xs

  -- Python's `any(p(x) for x in xs)`, `all(...)` and `[x for x in xs if p(x)]`.
  abbrev pub any : (A → Bool) → List A → Bool
  any p [] = false
  any p (x ∷ xs) = p x || any p xs

  abbrev pub all : (A → Bool) → List A → Bool
  all p [] = true
  all p (x ∷ xs) = p x && all p xs

  abbrev pub keep : (A → Bool) → List A → List A
  keep p [] = []
  keep p (x ∷ xs) = if p x then x ∷ keep p xs else keep p xs

  -- Python's `next((x for x in xs if p(x)), None)`.
  abbrev pub find : (A → Bool) → List A → Option A
  find p [] = none
  find p (x ∷ xs) = if p x then some x else find p xs

  pub length-append : (xs ys : List A) → length (xs ++ ys) ≡ length xs + length ys
  length-append [] ys = omega arith
  length-append (x ∷ xs) ys = omega (arith, length-append xs ys)

  pub length-take : (n : ℕ) (xs : List A) → length (take n xs) ≤ n
  length-take zero xs = omega arith
  length-take (suc n) [] = omega arith
  length-take (suc n) (x ∷ xs) = omega (arith, length-take n xs)

module _ {ℓ κ} {A : Type ℓ} (P : A → Type κ) where
  abbrev pub All : List A → Type κ
  All [] = Unit
  All (x ∷ xs) = P x × All xs

pub All-snoc :
    {A : Type 0} (P : A → Type 0) (xs : List A) (x : A) → All P xs → P x → All P (xs ++ x ∷ [])
All-snoc P [] x a p = (p, tt)
All-snoc P (y ∷ xs) x a p = (a.0, All-snoc P xs x a.1 p)

abbrev pub elem : String → List String → Bool
elem x [] = false
elem x (y ∷ ys) = x == y || elem x ys

pub elem-append : (x : String) (xs ys : List String) → elem x (xs ++ ys) ≡ (elem x xs || elem x ys)
elem-append x [] ys = refl
elem-append x (y ∷ xs) ys = ground (arith, elem-append x xs ys)

-- set(xs), as the list of its elements
unfoldable pub dedupe : List String → List String
dedupe [] = []
dedupe (x ∷ xs) = let rest = dedupe xs in if elem x xs then rest else x ∷ rest

-- no element occurs twice
abbrev pub Distinct : List String → Type 0
Distinct [] = Unit
Distinct (x ∷ xs) = (elem x xs ≡ false) × Distinct xs

pub Distinct-append :
    (xs : List String) (x : String) → Distinct xs → elem x xs ≡ false → Distinct (xs ++ x ∷ [])
Distinct-append [] x d h = (refl, tt)
Distinct-append (y ∷ xs) x d h =
    ground (arith, eq_iff x y, eq_iff y x, elem-append y xs (x ∷ []), Distinct-append xs x)

pub length-dedupe-le : (xs : List String) → length (dedupe xs) ≤ length xs
unfolding dedupe
length-dedupe-le [] = omega arith
length-dedupe-le (x ∷ xs) = ground (arith, length-dedupe-le xs)

-- Comparing the size of the set with the length finds every repetition.
pub Distinct-dedupe : (xs : List String) → (length xs ≡ length (dedupe xs)) ↔ Distinct xs
unfolding dedupe
Distinct-dedupe [] = (λ _. tt, λ _. refl)
Distinct-dedupe (x ∷ xs) = ground (arith, length-dedupe-le xs, Distinct-dedupe xs)

-- What is listed has its key among the keys.
pub elem-map_of_listed {ℓ} :
    {A : Type ℓ} (f : A → String) (a : A) (xs : List A) → Memᴰ a xs → elem (f a) (map f xs) ≡ true
elem-map_of_listed f a [] m = elim m [ ]
elem-map_of_listed f a (x ∷ xs) (Memᴰ.head e) = ground (arith, eq_iff (f a) (f x), ap f e)
elem-map_of_listed f a (x ∷ xs) (Memᴰ.tail m) = ground (arith, elem-map_of_listed f a xs m)
