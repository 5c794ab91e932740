-- ===== src/Ranges/Columns.antt =====
-- The column names of app/adapters/google_workspace/validation.py against the column numbers of
-- app/policies/workspace.py.
use Prim.Native.Char.{code}
use brunova_knowledge_gatewa.Prelude.{
  ℕ, zero, suc, ◌+◌, ◌-◌, ◌*◌, ◌/◌, ◌%◌, ◌<◌, String, ◌≡◌, refl, sym, ap, ◌∙◌, Bool, true, ◌&&◌,
  some, eqb, arith, Bool-cases, inl, inr,
}
use brunova_knowledge_gatewa.Prelude.Text.{len}
use brunova_knowledge_gatewa.Ranges.{
  letter_value, letter, number_from, column_number, name_from, nth, column_name,
}

-- The letters of a text have the values from `first` on, one after the other.
in_order : ℕ → String → Bool
in_order first String.[] = true
in_order first (String.◌∷◌ c s) = eqb (letter_value (code c)) first && in_order (first + 1) s

nth-in_order :
    (s : String) (first n : ℕ)
    → in_order first s ≡ true
    → n < len s
    → letter_value (code (nth s n)) ≡ first + n
unfolding in_order
nth-in_order String.[] first n ordered short = absurd (omega arith)
nth-in_order (String.◌∷◌ c s) first zero ordered short = ground (arith, ordered)
nth-in_order (String.◌∷◌ c s) first (suc n) ordered short =
    ground (arith, ordered, nth-in_order s (first + 1) n)

alphabet_in_order : in_order 1 "ABCDEFGHIJKLMNOPQRSTUVWXYZ" ≡ true
unfolding in_order letter_value
alphabet_in_order = refl

letter_value-letter : (d : ℕ) → d < 26 → letter_value (code (letter d)) ≡ d + 1
unfolding letter
letter_value-letter d h =
    omega (arith, nth-in_order "ABCDEFGHIJKLMNOPQRSTUVWXYZ" 1 d alphabet_in_order h)

-- The loop of `column_name` keeps the number that is read, and the number it has left is enough fuel.
name_from_number :
    (fuel number : ℕ) (result : String)
    → number < fuel
    → (name : String) × (name_from fuel number result ≡ some name)
      × (number_from 0 name ≡ number_from number result)
unfolding name_from number_from
name_from_number zero number result h = absurd (omega arith)
name_from_number (suc fuel) number result h = elim (Bool-cases (eqb number 0)) [
  | inl end ↦
      let nothing : number ≡ 0 = ground arith in
      (result, rw end, ap (λ n. number_from n result) (sym nothing))
  | inr more ↦
      let digit : ℕ = (number - 1) % 26 in
      let positive : 0 < number = ground arith in
      let (name, e, same) =
        name_from_number fuel ((number - 1) / 26) (String.◌∷◌ (letter digit) result)
          (omega arith) in
      let value : (number - 1) / 26 * 26 + letter_value (code (letter digit)) ≡ number =
        omega (arith, letter_value-letter digit (omega arith)) in
      (name, rw more e, same ∙ ap (λ n. number_from n result) value)
]

-- `column_name` ends for every number, and `_column_number` reads its result as that number.
pub column_number-column_name :
    (number : ℕ)
    → (name : String) × (column_name number ≡ some name) × (column_number name ≡ number)
unfolding column_name column_number number_from
column_number-column_name number = name_from_number (suc number) number "" (omega arith)
