-- ===== src/Ranges/Bounds.antt =====
-- What a range that `parse_range` of app/policies/workspace.py accepts is bounded by.
use Prim.Native.Char.{code}
use native.Mathlib.Nat.{mul_comm}
use brunova_knowledge_gatewa.Prelude.{
  ℕ, ◌+◌, ◌-◌, ◌*◌, ◌≤◌, String, ◌≡◌, refl, sym, ap, ◌∙◌, subst, Bool, true, false, not, ◌&&◌, ◌||◌,
  Option, none, some, ltb, leb, arith, Bool-cases, Option-cases, inl, inr, if◌then◌else◌,
}
use brunova_knowledge_gatewa.Prelude.Text.{len, is_empty, strip, every}
use brunova_knowledge_gatewa.Errors.{
  Result, ok, err, adapter, http_exception, value_error, >>=-eq-ok, ok-injective,
}
use brunova_knowledge_gatewa.Ranges.{
  Cell, BoundedSheetRange, value_or_zero, int_limit, cell_count, is_letter, is_decimal,
  letter_value, number_from, column_number, span, skip_dollar, starts_positive, after_colon,
  and_then, rpartition, is_title, int_from, int, read_cell, read_cells, full_match, found, within,
  unless, as_adapter_error, check_cells, validate_sheet_range, parsed_cells, parse_range,
}

every-span : (p : ℕ → Bool) (s : String) → every p (span p s).0 ≡ true
unfolding span every
every-span p String.[] = refl
every-span p (String.◌∷◌ c s) = elim (Bool-cases (p (code c))) [
  | inl in_class ↦ rw in_class (ground (arith, every-span p s, in_class))
  | inr outside ↦ rw outside refl
]

letter_value_bounds : (c : ℕ) → is_letter c ≡ true → (1 ≤ letter_value c) × (letter_value c ≤ 26)
unfolding letter_value
letter_value_bounds c h = ground arith

and_true : (a b : Bool) → (a && b) ≡ true → (a ≡ true) × (b ≡ true)
and_true true b h = (refl, h)
and_true false b h = cc

-- A column of one to three letters.
column_number_bounds :
    (s : String)
    → every is_letter s ≡ true
    → 1 ≤ len s
    → len s ≤ 3
    → (1 ≤ column_number s) × (column_number s ≤ 18278)
unfolding column_number number_from every
column_number_bounds String.[] letters few many = absurd (omega arith)
column_number_bounds (String.◌∷◌ a String.[]) letters few many =
    let (la, _) = and_true (is_letter (code a)) (every is_letter String.[]) letters in
    omega (arith, letter_value_bounds (code a) la)
column_number_bounds (String.◌∷◌ a (String.◌∷◌ b String.[])) letters few many =
    let (la, tail) =
      and_true (is_letter (code a)) (every is_letter (String.◌∷◌ b String.[])) letters in
    let (lb, _) = and_true (is_letter (code b)) (every is_letter String.[]) tail in
    omega (arith, letter_value_bounds (code a) la, letter_value_bounds (code b) lb)
column_number_bounds (String.◌∷◌ a (String.◌∷◌ b (String.◌∷◌ c String.[]))) letters few many =
    let (la, tail) =
      and_true (is_letter (code a)) (every is_letter (String.◌∷◌ b (String.◌∷◌ c String.[])))
        letters in
    let (lb, tail') =
      and_true (is_letter (code b)) (every is_letter (String.◌∷◌ c String.[])) tail in
    let (lc, _) = and_true (is_letter (code c)) (every is_letter String.[]) tail' in
    omega (
      arith,
      letter_value_bounds (code a) la,
      letter_value_bounds (code b) lb,
      letter_value_bounds (code c) lc,
    )
column_number_bounds (String.◌∷◌ a (String.◌∷◌ b (String.◌∷◌ c (String.◌∷◌ d s)))) letters few
      many =
    absurd (omega arith)

abbrev pub IsBounded : String → ℕ → BoundedSheetRange → Type 0
IsBounded range_name max_cells range =
    (range.value ≡ strip range_name)
    × (1 ≤ range.start_column)
    × (range.start_column ≤ range.end_column)
    × (range.end_column ≤ 18278)
    × (1 ≤ range.start_row)
    × (range.start_row ≤ range.end_row)
    × (cell_count range ≤ max_cells)

module _ (other_digit : ℕ → Option ℕ) where
  int_from-le : (n : ℕ) (s : String) → n ≤ int_from other_digit n s
  unfolding int_from
  int_from-le n String.[] = omega arith
  int_from-le n (String.◌∷◌ c s) =
      omega (arith, int_from-le (n * 10 + value_or_zero other_digit (code c)) s)

  int_positive :
      (digits : String) (n : ℕ)
      → starts_positive digits ≡ true
      → int other_digit digits ≡ ok n
      → 1 ≤ n
  unfolding int int_from
  int_positive String.[] n positive h = cc
  int_positive (String.◌∷◌ c s) n positive h =
      elim (Bool-cases (ltb int_limit (len (String.◌∷◌ c s)))) [
        | inl long ↦ cc (rw (long, int) at h)
        | inr short ↦
            let same = ok-injective (rw (short, int) at h) in
            let head : 1 ≤ value_or_zero other_digit (code c) = (ground (arith, positive)) in
            omega (arith, same, int_from-le (0 * 10 + value_or_zero other_digit (code c)) s)
      ]

  abbrev IsCell : Cell → Type 0
  IsCell cell =
      (every is_letter cell.column ≡ true)
      × (1 ≤ len cell.column)
      × (len cell.column ≤ 3)
      × (starts_positive cell.row ≡ true)

  some-injective : {A : Type 0} {a b : A} → some a ≡ some b → a ≡ b
  some-injective {A} {a} h = ap (elim [ none ↦ a | some x ↦ x ]) h

  cell_made :
      (column row rest : String) (cell : Cell)
      → every is_letter column ≡ true
      → (if (leb 1 (len column) && leb (len column) 3) && starts_positive row
          then some (record { column = column; row = row; rest = rest })
          else none)
        ≡ some cell
      → IsCell cell
  cell_made column row rest cell letters h =
      elim (Bool-cases ((leb 1 (len column) && leb (len column) 3) && starts_positive row)) [
        | inr bad ↦ cc (rw bad at h)
        | inl good ↦
            let same : record { column = column; row = row; rest = rest } ≡ cell =
              some-injective (rw good at h) in
            let (length, positive) =
              and_true (leb 1 (len column) && leb (len column) 3) (starts_positive row) good in
            subst IsCell same (letters, ground arith, ground arith, positive)
      ]

  read_cell-IsCell : (s : String) (cell : Cell) → read_cell other_digit s ≡ some cell → IsCell cell
  unfolding read_cell
  read_cell-IsCell s cell h =
      cell_made (span is_letter (skip_dollar s)).0
        (span (is_decimal other_digit) (skip_dollar (span is_letter (skip_dollar s)).1)).0
        (span (is_decimal other_digit) (skip_dollar (span is_letter (skip_dollar s)).1)).1 cell
        (every-span is_letter (skip_dollar s)) h

  and_then-eq-some :
      {A B : Type 0} (o : Option A) (f : A → Option B) (b : B)
      → and_then o f ≡ some b
      → (a : A) × (o ≡ some a) × (f a ≡ some b)
  and_then-eq-some none f b h = cc
  and_then-eq-some (some a) f b h = (a, refl, h)

  read_cells-IsCell :
      (local : String) (first second : Cell)
      → read_cells other_digit local ≡ some (first, second)
      → IsCell first × IsCell second
  unfolding read_cells
  read_cells-IsCell local first second h =
      let (a, ea, ha) = and_then-eq-some (read_cell other_digit local) _ (first, second) h in
      let (rest, er, hr) = and_then-eq-some (after_colon a.rest) _ (first, second) ha in
      let (b, eb, hb) = and_then-eq-some (read_cell other_digit rest) _ (first, second) hr in
      elim (Bool-cases (is_empty b.rest)) [
        | inr more ↦ cc (rw more at hb)
        | inl end ↦
            let same : ◌≡◌ {A = Cell × Cell} (a, b) (first, second) =
              some-injective (rw end at hb) in
            (
              subst IsCell (ap (λ x. x.0) same) (read_cell-IsCell local a ea),
              subst IsCell (ap (λ x. x.1) same) (read_cell-IsCell rest b eb),
            )
      ]

  full_match-IsCell :
      (candidate : String) (first second : Cell)
      → full_match other_digit candidate ≡ some (first, second)
      → IsCell first × IsCell second
  unfolding full_match
  full_match-IsCell candidate first second h = elim (Option-cases (rpartition b'!' candidate)) [
    | inl plain ↦ read_cells-IsCell candidate first second (rw (plain, full_match) at h)
    | inr ((title, local), e) ↦ elim (Bool-cases (is_title title)) [
      | inl good ↦ read_cells-IsCell local first second (rw (e, good, full_match) at h)
      | inr bad ↦ cc (rw (e, bad, full_match) at h)
    ]
  ]

  unless-eq-ok : (b : Bool) (u : Unit {0}) → unless b ≡ ok u → b ≡ false
  unless-eq-ok true u h = cc
  unless-eq-ok false u h = refl

  found-eq-ok :
      (o : Option (Cell × Cell)) (cells : Cell × Cell) → found o ≡ ok cells → o ≡ some cells
  found-eq-ok none cells h = cc
  found-eq-ok (some x) cells h = ap some (ok-injective h)

  abbrev IsChecked : ℕ → Cell → Cell → ℕ → ℕ → Type 0
  IsChecked max_cells first second r1 r2 =
      (int other_digit first.row ≡ ok r1)
      × (int other_digit second.row ≡ ok r2)
      × (column_number first.column ≤ column_number second.column)
      × (r1 ≤ r2)
      × ((column_number second.column - column_number first.column + 1) * (r2 - r1 + 1) ≤ max_cells)

  check_cells-IsChecked :
      (candidate value : String) (max_cells : ℕ) (first second : Cell)
      → check_cells other_digit candidate max_cells (first, second) ≡ ok value
      → (candidate ≡ value) × (r1 r2 : ℕ) × IsChecked max_cells first second r1 r2
  unfolding check_cells
  check_cells-IsChecked candidate value max_cells first second h =
      let (r1, e1, h1) = >>=-eq-ok (int other_digit first.row) _ h in
      let (r2, e2, h2) = >>=-eq-ok (int other_digit second.row) _ h1 in
      let (u, e3, h3) =
        >>=-eq-ok
          (unless (ltb (column_number second.column) (column_number first.column) || ltb r2 r1)) _
          h2 in
      let (v, e4, h4) =
        >>=-eq-ok
          (unless (
            not
              (within max_cells (column_number first.column) r1 (column_number second.column) r2)))
          _ h3 in
      let ordered =
        unless-eq-ok (ltb (column_number second.column) (column_number first.column) || ltb r2 r1) u
          e3 in
      let bounded =
        unless-eq-ok
          (not (within max_cells (column_number first.column) r1 (column_number second.column) r2))
          v e4 in
      (
        ok-injective h4,
        r1,
        r2,
        (e1, e2, ground (arith, ordered), ground (arith, ordered), ground (arith, bounded)),
      )

  as_adapter_error-eq-ok : (r : Result String) (v : String) → as_adapter_error r ≡ ok v → r ≡ ok v
  as_adapter_error-eq-ok (ok x) v h = h
  as_adapter_error-eq-ok (err (http_exception n)) v h = cc
  as_adapter_error-eq-ok (err (adapter c n)) v h = cc
  as_adapter_error-eq-ok (err value_error) v h = cc
  as_adapter_error-eq-ok (err _) v h = cc

  validate_sheet_range-IsChecked :
      (range_name value : String) (max_cells : ℕ)
      → validate_sheet_range other_digit range_name max_cells ≡ ok value
      → (first second : Cell) × (full_match other_digit value ≡ some (first, second))
        × (value ≡ strip range_name)
        × (r1 r2 : ℕ) × IsChecked max_cells first second r1 r2
  unfolding validate_sheet_range
  validate_sheet_range-IsChecked range_name value max_cells h =
      let ((first, second), e, h1) =
        >>=-eq-ok (found (full_match other_digit (strip range_name))) _ h in
      let (same, r1, r2, checked) =
        check_cells-IsChecked (strip range_name) value max_cells first second h1 in
      (
        first,
        second,
        ap (full_match other_digit) (sym same)
            ∙ found-eq-ok (full_match other_digit (strip range_name)) (first, second) e,
        sym same,
        r1,
        r2,
        checked,
      )

  parsed_cells-IsBounded :
      (range_name value : String) (max_cells : ℕ) (first second : Cell) (r1 r2 : ℕ)
      (range : BoundedSheetRange)
      → value ≡ strip range_name
      → full_match other_digit value ≡ some (first, second)
      → IsChecked max_cells first second r1 r2
      → parsed_cells other_digit value (first, second) ≡ ok range
      → IsBounded range_name max_cells range
  unfolding parsed_cells cell_count
  parsed_cells-IsBounded range_name value max_cells first second r1 r2 range stripped is_match
        (i1, i2, columns, rows, cells) parsed =
      let ((l1, few1, many1, positive), (l2, few2, many2, _)) =
        full_match-IsCell value first second is_match in
      let same = ok-injective (rw (i1, i2, parsed_cells) at parsed) in
      let row1 = int_positive first.row r1 positive i1 in
      let (c1, _) = column_number_bounds first.column l1 few1 many1 in
      let (_, c2) = column_number_bounds second.column l2 few2 many2 in
      subst (IsBounded range_name max_cells) same (
        stripped,
        c1,
        columns,
        c2,
        row1,
        rows,
        rw (mul_comm (r2 - r1 + 1) (column_number second.column - column_number first.column + 1))
            cells,
      )

  -- A range that `parse_range` accepts is the stripped text, lies in the columns A to ZZZ and in the rows
  -- from 1 on, does not end before it starts, and has at most `max_cells` cells.
  pub parse_range_bounds :
      (range_name : String) (max_cells : ℕ) (range : BoundedSheetRange)
      → parse_range other_digit range_name max_cells ≡ ok range
      → IsBounded range_name max_cells range
  unfolding parse_range parsed_cells cell_count
  parse_range_bounds range_name max_cells range h =
      let (value, e, h1) =
        >>=-eq-ok (as_adapter_error (validate_sheet_range other_digit range_name max_cells)) _ h in
      let (first, second, is_match, stripped, r1, r2, (i1, i2, columns, rows, cells)) =
        validate_sheet_range-IsChecked range_name value max_cells
          (as_adapter_error-eq-ok _ value e) in
      parsed_cells-IsBounded range_name value max_cells first second r1 r2 range stripped is_match
        (i1, i2, columns, rows, cells) (rw (is_match) at h1)
