-- ===== src/Sheets/Steps.antt =====
-- What one round of the loop of `validate_operations` in app/policies/workspace.py checks and changes.
use brunova_knowledge_gatewa.Prelude.{
  ℕ, ◌+◌, ◌-◌, ◌*◌, ◌≤◌, String, ◌==◌, ◌≡◌, refl, sym, ap, ◌∙◌, subst, Bool, true, false, not, ◌&&◌,
  Option, none, some, List, [], ◌∷◌, map, ltb, leb, eqb, length, any, elem, All, Distinct, arith,
  Bool-cases, inl, inr, if◌then◌else◌,
}
use brunova_knowledge_gatewa.Errors.{
  Code, ok, >>=-eq-ok, ok-injective, require, spreadsheet_range_invalid, spreadsheet_values_invalid,
  spreadsheet_dimension_invalid, spreadsheet_dimension_limit_exceeded,
  spreadsheet_sheet_title_duplicate, spreadsheet_last_sheet_protected,
}
use brunova_knowledge_gatewa.Json.{Json}
use brunova_knowledge_gatewa.Ranges.{BoundedSheetRange, parse_range}
use brunova_knowledge_gatewa.Sheets.{
  Given, max_dimension_change, SpreadsheetEditOperation, set_values, append_rows, clear_range,
  format_range, create_sheet, rename_sheet, delete_sheet, insert_rows, delete_rows, insert_columns,
  delete_columns, Plan, width_of, height_of, breadth_of, check_matrix, is_local, local_range,
  check_range, folded_in, without, value_of, add_ref, check_dimension, dimension_change,
  apply_operation,
}

-- the cells that a batch writes, and the sheets that it creates, renames or deletes
abbrev pub cells_of : SpreadsheetEditOperation → ℕ
cells_of (set_values ref range values) = length values * width_of values
cells_of (append_rows ref range values) = length values * width_of values
cells_of _ = 0

abbrev pub tabs_of : SpreadsheetEditOperation → ℕ
tabs_of (create_sheet title) = 1
tabs_of (rename_sheet ref title) = 1
tabs_of (delete_sheet ref) = 1
tabs_of _ = 0

abbrev pub total : (SpreadsheetEditOperation → ℕ) → List SpreadsheetEditOperation → ℕ
total f [] = 0
total f (operation ∷ operations) = f operation + total f operations

pub required : (b : Bool) (c : Code) (n : ℕ) (u : Unit {0}) → require b c n ≡ ok u → b ≡ true
required true c n u h = refl
required false c n u h = cc

same_lengths :
    (n : ℕ) (rows : List (List Json))
    → any (λ r. not (eqb (length r) n)) rows ≡ false
    → All (λ r. length r ≡ n) rows
same_lengths n [] h = tt
same_lengths n (row ∷ rows) h = (ground (arith, h), same_lengths n rows (ground (arith, h)))

-- A matrix that is written: rows of one length, which is not 0.
abbrev pub IsMatrix : List (List Json) → Type 0
IsMatrix values =
    (1 ≤ length values) × (1 ≤ width_of values) × All (λ r. length r ≡ width_of values) values

check_matrix-IsMatrix :
    (values : List (List Json)) (u : Unit {0}) → check_matrix values ≡ ok u → IsMatrix values
unfolding check_matrix
check_matrix-IsMatrix [] u h = cc
check_matrix-IsMatrix (row ∷ rows) u h =
    let all_good = required _ spreadsheet_values_invalid 422 u h in
    (
      omega arith,
      ground (arith, all_good),
      same_lengths (width_of (row ∷ rows)) (row ∷ rows) (ground (arith, all_good)),
    )

-- the sheets that a batch deletes, each once
abbrev pub deletions : List SpreadsheetEditOperation → List String → List String
deletions [] refs = refs
deletions (delete_sheet ref ∷ operations) refs = deletions operations (add_ref ref refs)
deletions (_ ∷ operations) refs = deletions operations refs

elem-map-without :
    (f : String → String) (x previous : String) (titles : List String)
    → elem x (map f titles) ≡ false
    → elem x (map f (without previous titles)) ≡ false
elem-map-without f x previous [] h = refl
elem-map-without f x previous (title ∷ titles) h =
    ground (arith, elem-map-without f x previous titles)

Distinct-map-without :
    (f : String → String) (previous : String) (titles : List String)
    → Distinct (map f titles)
    → Distinct (map f (without previous titles))
Distinct-map-without f previous [] h = tt
Distinct-map-without f previous (title ∷ titles) (new, rest) =
    elim (Bool-cases (title == previous)) [
      | inl gone ↦ rw gone (Distinct-map-without f previous titles rest)
      | inr stays ↦ rw stays (
        elem-map-without f (f title) previous titles new,
        Distinct-map-without f previous titles rest,
      )
    ]

module _ (given : Given) where
  -- The range parses, and its text names no sheet.
  abbrev pub IsLocalRange : String → BoundedSheetRange → Type 0
  IsLocalRange range parsed =
      (parse_range given.other_digit range given.max_cells ≡ ok parsed)
      × (is_local parsed.sheet_title ≡ true)

  -- An operation on a range writes a matrix that the range has room for.
  abbrev pub FitsRange : SpreadsheetEditOperation → Type 0
  FitsRange (set_values ref range values) =
      (parsed : BoundedSheetRange) × IsLocalRange range parsed
      × IsMatrix values
      × (length values ≤ height_of parsed)
      × (width_of values ≤ breadth_of parsed)
  FitsRange (append_rows ref range values) =
      (parsed : BoundedSheetRange) × IsLocalRange range parsed
      × IsMatrix values
      × (width_of values ≤ breadth_of parsed)
  FitsRange (clear_range ref range) = (parsed : BoundedSheetRange) × IsLocalRange range parsed
  FitsRange (format_range ref range) = (parsed : BoundedSheetRange) × IsLocalRange range parsed
  FitsRange _ = Unit

  local_range-IsLocalRange :
      (range : String) (parsed : BoundedSheetRange)
      → local_range given range ≡ ok parsed
      → IsLocalRange range parsed
  unfolding local_range
  local_range-IsLocalRange range parsed h =
      let (p, e, h1) = >>=-eq-ok (parse_range given.other_digit range given.max_cells) _ h in
      let (u, e2, h2) =
        >>=-eq-ok (require (is_local p.sheet_title) spreadsheet_range_invalid 422) _ h1 in
      let same = ok-injective h2 in
      (
        e ∙ h2,
        subst (λ (x : BoundedSheetRange). is_local x.sheet_title ≡ true) same
            (required (is_local p.sheet_title) spreadsheet_range_invalid 422 u e2),
      )

  pub check_range-FitsRange :
      (operation : SpreadsheetEditOperation) (cells : ℕ)
      → check_range given operation ≡ ok cells
      → (cells ≡ cells_of operation) × FitsRange operation
  unfolding check_range
  check_range-FitsRange (set_values ref range values) cells h =
      let (p, e, h1) = >>=-eq-ok (local_range given range) _ h in
      let (u, e1, h2) = >>=-eq-ok (check_matrix values) _ h1 in
      let fits : Bool = leb (length values) (height_of p) && leb (width_of values) (breadth_of p) in
      let (v, e2, h3) = >>=-eq-ok (require fits spreadsheet_values_invalid 422) _ h2 in
      let room : (leb (length values) (height_of p) && leb (width_of values) (breadth_of p))
          ≡ true =
        required fits spreadsheet_values_invalid 422 v e2 in
      (
        sym (ok-injective h3),
        (
          p,
          local_range-IsLocalRange range p e,
          check_matrix-IsMatrix values u e1,
          ground (arith, room),
          ground (arith, room),
        ),
      )
  check_range-FitsRange (append_rows ref range values) cells h =
      let (p, e, h1) = >>=-eq-ok (local_range given range) _ h in
      let (u, e1, h2) = >>=-eq-ok (check_matrix values) _ h1 in
      let (v, e2, h3) =
        >>=-eq-ok (require (leb (width_of values) (breadth_of p)) spreadsheet_values_invalid 422) _
          h2 in
      let room =
        required (leb (width_of values) (breadth_of p)) spreadsheet_values_invalid 422 v e2 in
      (
        sym (ok-injective h3),
        (
          p,
          local_range-IsLocalRange range p e,
          check_matrix-IsMatrix values u e1,
          ground (arith, room),
        ),
      )
  check_range-FitsRange (clear_range ref range) cells h =
      let (p, e, h1) = >>=-eq-ok (local_range given range) _ h in
      (sym (ok-injective h1), (p, local_range-IsLocalRange range p e))
  check_range-FitsRange (format_range ref range) cells h =
      let (p, e, h1) = >>=-eq-ok (local_range given range) _ h in
      (sym (ok-injective h1), (p, local_range-IsLocalRange range p e))
  check_range-FitsRange (create_sheet title) cells h = (sym (ok-injective h), tt)
  check_range-FitsRange (rename_sheet ref title) cells h = (sym (ok-injective h), tt)
  check_range-FitsRange (delete_sheet ref) cells h = (sym (ok-injective h), tt)
  check_range-FitsRange (insert_rows ref start count) cells h = (sym (ok-injective h), tt)
  check_range-FitsRange (delete_rows ref start count) cells h = (sym (ok-injective h), tt)
  check_range-FitsRange (insert_columns ref start count) cells h = (sym (ok-injective h), tt)
  check_range-FitsRange (delete_columns ref start count) cells h = (sym (ok-injective h), tt)

  -- A change of the dimensions of a sheet stays within its size and the limit.
  abbrev pub FitsSize : Bool → (ℕ × ℕ → ℕ) → String → ℕ → ℕ → Type 0
  FitsSize inserts size ref start count =
      (d : ℕ × ℕ) × (given.sheet_dimensions ref ≡ some d)
      × (count ≤ 1000)
      × ((if inserts then start else start + count) ≤ size d)

  abbrev pub FitsSheet : SpreadsheetEditOperation → Type 0
  FitsSheet (insert_rows ref start count) = FitsSize true (λ d. d.0) ref start count
  FitsSheet (delete_rows ref start count) = FitsSize false (λ d. d.0) ref start count
  FitsSheet (insert_columns ref start count) = FitsSize true (λ d. d.1) ref start count
  FitsSheet (delete_columns ref start count) = FitsSize false (λ d. d.1) ref start count
  FitsSheet _ = Unit

  -- No two titles differ in case only.
  abbrev pub UniqueTitles : List String → Type 0
  UniqueTitles titles = Distinct (map given.casefold titles)

  value_of-eq-ok : {V : Type 0} (o : Option V) (v : V) → value_of o ≡ ok v → o ≡ some v
  value_of-eq-ok none v h = cc
  value_of-eq-ok (some x) v h = ap some (ok-injective h)

  dimension_change-FitsSize :
      (inserts : Bool) (size : ℕ × ℕ → ℕ) (ref : String) (start count : ℕ) (plan plan' : Plan)
      → dimension_change given inserts size ref start count plan ≡ ok plan'
      → (plan ≡ plan') × FitsSize inserts size ref start count
  unfolding check_dimension
  dimension_change-FitsSize inserts size ref start count plan plan' h =
      let (u, e, h1) =
        >>=-eq-ok
          (require (leb count max_dimension_change) spreadsheet_dimension_limit_exceeded 422) _ h in
      let (d, e1, h2) = >>=-eq-ok (value_of (given.sheet_dimensions ref)) _ h1 in
      let (v, e2, h3) = >>=-eq-ok (check_dimension inserts start count (size d)) _ h2 in
      let few =
        required (leb count max_dimension_change) spreadsheet_dimension_limit_exceeded 422 u e in
      let room =
        required (if inserts then leb start (size d) else leb (start + count) (size d))
          spreadsheet_dimension_invalid 422 v e2 in
      (
        ok-injective h3,
        (
          d,
          value_of-eq-ok (given.sheet_dimensions ref) d e1,
          ground (arith, few),
          ground (arith, room),
        ),
      )

  -- What one operation does to the variables of the loop.
  abbrev pub IsApplied : SpreadsheetEditOperation → Plan → Plan → Type 0
  IsApplied operation plan plan' =
      FitsSheet operation
      × (plan'.written_cells ≡ plan.written_cells)
      × (plan'.tab_mutations ≡ plan.tab_mutations + tabs_of operation)
      × (plan'.deleted_refs ≡ deletions (operation ∷ []) plan.deleted_refs)
      × (length plan.deleted_refs ≤ length given.sheet_titles - 1
          → length plan'.deleted_refs ≤ length given.sheet_titles - 1)
      × (UniqueTitles plan.planned_titles → UniqueTitles plan'.planned_titles)

  unchanged :
      (operation : SpreadsheetEditOperation) (plan plan' : Plan)
      → plan ≡ plan'
      → tabs_of operation ≡ 0
      → deletions (operation ∷ []) plan.deleted_refs ≡ plan.deleted_refs
      → FitsSheet operation
      → IsApplied operation plan plan'
  unchanged operation plan plan' same none_changed none_deleted fits =
      subst (IsApplied operation plan) same
        (fits, refl, omega (arith, none_changed), sym none_deleted, λ x. x, λ x. x)

  pub apply_operation-IsApplied :
      (operation : SpreadsheetEditOperation) (plan plan' : Plan)
      → apply_operation given operation plan ≡ ok plan'
      → IsApplied operation plan plan'
  unfolding apply_operation
  apply_operation-IsApplied (create_sheet title) plan plan' h =
      let (u, e, h1) =
        >>=-eq-ok
          (require (not (folded_in given title plan.planned_titles))
            spreadsheet_sheet_title_duplicate 409)
          _ h in
      let new =
        required (not (folded_in given title plan.planned_titles)) spreadsheet_sheet_title_duplicate
          409 u e in
      subst (IsApplied (create_sheet title) plan) (ok-injective h1)
        (tt, refl, refl, refl, λ x. x, λ unique. (ground (arith, new), unique))
  apply_operation-IsApplied (rename_sheet ref title) plan plan' h =
      let (previous, e, h1) = >>=-eq-ok (value_of (given.sheet_ref_titles ref)) _ h in
      let (u, e1, h2) =
        >>=-eq-ok
          (require (not (folded_in given title (without previous plan.planned_titles)))
            spreadsheet_sheet_title_duplicate 409)
          _ h1 in
      let new =
        required (not (folded_in given title (without previous plan.planned_titles)))
          spreadsheet_sheet_title_duplicate 409 u e1 in
      subst (IsApplied (rename_sheet ref title) plan) (ok-injective h2) (
        tt,
        refl,
        refl,
        refl,
        λ x. x,
        λ unique. (
          ground (arith, new),
          Distinct-map-without given.casefold previous plan.planned_titles unique,
        ),
      )
  apply_operation-IsApplied (delete_sheet ref) plan plan' h =
      let (u, e, h1) =
        >>=-eq-ok
          (require (ltb (length (add_ref ref plan.deleted_refs)) (length given.sheet_titles))
            spreadsheet_last_sheet_protected 422)
          _ h in
      let remains =
        required (ltb (length (add_ref ref plan.deleted_refs)) (length given.sheet_titles))
          spreadsheet_last_sheet_protected 422 u e in
      subst (IsApplied (delete_sheet ref) plan) (ok-injective h1)
        (tt, refl, refl, refl, λ x. ground (arith, remains), λ x. x)
  apply_operation-IsApplied (insert_rows ref start count) plan plan' h =
      let (same, fits) = dimension_change-FitsSize true (λ d. d.0) ref start count plan plan' h in
      unchanged (insert_rows ref start count) plan plan' same refl refl fits
  apply_operation-IsApplied (delete_rows ref start count) plan plan' h =
      let (same, fits) = dimension_change-FitsSize false (λ d. d.0) ref start count plan plan' h in
      unchanged (delete_rows ref start count) plan plan' same refl refl fits
  apply_operation-IsApplied (insert_columns ref start count) plan plan' h =
      let (same, fits) = dimension_change-FitsSize true (λ d. d.1) ref start count plan plan' h in
      unchanged (insert_columns ref start count) plan plan' same refl refl fits
  apply_operation-IsApplied (delete_columns ref start count) plan plan' h =
      let (same, fits) = dimension_change-FitsSize false (λ d. d.1) ref start count plan plan' h in
      unchanged (delete_columns ref start count) plan plan' same refl refl fits
  apply_operation-IsApplied (set_values ref range values) plan plan' h =
      unchanged (set_values ref range values) plan plan' (ok-injective h) refl refl tt
  apply_operation-IsApplied (append_rows ref range values) plan plan' h =
      unchanged (append_rows ref range values) plan plan' (ok-injective h) refl refl tt
  apply_operation-IsApplied (clear_range ref range) plan plan' h =
      unchanged (clear_range ref range) plan plan' (ok-injective h) refl refl tt
  apply_operation-IsApplied (format_range ref range) plan plan' h =
      unchanged (format_range ref range) plan plan' (ok-injective h) refl refl tt
