-- ===== src/Sheets.antt =====
-- `SpreadsheetMutationPolicy` of app/policies/workspace.py and the operations of
-- app/spreadsheet_production.py, as far as the policy reads them. A set is the list of its elements, and a
-- `dict` is a function. `str.casefold` and the decimal digits beyond ASCII are parameters.
pub mod Steps
pub mod Batches
use brunova_knowledge_gatewa.Prelude.{
  ℕ, zero, suc, ◌+◌, ◌-◌, ◌*◌, String, ◌==◌, Bool, true, false, not, ◌&&◌, ◌||◌, Option, none, some,
  List, [], ◌∷◌, map, ltb, leb, eqb, length, any, keep, elem, dedupe, if◌then◌else◌,
}
use brunova_knowledge_gatewa.Prelude.Text.{is_empty}
use brunova_knowledge_gatewa.Errors.{
  Error, Code, Result, ok, err, adapter, key_error, ◌>>=◌, ◌>>◌, require,
  spreadsheet_operations_invalid, spreadsheet_range_invalid, spreadsheet_values_invalid,
  spreadsheet_sheet_reference_invalid, spreadsheet_sheet_title_duplicate,
  spreadsheet_last_sheet_protected, spreadsheet_dimension_limit_exceeded,
  spreadsheet_dimension_invalid, spreadsheet_cell_limit_exceeded, spreadsheet_tab_limit_exceeded,
}
use brunova_knowledge_gatewa.Json.{Json}
use brunova_knowledge_gatewa.Ranges.{BoundedSheetRange, parse_range}

pub data SpreadsheetEditOperation : Type 0 where
  -- sheet_ref, range and values
  set_values append_rows : String → String → List (List Json) → SpreadsheetEditOperation
  -- sheet_ref and range
  clear_range format_range : String → String → SpreadsheetEditOperation
  create_sheet : String → SpreadsheetEditOperation
  -- sheet_ref and title
  rename_sheet : String → String → SpreadsheetEditOperation
  delete_sheet : String → SpreadsheetEditOperation
  -- sheet_ref, start_index and count
  insert_rows delete_rows insert_columns delete_columns : String → ℕ → ℕ → SpreadsheetEditOperation

-- The variables of the loop of `validate_operations`.
pub record Plan : Type 0 where
  pub written_cells : ℕ
  pub tab_mutations : ℕ
  pub planned_titles : List String
  pub deleted_refs : List String

abbrev pub max_operations : ℕ
max_operations = 50

abbrev pub max_dimension_change : ℕ
max_dimension_change = 1000

abbrev pub max_tab_mutations : ℕ
max_tab_mutations = 10

-- max(len(row) for row in rows)
abbrev pub width_of : List (List Json) → ℕ
width_of [] = 0
width_of (row ∷ rows) =
    let rest = width_of rows in if ltb rest (length row) then length row else rest

abbrev pub height_of : BoundedSheetRange → ℕ
height_of range = range.end_row - range.start_row + 1

abbrev pub breadth_of : BoundedSheetRange → ℕ
breadth_of range = range.end_column - range.start_column + 1

-- the checks on values that both writing operations share
unfoldable pub check_matrix : List (List Json) → Result (Unit {0})
check_matrix [] = err (adapter spreadsheet_values_invalid 422)
check_matrix (row ∷ rows) =
    let values = row ∷ rows in
    require
      (leb 1 (width_of values) && not (any (λ r. not (eqb (length r) (width_of values))) values))
      spreadsheet_values_invalid 422

abbrev pub is_local : Option String → Bool
is_local none = true
is_local (some title) = is_empty title

-- The arguments of `validate_operations` besides the operations, with the two parameters.
pub record Given : Type 0 where
  pub other_digit : ℕ → Option ℕ
  pub casefold : String → String
  pub max_cells : ℕ
  pub sheet_titles : List String
  pub sheet_ref_titles : String → Option String
  pub sheet_dimensions : String → Option (ℕ × ℕ)

abbrev pub sheet_ref_of : SpreadsheetEditOperation → Option String
sheet_ref_of (set_values ref range values) = some ref
sheet_ref_of (append_rows ref range values) = some ref
sheet_ref_of (clear_range ref range) = some ref
sheet_ref_of (format_range ref range) = some ref
sheet_ref_of (create_sheet title) = none
sheet_ref_of (rename_sheet ref title) = some ref
sheet_ref_of (delete_sheet ref) = some ref
sheet_ref_of (insert_rows ref start count) = some ref
sheet_ref_of (delete_rows ref start count) = some ref
sheet_ref_of (insert_columns ref start count) = some ref
sheet_ref_of (delete_columns ref start count) = some ref

abbrev pub known : Option String → Bool
known none = false
known (some title) = true

-- titles - {previous}
abbrev pub without : String → List String → List String
without previous = keep (λ title. not (title == previous))

abbrev pub value_of {ℓ} : {V : Type ℓ} → Option V → Result V
value_of none = err key_error
value_of (some v) = ok v

abbrev pub add_ref : String → List String → List String
add_ref ref refs = if elem ref refs then refs else ref ∷ refs

-- the branch of a dimension change: whether it inserts, and the current size
unfoldable pub check_dimension : Bool → ℕ → ℕ → ℕ → Result (Unit {0})
check_dimension inserts start count current =
    require (if inserts then leb start current else leb (start + count) current)
      spreadsheet_dimension_invalid 422

module _ (given : Given) where
  -- a range of an operation: it parses and names no sheet
  unfoldable pub local_range : String → Result BoundedSheetRange
  local_range range = do
    parsed ← parse_range given.other_digit range given.max_cells
    require (is_local parsed.sheet_title) spreadsheet_range_invalid 422
    ok parsed

  -- the block under `hasattr(operation, "range")`, with the number of cells it writes
  unfoldable pub check_range : SpreadsheetEditOperation → Result ℕ
  unfolding local_range check_matrix
  check_range (set_values ref range values) = do
    parsed ← local_range range
    check_matrix values
    require (leb (length values) (height_of parsed) && leb (width_of values) (breadth_of parsed))
        spreadsheet_values_invalid 422
    ok (length values * width_of values)
  check_range (append_rows ref range values) = do
    parsed ← local_range range
    check_matrix values
    require (leb (width_of values) (breadth_of parsed)) spreadsheet_values_invalid 422
    ok (length values * width_of values)
  check_range (clear_range ref range) = local_range range >>= λ parsed. ok 0
  check_range (format_range ref range) = local_range range >>= λ parsed. ok 0
  check_range _ = ok 0

  abbrev pub ref_known : Option String → Bool
  ref_known none = true
  ref_known (some ref) = known (given.sheet_ref_titles ref)

  unfoldable pub check_ref : SpreadsheetEditOperation → Result (Unit {0})
  check_ref operation =
      require (ref_known (sheet_ref_of operation)) spreadsheet_sheet_reference_invalid 403

  abbrev pub folded_in : String → List String → Bool
  folded_in title titles = elem (given.casefold title) (map given.casefold titles)

  abbrev pub dimension_change : Bool → (ℕ × ℕ → ℕ) → String → ℕ → ℕ → Plan → Result Plan
  dimension_change inserts size ref start count plan = do
    require (leb count max_dimension_change) spreadsheet_dimension_limit_exceeded 422
    dimensions ← value_of (given.sheet_dimensions ref)
    check_dimension inserts start count (size dimensions)
    ok plan

  unfoldable pub apply_operation : SpreadsheetEditOperation → Plan → Result Plan
  unfolding check_dimension
  apply_operation (create_sheet title) plan = do
    require (not (folded_in title plan.planned_titles)) spreadsheet_sheet_title_duplicate 409
    ok (record plan {
      tab_mutations = plan.tab_mutations + 1;
      planned_titles = title ∷ plan.planned_titles;
    })
  apply_operation (rename_sheet ref title) plan = do
    previous ← value_of (given.sheet_ref_titles ref)
    require (not (folded_in title (without previous plan.planned_titles)))
        spreadsheet_sheet_title_duplicate 409
    ok (record plan {
      tab_mutations = plan.tab_mutations + 1;
      planned_titles = title ∷ without previous plan.planned_titles;
    })
  apply_operation (delete_sheet ref) plan = do
    require (ltb (length (add_ref ref plan.deleted_refs)) (length given.sheet_titles))
        spreadsheet_last_sheet_protected 422
    ok (record plan {
      tab_mutations = plan.tab_mutations + 1;
      deleted_refs = add_ref ref plan.deleted_refs;
    })
  apply_operation (insert_rows ref start count) plan =
      dimension_change true (λ d. d.0) ref start count plan
  apply_operation (delete_rows ref start count) plan =
      dimension_change false (λ d. d.0) ref start count plan
  apply_operation (insert_columns ref start count) plan =
      dimension_change true (λ d. d.1) ref start count plan
  apply_operation (delete_columns ref start count) plan =
      dimension_change false (λ d. d.1) ref start count plan
  apply_operation _ plan = ok plan

  -- one round of the loop
  unfoldable pub validate_operation : SpreadsheetEditOperation → Plan → Result Plan
  unfolding check_range check_ref apply_operation
  validate_operation operation plan = do
    cells ← check_range operation
    check_ref operation
    apply_operation operation (record plan { written_cells = plan.written_cells + cells })

  unfoldable pub validate_all : List SpreadsheetEditOperation → Plan → Result Plan
  unfolding validate_operation
  validate_all [] plan = ok plan
  validate_all (operation ∷ operations) plan =
      validate_operation operation plan >>= validate_all operations

  abbrev pub start_plan : Plan
  start_plan = record {
    written_cells = 0;
    tab_mutations = 0;
    planned_titles = given.sheet_titles;
    deleted_refs = [];
  }

  unfoldable pub validate_operations : List SpreadsheetEditOperation → Result Plan
  unfolding validate_all
  validate_operations operations = do
    require (leb 1 (length operations) && leb (length operations) max_operations)
        spreadsheet_operations_invalid 422
    plan ← validate_all operations start_plan
    require (leb plan.written_cells given.max_cells) spreadsheet_cell_limit_exceeded 422
    require (leb plan.tab_mutations max_tab_mutations) spreadsheet_tab_limit_exceeded 422
    ok plan
