-- ===== src/Tests/Sheets.antt =====
-- Ranges that are read, and batches of operations on a spreadsheet of two sheets.
use brunova_knowledge_gatewa.Prelude.{
  ℕ, ◌-◌, ◌≤◌, String, ◌==◌, ◌≡◌, refl, Option, none, some, List, [], ◌∷◌, All, length,
  if◌then◌else◌,
}
use brunova_knowledge_gatewa.Prelude.Text.{is_space}
use brunova_knowledge_gatewa.Errors.{ok}
use brunova_knowledge_gatewa.Json.{Json}
use brunova_knowledge_gatewa.Ranges.{BoundedSheetRange, parse_range}
use brunova_knowledge_gatewa.Ranges.Bounds.{IsBounded, parse_range_bounds}
use brunova_knowledge_gatewa.Sheets.{Given, Plan, SpreadsheetEditOperation, validate_operations}
use brunova_knowledge_gatewa.Sheets.Steps.{cells_of, tabs_of, total, deletions, UniqueTitles}
use brunova_knowledge_gatewa.Sheets.Batches.{IsAcceptable, validate_operations-IsAcceptable}

abbrev no_digit : ℕ → Option ℕ
no_digit c = none

abbrev quoted : BoundedSheetRange
quoted = record {
  value = "'it''s!'!$A2:bC$10";
  sheet_title = some "it's!";
  start_row = 2;
  end_row = 10;
  start_column = 1;
  end_column = 55;
}

quoted_parses : parse_range no_digit " 'it''s!'!$A2:bC$10 " 495 ≡ ok quoted
unfolding parse_range is_space
quoted_parses = refl

parse_range_bounds_example : IsBounded " 'it''s!'!$A2:bC$10 " 495 quoted
parse_range_bounds_example =
    parse_range_bounds no_digit " 'it''s!'!$A2:bC$10 " 495 quoted quoted_parses

-- A title of two quotes passes for no title.
empty_title : BoundedSheetRange
empty_title = record {
  value = "''!A1:A1";
  sheet_title = some "";
  start_row = 1;
  end_row = 1;
  start_column = 1;
  end_column = 1;
}

empty_title_parses : parse_range no_digit "''!A1:A1" 1 ≡ ok empty_title
unfolding parse_range empty_title is_space
empty_title_parses = refl

abbrev titles : String → Option String
titles ref = if ref == "r1" then some "A" else if ref == "r2" then some "B" else none

abbrev dimensions : String → Option (ℕ × ℕ)
dimensions ref = if ref == "r1" then some (10, 4) else if ref == "r2" then some (10, 4) else none

abbrev given : Given
given = record {
  other_digit = no_digit;
  casefold = λ s. s;
  max_cells = 100;
  sheet_titles = "A" ∷ "B" ∷ [];
  sheet_ref_titles = titles;
  sheet_dimensions = dimensions;
}

abbrev batch : List SpreadsheetEditOperation
batch =
    SpreadsheetEditOperation.set_values "r1" "A1:B2" ((Json.null ∷ Json.null ∷ []) ∷ [])
    ∷ SpreadsheetEditOperation.create_sheet "C"
    ∷ SpreadsheetEditOperation.delete_rows "r2" 8 2
    ∷ SpreadsheetEditOperation.delete_sheet "r2"
    ∷ []

abbrev batch_plan : Plan
batch_plan = record {
  written_cells = 2;
  tab_mutations = 2;
  planned_titles = "C" ∷ "A" ∷ "B" ∷ [];
  deleted_refs = "r2" ∷ [];
}

batch_valid : validate_operations given batch ≡ ok batch_plan
unfolding validate_operations parse_range is_space
batch_valid = refl

validate_operations-IsAcceptable_example :
    ((1 ≤ length batch) × (length batch ≤ 50))
    × (total cells_of batch ≤ 100)
    × (total tabs_of batch ≤ 10)
    × (length (deletions batch []) ≤ 2 - 1)
    × All (IsAcceptable given) batch
    × (UniqueTitles given ("A" ∷ "B" ∷ []) → UniqueTitles given ("C" ∷ "A" ∷ "B" ∷ []))
validate_operations-IsAcceptable_example =
    validate_operations-IsAcceptable given batch batch_plan batch_valid

-- A sheet that is renamed twice: the second renaming frees the first title of the sheet, which a new
-- sheet has taken, and a second new sheet gets it too.
abbrev renamed_twice : List SpreadsheetEditOperation
renamed_twice =
    SpreadsheetEditOperation.rename_sheet "r1" "X"
    ∷ SpreadsheetEditOperation.create_sheet "A"
    ∷ SpreadsheetEditOperation.rename_sheet "r1" "Y"
    ∷ SpreadsheetEditOperation.create_sheet "A"
    ∷ []

abbrev renamed_plan : Plan
renamed_plan = record {
  written_cells = 0;
  tab_mutations = 4;
  planned_titles = "A" ∷ "Y" ∷ "X" ∷ "B" ∷ [];
  deleted_refs = [];
}

duplicate_accepted : validate_operations given renamed_twice ≡ ok renamed_plan
unfolding validate_operations
duplicate_accepted = refl
