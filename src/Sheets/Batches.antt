-- ===== src/Sheets/Batches.antt =====
-- What a batch of operations that `validate_operations` of app/policies/workspace.py lets through can do.
use brunova_knowledge_gatewa.Prelude.{
  ◌+◌, ◌-◌, ◌≤◌, String, ◌≡◌, refl, sym, ap, ◌∙◌, subst, Bool, true, ◌&&◌, List, [], ◌∷◌, leb,
  length, All, arith,
}
use brunova_knowledge_gatewa.Errors.{
  ok, >>=-eq-ok, ok-injective, require, spreadsheet_operations_invalid,
  spreadsheet_cell_limit_exceeded, spreadsheet_tab_limit_exceeded,
  spreadsheet_sheet_reference_invalid,
}
use brunova_knowledge_gatewa.Sheets.{
  Given, max_operations, max_tab_mutations, SpreadsheetEditOperation, set_values, append_rows,
  clear_range, format_range, create_sheet, rename_sheet, delete_sheet, insert_rows, delete_rows,
  insert_columns, delete_columns, Plan, check_range, sheet_ref_of, ref_known, check_ref,
  apply_operation, validate_operation, validate_all, start_plan, validate_operations,
}
use brunova_knowledge_gatewa.Sheets.Steps.{
  required, cells_of, tabs_of, total, deletions, FitsRange, FitsSheet, UniqueTitles, IsApplied,
  check_range-FitsRange, apply_operation-IsApplied,
}

deletions_split :
    (operation : SpreadsheetEditOperation) (operations : List SpreadsheetEditOperation)
    (refs : List String)
    → deletions operations (deletions (operation ∷ []) refs)
      ≡ deletions (operation ∷ operations) refs
deletions_split (set_values ref range values) operations refs = refl
deletions_split (append_rows ref range values) operations refs = refl
deletions_split (clear_range ref range) operations refs = refl
deletions_split (format_range ref range) operations refs = refl
deletions_split (create_sheet title) operations refs = refl
deletions_split (rename_sheet ref title) operations refs = refl
deletions_split (delete_sheet ref) operations refs = refl
deletions_split (insert_rows ref start count) operations refs = refl
deletions_split (delete_rows ref start count) operations refs = refl
deletions_split (insert_columns ref start count) operations refs = refl
deletions_split (delete_columns ref start count) operations refs = refl

module _ (given : Given) where
  -- An operation names a known sheet, fits the range that it names, and fits its sheet.
  abbrev pub IsAcceptable : SpreadsheetEditOperation → Type 0
  IsAcceptable operation =
      (ref_known given (sheet_ref_of operation) ≡ true)
      × FitsRange given operation
      × FitsSheet given operation

  validate_operation-IsAcceptable :
      (operation : SpreadsheetEditOperation) (plan plan' : Plan)
      → validate_operation given operation plan ≡ ok plan'
      → IsAcceptable operation
        × IsApplied given operation
            (record plan { written_cells = plan.written_cells + cells_of operation })
            plan'
  unfolding validate_operation check_ref
  validate_operation-IsAcceptable operation plan plan' h =
      let (cells, e, h1) = >>=-eq-ok (check_range given operation) _ h in
      let (u, e1, h2) =
        >>=-eq-ok
          (require (ref_known given (sheet_ref_of operation)) spreadsheet_sheet_reference_invalid
            403)
          _ h1 in
      let (same, fits) = check_range-FitsRange given operation cells e in
      let known =
        required (ref_known given (sheet_ref_of operation)) spreadsheet_sheet_reference_invalid 403
          u e1 in
      let applied =
        apply_operation-IsApplied given operation
          (record plan { written_cells = plan.written_cells + cells_of operation }) plan'
          (ap
              (λ n.
                apply_operation given operation
                  (record plan { written_cells = plan.written_cells + n }))
              (sym same)
            ∙ h2) in
      ((known, fits, applied.0), applied)

  -- What the loop has done when it ends.
  abbrev IsRun : List SpreadsheetEditOperation → Plan → Plan → Type 0
  IsRun operations plan plan' =
      All IsAcceptable operations
      × (plan'.written_cells ≡ plan.written_cells + total cells_of operations)
      × (plan'.tab_mutations ≡ plan.tab_mutations + total tabs_of operations)
      × (plan'.deleted_refs ≡ deletions operations plan.deleted_refs)
      × (length plan.deleted_refs ≤ length given.sheet_titles - 1
          → length plan'.deleted_refs ≤ length given.sheet_titles - 1)
      × (UniqueTitles given plan.planned_titles → UniqueTitles given plan'.planned_titles)

  validate_all-IsRun :
      (operations : List SpreadsheetEditOperation) (plan plan' : Plan)
      → validate_all given operations plan ≡ ok plan'
      → IsRun operations plan plan'
  unfolding validate_all
  validate_all-IsRun [] plan plan' h =
      subst (IsRun [] plan) (ok-injective h) (tt, omega arith, omega arith, refl, λ x. x, λ x. x)
  validate_all-IsRun (operation ∷ operations) plan plan' h =
      let (middle, e, h1) = >>=-eq-ok (validate_operation given operation plan) _ h in
      let (good, (_, cells, tabs, gone, remains, unique)) =
        validate_operation-IsAcceptable operation plan middle e in
      let (goods, cells', tabs', gone', remains', unique') =
        validate_all-IsRun operations middle plan' h1 in
      (
        (good, goods),
        omega (arith, cells, cells'),
        omega (arith, tabs, tabs'),
        gone'
            ∙ ap (deletions operations) gone
            ∙ deletions_split operation operations plan.deleted_refs,
        λ x. remains' (remains x),
        λ x. unique' (unique x),
      )

  -- A batch that is let through has 1 to 50 operations, writes at most `max_cells` cells, creates,
  -- renames or deletes sheets at most ten times, and deletes at most all sheets but one. Every
  -- operation but a creation names a known sheet. One on a range names a range that parses and whose
  -- sheet title is none or empty; one that writes values writes rows of one length, not 0 and
  -- not longer than the range is wide, and `set_values` no more rows than it is high. One that inserts
  -- or deletes rows or columns is for at most 1000; it inserts no further than at the end of the sheet
  -- and deletes only what the sheet has. If the sheets' titles differ in more than case, so do
  -- the titles that the policy has planned at the end.
  pub validate_operations-IsAcceptable :
      (operations : List SpreadsheetEditOperation) (plan : Plan)
      → validate_operations given operations ≡ ok plan
      → ((1 ≤ length operations) × (length operations ≤ 50))
        × (total cells_of operations ≤ given.max_cells)
        × (total tabs_of operations ≤ 10)
        × (length (deletions operations []) ≤ length given.sheet_titles - 1)
        × All IsAcceptable operations
        × (UniqueTitles given given.sheet_titles → UniqueTitles given plan.planned_titles)
  unfolding validate_operations
  validate_operations-IsAcceptable operations plan h =
      let size : Bool = leb 1 (length operations) && leb (length operations) max_operations in
      let (u, e, h1) = >>=-eq-ok (require size spreadsheet_operations_invalid 422) _ h in
      let (last, e1, h2) = >>=-eq-ok (validate_all given operations (start_plan given)) _ h1 in
      let (v, e2, h3) =
        >>=-eq-ok
          (require (leb last.written_cells given.max_cells) spreadsheet_cell_limit_exceeded 422) _
          h2 in
      let (w, e3, h4) =
        >>=-eq-ok
          (require (leb last.tab_mutations max_tab_mutations) spreadsheet_tab_limit_exceeded 422) _
          h3 in
      let (goods, cells, tabs, gone, remains, unique) =
        validate_all-IsRun operations (start_plan given) last e1 in
      let sized : (leb 1 (length operations) && leb (length operations) max_operations) ≡ true =
        required size spreadsheet_operations_invalid 422 u e in
      let written =
        required (leb last.written_cells given.max_cells) spreadsheet_cell_limit_exceeded 422 v
          e2 in
      let changed =
        required (leb last.tab_mutations max_tab_mutations) spreadsheet_tab_limit_exceeded 422 w
          e3 in
      (
        (ground (arith, sized), ground (arith, sized)),
        ground (arith, written, cells),
        ground (arith, changed, tabs),
        subst (λ (refs : List String). length refs ≤ length given.sheet_titles - 1) gone
            (remains (omega arith)),
        goods,
        λ x. subst (λ (p : Plan). UniqueTitles given p.planned_titles) (ok-injective h4) (unique x),
      )
