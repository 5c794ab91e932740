-- ===== src/Ranges.antt =====
-- The A1 ranges of `ContentReadPolicy` and `parse_range` in app/policies/workspace.py, and the column names of
-- app/adapters/google_workspace/validation.py. The regular expression is read from left to right after a
-- split at the last `!`, which no other part of it matches. A parameter gives the values of the
-- decimal digits beyond ASCII, which `\d` and `int` accept too.
pub mod Columns
pub mod Bounds
use Prim.Native.Char.{Char, code}
use Prim.Native.String
use brunova_knowledge_gatewa.Prelude.{
  ℕ, zero, suc, ◌+◌, ◌-◌, ◌*◌, ◌/◌, ◌%◌, String, ◌==◌, Bool, true, false, not, ◌&&◌, ◌||◌, Option,
  none, some, List, [], ◌∷◌, ltb, leb, eqb, if◌then◌else◌,
}
use brunova_knowledge_gatewa.Prelude.Text.{
  append, is_empty, len, strip, last_char, is_upper, is_lower, matches, is_id_char,
}
use brunova_knowledge_gatewa.Errors.{
  Error, Result, ok, err, adapter, value_error, assertion_error, http_exception, ◌>>=◌, ◌>>◌,
  spreadsheet_range_invalid,
}

-- DriveReadPolicy.validate_list_limit, validate_resource_id and validate_document_limit
unfoldable pub validate_list_limit : ℕ → Result ℕ
validate_list_limit requested = if ltb 100 requested then err (http_exception 422) else ok requested

unfoldable pub validate_resource_id : String → Result String
validate_resource_id resource_id =
    if matches is_id_char 10 200 resource_id then ok resource_id else err (http_exception 422)

unfoldable pub validate_document_limit : ℕ → Result ℕ
validate_document_limit max_chars =
    if ltb max_chars 1 then err (http_exception 503) else ok max_chars

-- [A-Za-z]
abbrev pub is_letter : ℕ → Bool
is_letter c = is_upper c || is_lower c

-- ord(character.upper()) - ord("A") + 1
unfoldable pub letter_value : ℕ → ℕ
letter_value c = if is_lower c then c - 96 else c - 64

-- the loop of `_column_number`
unfoldable pub number_from : ℕ → String → ℕ
number_from number String.[] = number
number_from number (String.◌∷◌ c s) = number_from (number * 26 + letter_value (code c)) s

unfoldable pub column_number : String → ℕ
unfolding number_from letter_value
column_number column = number_from 0 column

-- chr(65 + digit)
abbrev pub nth : String → ℕ → Char
nth String.[] n = "A"
nth (String.◌∷◌ c s) zero = c
nth (String.◌∷◌ c s) (suc n) = nth s n

unfoldable pub letter : ℕ → Char
letter digit = nth "ABCDEFGHIJKLMNOPQRSTUVWXYZ" digit

-- the loop of `column_name`; `none` if the fuel runs out
unfoldable pub name_from : ℕ → ℕ → String → Option String
name_from zero number result = none
name_from (suc fuel) number result =
    let rest =
      name_from fuel ((number - 1) / 26) (String.◌∷◌ (letter ((number - 1) % 26)) result) in
    if eqb number 0 then some result else rest

unfoldable pub column_name : ℕ → Option String
unfolding name_from letter
column_name number = name_from (suc number) number ""

-- value.rpartition("!"), if there is one
unfoldable pub rpartition : ℕ → String → Option (String × String)
rpartition c String.[] = none
rpartition c (String.◌∷◌ d s) = elim (rpartition c s) [
  | some split ↦ some (String.◌∷◌ d split.0, split.1)
  | none ↦ if eqb (code d) c then some ("", s) else none
]

-- the characters of the class at the start, and the rest
unfoldable pub span : (ℕ → Bool) → String → String × String
span p String.[] = ("", "")
span p (String.◌∷◌ c s) =
    let rest = span p s in
    if p (code c) then (String.◌∷◌ c rest.0, rest.1) else ("", String.◌∷◌ c s)

-- \$?
abbrev pub skip_dollar : String → String
skip_dollar String.[] = ""
skip_dollar (String.◌∷◌ c s) = if eqb (code c) b'$' then s else String.◌∷◌ c s

-- (?:[^']|'')*
unfoldable pub quotes_paired : String → Bool
quotes_paired String.[] = true
quotes_paired (String.◌∷◌ c String.[]) = not (eqb (code c) b'\'')
quotes_paired (String.◌∷◌ c (String.◌∷◌ d s)) =
    let rest = quotes_paired s in
    let next = quotes_paired (String.◌∷◌ d s) in
    if eqb (code c) b'\'' then eqb (code d) b'\'' && rest else next

-- title[:-1] if title.endswith("'")
unfoldable pub before_quote : String → Option String
before_quote String.[] = none
before_quote (String.◌∷◌ c String.[]) = if eqb (code c) b'\'' then some "" else none
before_quote (String.◌∷◌ c (String.◌∷◌ d s)) = elim (before_quote (String.◌∷◌ d s)) [
  | none ↦ none
  | some r ↦ some (String.◌∷◌ c r)
]

-- title[1:-1] if the title starts and ends with a quote; a single quote does both
unfoldable pub unquoted : String → Option String
unfolding before_quote
unquoted String.[] = none
unquoted (String.◌∷◌ c String.[]) = if eqb (code c) b'\'' then some "" else none
unquoted (String.◌∷◌ c (String.◌∷◌ d s)) =
    if eqb (code c) b'\'' then before_quote (String.◌∷◌ d s) else none

-- title.replace("''", "'")
unfoldable pub single_quotes : String → String
single_quotes String.[] = ""
single_quotes (String.◌∷◌ c String.[]) = String.◌∷◌ c ""
single_quotes (String.◌∷◌ c (String.◌∷◌ d s)) =
    let rest = single_quotes s in
    let next = single_quotes (String.◌∷◌ d s) in
    if eqb (code c) b'\'' && eqb (code d) b'\'' then String.◌∷◌ c rest else String.◌∷◌ c next

abbrev lacks : ℕ → String → Bool
lacks c String.[] = true
lacks c (String.◌∷◌ d s) = not (eqb (code d) c) && lacks c s

-- '(?:[^']|'')+'|[^!]+
unfoldable pub is_title : String → Bool
unfolding unquoted quotes_paired
is_title title = (not (is_empty title) && lacks b'!' title) || elim (unquoted title) [
  | none ↦ false
  | some inner ↦ not (is_empty inner) && quotes_paired inner
]

-- A cell that was read: the column, the row's digits, and what follows.
pub record Cell : Type 0 where
  pub column : String
  pub row : String
  pub rest : String

pub record BoundedSheetRange : Type 0 where
  pub value : String
  pub sheet_title : Option String
  pub start_row : ℕ
  pub end_row : ℕ
  pub start_column : ℕ
  pub end_column : ℕ

unfoldable pub cell_count : BoundedSheetRange → ℕ
cell_count r = (r.end_row - r.start_row + 1) * (r.end_column - r.start_column + 1)

abbrev pub int_limit : ℕ
int_limit = 4300

-- [1-9] at the start
abbrev pub starts_positive : String → Bool
starts_positive String.[] = false
starts_positive (String.◌∷◌ c s) = leb b'1' (code c) && leb (code c) b'9'

abbrev pub after_colon : String → Option String
after_colon String.[] = none
after_colon (String.◌∷◌ c s) = if eqb (code c) b':' then some s else none

abbrev pub and_then {ℓ κ} : {A : Type ℓ} {B : Type κ} → Option A → (A → Option B) → Option B
and_then none f = none
and_then (some a) f = f a

abbrev pub found : Option (Cell × Cell) → Result (Cell × Cell)
found none = err (http_exception 422)
found (some cells) = ok cells

abbrev pub within : ℕ → ℕ → ℕ → ℕ → ℕ → Bool
within max_cells c1 r1 c2 r2 = leb ((c2 - c1 + 1) * (r2 - r1 + 1)) max_cells

abbrev pub unless : Bool → Result (Unit {0})
unless true = err (http_exception 422)
unless false = ok tt

abbrev pub as_adapter_error : Result String → Result String
as_adapter_error (err (http_exception n)) = err (adapter spreadsheet_range_invalid 422)
as_adapter_error r = r

abbrev pub matched : Option (Cell × Cell) → Result (Cell × Cell)
matched none = err assertion_error
matched (some cells) = ok cells

-- the title of `parse_range`
unfoldable pub title_of : String → Option String
unfolding rpartition unquoted single_quotes
title_of value = elim (rpartition b'!' value) [
  | none ↦ none
  | some (prefix, local) ↦ elim (unquoted prefix) [
    | none ↦ some prefix
    | some inner ↦ some (single_quotes inner)
  ]
]

module _ (other_digit : ℕ → Option ℕ) where
  abbrev digit_value : ℕ → Option ℕ
  digit_value c = if leb b'0' c && leb c b'9' then some (c - 48) else other_digit c

  -- \d
  abbrev pub is_decimal : ℕ → Bool
  is_decimal c = elim (digit_value c) [ none ↦ false | some n ↦ true ]

  abbrev pub value_or_zero : ℕ → ℕ
  value_or_zero c = elim (digit_value c) [ none ↦ 0 | some n ↦ n ]

  unfoldable pub int_from : ℕ → String → ℕ
  int_from n String.[] = n
  int_from n (String.◌∷◌ c s) = int_from (n * 10 + value_or_zero (code c)) s

  -- int(digits), which Python refuses for more than 4300 of them
  unfoldable pub int : String → Result ℕ
  unfolding int_from
  int digits = if ltb int_limit (len digits) then err value_error else ok (int_from 0 digits)

  -- \$?([A-Za-z]{1,3})\$?([1-9]\d*)
  unfoldable pub read_cell : String → Option Cell
  unfolding span
  read_cell s =
      let (letters, s1) = span is_letter (skip_dollar s) in
      let (digits, rest) = span is_decimal (skip_dollar s1) in
      if (leb 1 (len letters) && leb (len letters) 3) && starts_positive digits
      then some (record { column = letters; row = digits; rest = rest })
      else none

  unfoldable pub read_cells : String → Option (Cell × Cell)
  unfolding read_cell
  read_cells local = and_then (read_cell local) λ first. and_then (after_colon first.rest) λ rest.
      and_then (read_cell rest)
        λ second. if is_empty second.rest then some (first, second) else none

  -- A1_RANGE_PATTERN.fullmatch
  unfoldable pub full_match : String → Option (Cell × Cell)
  unfolding rpartition is_title read_cells
  full_match candidate = elim (rpartition b'!' candidate) [
    | none ↦ read_cells candidate
    | some (title, local) ↦ if is_title title then read_cells local else none
  ]

  unfoldable pub check_cells : String → ℕ → Cell × Cell → Result String
  unfolding column_number int
  check_cells candidate max_cells (first, second) = do
    start_row ← int first.row
    end_row ← int second.row
    unless (ltb (column_number second.column) (column_number first.column) || ltb end_row start_row)
    unless (
        not (
          within max_cells (column_number first.column) start_row (column_number second.column)
            end_row))
    ok candidate

  unfoldable pub validate_sheet_range : String → ℕ → Result String
  unfolding strip full_match check_cells
  validate_sheet_range range_name max_cells = do
    cells ← found (full_match (strip range_name))
    check_cells (strip range_name) max_cells cells

  unfoldable pub parsed_cells : String → Cell × Cell → Result BoundedSheetRange
  unfolding int column_number title_of
  parsed_cells value (first, second) = do
    start_row ← int first.row
    end_row ← int second.row
    ok (record {
      value = value;
      sheet_title = title_of value;
      start_row = start_row;
      end_row = end_row;
      start_column = column_number first.column;
      end_column = column_number second.column;
    })

  unfoldable pub parse_range : String → ℕ → Result BoundedSheetRange
  unfolding validate_sheet_range full_match parsed_cells
  parse_range range_name max_cells = do
    value ← as_adapter_error (validate_sheet_range range_name max_cells)
    cells ← matched (full_match value)
    parsed_cells value cells
