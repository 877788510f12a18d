-- ===== src/Validator/Csv.antt =====
-- packages/algorithm-validator/src/csv-validation.ts: the check of an uploaded CSV file.
use reputo.Prelude.{
  ℕ, ◌+◌, String, Bool, true, not, ◌||◌, Option, none, some, List, [], ◌∷◌, ◌++◌, map, keep, any,
  length, get_elem?, ltb, leb, ◌==◌, or_else, if◌then◌else◌,
}
use reputo.Storage.Bulk.{take}
use reputo.Tokens.Transfers.{has}
use reputo.Tokens.Firsts.{firsts}
use reputo.Values.Texts.{trim, is_empty, is_blank}
use reputo.Validator.CsvTexts.{
  unify_newlines, strip_bom, drop_start, drop_end, strip_quotes, normalize_key, sanitize,
  split_text,
}

-- A column; of an enumeration the texts count, since a number equals no text.
pub record CsvColumn : Type 0 where
  pub key : String
  pub is_enum : Bool  -- type === 'enum'
  pub is_required : Bool  -- required !== false
  pub enum : Option (List String)
  pub aliases : List String

-- `CsvIoItem['csv']`
pub record CsvConfig : Type 0 where
  pub has_header : Option Bool
  pub delimiter : Option String
  pub max_rows : Option ℕ
  pub columns : List CsvColumn

-- What is wrong with a file; the source prints each as a sentence.
pub data CsvError : Type 0 where
  too_many_rows : ℕ → ℕ → CsvError
  no_header_row no_data_row : CsvError
  missing_column : String → List String → CsvError
  wrong_width : ℕ → ℕ → ℕ → CsvError
  not_an_option : ℕ → String → String → CsvError

abbrev pub is_filled : String → Bool
is_filled line = not (is_blank line)

-- The lines that are not blank.
unfoldable pub lines_of : String → List String
unfolding unify_newlines split_text trim
lines_of content = keep is_filled (split_text "\n" (unify_newlines (strip_bom content)))

abbrev pub expects_header : CsvConfig → Bool
expects_header config = or_else config.has_header true

abbrev pub first_line : List String → Option String
first_line [] = none
first_line (line ∷ _) = some line

abbrev pub tail_of : List String → List String
tail_of [] = []
tail_of (_ ∷ lines) = lines

abbrev pub data_lines : CsvConfig → List String → List String
data_lines config lines = if expects_header config then tail_of lines else lines

abbrev pub header_line : CsvConfig → List String → Option String
header_line config lines = if expects_header config then first_line lines else none

-- The candidate that splits the header most, the first of them.
unfoldable pub best_delimiter : String → ℕ → String → List String → String
unfolding split_text
best_delimiter header best delimiter [] = delimiter
best_delimiter header best delimiter (candidate ∷ candidates) =
    let n = length (split_text candidate header) in
    best_delimiter header (if ltb best n then n else best)
      (if ltb best n then candidate else delimiter) candidates

abbrev pub candidate_delimiters : String → List String
candidate_delimiters delimiter = firsts (λ d. d) [] (delimiter ∷ "," ∷ ";" ∷ "\t" ∷ "|" ∷ [])

abbrev pub configured_delimiter : CsvConfig → String
configured_delimiter config = or_else config.delimiter ","

unfoldable pub choose_delimiter : CsvConfig → Option String → String
unfolding best_delimiter split_text firsts
choose_delimiter config none = configured_delimiter config
choose_delimiter config (some header) =
    let delimiter = configured_delimiter config in
    let n = length (split_text delimiter header) in
    if leb n 1
    then best_delimiter header n delimiter (candidate_delimiters delimiter)
    else delimiter

unfoldable pub headers_of : String → Option String → List String
unfolding split_text
headers_of delimiter none = []
headers_of delimiter (some header) = split_text delimiter header

abbrev pub keys_of_column : CsvColumn → List String
keys_of_column column = column.key ∷ column.aliases

unfoldable pub find_index : (String → Bool) → List String → Option ℕ
find_index p [] = none
find_index p (x ∷ xs) =
    let rest = find_index p xs in
    if p x then some 0 else (elim rest [ none ↦ none | some i ↦ some (i + 1) ])

-- `values[i]?.trim().replace(/^["']+|["']+$/g, '')`, empty where there is none
unfoldable pub cell : List String → ℕ → String
unfolding drop_start drop_end trim
cell values i = elim (get_elem? values i) [ none ↦ "" | some value ↦ strip_quotes (trim value) ]

-- A text that is empty, or of the enumeration if there is one.
abbrev pub is_option : Option (List String) → String → Bool
is_option none value = true
is_option (some options) value = is_empty value || has options value

abbrev pub limit_errors : CsvConfig → List String → List CsvError
limit_errors config rows = elim config.max_rows [
  | none ↦ []
  | some max ↦ if ltb max (length rows) then too_many_rows (length rows) max ∷ [] else []
]

abbrev pub empty_errors : List String → List CsvError
empty_errors [] = no_data_row ∷ []
empty_errors (_ ∷ _) = []

module _ (lower : String → String) where
  -- A required column has a header of its key or of an alias.
  unfoldable pub is_found : List String → CsvColumn → Bool
  unfolding sanitize normalize_key
  is_found headers column =
      let names = map sanitize headers in
      any (has (map lower names)) (map lower (keys_of_column column))
      || any (has (map (normalize_key lower) names))
          (map (normalize_key lower) (keys_of_column column))

  unfoldable pub column_errors : List String → List CsvColumn → List CsvError
  unfolding is_found
  column_errors headers [] = []
  column_errors headers (column ∷ columns) =
      let rest = column_errors headers columns in
      if not column.is_required || is_found headers column
      then rest
      else missing_column column.key column.aliases ∷ rest

  -- Where the column stands, by its key or an alias in lower case.
  unfoldable pub index_of : List String → CsvColumn → Option ℕ
  unfolding find_index sanitize
  index_of headers column =
      find_index (has (map lower (keys_of_column column))) (map (λ h. lower (sanitize h)) headers)

  -- The cell of a column, if the column stands in the header.
  unfoldable pub cell_of : List String → List String → CsvColumn → String
  unfolding index_of cell
  cell_of headers values column = elim (index_of headers column) [
    | none ↦ ""
    | some i ↦ cell values i
  ]

  unfoldable pub enum_errors : ℕ → List String → List String → List CsvColumn → List CsvError
  unfolding cell_of
  enum_errors row headers values [] = []
  enum_errors row headers values (column ∷ columns) =
      let rest = enum_errors row headers values columns in
      let value = cell_of headers values column in
      if not column.is_enum || is_option column.enum value
      then rest
      else not_an_option row column.key value ∷ rest

  unfoldable pub row_errors :
      String → List String → List CsvColumn → ℕ → List String → List CsvError
  unfolding split_text enum_errors
  row_errors delimiter headers columns row [] = []
  row_errors delimiter headers columns row (line ∷ lines) =
      let values = split_text delimiter line in
      (if length values == length headers
        then []
        else wrong_width row (length values) (length headers) ∷ [])
      ++ enum_errors row headers values columns
      ++ row_errors delimiter headers columns (row + 1) lines

  -- The errors about the columns and the first five rows, under a header.
  unfoldable pub table_errors : CsvConfig → Option String → List String → List CsvError
  unfolding choose_delimiter headers_of column_errors row_errors
  table_errors config header rows =
      let delimiter = choose_delimiter config header in
      let headers = headers_of delimiter header in
      column_errors headers config.columns
      ++ empty_errors rows
      ++ row_errors delimiter headers config.columns 1 (take 5 rows)

  -- The errors of `validateCSVContent`.
  unfoldable pub validate_csv_content : String → CsvConfig → List CsvError
  unfolding lines_of table_errors
  validate_csv_content content config =
      let lines = lines_of content in
      let rows = data_lines config lines in
      limit_errors config rows ++ (elim (header_line config lines) [
        | some header ↦ table_errors config (some header) rows
        | none ↦ if expects_header config then no_header_row ∷ [] else table_errors config none rows
      ])
