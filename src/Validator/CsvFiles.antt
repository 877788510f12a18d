-- ===== src/Validator/CsvFiles.antt =====
-- What a CSV file that passes is known to be (packages/algorithm-validator/src/csv-validation.ts).
use mathlib.Core.List.{Memᴰ}
use reputo.Prelude.{
  any, map, ap, str_eq, str_eq_iff, ℕ, ◌+◌, ◌≤◌, ◌==◌, ◌≡◌, ◌≢◌, ◌⊎◌, inl, inr, refl, String, true,
  false, Option, none, some, Option-cases, Bool-cases, List, [], ◌∷◌, ◌++◌, All, length, arith, sym,
  subst, if◌then◌else◌,
}
use reputo.Storage.Bulk.{take}
use reputo.Tokens.Transfers.{has}
use reputo.Values.Texts.{is_empty}
use reputo.Validator.Passed.{append_nothing, any-found, has-found}
use reputo.Validator.CsvTexts.{split_text, sanitize, normalize_key}
use reputo.Validator.Csv.{
  CsvColumn, CsvConfig, CsvError, wrong_width, lines_of, expects_header, first_line, data_lines,
  keys_of_column, header_line, choose_delimiter, headers_of, is_option, limit_errors, empty_errors,
  is_found, column_errors, cell_of, enum_errors, row_errors, table_errors, validate_csv_content,
}

map-map : (g f : String → String) (xs : List String) → map g (map f xs) ≡ map (λ x. g (f x)) xs
map-map g f [] = refl
map-map g f (x ∷ xs) = ap (λ rest. g (f x) ∷ rest) (map-map g f xs)

abbrev pub WithinLimit : Option ℕ → ℕ → Type 0
WithinLimit none n = Unit
WithinLimit (some max) n = n ≤ max

limit_errors-WithinLimit :
    (config : CsvConfig) (rows : List String)
    → limit_errors config rows ≡ []
    → WithinLimit config.max_rows (length rows)
limit_errors-WithinLimit config rows h = elim (Option-cases config.max_rows) [
  | inl n ↦ subst (λ o. WithinLimit o (length rows)) (sym n) tt
  | inr (max, e) ↦ subst (λ o. WithinLimit o (length rows)) (sym e) (ground (arith, h, e))
]

some_row : (rows : List String) → empty_errors rows ≡ [] → rows ≢ []
some_row [] h e = ground (arith, h)
some_row (row ∷ rows) h e = ground (arith, e)

module _ (lower : String → String) where
  -- The column stands in the header, by its key or an alias, in lower case or normalized.
  abbrev pub Stands : List String → CsvColumn → Type 0
  Stands headers column =
      (header : String) × (key : String) × Memᴰ header headers
      × Memᴰ key (column.key ∷ column.aliases)
      × ((lower (sanitize header) ≡ lower key)
          ⊎ (normalize_key lower (sanitize header) ≡ normalize_key lower key))

  -- No value, or one of the enumeration.
  abbrev pub CellFits : Option (List String) → String → Type 0
  CellFits none value = Unit
  CellFits (some options) value =
      (is_empty value ≡ true) ⊎ ((option : String) × Memᴰ option options × (option ≡ value))

  -- As many values as there are headers, and of each enumeration a value of it or none.
  abbrev pub RowFits : String → List String → List CsvColumn → String → Type 0
  RowFits delimiter headers columns line =
      (length (split_text delimiter line) ≡ length headers)
      × All
          (λ (column : CsvColumn).
            (column.is_enum ≡ false)
            ⊎ CellFits column.enum (cell_of lower headers (split_text delimiter line) column))
          columns

  -- Every required column, a row, and a first five rows that fit.
  abbrev pub IsTable : String → List String → List CsvColumn → List String → Type 0
  IsTable delimiter headers columns rows =
      All (λ (column : CsvColumn). (column.is_required ≡ false) ⊎ Stands headers column) columns
      × (rows ≢ [])
      × All (RowFits delimiter headers columns) (take 5 rows)

  -- A header where one is expected, no more rows than allowed, and a table.
  abbrev pub IsCsv : String → CsvConfig → Type 0
  IsCsv content config =
      ((expects_header config ≡ false)
        ⊎ ((header : String) × (first_line (lines_of content) ≡ some header)))
      × WithinLimit config.max_rows (length (data_lines config (lines_of content)))
      × IsTable (choose_delimiter config (header_line config (lines_of content)))
          (headers_of (choose_delimiter config (header_line config (lines_of content)))
            (header_line config (lines_of content)))
          config.columns (data_lines config (lines_of content))

  -- A key whose image is among those of the headers.
  common :
      (f : String → String) (headers keys : List String)
      → any (has (map f (map sanitize headers))) (map f keys) ≡ true
      → (header : String) × (key : String) × Memᴰ header headers
        × Memᴰ key keys
        × (f (sanitize header) ≡ f key)
  common f headers [] h = ground (arith, h)
  common f headers (key ∷ keys) h = elim (Bool-cases (has (map f (map sanitize headers)) (f key))) [
    | inl t ↦
        let whole : has (map (λ x. f (sanitize x)) headers) (f key) ≡ true =
          subst (λ names. has names (f key) ≡ true) (map-map f sanitize headers) t in
        let (header, m, same) = has-found (λ x. f (sanitize x)) headers (f key) whole in
        (header, key, m, Memᴰ.head refl, same)
    | inr n ↦
        let (header, k, m, mk, same) = common f headers keys (ground (arith, h, n)) in
        (header, k, m, Memᴰ.tail mk, same)
  ]

  is_found-Stands :
      (headers : List String) (column : CsvColumn)
      → is_found lower headers column ≡ true
      → Stands headers column
  unfolding is_found
  is_found-Stands headers column h =
      let keys = keys_of_column column in
      let plain = any (has (map lower (map sanitize headers))) (map lower keys) in
      elim (Bool-cases plain) [
        | inl t ↦
            let (header, key, m, mk, same) = common lower headers keys t in
            (header, key, m, mk, inl same)
        | inr n ↦
            let (header, key, m, mk, same) =
              common (normalize_key lower) headers keys (ground (arith, h, n)) in
            (header, key, m, mk, inr same)
      ]

  column_errors-Stands :
      (headers : List String) (columns : List CsvColumn)
      → column_errors lower headers columns ≡ []
      → All (λ (column : CsvColumn). (column.is_required ≡ false) ⊎ Stands headers column) columns
  unfolding column_errors
  column_errors-Stands headers [] h = tt
  column_errors-Stands headers (column ∷ columns) h =
      let rest = column_errors-Stands headers columns in
      elim (Bool-cases column.is_required) [
        | inr f ↦ (inl f, rest (ground (arith, h, f)))
        | inl t ↦ elim (Bool-cases (is_found lower headers column)) [
          | inl found ↦
              (inr (is_found-Stands headers column found), rest (ground (arith, h, t, found)))
          | inr missing ↦ ground (arith, h, t, missing)
        ]
      ]

  is_option-CellFits :
      (enum : Option (List String)) (value : String)
      → is_option enum value ≡ true
      → CellFits enum value
  is_option-CellFits none value h = tt
  is_option-CellFits (some options) value h = elim (Bool-cases (is_empty value)) [
    | inl t ↦ inl t
    | inr f ↦
        let (option, m, same) = any-found (λ o. str_eq o value) options (ground (arith, h, f)) in
        inr (option, m, (str_eq_iff option value).0 same)
  ]

  enum_errors-CellFits :
      (row : ℕ) (headers values : List String) (columns : List CsvColumn)
      → enum_errors lower row headers values columns ≡ []
      → All
          (λ (column : CsvColumn).
            (column.is_enum ≡ false) ⊎ CellFits column.enum (cell_of lower headers values column))
          columns
  unfolding enum_errors
  enum_errors-CellFits row headers values [] h = tt
  enum_errors-CellFits row headers values (column ∷ columns) h =
      let rest = enum_errors-CellFits row headers values columns in
      let value = cell_of lower headers values column in
      elim (Bool-cases column.is_enum) [
        | inr f ↦ (inl f, rest (ground (arith, h, f)))
        | inl t ↦ elim (Bool-cases (is_option column.enum value)) [
          | inl fits ↦
              (inr (is_option-CellFits column.enum value fits), rest (ground (arith, h, t, fits)))
          | inr out ↦ ground (arith, h, t, out)
        ]
      ]

  row_errors-RowFits :
      (delimiter : String) (headers : List String) (columns : List CsvColumn) (row : ℕ)
      (lines : List String)
      → row_errors lower delimiter headers columns row lines ≡ []
      → All (RowFits delimiter headers columns) lines
  unfolding row_errors
  row_errors-RowFits delimiter headers columns row [] h = tt
  row_errors-RowFits delimiter headers columns row (line ∷ lines) h =
      let values = split_text delimiter line in
      let width : List CsvError =
        if length values == length headers
        then []
        else wrong_width row (length values) (length headers) ∷ [] in
      let (first, others) =
        append_nothing (width ++ enum_errors lower row headers values columns)
          (row_errors lower delimiter headers columns (row + 1) lines) h in
      let (same, options) =
        append_nothing width (enum_errors lower row headers values columns) first in
      (
        (ground (arith, same), enum_errors-CellFits row headers values columns options),
        row_errors-RowFits delimiter headers columns (row + 1) lines others,
      )

  table_errors-IsTable :
      (config : CsvConfig) (header : Option String) (rows : List String)
      → table_errors lower config header rows ≡ []
      → IsTable
          (choose_delimiter config header)
          (headers_of (choose_delimiter config header) header)
          config.columns
          rows
  unfolding table_errors
  table_errors-IsTable config header rows h =
      let delimiter = choose_delimiter config header in
      let headers = headers_of delimiter header in
      let sampled = row_errors lower delimiter headers config.columns 1 (take 5 rows) in
      let (first, fine) =
        append_nothing (column_errors lower headers config.columns ++ empty_errors rows) sampled
          h in
      let (found, filled) =
        append_nothing (column_errors lower headers config.columns) (empty_errors rows) first in
      (
        column_errors-Stands headers config.columns found,
        some_row rows filled,
        row_errors-RowFits delimiter headers config.columns 1 (take 5 rows) fine,
      )

  pub validate_csv_content-IsCsv :
      (content : String) (config : CsvConfig)
      → validate_csv_content lower content config ≡ []
      → IsCsv content config
  unfolding validate_csv_content
  validate_csv_content-IsCsv content config h =
      let lines = lines_of content in
      let rows = data_lines config lines in
      let limit = limit_errors-WithinLimit config rows (ground (arith, h)) in
      let table : table_errors lower config (header_line config lines) rows ≡ [] =
        elim (Option-cases (header_line config lines)) [
          | inr (header, e) ↦ ground (arith, h, e)
          | inl n ↦ ground (arith, h, n)
        ] in
      let header : (expects_header config ≡ false)
          ⊎ ((line : String) × (first_line lines ≡ some line)) =
        elim (Bool-cases (expects_header config)) [
          | inr f ↦ inl f
          | inl t ↦ elim (Option-cases (first_line lines)) [
            | inr (line, e) ↦ inr (line, e)
            | inl n ↦ ground (arith, h, t, n)
          ]
        ] in
      (header, limit, table_errors-IsTable config (header_line config lines) rows table)
