-- ===== src/Ingestion/Columns.antt =====
-- packages/ingestion/csv_stream.py: the column of the enterprise numbers, and the values in it. The
-- rows are those that Python's csv reader yields.
use Prim.Native.Char.{code}
use airflow_kbo.Prelude.{
  ℕ, suc, Char, String, Bool, true, false, Option, none, some, List, [], ◌∷◌, ◌++◌, map, ◌==◌,
  if◌then◌else◌, any, get_elem?, ltb, nat_eq,
}
use airflow_kbo.Text.{Unicode, strip}
use airflow_kbo.Action.{Result, ok, err, value_error}

abbrev pub enterprise_column_aliases : List String
enterprise_column_aliases =
    "enterprise_number" ∷ "enterprisenumber" ∷ "entitynumber" ∷ "numero" ∷ "ondernemingsnummer"
    ∷ "bce" ∷ "n°" ∷ "nº" ∷ "no" ∷ "numéro" ∷ []

pub record CsvStream : Type 0 where
  pub column_index : ℕ
  pub has_header : Bool

-- s.replace(" ", "_")
unfoldable pub spaces_to_underscores : String → String
spaces_to_underscores String.[] = String.[]
spaces_to_underscores (String.◌∷◌ c s) =
    String.◌∷◌ (if nat_eq (code c) 32 then "_" else c) (spaces_to_underscores s)

-- s.count(c)
unfoldable pub count_char : Char → String → ℕ
count_char c String.[] = 0
count_char c (String.◌∷◌ d s) =
    let rest = count_char c s in if nat_eq (code d) (code c) then suc rest else rest

-- The delimiter by the first line of the file; without a line it is a comma.
unfoldable pub detect_delimiter : Option String → Char
unfolding count_char
detect_delimiter none = ","
detect_delimiter (some first) =
    if ltb (count_char "," first) (count_char ";" first) then ";" else ","

abbrev pub is_column : String → List String → Bool
is_column name columns = any (λ c. c == name) columns

-- columns.index(name)
unfoldable pub index_of : String → List String → Option ℕ
index_of name [] = none
index_of name (c ∷ columns) =
    let rest = index_of name columns in
    if c == name then some 0 else elim rest [ none ↦ none | some i ↦ some (suc i) ]

-- The index of the first alias, in the order of the aliases, that is a column.
unfoldable pub first_alias : List String → List String → Option ℕ
unfolding index_of
first_alias [] columns = none
first_alias (name ∷ names) columns =
    let rest = first_alias names columns in
    if is_column name columns then index_of name columns else rest

abbrev pub or_zero : Option ℕ → ℕ
or_zero none = 0
or_zero (some i) = i

abbrev pub or_value_error : Option ℕ → Result ℕ
or_value_error none = err value_error
or_value_error (some i) = ok i

module _ ⦃u : Unicode⦄ where
  unfoldable pub normalize_header_name : String → String
  unfolding spaces_to_underscores
  normalize_header_name name = spaces_to_underscores (u.lower (strip name))

  unfoldable pub resolve_column_index : Option (List String) → Option String → Result ℕ
  unfolding first_alias index_of
  resolve_column_index none none = ok 0
  resolve_column_index none (some column) = err value_error
  resolve_column_index (some header) none =
      ok (or_zero (first_alias enterprise_column_aliases (map normalize_header_name header)))
  resolve_column_index (some header) (some column) =
      or_value_error (index_of (normalize_header_name column) (map normalize_header_name header))

  unfoldable pub header_matches_enterprise_column : List String → Bool
  header_matches_enterprise_column header =
      any (λ alias. is_column alias (map normalize_header_name header)) enterprise_column_aliases

  -- `first` is the first row of the file, `column` the column that was asked for.
  unfoldable pub csv_has_enterprise_column : Option (List String) → Option String → Bool
  unfolding header_matches_enterprise_column
  csv_has_enterprise_column first (some column) = true
  csv_has_enterprise_column none none = false
  csv_has_enterprise_column (some []) none = false
  csv_has_enterprise_column (some (c ∷ cs)) none = header_matches_enterprise_column (c ∷ cs)

  abbrev pub stream_at : Bool → Result ℕ → Result CsvStream
  stream_at has_header (err e) = err e
  stream_at has_header (ok i) = ok (record { column_index = i; has_header = has_header })

  unfoldable pub open_csv_stream : Option (List String) → Option String → Result CsvStream
  unfolding resolve_column_index header_matches_enterprise_column
  open_csv_stream none column = ok (record { column_index = 0; has_header = false })
  open_csv_stream (some first) (some column) =
      stream_at true (resolve_column_index (some first) (some column))
  open_csv_stream (some first) none =
      if header_matches_enterprise_column first
      then stream_at true (resolve_column_index (some first) none)
      else stream_at false (resolve_column_index none none)

-- row[column_index], or an empty text in a row that is too short.
abbrev pub cell_of : ℕ → List String → String
cell_of i row = elim (get_elem? row i) [ none ↦ "" | some cell ↦ cell ]

-- The rows after the first one, from line `n + 1` on.
unfoldable pub number_rows : ℕ → ℕ → List (List String) → List (ℕ × String)
number_rows i n [] = []
number_rows i n (row ∷ rows) = (suc n, cell_of i row) ∷ number_rows i (suc n) rows

-- A header is skipped; a first row of data that is too short is skipped too.
abbrev pub first_value : CsvStream → List String → List (ℕ × String)
first_value stream first =
    if stream.has_header
    then []
    else elim (get_elem? first stream.column_index) [ none ↦ [] | some cell ↦ (1, cell) ∷ [] ]

unfoldable pub iter_enterprise_values : CsvStream → List (List String) → List (ℕ × String)
unfolding number_rows
iter_enterprise_values stream [] = []
iter_enterprise_values stream (first ∷ rows) =
    first_value stream first ++ number_rows stream.column_index 1 rows
