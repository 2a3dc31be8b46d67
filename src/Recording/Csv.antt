-- ===== src/Recording/Csv.antt =====
-- Python's csv module, as csv_provider/recorder.py writes a file and csv_provider/provider.py reads
-- it. A text is the list of its characters' codes.
pub mod Plain
use kuksa_val_feeders.Prelude.{
  Bool, List, Option, [], false, if◌then◌else◌, none, some, true, ℕ, ◌++◌, ◌==◌, ◌||◌, ◌∷◌, text_eq,
  nat_eq,
}
use kuksa_val_feeders.Python.Dict.{Dict, insert}
use kuksa_val_feeders.Python.Text.{Codes, codes_eq, same_codes}

-- csv.DictWriter with its default dialect: a field with a comma, a quote or the end of a line is
-- quoted, and its quotes are doubled.
abbrev is_special : ℕ → Bool
is_special c = c == b',' || (c == 34 || (c == 13 || c == 10))

abbrev pub needs_quotes : Codes → Bool
needs_quotes [] = false
needs_quotes (c ∷ cs) = is_special c || needs_quotes cs

abbrev doubled : Codes → Codes
doubled [] = []
doubled (c ∷ cs) = if c == 34 then 34 ∷ 34 ∷ doubled cs else c ∷ doubled cs

unfoldable pub write_field : Codes → Codes
write_field cs = if needs_quotes cs then 34 ∷ (doubled cs ++ (34 ∷ [])) else cs

-- A row of at least two fields, with its end of line.
unfoldable pub write_row : List Codes → Codes
unfolding write_field
write_row [] = 13 ∷ 10 ∷ []
write_row (cs ∷ []) = write_field cs ++ (13 ∷ 10 ∷ [])
write_row (cs ∷ fields) = write_field cs ++ (b',' ∷ write_row fields)

unfoldable pub write_rows : List (List Codes) → Codes
unfolding write_row
write_rows [] = []
write_rows (fields ∷ rows) = write_row fields ++ write_rows rows

-- csv.reader with delimiter=',', quotechar='|' and skipinitialspace=True. `after_return` is after
-- a carriage return, which a line feed may follow.
pub data Mode : Type 0 where
  start_record start_field in_field in_quoted quote_in_quoted after_return : Mode

-- The characters of the field so far, and the fields of the row so far.
pub record CsvReader : Type 0 where
  pub mode : Mode
  pub chars : Codes
  pub fields : List Codes

abbrev pub new_reader : CsvReader
new_reader = record { mode = start_record; chars = []; fields = [] }

abbrev pub save_field : CsvReader → CsvReader
save_field r = record { mode = start_field; chars = []; fields = r.fields ++ (r.chars ∷ []) }

abbrev pub add_char : Mode → ℕ → CsvReader → CsvReader
add_char mode c r = record r { mode = mode; chars = r.chars ++ (c ∷ []) }

abbrev to_mode : Mode → CsvReader → CsvReader
to_mode mode r = record r { mode = mode }

-- The row with its last field, and the reader after the end of the line.
abbrev end_row : ℕ → CsvReader → List (List Codes) × CsvReader
end_row c r = (
  (r.fields ++ (r.chars ∷ [])) ∷ [],
  record { mode = if c == 13 then after_return else start_record; chars = []; fields = [] },
)

abbrev is_newline : ℕ → Bool
is_newline c = c == 13 || c == 10

abbrev at_field : ℕ → CsvReader → CsvReader
at_field c r =
    if c == b'|'
    then to_mode in_quoted r
    else if c == b' '
    then to_mode start_field r
    else if c == b','
    then save_field r
    else add_char in_field c r

-- At the start of a record an empty line is a row without fields.
abbrev at_record : ℕ → CsvReader → List (List Codes) × CsvReader
at_record c r =
    if is_newline c
    then ([] ∷ [], to_mode (if c == 13 then after_return else start_record) r)
    else ([], at_field c r)

abbrev pub by_mode : Mode → ℕ → CsvReader → List (List Codes) × CsvReader
by_mode start_record c r = at_record c r
by_mode after_return c r = if c == 10 then ([], to_mode start_record r) else at_record c r
by_mode start_field c r = if is_newline c then end_row c r else ([], at_field c r)
by_mode in_field c r =
    if is_newline c
    then end_row c r
    else if c == b','
    then ([], save_field r)
    else ([], add_char in_field c r)
by_mode in_quoted c r =
    if c == b'|' then ([], to_mode quote_in_quoted r) else ([], add_char in_quoted c r)
by_mode quote_in_quoted c r =
    if c == b'|'
    then ([], add_char in_quoted c r)
    else if c == b','
    then ([], save_field r)
    else if is_newline c
    then end_row c r
    else ([], add_char in_field c r)

unfoldable pub read_char : ℕ → CsvReader → List (List Codes) × CsvReader
read_char c r = by_mode r.mode c r

-- The end of the file ends a row that was begun.
abbrev pub at_end : Mode → CsvReader → List (List Codes)
at_end start_record r = []
at_end after_return r = []
at_end _ r = (r.fields ++ (r.chars ∷ [])) ∷ []

unfoldable pub read_rows : Codes → CsvReader → List (List Codes)
unfolding read_char
read_rows [] r = at_end r.mode r
read_rows (c ∷ cs) r = let (rows, r') = read_char c r in rows ++ read_rows cs r'

-- csv.DictReader: a row by the names of the header; None for what a short row lacks. The fields
-- beyond the header, which DictReader has under the key None, are left out.
abbrev pub RowDict : Type 0
RowDict = Dict Codes (Option Codes)

unfoldable pub zip_row : List Codes → List Codes → RowDict → RowDict
zip_row [] fields d = d
zip_row (name ∷ names) [] d = zip_row names [] (insert name none d)
zip_row (name ∷ names) (field ∷ fields) d = zip_row names fields (insert name (some field) d)

-- Rows without fields are skipped.
unfoldable pub dicts_of : List Codes → List (List Codes) → List RowDict
unfolding zip_row
dicts_of names [] = []
dicts_of names ([] ∷ rows) = dicts_of names rows
dicts_of names (fields ∷ rows) = zip_row names fields [] ∷ dicts_of names rows

unfoldable pub dict_rows : List (List Codes) → List RowDict
unfolding dicts_of
dict_rows [] = []
dict_rows (names ∷ rows) = dicts_of names rows

unfoldable pub read_file : Codes → List RowDict
unfolding read_rows dict_rows
read_file text = dict_rows (read_rows text new_reader)
