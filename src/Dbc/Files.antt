-- ===== src/Dbc/Files.antt =====
-- The files that DBCParser.__init__ of dbc2val/dbcfeederlib/dbcparser.py reads.
-- `load_file` is cantools.database.load_file, for a name, the strictness and the mask, and
-- `add_file` the method of the database that adds a file of a format in an encoding.
pub mod Once
use Prim.Native.Char.{code}
use kuksa_val_feeders.Prelude.{
  Bool, List, Option, String, [], false, if◌then◌else◌, map, none, refl, some, true, ℕ, ◌&&◌, ◌++◌,
  ◌==◌, ◌||◌, ◌∷◌, ◌≡◌, contains, text_eq, nat_eq, leb,
}
use kuksa_val_feeders.Dbc.{Database, Parser, mask_for, new_parser}
use kuksa_val_feeders.Python.Dict.{add}
use kuksa_val_feeders.Python.Errors.{Result, err, ok, system_exit, ◌>>=◌}
use kuksa_val_feeders.Python.Text.{Codes, codes, lower_code, same_codes}

-- ASCII whitespace
abbrev is_space : ℕ → Bool
is_space c = c == b' ' || ((leb 9 c && leb c 13) || (leb 28 c && leb c 31))

unfoldable pub lstrip : String → String
lstrip String.[] = ""
lstrip (String.◌∷◌ c s) = let rest = lstrip s in if is_space (code c) then rest else String.◌∷◌ c s

unfoldable pub rstrip : String → String
rstrip String.[] = ""
rstrip (String.◌∷◌ c s) =
    let rest = rstrip s in if is_space (code c) && rest == "" then "" else String.◌∷◌ c rest

-- name.strip()
abbrev pub strip_name : String → String
strip_name name = rstrip (lstrip name)

-- Where in the last component of a path the reading is: at dots that begin it, in its name, or
-- after a later dot.
pub data Place : Type 0 where
  leading in_name in_extension : Place

abbrev after_dot : Place → Place
after_dot leading = leading
after_dot _ = in_extension

abbrev after_other : ℕ → Place → Codes → Place × Codes
after_other c leading extension = (in_name, extension)
after_other c in_name extension = (in_name, extension)
after_other c in_extension extension = (in_extension, extension ++ (c ∷ []))

abbrev next_place : ℕ → Place → Codes → Place × Codes
next_place c place extension =
    if c == b'/'
    then (leading, [])
    else if c == b'.'
    then (after_dot place, [])
    else after_other c place extension

unfoldable pub extension_from : Codes → Place → Codes → Codes
extension_from [] place extension = extension
extension_from (c ∷ cs) place extension =
    let (place', extension') = next_place c place extension in extension_from cs place' extension'

-- os.path.splitext(filename)[1][1:].lower()
unfoldable pub db_format_of : String → Codes
unfolding extension_from codes
db_format_of filename = map lower_code (extension_from (codes filename) leading [])

pub data Format : Type 0 where
  arxml dbc kcd sym : Format

unfoldable pub format_of : Codes → Option Format
unfolding codes
format_of db_format =
    if same_codes db_format (codes "arxml")
    then some arxml
    else if same_codes db_format (codes "dbc")
    then some dbc
    else if same_codes db_format (codes "kcd")
    then some kcd
    else if same_codes db_format (codes "sym")
    then some sym
    else none

-- _dbc_file_encodings[db_format], or 'utf-8'
unfoldable pub encoding_of : Codes → String
unfolding codes
encoding_of db_format =
    if same_codes db_format (codes "dbc") || same_codes db_format (codes "sym")
    then "cp1252"
    else "utf-8"

-- What load_file reads: a CAN database or one of another kind.
pub data Loaded : Type 0 where
  can : (db : Database) → Loaded
  other : Loaded

pub record Files : Type 0 where
  pub processed : List String
  pub db : Option Database

abbrev pub parser_of : Bool → Option Database → Option Parser
parser_of extended none = none
parser_of extended (some db) = some (new_parser db extended)

module _ (load_file : String → Bool → ℕ → Result Loaded)
    (add_file : Format → String → String → Database → Result Database) where
  abbrev pub add_as : Option Format → String → String → Database → Result Database
  add_as none encoding filename db = ok db
  add_as (some format) encoding filename db = add_file format encoding filename db

  unfoldable pub add_db_file : String → Database → Result Database
  unfolding db_format_of format_of encoding_of
  add_db_file filename db =
      let db_format = db_format_of filename in
      add_as (format_of db_format) (encoding_of db_format) filename db

  abbrev pub can_database : Loaded → Result Database
  can_database (can db) = ok db
  can_database other = err system_exit

  -- The first file is loaded, a later one is added to the database.
  unfoldable pub read_definitions : Bool → ℕ → String → Option Database → Result Database
  unfolding add_db_file
  read_definitions strict mask filename none = load_file filename strict mask >>= can_database
  read_definitions strict mask filename (some db) = add_db_file filename db

  unfoldable pub read_files : Bool → ℕ → List String → Files → Result Files
  unfolding read_definitions add
  read_files strict mask [] files = ok files
  read_files strict mask (filename ∷ filenames) files = elim (contains files.processed filename) [
    | true ↦ read_files strict mask filenames files
    | false ↦ read_definitions strict mask filename files.db >>= λ db.
        read_files strict mask filenames
          (record { processed = add filename files.processed; db = some db })
  ]

  -- __init__; without a file the parser has no database.
  unfoldable pub init_parser : List String → Bool → Bool → Result (Option Parser)
  unfolding read_files lstrip rstrip mask_for new_parser
  init_parser dbc_file_names use_strict_parsing expect_extended_frame_ids =
      read_files use_strict_parsing (mask_for expect_extended_frame_ids)
        (map strip_name dbc_file_names) (record { processed = []; db = none })
      >>= λ files. ok (parser_of expect_extended_frame_ids files.db)

upper_extension : format_of (db_format_of "files/v1.2/car.DBC") ≡ some dbc
unfolding format_of db_format_of extension_from codes
upper_extension = refl

hidden_file : format_of (db_format_of "files/.dbc") ≡ none
unfolding format_of db_format_of extension_from codes
hidden_file = refl

stripped : strip_name " a.dbc\n" ≡ "a.dbc"
unfolding lstrip rstrip
stripped = refl
