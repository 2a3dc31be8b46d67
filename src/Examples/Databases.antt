-- ===== src/Examples/Databases.antt =====
-- An instance for the message database: two files, one of which is named twice.
use kuksa_val_feeders.Prelude.{
  Bool, String, [], none, some, true, false, ℕ, ◌∷◌, ◌≡◌, text_eq, nat_eq,
}
use kuksa_val_feeders.Dbc.{Database, new_parser}
use kuksa_val_feeders.Dbc.Files.{
  Format, Loaded, can, init_parser, add_db_file, db_format_of, encoding_of, extension_from,
  format_of, lstrip, read_definitions, rstrip,
}
use kuksa_val_feeders.Dbc.Files.Once.{init_parser-load_all}
use kuksa_val_feeders.Examples.{door_message, only_door}
use kuksa_val_feeders.Python.Errors.{Result, ok}
use kuksa_val_feeders.Python.Dict.{add, add_all}
use kuksa_val_feeders.Python.Text.{codes}

abbrev load_file : String → Bool → ℕ → Result Loaded
load_file filename strict mask =
    ok (can (record { messages = []; message_by_frame_id = λ frame_id. none }))

abbrev add_file : Format → String → String → Database → Result Database
add_file format encoding filename db =
    ok (record { messages = door_message ∷ db.messages; message_by_frame_id = only_door })

abbrev with_door : Database
with_door = record { messages = door_message ∷ []; message_by_frame_id = only_door }

init_parser-load_all_example :
    init_parser load_file add_file ("a.dbc" ∷ " b.DBC" ∷ "a.dbc " ∷ []) true false
    ≡ ok (some (new_parser with_door false))
unfolding init_parser add_db_file db_format_of extension_from format_of codes encoding_of
    read_definitions add_all add lstrip rstrip
init_parser-load_all_example =
    init_parser-load_all load_file add_file ("a.dbc" ∷ " b.DBC" ∷ "a.dbc " ∷ []) true false
