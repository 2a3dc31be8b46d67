-- ===== src/LogLevels.antt =====
-- parse_env_log of dbc2val/dbcfeeder.py, and the same function of gps2val/gpsd_feeder.py.
pub mod Printed
use kuksa_val_feeders.Prelude.{
  Bool, List, Option, String, [], if◌then◌else◌, none, some, true, ◌==◌, ◌∷◌, text_eq, nat_eq,
  false,
}
use kuksa_val_feeders.Python.Dict.{Dict, has_key, insert}
use kuksa_val_feeders.Python.Errors.{Result, err, library_error, ok, ◌>>=◌}
use kuksa_val_feeders.Python.Text.{lowers_to, split_on}

-- The name of a level, or the default level, logging.INFO.
pub data Level : Type 0 where
  named : String → Level
  info_level : Level

-- A text that is one of the words in some case is that word in upper case after upper(). The
-- exception is a plain Exception.
unfoldable pub parse_level : String → Result Level
unfolding lowers_to
parse_level level =
    if lowers_to level "debug"
    then ok (named "DEBUG")
    else if lowers_to level "info"
    then ok (named "INFO")
    else if lowers_to level "warn"
    then ok (named "WARN")
    else if lowers_to level "warning"
    then ok (named "WARNING")
    else if lowers_to level "error"
    then ok (named "ERROR")
    else if lowers_to level "critical"
    then ok (named "CRITICAL")
    else err library_error

abbrev pub Levels : Type 0
Levels = Dict String Level

-- A level for the root logger may stand once, for another logger again and again; a text with more
-- parts is left out.
unfoldable pub parse_spec : List String → Levels → Result Levels
unfolding parse_level has_key insert
parse_spec (level ∷ []) loglevels =
    if has_key "root" loglevels
    then err library_error
    else parse_level level >>= λ l. ok (insert "root" l loglevels)
parse_spec (logger ∷ level ∷ []) loglevels =
    parse_level level >>= λ l. ok (insert logger l loglevels)
parse_spec _ loglevels = ok loglevels

unfoldable pub parse_specs : List String → Levels → Result Levels
unfolding parse_spec split_on
parse_specs [] loglevels = ok loglevels
parse_specs (log_spec ∷ log_specs) loglevels =
    parse_spec (split_on b'=' log_spec) loglevels >>= parse_specs log_specs

abbrev pub with_root : Levels → Levels
with_root loglevels =
    if has_key "root" loglevels then loglevels else insert "root" info_level loglevels

unfoldable pub parse_env_log : Option String → Result Levels
unfolding parse_specs has_key insert split_on
parse_env_log none = ok (with_root [])
parse_env_log (some env_log) =
    parse_specs (split_on b',' env_log) [] >>= λ loglevels. ok (with_root loglevels)
