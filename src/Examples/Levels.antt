-- ===== src/Examples/Levels.antt =====
-- An instance for the log levels: the loggers root and kuksa_client.
use kuksa_val_feeders.Prelude.{[], arith, some, ◌∷◌, ◌≡◌, text_eq, nat_eq}
use kuksa_val_feeders.LogLevels.{parse_env_log, named, parse_level, parse_spec, parse_specs}
use kuksa_val_feeders.LogLevels.Printed.{IsSpec, Spec, parse_env_log-printed}
use kuksa_val_feeders.Python.Errors.{ok}
use kuksa_val_feeders.Python.Dict.{has_key, insert}
use kuksa_val_feeders.Python.Text.{lowers_to, split_on}

abbrev client : Spec
client = record { logger = "kuksa_client"; level = "debug"; parsed = named "DEBUG" }

client-IsSpec : IsSpec client
unfolding parse_level lowers_to
client-IsSpec = record { no_comma = ground arith; no_equals = ground arith; sets = ground arith }

parse_env_log-printed_example :
    parse_env_log (some "info,kuksa_client=debug")
    ≡ ok (("root", named "INFO") ∷ ("kuksa_client", named "DEBUG") ∷ [])
unfolding parse_env_log parse_specs parse_spec parse_level lowers_to has_key insert split_on
parse_env_log-printed_example =
    parse_env_log-printed "info" (named "INFO") (client ∷ []) (ground arith) (client-IsSpec, tt)
