-- ===== src/Settings.antt =====
-- The settings that main of dbc2val/dbcfeeder.py takes from the command line, the environment and
-- the configuration file. A call of parser.error ends the program: system_exit. Values in the file
-- have no interpolation.
pub mod Consistent
pub mod Created
pub mod Client
pub mod ConfigFile
use kuksa_val_feeders.Prelude.{
  Bool, List, Option, String, false, if◌then◌else◌, none, not, some, true, ◌&&◌, ◌==◌, ◌||◌,
  text_eq, nat_eq,
}
use kuksa_val_feeders.Python.Dict.{Dict, has_key, lookup}
use kuksa_val_feeders.Python.Errors.{Result, err, value_error, ok, system_exit, ◌>>=◌, ◌>>◌}
use kuksa_val_feeders.Python.Text.{lowers_to, split_on}

-- argparse.Namespace
pub record Arguments : Type 0 where
  pub dbcfile : Option String
  pub dumpfile : Option String
  pub canport : Option String
  pub use_j1939 : Bool
  pub use_socketcan : Bool
  pub mapping : Option String
  pub dbc_default : Option String
  pub strict : Bool
  pub dbc2val : Bool
  pub no_dbc2val : Bool
  pub val2dbc : Bool
  pub no_val2dbc : Bool

abbrev pub Environment : Type 0
Environment = Dict String String

-- configparser.ConfigParser: options by section
abbrev pub Config : Type 0
Config = Dict String (Dict String String)

-- The option of a section, else that of the section DEFAULT.
abbrev in_section :
    String → Option (Dict String String) → Option (Dict String String) → Option String
in_section option none defaults = none
in_section option (some options) none = lookup option options
in_section option (some options) (some defaults) = elim (lookup option options) [
  | some value ↦ some value
  | none ↦ lookup option defaults
]

-- config.get(section, option, fallback=None), for a section that is not DEFAULT
unfoldable pub config_get : String → String → Config → Option String
config_get section option config =
    in_section option (lookup section config) (lookup "DEFAULT" config)

-- what getboolean makes of a value
unfoldable pub boolean_of : String → Result Bool
unfolding lowers_to
boolean_of s =
    if lowers_to s "1" || (lowers_to s "yes" || (lowers_to s "true" || lowers_to s "on"))
    then ok true
    else if lowers_to s "0" || (lowers_to s "no" || (lowers_to s "false" || lowers_to s "off"))
    then ok false
    else err value_error

-- config.getboolean(section, option, fallback=fallback)
unfoldable pub config_getboolean : String → String → Bool → Config → Result Bool
unfolding config_get boolean_of
config_getboolean section option fallback config = elim (config_get section option config) [
  | none ↦ ok fallback
  | some s ↦ boolean_of s
]

-- a text for a condition: None and "" are false
abbrev pub is_given : Option String → Bool
is_given none = false
is_given (some s) = not (s == "")

-- if argument: …, elif environment: …, else: what the file has
unfoldable pub first_given : Option String → Option String → Option String → Option String
first_given argument variable configured =
    if is_given argument then argument else if is_given variable then variable else configured

-- if args.dbc2val: True, elif args.no_dbc2val: False, and the same for the environment
unfoldable pub mode : Bool → Bool → Bool → Bool → Result Bool → Result Bool
mode argument no_argument variable no_variable configured =
    if argument
    then ok true
    else if no_argument
    then ok false
    else if variable
    then ok true
    else if no_variable
    then ok false
    else configured

abbrev pub or_default : Option String → String → String
or_default none fallback = fallback
or_default (some s) fallback = s

-- if not condition: parser.error(…)
abbrev pub require : Bool → Result (Unit {0})
require true = ok tt
require false = err system_exit

-- a value that must not be missing or empty
unfoldable pub required : Option String → Result String
required none = err system_exit
required (some s) = if s == "" then err system_exit else ok s

abbrev pub is_some : Option String → Bool
is_some none = false
is_some (some s) = true

-- What feeder.start and the constructor of the feeder are called with.
pub record Settings : Type 0 where
  pub use_dbc2val : Bool
  pub use_val2dbc : Bool
  pub dbc_file_names : List String
  pub canport : String
  pub dbc_default : String
  pub mappingfile : String
  pub use_j1939 : Bool
  pub candumpfile : Option String
  pub use_strict_parsing : Bool

unfoldable pub candumpfile_of : Arguments → Environment → Config → Option String
unfolding first_given config_get
candumpfile_of args env config =
    if args.use_socketcan
    then none
    else first_given args.dumpfile (lookup "CANDUMP_FILE" env)
        (config_get "can" "candumpfile" config)

unfoldable pub use_dbc2val_of : Arguments → Environment → Config → Result Bool
unfolding mode config_getboolean
use_dbc2val_of args env config =
    mode args.dbc2val args.no_dbc2val (is_given (lookup "USE_DBC2VAL" env))
      (is_given (lookup "NO_USE_DBC2VAL" env)) (config_getboolean "general" "dbc2val" true config)

unfoldable pub use_val2dbc_of : Arguments → Environment → Config → Result Bool
unfolding mode config_getboolean
use_val2dbc_of args env config =
    mode args.val2dbc args.no_val2dbc (is_given (lookup "USE_VAL2DBC" env))
      (is_given (lookup "NO_USE_VAL2DBC" env)) (config_getboolean "general" "val2dbc" false config)

unfoldable pub use_j1939_of : Arguments → Environment → Config → Result Bool
unfolding config_getboolean
use_j1939_of args env config =
    if args.use_j1939 || is_given (lookup "USE_J1939" env)
    then ok true
    else config_getboolean "can" "j1939" false config

-- The section [elmcan] and a dump file, if the port is elmcan.
unfoldable pub check_elmcan : String → Option String → Config → Result (Unit {0})
check_elmcan canport candumpfile config =
    if canport == "elmcan"
    then require (not (is_some candumpfile)) >> require (has_key "elmcan" config)
    else ok tt

unfoldable pub dbcfile_of : Arguments → Environment → Config → Result String
unfolding required first_given config_get
dbcfile_of args env config =
    required (first_given args.dbcfile (lookup "DBC_FILE" env) (config_get "can" "dbcfile" config))

unfoldable pub canport_of : Arguments → Environment → Config → Result String
unfolding required first_given config_get
canport_of args env config =
    required (first_given args.canport (lookup "CAN_PORT" env) (config_get "can" "port" config))

unfoldable pub settings : Arguments → Environment → Config → Result Settings
unfolding use_dbc2val_of use_val2dbc_of dbcfile_of canport_of first_given use_j1939_of
    candumpfile_of check_elmcan split_on
settings args env config = do
  use_dbc2val ← use_dbc2val_of args env config
  use_val2dbc ← use_val2dbc_of args env config
  require (use_dbc2val || use_val2dbc)
  dbcfile ← dbcfile_of args env config
  canport ← canport_of args env config
  use_j1939 ← use_j1939_of args env config
  let candumpfile = candumpfile_of args env config
  require (not (not args.use_socketcan && (args.val2dbc && is_some candumpfile)))
  check_elmcan canport candumpfile config
  ok (record {
    use_dbc2val = use_dbc2val;
    use_val2dbc = use_val2dbc;
    dbc_file_names = split_on b',' dbcfile;
    canport = canport;
    dbc_default =
        or_default
          (first_given args.dbc_default (lookup "DBC_DEFAULT_FILE" env)
            (config_get "can" "dbc_default_file" config))
          "dbc_default_values.json";
    mappingfile =
        or_default
          (first_given args.mapping (lookup "MAPPING_FILE" env)
            (config_get "general" "mapping" config))
          "mapping/vss_4.0/vss_dbc.json";
    use_j1939 = use_j1939;
    candumpfile = candumpfile;
    use_strict_parsing = args.strict;
  })
