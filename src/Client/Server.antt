-- ===== src/Client/Server.antt =====
-- ServerClientWrapper of dbc2val/dbcfeederlib/serverclientwrapper.py.
pub mod Session
use kuksa_val_feeders.Prelude.{
  Bool, List, Option, String, [], false, if◌then◌else◌, none, not, some, true, ◌++◌, ◌==◌, ◌∷◌,
  text_eq, nat_eq,
}
use kuksa_val_feeders.Client.{ClientSettings, new_client_settings}
use kuksa_val_feeders.Python.Dict.{Dict, insert}
use kuksa_val_feeders.Python.Errors.{Result, err, library_error, ok}
use kuksa_val_feeders.Python.Value.{Value, bool, contained_in, int, str}
use kuksa_val_feeders.Settings.{is_given, or_default}
use kuksa_val_feeders.Prelude.Int.{pos}

-- A client thread of the library: the configuration that it was started with, and the values that
-- it was asked to set.
pub record Connection : Type 0 where
  pub config : Dict String Value
  pub values_set : List (String × String)

pub record ServerClient : Type 0 where
  pub client : ClientSettings
  pub client_config : Dict String Value
  pub kuksa : Option Connection

unfoldable pub new_server_client : ServerClient
unfolding new_client_settings insert
new_server_client = record {
  client = new_client_settings "localhost" 8090 "" true;
  client_config = insert "protocol" (str "ws") [];
  kuksa = none;
}

-- An option that is a non-empty text goes into the configuration.
unfoldable pub insert_given : String → Option String → Dict String Value → Dict String Value
insert_given key option config =
    if is_given option then insert key (str (or_default option "")) config else config

unfoldable pub config_for : ClientSettings → Dict String Value → Dict String Value
unfolding insert_given
config_for c config0 =
    let config1 = insert "ip" (str c.ip) config0 in
    let config2 = insert "port" (int (pos c.port)) config1 in
    let config3 = insert "insecure" (bool (not c.tls)) config2 in
    let config4 =
      if c.token_path == "" then config3 else insert "token" (str c.token_path) config3 in
    insert_given "tls_server_name" c.tls_server_name
      (insert_given "cacertificate" c.root_ca_path config4)

unfoldable pub start : ServerClient → ServerClient
unfolding config_for
start s =
    let config = config_for s.client s.client_config in
    record s { client_config = config; kuksa = some (record { config = config; values_set = [] }) }

unfoldable pub stop : ServerClient → ServerClient
stop s = record s { kuksa = none }

-- checkConnection answers `up`.
unfoldable pub is_connected : Bool → ServerClient → Bool
is_connected up s = elim s.kuksa [ none ↦ false | some k ↦ up ]

-- `"error" in json.loads(text)`, where `response` is what the text parses to, none where that raises
unfoldable pub has_error : Option Value → Result Bool
has_error none = err library_error
has_error (some v) = contained_in "error" v

abbrev not_result : Result Bool → Result Bool
not_result (ok b) = ok (not b)
not_result (err e) = err e

unfoldable pub is_signal_defined : Option Value → ServerClient → Result Bool
unfolding has_error
is_signal_defined response s = elim s.kuksa [
  | none ↦ ok false
  | some k ↦ not_result (has_error response)
]

-- json.dumps of a bool, and `py_str` for str of any other value
unfoldable pub send_value_of : (Value → String) → Value → String
send_value_of py_str (bool b) = if b then "true" else "false"
send_value_of py_str v = py_str v

unfoldable pub update_datapoint :
    (Value → String) → Option Value → String → Value → ServerClient → Result Bool × ServerClient
unfolding send_value_of has_error
update_datapoint py_str response name value s = elim s.kuksa [
  | none ↦ (ok false, s)
  | some k ↦ (
    not_result (has_error response),
    record s {
      kuksa =
          some
            (record k { values_set = k.values_set ++ ((name, send_value_of py_str value) ∷ []) });
    },
  )
]

unfoldable pub supports_subscription : ServerClient → Bool
supports_subscription s = false
