-- ===== src/Settings/Client.antt =====
-- _get_kuksa_val_client of dbc2val/dbcfeeder.py: the client wrapper and its settings.
-- ServerType, by the values of the enumeration
use kuksa_val_feeders.Client.{
  ClientSettings, set_ip, set_port, set_root_ca_path, set_tls, set_tls_server_name, set_token_path,
}
use kuksa_val_feeders.Settings.{
  Config, Environment, boolean_of, config_get, first_given, or_default,
}
use kuksa_val_feeders.Client.Databroker.{DatabrokerClient, new_databroker_client}
use kuksa_val_feeders.Prelude.{
  Option, String, if◌then◌else◌, none, set, some, ◌==◌, text_eq, nat_eq,
}
use kuksa_val_feeders.Python.Errors.{Result, err, ok, value_error, ◌>>=◌}
use kuksa_val_feeders.Client.Server.{ServerClient, new_server_client}
use kuksa_val_feeders.Python.Number.{int_of}
use kuksa_val_feeders.Python.Dict.{lookup}

pub data ServerType : Type 0 where
  kuksa_val_server kuksa_databroker : ServerType

-- ServerType(name)
unfoldable pub server_type_of : String → Result ServerType
server_type_of name =
    if name == "kuksa_val_server"
    then ok kuksa_val_server
    else if name == "kuksa_databroker"
    then ok kuksa_databroker
    else err value_error

-- The fallback is the name of the member, not its value.
unfoldable pub server_type_name : Option String → Environment → Config → String
unfolding first_given config_get
server_type_name argument env config =
    or_default
      (first_given argument (lookup "SERVER_TYPE" env) (config_get "general" "server_type" config))
      "KUKSA_VAL_SERVER"

-- `set` is called with the value if there is one.
abbrev pub set_if_given :
    Option String → (String → ClientSettings → ClientSettings) → ClientSettings → ClientSettings
set_if_given none set c = c
set_if_given (some s) set c = set s c

abbrev pub or_else : Option String → Option String → Option String
or_else none second = second
or_else (some s) second = some s

unfoldable pub port_from : Option String → ClientSettings → Result ClientSettings
unfolding int_of set_port
port_from none c = ok c
port_from (some s) c = do port ← int_of s; ok (set_port port c)

unfoldable pub tls_from : Option String → ClientSettings → Result ClientSettings
unfolding boolean_of set_tls
tls_from none c = ok c
tls_from (some s) c = do tls ← boolean_of s; ok (set_tls tls c)

-- The environment comes before the file, also where its variable is empty.
unfoldable pub configure_client : Environment → Config → ClientSettings → Result ClientSettings
unfolding set_ip port_from tls_from set_root_ca_path set_tls_server_name set_token_path config_get
configure_client env config c = do
  let with_ip =
      set_if_given (or_else (lookup "KUKSA_ADDRESS" env) (config_get "general" "ip" config)) set_ip
        c
  with_port ←
      port_from (or_else (lookup "KUKSA_PORT" env) (config_get "general" "port" config)) with_ip
  with_tls ← tls_from (config_get "general" "tls" config) with_port
  let with_ca = set_if_given (config_get "general" "root_ca_path" config) set_root_ca_path with_tls
  let with_name =
      set_if_given (config_get "general" "tls_server_name" config) set_tls_server_name with_ca
  ok (set_if_given (config_get "general" "token" config) set_token_path with_name)

pub data Client : Type 0 where
  server_client : ServerClient → Client
  databroker_client : DatabrokerClient → Client

unfoldable pub new_client : ServerType → Environment → Config → Result Client
unfolding new_server_client new_databroker_client configure_client
new_client kuksa_val_server env config = do
  let s = new_server_client
  c ← configure_client env config s.client
  ok (server_client (record s { client = c }))
new_client kuksa_databroker env config = do
  let b = new_databroker_client
  c ← configure_client env config b.client
  ok (databroker_client (record b { client = c }))

unfoldable pub get_kuksa_val_client : Option String → Environment → Config → Result Client
unfolding server_type_of server_type_name new_client
get_kuksa_val_client argument env config = do
  server_type ← server_type_of (server_type_name argument env config)
  new_client server_type env config
