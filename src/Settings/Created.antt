-- ===== src/Settings/Created.antt =====
-- The client that _get_kuksa_val_client of dbc2val/dbcfeeder.py creates, by where its type and its
-- settings come from.
use kuksa_val_feeders.Client.{ClientSettings}
use kuksa_val_feeders.Client.Databroker.{new_databroker_client}
use kuksa_val_feeders.Client.Server.{new_server_client}
use kuksa_val_feeders.Prelude.{Bool, Option, String, nat_eq, none, some, text_eq, ℕ, ◌≡◌}
use kuksa_val_feeders.Python.Dict.{lookup}
use kuksa_val_feeders.Python.Errors.{ok}
use kuksa_val_feeders.Python.Number.{int_of}
use kuksa_val_feeders.Settings.{Config, Environment, boolean_of, config_get, or_default}
use kuksa_val_feeders.Settings.Client.{
  Client, ServerType, databroker_client, kuksa_databroker, kuksa_val_server, or_else, server_client,
}

-- The documented texts for the server types.
abbrev pub text_of : ServerType → String
text_of kuksa_val_server = "kuksa_val_server"
text_of kuksa_databroker = "kuksa_databroker"

abbrev pub default_settings : ServerType → ClientSettings
default_settings kuksa_val_server = new_server_client.client
default_settings kuksa_databroker = new_databroker_client.client

-- A new client of a type with the given settings.
abbrev pub client_with : ServerType → ClientSettings → Client
client_with kuksa_val_server c = server_client (record new_server_client { client = c })
client_with kuksa_databroker c = databroker_client (record new_databroker_client { client = c })

-- A port is read from a text that is given, else it is the old one; and so is the flag for TLS.
abbrev pub IsPort : Option String → ℕ → ℕ → Type 0
IsPort none old port = port ≡ old
IsPort (some s) old port = int_of s ≡ ok port

abbrev pub IsFlag : Option String → Bool → Bool → Type 0
IsFlag none old tls = tls ≡ old
IsFlag (some s) old tls = boolean_of s ≡ ok tls

-- The settings by their places: address and port from the environment, else from the file, the
-- others from the file, and what is at no place as in `old`.
abbrev pub settings_from : Environment → Config → ClientSettings → ℕ → Bool → ClientSettings
settings_from env config old port tls = record {
  ip =
      or_default (lookup "KUKSA_ADDRESS" env)
        (or_default (config_get "general" "ip" config) old.ip);
  port = port;
  token_path = or_default (config_get "general" "token" config) old.token_path;
  tls = tls;
  root_ca_path = or_else (config_get "general" "root_ca_path" config) old.root_ca_path;
  tls_server_name = or_else (config_get "general" "tls_server_name" config) old.tls_server_name;
}

abbrev pub IsConfigured : Environment → Config → ClientSettings → ClientSettings → Type 0
IsConfigured env config old c =
    (port : ℕ) × (tls : Bool) × IsPort
      (or_else (lookup "KUKSA_PORT" env) (config_get "general" "port" config)) old.port port
    × IsFlag (config_get "general" "tls" config) old.tls tls
    × (c ≡ settings_from env config old port tls)
