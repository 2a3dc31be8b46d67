-- ===== src/Examples/Clients.antt =====
-- Instances for the settings and the clients.
use kuksa_val_feeders.Client.Server
use kuksa_val_feeders.Client.Databroker
use kuksa_val_feeders.Settings.{Arguments, Config, Environment, Settings}
use kuksa_val_feeders.Client.Server.Session.{Configured, start-Configured}
use kuksa_val_feeders.Client.Server.{Connection, ServerClient}
use kuksa_val_feeders.Client.Databroker.{
  Channel, new_databroker_client, DatabrokerClient, Metadata, connecting, one_entry, ready,
}
use kuksa_val_feeders.Settings.Client.{Client, databroker_client}
use kuksa_val_feeders.Prelude.{
  List, String, [], false, none, refl, some, true, ◌++◌, ◌∷◌, ◌≡◌, text_eq, nat_eq,
}
use kuksa_val_feeders.Client.Databroker.Types.{check_all}
use kuksa_val_feeders.Client.Databroker.Updates.{last_type, update_datapoint-checked}
use kuksa_val_feeders.Python.Errors.{ok}
use kuksa_val_feeders.Python.Dict.{has_key}
use kuksa_val_feeders.Python.Value.{int}
use kuksa_val_feeders.Prelude.Int.{pos}

abbrev arguments : Arguments
arguments = record {
  dbcfile = some "a.dbc,b.dbc";
  dumpfile = none;
  canport = some "vcan0";
  use_j1939 = false;
  use_socketcan = true;
  mapping = none;
  dbc_default = none;
  strict = true;
  dbc2val = false;
  no_dbc2val = false;
  val2dbc = true;
  no_val2dbc = false;
}

abbrev chosen : Settings
chosen = record {
  use_dbc2val = true;
  use_val2dbc = true;
  dbc_file_names = "a.dbc" ∷ "b.dbc" ∷ [];
  canport = "vcan0";
  dbc_default = "dbc_default_values.json";
  mappingfile = "mapping/vss_4.0/vss_dbc.json";
  use_j1939 = false;
  candumpfile = none;
  use_strict_parsing = true;
}

abbrev variables : Environment
variables = ("SERVER_TYPE", "kuksa_databroker") ∷ ("KUKSA_PORT", "55556") ∷ []

abbrev options : Config
options = ("general", ("ip", "10.0.0.1") ∷ ("port", "8090") ∷ ("tls", "yes") ∷ []) ∷ []

abbrev created : Client
created = databroker_client (record new_databroker_client {
  client = record {
    ip = "10.0.0.1";
    port = 55556;
    token_path = "";
    tls = true;
    root_ca_path = none;
    tls_server_name = none;
  };
})

abbrev server : ServerClient
server = record {
  client = record {
    ip = "localhost";
    port = 8090;
    token_path = "token";
    tls = true;
    root_ca_path = some "CA.pem";
    tls_server_name = none;
  };
  client_config = [];
  kuksa = none;
}

start-Configured_example :
    (k : Connection) × ((Server.start server).kuksa ≡ some k)
    × ((Server.start server).client_config ≡ k.config)
    × (k.values_set ≡ [])
    × Configured server.client [] k.config
start-Configured_example = start-Configured server

abbrev broker : DatabrokerClient
broker = record {
  client = server.client;
  grpc_client = some (record {
    host = "localhost";
    port = 55555;
    root_certificates = none;
    tls_server_name = none;
    token = "";
    values_set = [];
  });
  name_to_type = [];
  connected = false;
  token = "";
}

abbrev checks : List (String × Metadata)
checks = ("Vehicle.Speed", one_entry "FLOAT") ∷ []

checked : (check_all checks broker).0 ≡ true
unfolding check_all
checked = refl

listed : has_key "Vehicle.Speed" checks ≡ true
unfolding has_key
listed = refl

update_datapoint-checked_example :
    (data_type : String) × (channel : Channel) × (last_type "Vehicle.Speed" checks none
      ≡ some data_type)
    × ((check_all checks broker).1.grpc_client ≡ some channel)
    × (Databroker.update_datapoint "Vehicle.Speed" (int (pos 30)) true (check_all checks broker).1
        ≡ (
          ok true,
          record (check_all checks broker).1 {
            grpc_client = some (record channel {
              values_set = channel.values_set ++ (("Vehicle.Speed", int (pos 30), data_type) ∷ []);
            });
          },
        ))
update_datapoint-checked_example =
    update_datapoint-checked checks broker "Vehicle.Speed" (int (pos 30)) true
      (
        record {
          host = "localhost";
          port = 55555;
          root_certificates = none;
          tls_server_name = none;
          token = "";
          values_set = [];
        },
        refl,
      )
      checked listed
