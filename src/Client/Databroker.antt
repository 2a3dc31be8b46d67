-- ===== src/Client/Databroker.antt =====
-- DatabrokerClientWrapper of dbc2val/dbcfeederlib/databrokerclientwrapper.py.
pub mod Types
pub mod Updates
use kuksa_val_feeders.Prelude.{
  Bool, List, Option, String, [], false, if◌then◌else◌, none, some, true, ℕ, ◌&&◌, ◌++◌, ◌==◌, ◌∷◌,
  text_eq, nat_eq,
}
use kuksa_val_feeders.Client.{ClientSettings, new_client_settings}
use kuksa_val_feeders.Python.Dict.{Dict, insert, lookup}
use kuksa_val_feeders.Python.Errors.{Result, err, key_error, library_error, ok}
use kuksa_val_feeders.Python.Value.{Value}
use kuksa_val_feeders.Settings.{is_given}

-- grpc.ChannelConnectivity
pub data Connectivity : Type 0 where
  idle connecting ready transient_failure shutdown : Connectivity

-- The client of the library while it is open: the values that it was asked to set, with their types.
pub record Channel : Type 0 where
  pub host : String
  pub port : ℕ
  pub root_certificates : Option String
  pub tls_server_name : Option String
  pub token : String
  pub values_set : List (String × Value × String)

pub record DatabrokerClient : Type 0 where
  pub client : ClientSettings
  pub grpc_client : Option Channel
  pub name_to_type : Dict String String
  pub connected : Bool
  pub token : String

unfoldable pub new_databroker_client : DatabrokerClient
unfolding new_client_settings
new_databroker_client = record {
  client = new_client_settings "127.0.0.1" 55555 "" false;
  grpc_client = none;
  name_to_type = [];
  connected = false;
  token = "";
}

-- self._tls and self._root_ca_path
unfoldable pub root_path_of : ClientSettings → Option String
root_path_of c = if c.tls && is_given c.root_ca_path then c.root_ca_path else none

-- start, with the contents of the token file, none where it cannot be read
unfoldable pub token_of : Option String → DatabrokerClient → Result String
token_of file b =
    if b.client.token_path == ""
    then ok b.token
    else elim file [ none ↦ err library_error | some text ↦ ok text ]

unfoldable pub open_channel :
    Result String → DatabrokerClient → Result (Unit {0}) × DatabrokerClient
unfolding root_path_of
open_channel (err e) b = (err e, b)
open_channel (ok token) b = (
  ok tt,
  record b {
    token = token;
    grpc_client = some (record {
      host = b.client.ip;
      port = b.client.port;
      root_certificates = root_path_of b.client;
      tls_server_name = b.client.tls_server_name;
      token = token;
      values_set = [];
    });
  },
)

unfoldable pub start : Option String → DatabrokerClient → Result (Unit {0}) × DatabrokerClient
unfolding token_of open_channel
start file b = open_channel (token_of file b) b

unfoldable pub on_broker_connectivity_change : Connectivity → DatabrokerClient → DatabrokerClient
on_broker_connectivity_change ready b = record b { connected = true }
on_broker_connectivity_change idle b = record b { connected = true }
on_broker_connectivity_change _ b = record b { connected = false }

unfoldable pub is_connected : DatabrokerClient → Bool
is_connected b = b.connected

-- What get_metadata answers for one name: an entry with its type, or more or none, or a
-- VSSClientError.
pub data Metadata : Type 0 where
  one_entry : String → Metadata
  unexpected_entries : Metadata
  client_error : Metadata

unfoldable pub note_metadata : String → Metadata → DatabrokerClient → Bool × DatabrokerClient
note_metadata vss_name (one_entry data_type) b =
    (true, record b { name_to_type = insert vss_name data_type b.name_to_type })
note_metadata vss_name unexpected_entries b = (false, b)
note_metadata vss_name client_error b = (false, b)

unfoldable pub is_signal_defined : String → Metadata → DatabrokerClient → Bool × DatabrokerClient
unfolding note_metadata
is_signal_defined vss_name metadata b = elim b.grpc_client [
  | none ↦ (false, b)
  | some channel ↦ note_metadata vss_name metadata b
]

-- The call of set, which returns if `accepted`, and else raises VSSClientError.
unfoldable pub set_value :
    String → Value → Bool → Channel → String → DatabrokerClient → Result Bool × DatabrokerClient
set_value name value accepted channel data_type b = (
  ok accepted,
  record b {
    grpc_client =
        some
          (record channel { values_set = channel.values_set ++ ((name, value, data_type) ∷ []) });
  },
)

unfoldable pub update_datapoint :
    String → Value → Bool → DatabrokerClient → Result Bool × DatabrokerClient
unfolding set_value
update_datapoint name value accepted b = elim b.grpc_client [
  | none ↦ (ok false, b)
  | some channel ↦ elim (lookup name b.name_to_type) [
    | none ↦ (err key_error, b)
    | some data_type ↦ set_value name value accepted channel data_type b
  ]
]

unfoldable pub stop : DatabrokerClient → DatabrokerClient
stop b = record b { grpc_client = none }

unfoldable pub supports_subscription : DatabrokerClient → Bool
supports_subscription b = true

-- The entries of a subscription: the target of every name.
pub record SubscribeEntry : Type 0 where
  pub path : String
  pub target_only : Bool

unfoldable pub subscribe_entries : List String → List SubscribeEntry
subscribe_entries [] = []
subscribe_entries (name ∷ vss_names) =
    record { path = name; target_only = true } ∷ subscribe_entries vss_names
