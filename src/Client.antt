-- ===== src/Client.antt =====
-- The client wrappers: dbc2val/dbcfeederlib/clientwrapper.py (the settings here), and, in the
-- children, serverclientwrapper.py and databrokerclientwrapper.py. The KUKSA client library is not
-- modelled: what it answers is given to each method, and what it is asked is recorded.
pub mod Server
pub mod Databroker
use kuksa_val_feeders.Prelude.{Bool, Option, String, none, some, ℕ}

-- ClientWrapper
pub record ClientSettings : Type 0 where
  pub ip : String
  pub port : ℕ
  pub token_path : String
  pub tls : Bool
  pub root_ca_path : Option String
  pub tls_server_name : Option String

unfoldable pub new_client_settings : String → ℕ → String → Bool → ClientSettings
new_client_settings ip port token_path tls = record {
  ip = ip;
  port = port;
  token_path = token_path;
  tls = tls;
  root_ca_path = none;
  tls_server_name = none;
}

unfoldable pub set_ip : String → ClientSettings → ClientSettings
set_ip ip c = record c { ip = ip }

unfoldable pub set_port : ℕ → ClientSettings → ClientSettings
set_port port c = record c { port = port }

unfoldable pub set_tls : Bool → ClientSettings → ClientSettings
set_tls tls c = record c { tls = tls }

unfoldable pub set_root_ca_path : String → ClientSettings → ClientSettings
set_root_ca_path path c = record c { root_ca_path = some path }

unfoldable pub set_tls_server_name : String → ClientSettings → ClientSettings
set_tls_server_name name c = record c { tls_server_name = some name }

unfoldable pub set_token_path : String → ClientSettings → ClientSettings
set_token_path token_path c = record c { token_path = token_path }
