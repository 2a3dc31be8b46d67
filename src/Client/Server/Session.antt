-- ===== src/Client/Server/Session.antt =====
-- The configuration that the client thread is started with.
use kuksa_val_feeders.Client.Server.{start, Connection, ServerClient, config_for}
use kuksa_val_feeders.Client.{ClientSettings}
use kuksa_val_feeders.Python.Dict.{Dict, insert, lookup, lookup-insert}
use kuksa_val_feeders.Prelude.{
  Option, String, arith, if◌then◌else◌, not, some, ◌==◌, ◌≡◌, text_eq, nat_eq, [], ap, refl, ◌∙◌,
}
use kuksa_val_feeders.Python.Value.{Value, bool, int, str}
use kuksa_val_feeders.Client.Server.{insert_given}
use kuksa_val_feeders.Settings.{is_given, or_default}
use kuksa_val_feeders.Prelude.Int.{pos}

abbrev given_or : Option String → Option Value → Option Value
given_or option old = if is_given option then some (str (or_default option "")) else old

lookup-insert_given :
    (key k : String) (option : Option String) (config : Dict String Value)
    → lookup k (insert_given key option config)
      ≡ (if key == k then given_or option (lookup k config) else lookup k config)
unfolding insert_given
lookup-insert_given key k option config =
    ground (arith, lookup-insert key k (str (or_default option "")) config)

-- What the configuration has for the options, where `old` is the configuration of the start before.
pub record Configured (c : ClientSettings) (old config : Dict String Value) : Type 0 where
  pub ip : lookup "ip" config ≡ some (str c.ip)
  pub port : lookup "port" config ≡ some (int (pos c.port))
  pub insecure : lookup "insecure" config ≡ some (bool (not c.tls))
  pub token :
      lookup "token" config
      ≡ (if c.token_path == "" then lookup "token" old else some (str c.token_path))
  pub cacertificate :
      lookup "cacertificate" config ≡ given_or c.root_ca_path (lookup "cacertificate" old)
  pub tls_server_name :
      lookup "tls_server_name" config ≡ given_or c.tls_server_name (lookup "tls_server_name" old)
  pub protocol : lookup "protocol" config ≡ lookup "protocol" old

-- The options below the two optional ones.
abbrev plain : ClientSettings → Dict String Value → Dict String Value
plain c old =
    insert "insecure" (bool (not c.tls))
      (insert "port" (int (pos c.port)) (insert "ip" (str c.ip) old))

lookup-plain :
    (k : String) (c : ClientSettings) (old : Dict String Value)
    → lookup k (plain c old) ≡ (
        if "insecure" == k
        then some (bool (not c.tls))
        else if "port" == k
        then some (int (pos c.port))
        else if "ip" == k
        then some (str c.ip)
        else lookup k old)
lookup-plain k c old =
    rw
      (
        lookup-insert "insecure" k (bool (not c.tls))
            (insert "port" (int (pos c.port)) (insert "ip" (str c.ip) old)),
        lookup-insert "port" k (int (pos c.port)) (insert "ip" (str c.ip) old),
        lookup-insert "ip" k (str c.ip) old,
      )
      refl

abbrev with_token : ClientSettings → Dict String Value → Dict String Value
with_token c config =
    if c.token_path == "" then config else insert "token" (str c.token_path) config

lookup-with_token :
    (k : String) (c : ClientSettings) (config : Dict String Value)
    → lookup k (with_token c config) ≡ (
        if "token" == k
        then if c.token_path == "" then lookup k config else some (str c.token_path)
        else lookup k config)
lookup-with_token k c config = ground (arith, lookup-insert "token" k (str c.token_path) config)

lookup-config_for :
    (k : String) (c : ClientSettings) (old : Dict String Value)
    → lookup k (config_for c old) ≡ (
        if "tls_server_name" == k
        then given_or c.tls_server_name
            (lookup k (insert_given "cacertificate" c.root_ca_path (with_token c (plain c old))))
        else if "cacertificate" == k
        then given_or c.root_ca_path (lookup k (with_token c (plain c old)))
        else lookup k (with_token c (plain c old)))
unfolding config_for
lookup-config_for k c old =
    rw
      (
        lookup-insert_given "tls_server_name" k c.tls_server_name
            (insert_given "cacertificate" c.root_ca_path (with_token c (plain c old))),
        lookup-insert_given "cacertificate" k c.root_ca_path (with_token c (plain c old)),
      )
      refl

-- A start opens a connection that is configured by the settings at that time: address, port and TLS;
-- the token file, the certificate and the TLS server name where they are given, and otherwise what
-- the configuration had before, like its protocol. The connection begins with nothing set, and the
-- client keeps the configuration, from which the next start goes on.
pub start-Configured :
    (s : ServerClient)
    → (k : Connection) × ((start s).kuksa ≡ some k)
      × ((start s).client_config ≡ k.config)
      × (k.values_set ≡ [])
      × Configured s.client s.client_config k.config
unfolding start
start-Configured s =
    let c = s.client in
    let old = s.client_config in
    (
      record { config = config_for c old; values_set = [] },
      refl,
      refl,
      refl,
      record {
        ip =
            lookup-config_for "ip" c old
            ∙ (lookup-with_token "ip" c (plain c old) ∙ lookup-plain "ip" c old);
        port =
            lookup-config_for "port" c old
            ∙ (lookup-with_token "port" c (plain c old) ∙ lookup-plain "port" c old);
        insecure =
            lookup-config_for "insecure" c old
            ∙ (lookup-with_token "insecure" c (plain c old) ∙ lookup-plain "insecure" c old);
        token =
            lookup-config_for "token" c old
            ∙ (lookup-with_token "token" c (plain c old)
                ∙ ap (λ o. if c.token_path == "" then o else some (str c.token_path))
                    (lookup-plain "token" c old));
        cacertificate =
            lookup-config_for "cacertificate" c old
            ∙ ap (given_or c.root_ca_path) (
                lookup-with_token "cacertificate" c (plain c old)
                ∙ lookup-plain "cacertificate" c old);
        tls_server_name =
            lookup-config_for "tls_server_name" c old
            ∙ ap (given_or c.tls_server_name) (
                lookup-insert_given "cacertificate" "tls_server_name" c.root_ca_path
                  (with_token c (plain c old))
                ∙ (lookup-with_token "tls_server_name" c (plain c old)
                    ∙ lookup-plain "tls_server_name" c old));
        protocol =
            lookup-config_for "protocol" c old
            ∙ (lookup-with_token "protocol" c (plain c old) ∙ lookup-plain "protocol" c old);
      },
    )
