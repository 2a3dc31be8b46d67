-- ===== src/Gps.antt =====
-- gps2val/gpsd_feeder.py: the classes Kuksa_Client and GPSDClientThread.
-- `py_str` is str, and `loads` is json.loads, none where it raises JSONDecodeError. A report of
-- gpsd is a dictionary of its attributes.
pub mod Items
pub mod Sends
pub mod Counter
use kuksa_val_feeders.Prelude.{
  Bool, List, Option, String, [], false, if◌then◌else◌, none, some, true, ℕ, ◌++◌, ◌==◌, ◌∷◌, ◌*◌,
  suc, leb, text_eq, nat_eq,
}
use kuksa_val_feeders.Python.Dict.{Dict, insert, lookup}
use kuksa_val_feeders.Python.Errors.{Result, err, is_caught, library_error, ok, system_exit}
use kuksa_val_feeders.Python.Number.{int_of}
use kuksa_val_feeders.Python.Run.{Run, lift, modify, pure, raise, ◌>>=◌, ◌>>◌}
use kuksa_val_feeders.Python.Value.{
  Fields, Value, contained_in, end, field, get_field, get_item, is_none, null, obj, str,
}
use kuksa_val_feeders.Settings.{Config, or_default}

-- Kuksa_Client, with what the client thread of the library was asked to do: the tokens it was
-- authorized by and the values that it was asked to set. `reports` are the numbers of messages in
-- the status messages.
pub record KuksaClient : Type 0 where
  pub messages_sent : ℕ
  pub last_sent_log_entry : ℕ
  pub tokens : List String
  pub values_set : List (String × String)
  pub reports : List ℕ

-- str(provider_config.get('token_or_tokenfile')), where str(None) is "None"
unfoldable pub token_string : Dict String String → String
unfolding lookup
token_string provider_config = or_default (lookup "token_or_tokenfile" provider_config) "None"

unfoldable pub new_kuksa_client : Config → Result KuksaClient
unfolding lookup token_string
new_kuksa_client config = elim (lookup "kuksa_val" config) [
  | none ↦ err system_exit
  | some provider_config ↦
      let token = token_string provider_config in
      ok (record {
        messages_sent = 0;
        last_sent_log_entry = 0;
        tokens = if token == "" then [] else token ∷ [];
        values_set = [];
        reports = [];
      })
]

unfoldable pub count_sent : KuksaClient → KuksaClient
count_sent c =
    let sent = suc c.messages_sent in
    if leb (2 * c.last_sent_log_entry) sent
    then record c {
      messages_sent = sent;
      last_sent_log_entry = sent;
      reports = c.reports ++ (sent ∷ []);
    }
    else record c { messages_sent = sent }

abbrev pub note_value : String → String → KuksaClient → KuksaClient
note_value path text c = record c { values_set = c.values_set ++ ((path, text) ∷ []) }

unfoldable pub unless_failed : Value → Bool → Run KuksaClient (Unit {0})
unfolding ◌>>=◌ count_sent get_item
unless_failed resp true = lift (get_item resp "error") >>= λ e. pure tt
unless_failed resp false = modify count_sent

-- `if "error" in resp`, whose branch reads resp['error'] for the message.
unfoldable pub check_response : Value → Run KuksaClient (Unit {0})
unfolding unless_failed ◌>>=◌ contained_in
check_response resp = lift (contained_in "error" resp) >>= unless_failed resp

module _ (py_str : Value → String) (loads : String → Option Value) where
  unfoldable pub response_of : String → Value
  response_of tmp_text = if tmp_text == "OK" then obj end else elim (loads tmp_text) [
    | none ↦ obj (field "error" (str tmp_text) end)
    | some resp ↦ resp
  ]

  -- setValue returns a text or raises.
  unfoldable pub on_reply : Option String → Run KuksaClient (Unit {0})
  unfolding response_of check_response ◌>>=◌
  on_reply none = raise library_error
  on_reply (some tmp_text) = check_response (response_of tmp_text)

  -- An item of the data. `reply` is what setValue gives for a path.
  unfoldable pub set_item : (String → Option String) → String → Value → Run KuksaClient (Unit {0})
  unfolding on_reply ◌>>=◌
  set_item reply path value =
      if is_none value
      then pure tt
      else modify (note_value path (py_str value)) >> on_reply (reply path)

  unfoldable pub set_data :
      (String → Option String) → Dict String Value → Run KuksaClient (Unit {0})
  unfolding set_item ◌>>=◌
  set_data reply [] = pure tt
  set_data reply ((path, value) ∷ items) = set_item reply path value >> set_data reply items

-- result.get(key)
unfoldable pub attribute : String → Fields → Value
unfolding get_field
attribute key result = elim (get_field key result) [ none ↦ null | some v ↦ v ]

unfoldable pub collecteddata : Fields → Dict String Value
unfolding insert attribute
collecteddata result =
    let location = insert "Vehicle.CurrentLocation.Latitude" (attribute "lat" result) [] in
    let location = insert "Vehicle.CurrentLocation.Longitude" (attribute "lon" result) location in
    let location = insert "Vehicle.CurrentLocation.Altitude" (attribute "alt" result) location in
    let moving = insert "Vehicle.Speed" (attribute "speed" result) location in
    let timed = insert "Vehicle.CurrentLocation.Timestamp" (attribute "time" result) moving in
    let heading = insert "Vehicle.CurrentLocation.Heading" (attribute "track" result) timed in
    let horizontal =
      insert "Vehicle.CurrentLocation.HorizontalAccuracy" (attribute "eph" result) heading in
    insert "Vehicle.CurrentLocation.VerticalAccuracy" (attribute "epv" result) horizontal

-- GPSDClientThread: where it listens and how long it sleeps after a report.
pub record GpsdClient : Type 0 where
  pub gpsd_host : String
  pub gpsd_port : String
  pub interval : ℕ
  pub running : Bool

abbrev getint_interval : Option String → Result ℕ
getint_interval none = ok 1
getint_interval (some s) = int_of s

abbrev listening : Dict String String → Result ℕ → Result GpsdClient
listening provider_config (err e) = err e
listening provider_config (ok interval) = ok (record {
  gpsd_host = or_default (lookup "host" provider_config) "127.0.0.1";
  gpsd_port = or_default (lookup "port" provider_config) "2947";
  interval = interval;
  running = true;
})

unfoldable pub new_gpsd_client : Config → Result GpsdClient
unfolding lookup
new_gpsd_client config = elim (lookup "gpsd" config) [
  | none ↦ err system_exit
  | some provider_config ↦
      listening provider_config (getint_interval (lookup "interval" provider_config))
]

-- A report of gpsd, whether the thread is still to run when it comes, and the replies of the client.
pub record Turn : Type 0 where
  pub running : Bool
  pub report : Fields
  pub reply : String → Option String

module _ (py_str : Value → String) (loads : String → Option Value) where
  unfoldable pub on_report : Turn → Run KuksaClient (Unit {0})
  unfolding set_data collecteddata
  on_report t = set_data py_str loads t.reply (collecteddata t.report)

  -- `except Exception` ends the loop.
  abbrev pub after_report : Result (Unit {0}) → KuksaClient → KuksaClient × ℕ → KuksaClient × ℕ
  after_report (ok _) c (later, sleeps) = (later, suc sleeps)
  after_report (err e) c rest = (c, 0)

  -- run; the second component is the number of sleeps.
  unfoldable pub run : List Turn → KuksaClient → KuksaClient × ℕ
  unfolding on_report
  run [] c = (c, 0)
  run (t ∷ turns) c =
      let (result, c') = on_report t c in
      let rest = run turns c' in if t.running then after_report result c' rest else (c, 0)
