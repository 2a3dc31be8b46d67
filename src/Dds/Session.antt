-- ===== src/Dds/Session.antt =====
-- The class Ddsprovider of dds2val/ddsproviderlib/helper.py: its state, the callbacks of the channel
-- and of the readers, and the loop. What a thread does comes between two of the others' steps.
pub mod Rounds
pub mod Invariant
pub mod Ready
use kuksa_val_feeders.Prelude.{
  Bool, List, Option, String, [], false, if◌then◌else◌, none, some, true, ℕ, ◌++◌, ◌∷◌,
}
use kuksa_val_feeders.Prelude.Int.{ℤ}
use kuksa_val_feeders.Client.Databroker.{Connectivity, idle, ready}
use kuksa_val_feeders.Dds.Listener.{on_data_available}
use kuksa_val_feeders.Dds.Mapper.{TopicInfo, Vss2DdsMapper}
use kuksa_val_feeders.Dds.Provider.{Answer, Provider, new_provider, register_datapoints}
use kuksa_val_feeders.Python.Dict.{Dict}
use kuksa_val_feeders.Python.Errors.{Result, assertion_error, err, ok}
use kuksa_val_feeders.Python.Value.{Value}

pub record Session : Type 0 where
  pub shutdown : Bool
  pub provider : Option Provider
  pub registered : Bool
  pub connected : Bool
  pub subscribed : Bool
  -- the topics of the readers
  pub readers : List String
  pub mapper : Option Vss2DdsMapper

-- __init__
unfoldable pub new_session : Session
new_session = record {
  shutdown = false;
  provider = none;
  registered = false;
  connected = false;
  subscribed = false;
  readers = [];
  mapper = none;
}

-- start up to the subscription to connectivity changes, whose callback may come from then on
unfoldable pub open_channel : Vss2DdsMapper → Session → Session
open_channel m s = record s { mapper = some m }

-- start from there to the loop
unfoldable pub create_provider : Session → Session
unfolding new_provider
create_provider s = record s { provider = some new_provider }

unfoldable pub stop : Session → Session
stop s = record s { shutdown = true }

-- The topics get a reader each, up to one whose data class is not known.
unfoldable pub subscribe_topics :
    (Value → Result (Unit {0})) → Dict String TopicInfo → Session → Result (Unit {0}) × Session
subscribe_topics class_of [] s = (ok tt, record s { subscribed = true })
subscribe_topics class_of ((topic, t) ∷ topics) s = elim (class_of t.typename) [
  | err e ↦ (err e, s)
  | ok found ↦ subscribe_topics class_of topics (record s { readers = s.readers ++ (topic ∷ []) })
]

-- _subscribe, with the evaluation of the name of a data class
unfoldable pub subscribe :
    (Value → Result (Unit {0})) → Option Vss2DdsMapper → Session → Result (Unit {0}) × Session
unfolding subscribe_topics
subscribe class_of none s = (err assertion_error, s)
subscribe class_of (some m) s = elim s.provider [
  | none ↦ (err assertion_error, s)
  | some p ↦ subscribe_topics class_of m.dds2vss_dict s
]

-- One round of _run.
unfoldable pub round : (Value → Result (Unit {0})) → Session → Result (Unit {0}) × Session
unfolding subscribe
round class_of s =
    if s.shutdown
    then (ok tt, s)
    else if s.connected
    then if s.subscribed then (ok tt, s) else subscribe class_of s.mapper s
    else (ok tt, s)

abbrev pub is_up : Connectivity → Bool
is_up ready = true
is_up idle = true
is_up _ = false

module _ (is_datatype : String → Bool) (nearest : ℤ → ℕ → Value) where
  abbrev pub set_registered : Session → Result Bool × Provider → Result (Unit {0}) × Session
  set_registered s (ok registered, p) =
      (ok tt, record s { provider = some p; registered = registered })
  set_registered s (err e, p) = (err e, record s { provider = some p })

  -- The datapoints are registered on a connection that comes up.
  unfoldable pub register_on :
      (String → Answer)
      → Option Provider
      → Option Vss2DdsMapper
      → Session
      → Result (Unit {0}) × Session
  unfolding register_datapoints
  register_on answers (some p) (some m) s =
      set_registered s (register_datapoints is_datatype answers m p)
  register_on answers (some p) none s = (err assertion_error, s)
  register_on answers none m s = (err assertion_error, s)

  unfoldable pub on_broker_connectivity_change :
      Connectivity → (String → Answer) → Session → Result (Unit {0}) × Session
  unfolding register_on
  on_broker_connectivity_change connectivity answers s =
      if is_up connectivity
      then if s.connected
        then (ok tt, s)
        else register_on answers s.provider s.mapper (record s { connected = true })
      else (ok tt, record s { connected = false; registered = false })

  abbrev pub put_provider : Session → Result (Unit {0}) × Provider → Result (Unit {0}) × Session
  put_provider s (result, p) = (result, record s { provider = some p })

  -- A sample on a topic; a listener exists once the session has subscribed.
  unfoldable pub on_sample :
      String
      → Dict String Value
      → (String → Bool)
      → Option Provider
      → Option Vss2DdsMapper
      → Session
      → Result (Unit {0}) × Session
  unfolding on_data_available
  on_sample topic attributes accepts (some p) (some m) s =
      put_provider s (on_data_available nearest topic attributes accepts m p)
  on_sample topic attributes accepts _ _ s = (ok tt, s)

  pub data Event : Type 0 where
    connectivity_changed : Connectivity → (String → Answer) → Event
    data_available : String → Dict String Value → (String → Bool) → Event
    rounds_on : (Value → Result (Unit {0})) → Event
    stop_requested : Event

  unfoldable pub on_event : Event → Session → Result (Unit {0}) × Session
  unfolding on_broker_connectivity_change on_sample round stop
  on_event (connectivity_changed c answers) s = on_broker_connectivity_change c answers s
  on_event (data_available topic attributes accepts) s =
      on_sample topic attributes accepts s.provider s.mapper s
  on_event (rounds_on class_of) s = round class_of s
  on_event stop_requested s = (ok tt, stop s)

  -- An exception ends the callback or the loop that it comes from, and the state stays as it is.
  unfoldable pub run : List Event → Session → Session
  unfolding on_event
  run [] s = s
  run (e ∷ events) s = run events (on_event e s).1

  -- start on a new session: `early` is what comes between the subscription and the creation of the
  -- provider, and `late` what comes after.
  unfoldable pub start : Vss2DdsMapper → (early late : List Event) → Session
  unfolding new_session open_channel create_provider run
  start m early late = run late (create_provider (run early (open_channel m new_session)))
