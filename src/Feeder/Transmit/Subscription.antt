-- ===== src/Feeder/Transmit/Subscription.antt =====
-- _run_transmitter and _run_subscribe of dbc2val/dbcfeeder.py, with the subscription that
-- DatabrokerClientWrapper.subscribe of databrokerclientwrapper.py keeps: a task that hands each list
-- of updates to _vss_update, beside a loop that looks once in a second whether to stop.
pub mod Ends
use kuksa_val_feeders.Prelude.{Bool, List, Option, [], false, if◌then◌else◌, true, ◌∷◌}
use kuksa_val_feeders.Feeder.Transmit.{EntryUpdate, Transmitter, vss_update}
use kuksa_val_feeders.Python.Errors.{Result, err, ok}
use kuksa_val_feeders.Python.Value.{Value}

pub record Subscription : Type 0 where
  pub transmitter : Transmitter
  pub transmit : Bool
  -- the task still waits for updates
  pub subscribed : Bool
  -- the loop of _run_subscribe goes on
  pub looping : Bool

unfoldable pub run_transmitter : Transmitter → Subscription
run_transmitter t = record { transmitter = t; transmit = true; subscribed = true; looping = true }

-- What the client yields, a test of the loop, and Feeder.stop.
pub data Event : Type 0 where
  updates_received : List EntryUpdate → Event
  second_passed : Event
  stop_called : Event

-- An exception ends the task; nobody awaits it.
abbrev pub after_update : Result (Unit {0}) × Transmitter → Subscription → Subscription
after_update (ok _, t) s = record s { transmitter = t }
after_update (err e, t) s = record s { transmitter = t; subscribed = false }

module _ (evaluate : Value → Value → Option Value) where
  -- Where the loop ends, asyncio.run cancels the task.
  unfoldable pub on_event : Event → Subscription → Subscription
  unfolding vss_update
  on_event (updates_received updates) s =
      if s.subscribed then after_update (vss_update evaluate updates s.transmitter) s else s
  on_event second_passed s =
      if s.transmit then s else record s { subscribed = false; looping = false }
  on_event stop_called s = record s { transmit = false }

  unfoldable pub run_subscribe : List Event → Subscription → Subscription
  unfolding on_event
  run_subscribe [] s = s
  run_subscribe (e ∷ events) s = run_subscribe events (on_event e s)
