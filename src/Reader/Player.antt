-- ===== src/Reader/Player.antt =====
-- CANplayer of dbc2val/dbcfeederlib/canplayer.py: the loop over a log of CAN messages. The log reader
-- is python-can's: `passes` gives what it does in each pass, which may be to raise, as a reader does
-- that has closed its file after the first.
pub mod Ordered
use kuksa_val_feeders.Prelude.{
  Bool, List, Option, [], false, if◌then◌else◌, none, some, suc, true, ℕ, ◌++◌, ◌∷◌,
}
use kuksa_val_feeders.Reader.{Frame}

pub record Player : Type 0 where
  pub running : Bool
  pub bus_open : Bool

unfoldable pub new_player : Player
new_player = record { running = false; bus_open = true }

unfoldable pub start : Player → Player
start p = record p { running = true }

unfoldable pub stop : Player → Player
stop p = record { running = false; bus_open = false }

-- Where the thread of a player is when it tests `_running`: at the loop of _tx_worker before the
-- next pass, in a pass before the next message, or past the loop.
pub data Place : Type 0 where
  before_pass : (pass : ℕ) → Place
  before_message : (pass : ℕ) (message : Frame) (messages : List Frame) → Place
  ended : Place

-- A pass through the log: the messages that the reader yields, and whether it then raises, which
-- nothing catches, or is at its end.
pub record Pass : Type 0 where
  pub messages : List Frame
  pub raises : Bool

module _ (passes : ℕ → Pass) where
  -- After a message, or the beginning of a pass.
  abbrev pub at_messages : ℕ → List Frame → Place
  at_messages pass [] = if (passes pass).raises then ended else before_pass (suc pass)
  at_messages pass (message ∷ messages) = before_message pass message messages

  -- What a test does: the messages that are sent, and where the next test is. A CanError is logged;
  -- without a bus, send raises and ends the thread.
  unfoldable pub on_test : Player → Place → List Frame × Place
  on_test p (before_pass pass) =
      if p.running then ([], at_messages pass (passes pass).messages) else ([], ended)
  on_test p (before_message pass message messages) =
      if p.running
      then if p.bus_open then (message ∷ [], at_messages pass messages) else ([], ended)
      else ([], before_pass (suc pass))
  on_test p ended = ([], ended)

  -- The messages that are sent, for what the tests of the thread find.
  unfoldable pub tx_worker : List Player → Place → List Frame
  unfolding on_test
  tx_worker [] place = []
  tx_worker (p ∷ tests) place =
      let (sent, place') = on_test p place in sent ++ tx_worker tests place'
