-- ===== src/Examples/Playing.antt =====
-- An instance for the player: a log of one message, whose reader raises when it is read again, tests
-- that find the player running, and one that finds it stopped.
use kuksa_val_feeders.Prelude.{
  All, List, [], arith, false, refl, suc, true, zero, ◌≡◌, ℕ, ◌++◌, ◌∷◌,
}
use kuksa_val_feeders.Reader.{Frame}
use kuksa_val_feeders.Reader.Player.{Pass, Player, on_test, before_pass, tx_worker}
use kuksa_val_feeders.Reader.Player.Ordered.{IsPlaying, Plays, tx_worker-Plays}

abbrev only_message : Frame
only_message = record { frame_id = 258; payload = 42 ∷ []; rx_time = 0 }

abbrev passes : ℕ → Pass
passes zero = record { messages = only_message ∷ []; raises = false }
passes (suc pass) = record { messages = []; raises = true }

abbrev running_player : Player
running_player = record { running = true; bus_open = true }

abbrev playing : List Player
playing = running_player ∷ running_player ∷ running_player ∷ []

abbrev stopped : List Player
stopped = record { running = false; bus_open = false } ∷ []

playing-IsPlaying : All (IsPlaying passes) playing
playing-IsPlaying = ground arith

tx_worker-Plays_example :
    Plays passes 2 playing (tx_worker passes (playing ++ stopped) (before_pass 0))
tx_worker-Plays_example =
    tx_worker-Plays passes playing stopped playing-IsPlaying (refl, tt) 2 (omega arith)

tx_worker_test : tx_worker passes (playing ++ stopped) (before_pass 0) ≡ only_message ∷ []
unfolding tx_worker on_test
tx_worker_test = refl
