-- ===== src/Examples/Adapter.antt =====
-- Instances for the dialogue with the adapter.
use kuksa_val_feeders.Prelude.{
  All, Bool, List, Option, [], false, not, ◌&&◌, none, refl, some, true, ℕ, ◌++◌, ◌∷◌, ◌≡◌, arith,
}
use kuksa_val_feeders.Elm.Dialogue.{
  ack_command, done, exits, init_elm, is_text, line, speed_command, starts_with, strip,
}
use kuksa_val_feeders.Elm.Dialogue.Answered.{IsReply, Reply, exchange, says_ok}
use kuksa_val_feeders.Elm.Dialogue.Filters.{Names, filter_command-Names}
use kuksa_val_feeders.Elm.Dialogue.Commands.{Command, checked, commands}
use kuksa_val_feeders.Elm.Dialogue.Completes.{
  IsAnswered, IsElm, from_adapter, greeted, init_elm-completes, init_elm-exits, lines_of,
  transcript,
}

-- OK, and lines up to the prompt
abbrev fine : Reply
fine = record { text = b'O' ∷ b'K' ∷ []; more = 13 ∷ [] }

abbrev always_fine : List ℕ → Reply
always_fine command = fine

-- ELM, with a space before it
abbrev elm : Reply
elm = record { text = b' ' ∷ b'E' ∷ b'L' ∷ b'M' ∷ []; more = [] }

abbrev unknown : Reply
unknown = record { text = b'?' ∷ []; more = 13 ∷ [] }

abbrev always_unknown : List ℕ → Reply
always_unknown command = unknown

elm-IsElm : IsElm elm
unfolding starts_with strip
elm-IsElm = record { is_reply = record { ascii = ground arith; no_prompt = tt }; is_elm = refl }

fine-IsReply : IsReply fine
fine-IsReply = record { ascii = ground arith; no_prompt = (refl, tt) }

unknown-IsReply : IsReply unknown
unknown-IsReply = record { ascii = ground arith; no_prompt = (refl, tt) }

never_refused : (expectok : Bool) → (expectok && not (says_ok fine)) ≡ false
unfolding strip is_text
never_refused true = refl
never_refused false = refl

always_fine-IsAnswered : (cs : List Command) → All (IsAnswered always_fine) cs
always_fine-IsAnswered [] = tt
always_fine-IsAnswered ((expectok, command) ∷ cs) =
    ((fine-IsReply, never_refused expectok), always_fine-IsAnswered cs)

unknown-refused : says_ok unknown ≡ false
unfolding strip is_text
unknown-refused = refl

abbrev whitelist : Option (List ℕ)
whitelist = some (0x102 ∷ 0x1DAF110 ∷ [])

abbrev speed : List ℕ
speed = b'5' ∷ b'0' ∷ []

init_elm-completes_example :
    init_elm whitelist speed true
      (from_adapter (13 ∷ []) elm (transcript always_fine (commands whitelist speed true) []))
    ≡ done (record {
      incoming = [];
      written = greeted ++ lines_of always_fine (commands whitelist speed true);
    })
init_elm-completes_example =
    init_elm-completes always_fine whitelist speed true (13 ∷ []) elm [] (refl, tt) elm-IsElm
      (always_fine-IsAnswered (commands whitelist speed true))

-- The adapter does not know the first command.
init_elm-exits_example :
    init_elm none speed true (from_adapter (13 ∷ []) elm (exchange (line "ATL 0") unknown []))
    ≡ exits
init_elm-exits_example =
    init_elm-exits always_unknown none speed true (13 ∷ []) elm [] (line "ATL 0")
      (checked (line "AT H1")
        ∷ checked (line "AT S1")
        ∷ checked (line "AT D0")
        ∷ checked (line "STP 32")
        ∷ checked (speed_command speed)
        ∷ (false, line "STPBRR")
        ∷ checked (ack_command true)
        ∷ [])
      [] refl (refl, tt) elm-IsElm tt unknown-IsReply unknown-refused

filter_command-Names_example : Names 0x1DAF110 8 ", 03ffffff"
filter_command-Names_example = filter_command-Names 0x1DAF110 (omega arith)
