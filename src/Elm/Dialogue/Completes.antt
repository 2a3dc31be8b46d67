-- ===== src/Elm/Dialogue/Completes.antt =====
-- The whole dialogue with an adapter that answers each command.
use kuksa_val_feeders.Prelude.{
  All, Bool, List, Option, [], ap, append-nil, append_assoc, false, map, not, refl, sym, true, ℕ,
  ◌&&◌, ◌++◌, ◌∙◌, ◌∷◌, ◌≡◌, text_eq, nat_eq,
}
use kuksa_val_feeders.Elm.Dialogue.{
  Port, detect, done, exits, identify, init_elm, line, starts_with, strip, wait_for_prompt,
  with_incoming, write_to_elm, ◌>>=◌,
}
use kuksa_val_feeders.Elm.Dialogue.Answered.{
  HasNoPrompt, IsReply, Reply, exchange, execute_command-answered, execute_command-refused,
  read_response-append, says_ok, skip-length, skip_to_prompt-append,
}
use kuksa_val_feeders.Elm.Dialogue.Commands.{
  Command, checked, commands, execute_from, execute_from-append, set_up-execute_from,
}

-- What the adapter says it is.
pub record IsElm (r : Reply) : Type 0 where
  pub is_reply : IsReply r
  pub is_elm : starts_with (b'E' ∷ b'L' ∷ b'M' ∷ []) (strip r.text) ≡ true

identify-elm :
    (p : Port) (r : Reply) (rest : List ℕ)
    → IsElm r
    → identify p (r.text, r.more ++ (b'>' ∷ rest)) ≡ done (record p { incoming = rest })
unfolding identify wait_for_prompt
identify-elm p r rest h =
    rw (h.is_elm, identify)
      (ap (λ o. o >>= with_incoming (record p { incoming = r.more ++ (b'>' ∷ rest) }))
        (skip_to_prompt-append r.more rest h.is_reply.no_prompt))

detect-answered :
    (r : Reply) (rest : List ℕ) (written : List (List ℕ))
    → IsElm r
    → detect (record { incoming = exchange (line "ATI") r rest; written = written })
      ≡ done (record { incoming = rest; written = written ++ (line "ATI" ∷ []) })
unfolding detect write_to_elm
detect-answered r rest written h =
    rw
      (
        skip-length (line "ATI") (r.text ++ (13 ∷ (r.more ++ (b'>' ∷ rest)))),
        read_response-append [] r.text (r.more ++ (b'>' ∷ rest)) h.is_reply.ascii,
      )
      (identify-elm
        (record {
          incoming = r.text ++ (13 ∷ (r.more ++ (b'>' ∷ rest)));
          written = written ++ (line "ATI" ∷ []);
        })
        r rest h)

-- The bytes from the adapter: its greeting up to the prompt, and what it says it is.
abbrev pub from_adapter : List ℕ → Reply → List ℕ → Port
from_adapter greeting r rest = record {
  incoming = greeting ++ (b'>' ∷ exchange (line "ATI") r rest);
  written = [];
}

abbrev pub greeted : List (List ℕ)
greeted = (13 ∷ 13 ∷ []) ∷ line "ATI" ∷ []

init_elm-execute_from :
    (whitelist : Option (List ℕ)) (can_speed : List ℕ) (ack : Bool) (greeting : List ℕ) (r : Reply)
    (rest : List ℕ)
    → HasNoPrompt greeting
    → IsElm r
    → init_elm whitelist can_speed ack (from_adapter greeting r rest)
      ≡ execute_from
          (done (record { incoming = rest; written = greeted }))
          (commands whitelist can_speed ack)
unfolding init_elm wait_for_prompt
init_elm-execute_from whitelist can_speed ack greeting r rest no_prompt h =
    rw (skip_to_prompt-append greeting (exchange (line "ATI") r rest) no_prompt) (
      rw (detect-answered r rest ((13 ∷ 13 ∷ []) ∷ []) h)
        (set_up-execute_from whitelist can_speed ack _))

execute_from-exits : (cs : List Command) → execute_from exits cs ≡ exits
unfolding execute_from
execute_from-exits [] = refl
execute_from-exits (c ∷ cs) = execute_from-exits cs

module _ (reply : List ℕ → Reply) where
  -- The adapter's reply to a command lets the dialogue go on.
  abbrev pub IsAnswered : Command → Type 0
  IsAnswered (expectok, command) =
      IsReply (reply command) × ((expectok && not (says_ok (reply command))) ≡ false)

  -- The bytes that come for commands.
  abbrev pub transcript : List Command → List ℕ → List ℕ
  transcript [] rest = rest
  transcript ((expectok, command) ∷ cs) rest = exchange command (reply command) (transcript cs rest)

  abbrev pub lines_of : List Command → List (List ℕ)
  lines_of cs = map (λ c. c.1) cs

  execute_from-answered :
      (cs : List Command) (rest : List ℕ) (written : List (List ℕ))
      → All IsAnswered cs
      → execute_from (done (record { incoming = transcript cs rest; written = written })) cs
        ≡ done (record { incoming = rest; written = written ++ lines_of cs })
  unfolding execute_from
  execute_from-answered [] rest written h =
      ap (λ w. done (record { incoming = rest; written = w })) (sym (append-nil written))
  execute_from-answered ((expectok, command) ∷ cs) rest written ((is_reply, accepted), h) =
      ap (λ o. execute_from o cs)
        (execute_command-answered expectok command (reply command) (transcript cs rest) written
          is_reply accepted)
      ∙ (execute_from-answered cs rest (written ++ (command ∷ [])) h
          ∙ ap (λ w. done (record { incoming = rest; written = w }))
              (append_assoc written (command ∷ []) (lines_of cs)))

  -- With an adapter that greets, says that it is an ELM, echoes each command and answers it, by OK
  -- wherever _execute_command expects it, the initialisation comes to its end. It has then written
  -- the two carriage returns, ATI and the commands, the filters of the whitelist among them, each
  -- once and in order, and has read exactly the answers to them.
  pub init_elm-completes :
      (whitelist : Option (List ℕ)) (can_speed : List ℕ) (ack : Bool) (greeting : List ℕ)
      (r : Reply) (rest : List ℕ)
      → HasNoPrompt greeting
      → IsElm r
      → All IsAnswered (commands whitelist can_speed ack)
      → init_elm whitelist can_speed ack
          (from_adapter greeting r (transcript (commands whitelist can_speed ack) rest))
        ≡ done (record {
          incoming = rest;
          written = greeted ++ lines_of (commands whitelist can_speed ack);
        })
  init_elm-completes whitelist can_speed ack greeting r rest no_prompt h answered =
      init_elm-execute_from whitelist can_speed ack greeting r _ no_prompt h
      ∙ execute_from-answered (commands whitelist can_speed ack) rest greeted answered

  -- With an adapter that greets, says that it is an ELM, echoes each command and answers, the
  -- program exits at the first command that has to be answered by OK and is not, whatever would
  -- come after.
  pub init_elm-exits :
      (whitelist : Option (List ℕ)) (can_speed : List ℕ) (ack : Bool) (greeting : List ℕ)
      (r : Reply) (before : List Command) (command : List ℕ) (after : List Command) (rest : List ℕ)
      → commands whitelist can_speed ack ≡ before ++ (checked command ∷ after)
      → HasNoPrompt greeting
      → IsElm r
      → All IsAnswered before
      → IsReply (reply command)
      → says_ok (reply command) ≡ false
      → init_elm whitelist can_speed ack
          (from_adapter greeting r (transcript before (exchange command (reply command) rest)))
        ≡ exits
  unfolding execute_from
  init_elm-exits whitelist can_speed ack greeting r before command after rest same no_prompt h
        answered is_reply refused =
      init_elm-execute_from whitelist can_speed ack greeting r _ no_prompt h
      ∙ (ap (execute_from _) same
          ∙ (execute_from-append _ before (checked command ∷ after)
              ∙ (ap (λ o. execute_from o (checked command ∷ after))
                    (execute_from-answered before (exchange command (reply command) rest) greeted
                      answered)
                  ∙ (ap (λ o. execute_from o after)
                        (execute_command-refused command (reply command) rest _ is_reply refused)
                      ∙ execute_from-exits after))))
