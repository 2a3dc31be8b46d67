-- ===== src/Elm/Dialogue/Commands.antt =====
-- The commands of the initialisation as a list, and the calls as a run through it.
use kuksa_val_feeders.Prelude.{
  Bool, List, Option, [], ap, false, map, none, refl, some, sym, true, ℕ, ◌++◌, ◌∙◌, ◌∷◌, ◌≡◌,
}
use kuksa_val_feeders.Elm.Dialogue.{
  Outcome, Port, ack_command, add_filters, apply_whitelist, done, execute_command, exits,
  filter_command, hangs, line, raises, set_up, speed_command, ◌>>=◌,
}

abbrev pub Command : Type 0
Command = Bool × List ℕ

-- A command whose answer has to be OK.
abbrev pub checked : List ℕ → Command
checked command = (true, command)

abbrev pub filters : Option (List ℕ) → List Command
filters none = []
filters (some whitelist) =
    checked (line "STFAC") ∷ map (λ canid. checked (filter_command canid)) whitelist

-- What the adapter is told after it has said what it is.
abbrev pub commands : Option (List ℕ) → List ℕ → Bool → List Command
commands whitelist can_speed ack =
    checked (line "ATL 0")
    ∷ checked (line "AT H1")
    ∷ checked (line "AT S1")
    ∷ checked (line "AT D0")
    ∷ (filters whitelist
        ++ (checked (line "STP 32")
            ∷ checked (speed_command can_speed)
            ∷ (false, line "STPBRR")
            ∷ checked (ack_command ack)
            ∷ []))

unfoldable pub execute_from : Outcome Port → List Command → Outcome Port
execute_from before [] = before
execute_from before ((expectok, command) ∷ cs) =
    execute_from (before >>= execute_command expectok command) cs

pub execute_from-append :
    (before : Outcome Port) (cs ds : List Command)
    → execute_from before (cs ++ ds) ≡ execute_from (execute_from before cs) ds
unfolding execute_from
execute_from-append before [] ds = refl
execute_from-append before ((expectok, command) ∷ cs) ds =
    execute_from-append (before >>= execute_command expectok command) cs ds

then_add_filters :
    (before : Outcome Port) (canid : ℕ) (whitelist : List ℕ)
    → before >>= add_filters (canid ∷ whitelist)
      ≡ before >>= execute_command true (filter_command canid) >>= add_filters whitelist
unfolding add_filters
then_add_filters hangs canid whitelist = refl
then_add_filters exits canid whitelist = refl
then_add_filters raises canid whitelist = refl
then_add_filters (done p) canid whitelist = refl

then_nothing : (before : Outcome Port) → before >>= done ≡ before
then_nothing hangs = refl
then_nothing exits = refl
then_nothing raises = refl
then_nothing (done p) = refl

add_filters-execute_from :
    (before : Outcome Port) (whitelist : List ℕ)
    → before >>= add_filters whitelist
      ≡ execute_from before (map (λ canid. checked (filter_command canid)) whitelist)
unfolding add_filters execute_from
add_filters-execute_from before [] = then_nothing before
add_filters-execute_from before (canid ∷ whitelist) =
    then_add_filters before canid whitelist
    ∙ add_filters-execute_from (before >>= execute_command true (filter_command canid)) whitelist

apply_whitelist-execute_from :
    (before : Outcome Port) (whitelist : Option (List ℕ))
    → before >>= apply_whitelist whitelist ≡ execute_from before (filters whitelist)
unfolding apply_whitelist execute_from
apply_whitelist-execute_from before none = then_nothing before
apply_whitelist-execute_from before (some whitelist) =
    clear before
    ∙ add_filters-execute_from (before >>= execute_command true (line "STFAC")) whitelist
  where
    clear :
        (o : Outcome Port)
        → o >>= apply_whitelist (some whitelist)
          ≡ o >>= execute_command true (line "STFAC") >>= add_filters whitelist
    clear hangs = refl
    clear exits = refl
    clear raises = refl
    clear (done p) = refl

-- The calls one after the other.
pub set_up-execute_from :
    (whitelist : Option (List ℕ)) (can_speed : List ℕ) (ack : Bool) (p : Port)
    → set_up whitelist can_speed ack p ≡ execute_from (done p) (commands whitelist can_speed ack)
unfolding set_up execute_from
set_up-execute_from whitelist can_speed ack p =
    let headers = execute_from (done p) (
      checked (line "ATL 0")
      ∷ checked (line "AT H1")
      ∷ checked (line "AT S1")
      ∷ checked (line "AT D0")
      ∷ []) in
    let last =
      checked (line "STP 32")
      ∷ checked (speed_command can_speed)
      ∷ (false, line "STPBRR")
      ∷ checked (ack_command ack)
      ∷ [] in
    ap (λ o. execute_from o last) (apply_whitelist-execute_from headers whitelist)
    ∙ sym (execute_from-append headers (filters whitelist) last)
