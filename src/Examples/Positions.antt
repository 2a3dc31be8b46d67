-- ===== src/Examples/Positions.antt =====
-- Instances for the GPS feeder: a report that is accepted, one that is refused, and one that comes
-- after the thread was stopped.
use kuksa_val_feeders.Prelude.{
  All, List, Option, String, [], if◌then◌else◌, none, refl, some, true, false, ◌==◌, ◌∷◌, text_eq,
  nat_eq, Bool,
}
use kuksa_val_feeders.Prelude.Int.{pos}
use kuksa_val_feeders.Gps.{KuksaClient, Turn, run, response_of}
use kuksa_val_feeders.Gps.Sends.{AnswersIn, Ran, run-Ran}
use kuksa_val_feeders.Python.Value.{Fields, Value, end, field, null, obj, real, str}

abbrev py_str : Value → String
py_str (str s) = s
py_str v = "48.5"

abbrev refusal : Fields
refusal = field "error" (str "401") end

abbrev loads : String → Option Value
loads s = if s == "refused" then some (obj refusal) else none

abbrev position : Fields
position = field "lat" (real (pos 485) 1) (field "lon" null (field "time" (str "noon") end))

abbrev turn_of : Bool → String → Turn
turn_of running text = record { running = running; report = position; reply = λ path. some text }

abbrev turns : List Turn
turns = turn_of true "OK" ∷ turn_of true "refused" ∷ turn_of false "OK" ∷ []

abbrev response : Turn → String → Fields
response t path = elim (t.reply path) [
  | none ↦ end
  | some text ↦ if text == "OK" then end else refusal
]

abbrev fresh_client : KuksaClient
fresh_client = record {
  messages_sent = 0;
  last_sent_log_entry = 0;
  tokens = [];
  values_set = [];
  reports = [];
}

accepted : (running : Bool) → AnswersIn py_str loads response (turn_of running "OK")
unfolding response_of
accepted running path = ("OK", refl, refl)

refused : AnswersIn py_str loads response (turn_of true "refused")
unfolding response_of
refused path = ("refused", refl, refl)

turns_answered : All (AnswersIn py_str loads response) turns
turns_answered = search (accepted true, refused)

run-Ran_example :
    Ran py_str loads response
      (turn_of true "OK" ∷ turn_of true "refused" ∷ [])
      fresh_client
      (run py_str loads turns fresh_client)
run-Ran_example = run-Ran py_str loads response turns fresh_client turns_answered
