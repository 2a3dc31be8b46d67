-- ===== src/Gps/Sends.antt =====
-- What GPSDClientThread.run sets, where the client thread answers.
use mathlib.Core.Path.{subst}
use kuksa_val_feeders.Gps.Items.{Answers, Sent, present_of, set_data-Sent, successes}
use kuksa_val_feeders.Prelude.{
  List, Option, String, [], ap, append-nil, append_assoc, arith, false, if◌then◌else◌, refl, suc,
  sym, true, ℕ, ◌++◌, ◌+◌, ◌∙◌, ◌∷◌, ◌≡◌, map, All, length,
}
use kuksa_val_feeders.Gps.{
  KuksaClient, Turn, after_report, attribute, collecteddata, on_report, run, set_data,
}
use kuksa_val_feeders.Python.Dict.{insert}
use kuksa_val_feeders.Python.Errors.{Result}
use kuksa_val_feeders.Python.Value.{Fields, Value}

-- The signals, and the attributes of a report that they are set from.
abbrev pub columns : List (String × String)
columns =
    ("Vehicle.CurrentLocation.Latitude", "lat")
    ∷ ("Vehicle.CurrentLocation.Longitude", "lon")
    ∷ ("Vehicle.CurrentLocation.Altitude", "alt")
    ∷ ("Vehicle.Speed", "speed")
    ∷ ("Vehicle.CurrentLocation.Timestamp", "time")
    ∷ ("Vehicle.CurrentLocation.Heading", "track")
    ∷ ("Vehicle.CurrentLocation.HorizontalAccuracy", "eph")
    ∷ ("Vehicle.CurrentLocation.VerticalAccuracy", "epv")
    ∷ []

abbrev column_of : Fields → String × String → String × Value
column_of report (path, key) = (path, attribute key report)

collecteddata-columns : (report : Fields) → collecteddata report ≡ map (column_of report) columns
unfolding collecteddata insert
collecteddata-columns report = refl

module _ (py_str : Value → String) (loads : String → Option Value) where
  -- The turns before the thread was stopped.
  abbrev pub while_running : List Turn → List Turn
  while_running [] = []
  while_running (t ∷ turns) = if t.running then t ∷ while_running turns else []

  -- The attributes of a report that are there, by their signals and as texts.
  abbrev pub reported_values : Fields → List (String × String)
  reported_values report = present_of py_str loads (map (column_of report) columns)

  abbrev pub values_of : List Turn → List (String × String)
  values_of [] = []
  values_of (t ∷ turns) = reported_values t.report ++ values_of turns

  -- The client thread answers whatever is set in a turn.
  abbrev pub AnswersIn : (Turn → String → Fields) → Turn → Type 0
  AnswersIn response t = (path : String) → Answers py_str loads (t.reply path) (response t path)

  abbrev pub all_successes : (Turn → String → Fields) → List Turn → ℕ
  all_successes response [] = 0
  all_successes response (t ∷ turns) =
      successes py_str loads (response t) (reported_values t.report) + all_successes response turns

  on_report-Sent :
      (response : Turn → String → Fields) (t : Turn) (c : KuksaClient)
      → AnswersIn response t
      → Sent
          (successes py_str loads (response t) (reported_values t.report))
          (reported_values t.report)
          c
          (on_report py_str loads t c)
  unfolding on_report
  on_report-Sent response t c answers =
      subst
        (λ items.
          Sent (successes py_str loads (response t) (reported_values t.report))
            (reported_values t.report) c (set_data py_str loads t.reply items c))
        (sym (collecteddata-columns t.report))
        (set_data-Sent py_str loads t.reply (response t) (map (column_of t.report) columns) c
          answers)

  -- After the loop: it slept after each of the turns.
  pub record Ran (response : Turn → String → Fields) (turns : List Turn) (c : KuksaClient)
      (after : KuksaClient × ℕ) : Type 0 where
    pub values_set : after.0.values_set ≡ c.values_set ++ values_of turns
    pub messages_sent : after.0.messages_sent ≡ c.messages_sent + all_successes response turns
    pub sleeps : after.1 ≡ length turns

  stopped-Ran : (response : Turn → String → Fields) (c : KuksaClient) → Ran response [] c (c, 0)
  stopped-Ran response c = record {
    values_set = sym (append-nil c.values_set);
    messages_sent = omega arith;
    sleeps = refl;
  }

  went_on-Ran :
      (response : Turn → String → Fields) (t : Turn) (turns : List Turn) (c : KuksaClient)
      (run_t : Result (Unit {0}) × KuksaClient) (rest : KuksaClient × ℕ)
      → Sent
          (successes py_str loads (response t) (reported_values t.report))
          (reported_values t.report)
          c
          run_t
      → Ran response turns run_t.1 rest
      → Ran response (t ∷ turns) c (after_report py_str loads run_t.0 run_t.1 rest)
  went_on-Ran response t turns c run_t rest sent ran = rw sent.0 (record {
    values_set =
        ran.values_set
        ∙ (ap (λ l. l ++ values_of turns) sent.1
            ∙ append_assoc c.values_set (reported_values t.report) (values_of turns));
    messages_sent = omega (arith, ran.messages_sent, sent.2);
    sleeps = ap suc ran.sleeps;
  })

  -- Where the client thread answers whatever it is asked to set, and not by a JSON text of another
  -- kind than an object, the loop goes on until the thread is stopped or the stream ends. It sets
  -- each attribute of each report that is there, in a fixed order and by its signal, counts the
  -- answers without an error, and sleeps once after each report.
  pub run-Ran :
      (response : Turn → String → Fields) (turns : List Turn) (c : KuksaClient)
      → All (AnswersIn response) turns
      → Ran response (while_running turns) c (run py_str loads turns c)
  unfolding run
  run-Ran response [] c answers = stopped-Ran response c
  run-Ran response (t ∷ turns) c answers =
      let after = on_report py_str loads t c in
      let rest = run py_str loads turns after.1 in
      let ran = run-Ran response turns after.1 answers.1 in
      elim t.running
        as (λ b.
          Ran response (if b then t ∷ while_running turns else []) c
            (if b then after_report py_str loads after.0 after.1 rest else (c, 0))) [
              | true ↦
                  went_on-Ran response t (while_running turns) c after rest
                    (on_report-Sent response t c answers.0) ran
              | false ↦ stopped-Ran response c
            ]
