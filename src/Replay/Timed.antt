-- ===== src/Replay/Timed.antt =====
-- When the calls of a replay are made.
use mathlib.Core.Path.{subst}
use kuksa_val_feeders.Prelude.{
  All, List, Option, String, [], ap, arith, if_holds, map, none, refl, some, sym, true, ℕ, ◌++◌,
  ◌+◌, ◌-◌, ◌==◌, ◌||◌, ◌∙◌, ◌∷◌, ◌≡◌, ◌≤◌, text_eq, nat_eq,
}
use kuksa_val_feeders.Python.Errors.{ok}
use kuksa_val_feeders.Replay.{
  Action, outcome_of, Row, Turn, strptime, call_of, delta_of, is_text, replay, replay_rows, slept,
  successful, value_got, value_set,
}

-- The calls, each with how long was slept before it.
abbrev pub timed_calls : List Action → ℕ → List (ℕ × Action)
timed_calls [] elapsed = []
timed_calls (slept delta ∷ actions) elapsed = timed_calls actions (elapsed + delta)
timed_calls (value_set path value ∷ actions) elapsed =
    (elapsed, value_set path value) ∷ timed_calls actions elapsed
timed_calls (value_got path ∷ actions) elapsed =
    (elapsed, value_got path) ∷ timed_calls actions elapsed

-- A row with its time.
abbrev pub Logged : Type 0
Logged = Row × ℕ

abbrev pub played : List Logged → List Turn
played [] = []
played ((row, time) ∷ log) = record { row = row; raised = none } ∷ played log

-- The calls of the rows, each as long after `start` as the row.
abbrev pub calls_after : String → ℕ → List Logged → List (ℕ × Action)
calls_after mode start [] = []
calls_after mode start ((row, time) ∷ log) =
    map (λ a. (time - start, a)) (call_of mode row) ++ calls_after mode start log

-- The times do not go back.
abbrev pub Ordered : ℕ → List Logged → Type 0
Ordered before [] = Unit
Ordered before ((row, time) ∷ log) = (before ≤ time) × Ordered time log

abbrev Splits : List Action → ℕ → List Action → Type 0
Splits later elapsed calls =
    timed_calls (calls ++ later) elapsed
    ≡ map (λ a. (elapsed, a)) calls ++ timed_calls later elapsed

timed_calls-call_of :
    (mode : String) (row : Row) (later : List Action) (elapsed : ℕ)
    → Splits later elapsed (call_of mode row)
unfolding call_of
timed_calls-call_of mode row later elapsed =
    if_holds (Splits later elapsed) (is_text row.action "set") (λ is_set. refl)
      (λ other. if_holds (Splits later elapsed) (mode == "SetGet") (λ gets. refl) (λ skipped. refl))

module _ (parse_time : String → Option ℕ) where
  -- The time of the row is what its timestamp says.
  abbrev pub IsLogged : Logged → Type 0
  IsLogged (row, time) =
      (timestamp : String) × (row.timestamp ≡ some timestamp) × (parse_time timestamp ≡ some time)

  strptime-IsLogged : (l : Logged) → IsLogged l → strptime parse_time l.0.timestamp ≡ ok l.1
  unfolding strptime
  strptime-IsLogged (row, time) (s, is_s, parsed) = rw is_s (rw (parsed, strptime) refl)

  -- How long the loop waits before a row.
  delta_of_later :
      (before now : Logged)
      → IsLogged before
      → IsLogged now
      → before.1 ≤ now.1
      → delta_of parse_time (some before.0.timestamp) now.0.timestamp ≡ ok (now.1 - before.1)
  unfolding delta_of
  delta_of_later before now logged logged' later =
      let from_now = strptime-IsLogged now logged' in
      let from_before = strptime-IsLogged before logged in
      rw (from_now, delta_of) (rw from_before (ground (arith, later)))

  -- The rows after a row: its time, and how long was slept before it.
  later-calls :
      (mode : String) (start : ℕ) (before : Logged) (log : List Logged)
      → IsLogged before
      → All IsLogged log
      → start ≤ before.1
      → Ordered before.1 log
      → let later = replay_rows parse_time mode (played log) (some before.0.timestamp) in
        (later.0 ≡ ok tt) × (timed_calls later.1 (before.1 - start) ≡ calls_after mode start log)
  unfolding replay_rows
  later-calls mode start before [] logged logged' from ordered = (refl, refl)
  later-calls mode start before (now ∷ log) logged logged' from ordered =
      let later = replay_rows parse_time mode (played log) (some now.0.timestamp) in
      let turn : Turn = record { row = now.0; raised = none } in
      let h =
        later-calls mode start now log logged'.0 logged'.1 (omega (arith, from, ordered.0))
          ordered.1 in
      let wait = delta_of_later before now logged logged'.0 ordered.0 in
      let slept_for : (before.1 - start) + (now.1 - before.1) ≡ now.1 - start =
        omega (arith, from, ordered.0) in
      rw wait (
        h.0,
        timed_calls-call_of mode now.0 later.1 ((before.1 - start) + (now.1 - before.1))
            ∙ rw slept_for (ap (λ l. map (λ a. (now.1 - start, a)) (call_of mode now.0) ++ l) h.1),
      )

  -- Where the mode is Set or SetGet, the timestamps of the log are times that do not go back, and
  -- the client thread returns from each call, the replay is successful, and it makes the calls of
  -- the rows in order, each as long after the beginning as the time of its row is after that of the
  -- first row.
  pub replay-calls_after :
      (mode : String) (first : Logged) (log : List Logged)
      → (mode == "Set" || mode == "SetGet") ≡ true
      → All IsLogged (first ∷ log)
      → Ordered first.1 log
      → ((replay parse_time (some mode) (played (first ∷ log))).0 ≡ successful)
        × (timed_calls (replay parse_time (some mode) (played (first ∷ log))).1 0
            ≡ calls_after mode first.1 (first ∷ log))
  unfolding replay replay_rows delta_of
  replay-calls_after mode first log is_mode logged ordered =
      let later = replay_rows parse_time mode (played log) (some first.0.timestamp) in
      let h = later-calls mode first.1 first log logged.0 logged.1 (omega arith) ordered in
      let nothing : first.1 - first.1 ≡ 0 = omega arith in
      let others = subst (λ e. timed_calls later.1 e ≡ calls_after mode first.1 log) nothing h.1 in
      let calls = call_of mode first.0 in
      rw is_mode (
        ap outcome_of h.0,
        timed_calls-call_of mode first.0 later.1 0
            ∙ (ap (λ l. map (λ a. (0, a)) calls ++ l) others
                ∙ ap (λ e. map (λ a. (e, a)) calls ++ calls_after mode first.1 log) (sym nothing)),
      )
