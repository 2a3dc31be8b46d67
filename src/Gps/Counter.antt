-- ===== src/Gps/Counter.antt =====
-- The status messages of Kuksa_Client.setData.
use kuksa_val_feeders.Prelude.{
  All, All-append, Bool, CountedTo, IsPowerOfTwo, List, Option, String, [], due_report,
  early_report, ℕ, false, if_holds, leb, none, power_counted, some, suc, true, ◌*◌, ◌∷◌,
}
use kuksa_val_feeders.Gps.{
  unless_failed, on_reply, after_report, KuksaClient, Turn, check_response, collecteddata,
  count_sent, note_value, on_report, response_of, run, set_data, set_item, on_reply,
}
use kuksa_val_feeders.Python.Dict.{Dict}
use kuksa_val_feeders.Python.Errors.{Result, err, library_error, ok}
use kuksa_val_feeders.Python.Run.{
  raise, lift, pure, modify, Keeps, Keeps-bind, Keeps-lift, Keeps-pure, Keeps-raise, modify,
}
use kuksa_val_feeders.Python.Value.{Value, contained_in, get_item, is_none}

-- Every status message gave a power of two, and the last gave the largest that was reached.
abbrev pub HasDoubled : KuksaClient → Type 0
HasDoubled c = All IsPowerOfTwo c.reports × CountedTo c.messages_sent c.last_sent_log_entry

count_sent-HasDoubled : (c : KuksaClient) → HasDoubled c → HasDoubled (count_sent c)
unfolding count_sent
count_sent-HasDoubled c (reports, h) =
    if_holds HasDoubled (leb (2 * c.last_sent_log_entry) (suc c.messages_sent))
      (λ due.
        let (k, power) = due_report c.messages_sent c.last_sent_log_entry h due in
        (
          All-append IsPowerOfTwo c.reports (suc c.messages_sent ∷ []) reports ((k, power), tt),
          power_counted c.messages_sent k power,
        ))
      (λ early. (reports, early_report c.messages_sent c.last_sent_log_entry h early))

unless_failed-HasDoubled :
    (resp : Value) (failed : Bool) → Keeps HasDoubled (unless_failed resp failed)
unfolding unless_failed modify
unless_failed-HasDoubled resp true =
    Keeps-bind {P = HasDoubled} (lift (get_item resp "error")) (λ e. pure tt)
      (Keeps-lift HasDoubled (get_item resp "error")) (λ e. Keeps-pure HasDoubled tt)
unless_failed-HasDoubled resp false = λ c h. count_sent-HasDoubled c h

check_response-HasDoubled : (resp : Value) → Keeps HasDoubled (check_response resp)
unfolding check_response
check_response-HasDoubled resp =
    Keeps-bind {P = HasDoubled} (lift (contained_in "error" resp)) (unless_failed resp)
      (Keeps-lift HasDoubled (contained_in "error" resp)) (unless_failed-HasDoubled resp)

module _ (py_str : Value → String) (loads : String → Option Value) where
  on_reply-HasDoubled : (reply : Option String) → Keeps HasDoubled (on_reply py_str loads reply)
  unfolding on_reply raise
  on_reply-HasDoubled none = Keeps-raise (Unit {0}) HasDoubled library_error
  on_reply-HasDoubled (some text) = check_response-HasDoubled (response_of py_str loads text)

  set_item-HasDoubled :
      (reply : String → Option String) (path : String) (value : Value)
      → Keeps HasDoubled (set_item py_str loads reply path value)
  unfolding set_item modify
  set_item-HasDoubled reply path value =
      if_holds (Keeps {A = Unit {0}} HasDoubled) (is_none value) (λ yes. Keeps-pure HasDoubled tt)
        (λ no.
          Keeps-bind {P = HasDoubled} (modify (note_value path (py_str value)))
            (λ u. on_reply py_str loads (reply path)) (λ c h. h)
            (λ u. on_reply-HasDoubled (reply path)))

  set_data-HasDoubled :
      (reply : String → Option String) (items : Dict String Value)
      → Keeps HasDoubled (set_data py_str loads reply items)
  unfolding set_data
  set_data-HasDoubled reply [] = Keeps-pure HasDoubled tt
  set_data-HasDoubled reply ((path, value) ∷ items) =
      Keeps-bind {P = HasDoubled} (set_item py_str loads reply path value)
        (λ u. set_data py_str loads reply items) (set_item-HasDoubled reply path value)
        (λ u. set_data-HasDoubled reply items)

  after_report-HasDoubled :
      (result : Result (Unit {0})) (c : KuksaClient) (rest : KuksaClient × ℕ)
      → HasDoubled c
      → HasDoubled rest.0
      → HasDoubled (after_report py_str loads result c rest).0
  after_report-HasDoubled (ok u) c rest h hr = hr
  after_report-HasDoubled (err e) c rest h hr = h

  -- Whatever gpsd reports and the server replies, a client that has sent nothing, or that satisfies
  -- this, has reported only numbers of messages that are powers of two after the loop, and the
  -- number of its last report is the largest power of two that was reached.
  pub run-HasDoubled :
      (turns : List Turn) (c : KuksaClient) → HasDoubled c → HasDoubled (run py_str loads turns c).0
  unfolding run on_report
  run-HasDoubled [] c h = h
  run-HasDoubled (t ∷ turns) c h =
      let after = on_report py_str loads t c in
      let h' = set_data-HasDoubled t.reply (collecteddata t.report) c h in
      if_holds (λ (r : KuksaClient × ℕ). HasDoubled r.0) t.running
        (λ on.
          after_report-HasDoubled after.0 after.1 (run py_str loads turns after.1) h'
            (run-HasDoubled turns after.1 h'))
        (λ off. h)
