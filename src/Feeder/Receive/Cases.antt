-- ===== src/Feeder/Receive/Cases.antt =====
-- What can happen in the part of the receiver's iteration that takes an observation.
use kuksa_val_feeders.Feeder.{Action}
use kuksa_val_feeders.Prelude.{
  Bool, List, Option, String, [], none, refl, some, ◌≡◌, ap, sym, ◌∷◌, ◌∙◌,
}
use kuksa_val_feeders.Mapper.{Mapper, Ref, get_dbc2vss_mapping}
use kuksa_val_feeders.Feeder.Receive.{
  Receiver, apply_mapping, process_observation, process_queue, put_mapper, send_datapoint,
  send_value, value_to_send, note_queue_size, set_queue, take_from,
}
use kuksa_val_feeders.Python.Value.{Value}
use kuksa_val_feeders.Mapping.{VssObservation}

-- The receiver has the oldest observation off its queue, and its session and its counters are as
-- before.
abbrev pub tail {ℓ} : {A : Type ℓ} → List A → List A
tail [] = []
tail (x ∷ rest) = rest

pub record HasTaken (st st' : Receiver) : Type 0 where
  pub running : st'.feeder.running ≡ st.feeder.running
  pub registered : st'.feeder.registered ≡ st.feeder.registered
  pub queue : st'.feeder.queue ≡ tail st.feeder.queue
  pub messages_sent : st'.messages_sent ≡ st.messages_sent
  pub last_sent_log_entry : st'.last_sent_log_entry ≡ st.last_sent_log_entry

abbrev taken :
    {st st' : Receiver}
    → (st'.feeder.queue ≡ tail st.feeder.queue)
    → (st'.feeder.running ≡ st.feeder.running)
    → (st'.feeder.registered ≡ st.feeder.registered)
    → (st'.messages_sent ≡ st.messages_sent)
    → (st'.last_sent_log_entry ≡ st.last_sent_log_entry)
    → HasTaken st st'
taken q a b c d = record {
  running = a;
  registered = b;
  queue = q;
  messages_sent = c;
  last_sent_log_entry = d;
}

-- Either nothing is sent, or one datapoint is.
module _ (evaluate : Value → Value → Option Value) (P : List Action × Receiver → Type 0)
    (answer : Option Bool) (st : Receiver)
    (nothing : (st' : Receiver) → HasTaken st st' → P ([], st'))
    (sent : (target : String) (value : Value) (st' : Receiver)
      → HasTaken st st'
      → P (send_datapoint target value answer st')) where
  send_value_holds :
      (target : String) (value : Option Value) (st' : Receiver)
      → HasTaken st st'
      → P (send_value target value answer st')
  unfolding send_value
  send_value_holds target none st' s = nothing st' s
  send_value_holds target (some v) st' s = sent target v st' s

  process_observation_holds :
      (obs : VssObservation) (m : Option Mapper) (st' : Receiver)
      → HasTaken st st'
      → P (process_observation evaluate obs answer m st')
  unfolding process_observation apply_mapping
  process_observation_holds obs none st' s = nothing st' s
  process_observation_holds obs (some m) st' s =
      by_ref (get_dbc2vss_mapping obs.dbc_name obs.vss_name m)
    where
      by_ref : (r : Option Ref) → P (apply_mapping evaluate obs answer m r st')
      by_ref none = nothing st' s
      by_ref (some r) =
          send_value_holds obs.vss_name (value_to_send evaluate obs r m).0
            (put_mapper (value_to_send evaluate obs r m).1 st')
            (taken s.queue s.running s.registered s.messages_sent s.last_sent_log_entry)

  take_from_holds :
      (queue : List VssObservation)
      → st.feeder.queue ≡ queue
      → P (take_from evaluate answer queue (note_queue_size st))
  unfolding take_from note_queue_size
  take_from_holds [] empty =
      nothing (note_queue_size st) (taken (empty ∙ ap tail (sym empty)) refl refl refl refl)
  take_from_holds (obs ∷ queue) full =
      process_observation_holds obs st.feeder.mapper (set_queue queue (note_queue_size st))
        (taken (ap tail (sym full)) refl refl refl refl)

  pub process_queue_holds : P (process_queue evaluate answer st)
  unfolding process_queue
  process_queue_holds = take_from_holds st.feeder.queue refl
