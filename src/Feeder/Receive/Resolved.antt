-- ===== src/Feeder/Receive/Resolved.antt =====
-- The receiver finds the mapping of every observation that it takes from the queue.
use kuksa_val_feeders.Feeder
use kuksa_val_feeders.Feeder.{Action}
use kuksa_val_feeders.Prelude.{All, All-weaken, List, Option, [], get_elem?, some, ◌∙◌, ◌∷◌, ◌≡◌}
use kuksa_val_feeders.Feeder.Receive.{
  Event, Receiver, on_event, put, read, reader_round, receive, run, stop_requested, turn,
}
use kuksa_val_feeders.Feeder.Receive.Kept.{HoldsIn, IsKept, reader_round-HoldsOf, turn-After}
use kuksa_val_feeders.Mapper.{Mapper, Ref, update}
use kuksa_val_feeders.Mapper.Alike.{AlikeObjects}
use kuksa_val_feeders.Mapping.{VssMapping, VssObservation}
use kuksa_val_feeders.Python.Value.{Value}
use kuksa_val_feeders.Reader.Queue.{Resolves, rx_worker-Resolves}
use kuksa_val_feeders.Reader.Resolve.{get_dbc2vss_mapping-update}

-- What the shared mapper finds for the shared queue.
abbrev AllResolve : Mapper → List VssObservation → Type 0
AllResolve m queue = All (Resolves m) queue

abbrev pub ResolvedIn : Receiver → Type 0
ResolvedIn st = HoldsIn AllResolve st

abbrev pub ResolvedAfter : List Action × Receiver → Type 0
ResolvedAfter (actions, st) = ResolvedIn st

update-Resolves :
    (r : Ref) (o o' : VssMapping) (m : Mapper) (queue : List VssObservation)
    → get_elem? m.objects r ≡ some o
    → AlikeObjects o o'
    → All (Resolves m) queue
    → All (Resolves (update r (λ _. o') m)) queue
update-Resolves r o o' m queue found same = All-weaken _ _ queue (λ obs (q, e).
    (q, get_dbc2vss_mapping-update obs.dbc_name obs.vss_name r o o' m found same.vss_name ∙ e))

kept : IsKept AllResolve
kept = record { taken = λ m obs queue h. h.1; changed = update-Resolves }

module _ (evaluate : Value → Value → Option Value) where
  -- In every run of the feeder, whatever the reader's thread, the receiver and stop do one after
  -- the other, the shared mapper finds a mapping for each observation of the shared queue, if it
  -- does so at the beginning of the run, as it does for an empty queue.
  pub run-Resolved :
      (events : List Event) (st : Receiver) → ResolvedIn st → ResolvedAfter (run evaluate events st)
  unfolding run on_event Feeder.stop
  run-Resolved [] st h = h
  run-Resolved (receive t ∷ events) st h =
      run-Resolved events (turn evaluate t st).1 (turn-After evaluate AllResolve kept t st h)
  run-Resolved (read e ∷ events) st h = run-Resolved events (put (reader_round e st.feeder) st) (
      reader_round-HoldsOf evaluate AllResolve kept e st.feeder (λ r. rx_worker-Resolves (e ∷ []) r)
        h)
  run-Resolved (stop_requested ∷ events) st h =
      run-Resolved events (put (Feeder.stop st.feeder) st) h
