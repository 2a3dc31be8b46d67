-- ===== src/Reader/Queue.antt =====
-- What _process_can_message puts into the queue.
use kuksa_val_feeders.Prelude.{
  All, All-append, All-weaken, Bool-cases, List, Option-cases, String, [], arith, contains, false,
  get_elem?, inl, inr, none, refl, some, true, ℕ, ◌++◌, ◌∙◌, ◌∷◌, ◌≡◌, text_eq, nat_eq, Option,
  if◌then◌else◌,
}
use kuksa_val_feeders.Mapper.{
  Mapper, Ref, get_dbc2vss_mapping, get_dbc2vss_mappings, refs_of, update,
}
use kuksa_val_feeders.Reader.{
  Reader, queue_mapping, observation, process_can_message, queue_mappings, queue_signals, Frame,
  Round, on_round, rx_worker, stop,
}
use kuksa_val_feeders.Python.Value.{Value}
use kuksa_val_feeders.Mapping.{VssMapping, VssObservation, time_condition_fulfilled}
use kuksa_val_feeders.Reader.Resolve.{find_by_vss_name-finds, get_dbc2vss_mapping-update}
use kuksa_val_feeders.Python.Dict.{lookup, All-contains, Dict}
use kuksa_val_feeders.Dbc.{get_message_for_canid}

-- The receiver finds the mapping of the observation.
abbrev pub Resolves : Mapper → VssObservation → Type 0
Resolves m obs = (q : Ref) × (get_dbc2vss_mapping obs.dbc_name obs.vss_name m ≡ some q)

update-listed :
    (r : Ref) (f : VssMapping → VssMapping) (s : String) (m : Mapper)
    → get_dbc2vss_mappings s (update r f m) ≡ get_dbc2vss_mappings s m
unfolding update get_dbc2vss_mappings
update-listed r f s m = ground arith

-- The time condition leaves the names of the mapping alone.
pub time_condition_vss_name :
    (t : ℕ) (o : VssMapping) → (time_condition_fulfilled t o).1.vss_name ≡ o.vss_name
unfolding time_condition_fulfilled
time_condition_vss_name t o = ground arith

module _ (signal_name : String) (raw_value : Value) (rx_time : ℕ) where
  -- One mapping, by what is behind its reference and by its time condition.
  pub queue_mapping_dangling :
      (r : Ref) (st : Reader)
      → get_elem? st.mapper.objects r ≡ none
      → queue_mapping signal_name raw_value rx_time r st ≡ st
  unfolding queue_mapping
  queue_mapping_dangling r st absent = rw (absent, queue_mapping)

  abbrev pub passed : VssMapping → VssMapping
  passed o = (time_condition_fulfilled rx_time o).1

  pub queue_mapping_due :
      (r : Ref) (o : VssMapping) (st : Reader)
      → get_elem? st.mapper.objects r ≡ some o
      → (time_condition_fulfilled rx_time o).0 ≡ true
      → queue_mapping signal_name raw_value rx_time r st ≡ record st {
        mapper = update r (λ _. passed o) st.mapper;
        queue = st.queue ++ (observation signal_name raw_value rx_time o ∷ []);
      }
  unfolding queue_mapping
  queue_mapping_due r o st found due = rw (found, queue_mapping) (rw due)

  pub queue_mapping_early :
      (r : Ref) (o : VssMapping) (st : Reader)
      → get_elem? st.mapper.objects r ≡ some o
      → (time_condition_fulfilled rx_time o).0 ≡ false
      → queue_mapping signal_name raw_value rx_time r st
        ≡ record st { mapper = update r (λ _. passed o) st.mapper }
  unfolding queue_mapping
  queue_mapping_early r o st found early = rw (found, queue_mapping) (rw early)

  Resolves-after :
      (r : Ref) (o : VssMapping) (m : Mapper) (queue : List VssObservation)
      → get_elem? m.objects r ≡ some o
      → All (Resolves m) queue
      → All (Resolves (update r (λ _. passed o) m)) queue
  Resolves-after r o m queue found = All-weaken _ _ queue λ obs (q, e). (
    q,
    get_dbc2vss_mapping-update obs.dbc_name obs.vss_name r o (passed o) m found
          (time_condition_vss_name rx_time o)
        ∙ e,
  )

  observed-Resolves :
      (r : Ref) (o : VssMapping) (m : Mapper)
      → get_elem? m.objects r ≡ some o
      → contains (get_dbc2vss_mappings signal_name m) r ≡ true
      → Resolves m (observation signal_name raw_value rx_time o)
  unfolding get_dbc2vss_mappings get_dbc2vss_mapping
  observed-Resolves r o m found listed =
      find_by_vss_name-finds m.objects r o (refs_of (lookup signal_name m.dbc2vss_mapping)) found
        listed

  queue_mapping-Resolves :
      (r : Ref) (st : Reader)
      → contains (get_dbc2vss_mappings signal_name st.mapper) r ≡ true
      → All (Resolves st.mapper) st.queue
      → let st' = queue_mapping signal_name raw_value rx_time r st in
        All (Resolves st'.mapper) st'.queue
        × (get_dbc2vss_mappings signal_name st'.mapper ≡ get_dbc2vss_mappings signal_name st.mapper)
  queue_mapping-Resolves r st listed h = elim (Option-cases (get_elem? st.mapper.objects r)) [
    | inl absent ↦ rw (queue_mapping_dangling r st absent) (h, refl)
    | inr (o, found) ↦ elim (Bool-cases (time_condition_fulfilled rx_time o).0) [
      | inl due ↦ rw (queue_mapping_due r o st found due) (
        Resolves-after r o st.mapper
            (st.queue ++ (observation signal_name raw_value rx_time o ∷ [])) found
            (All-append _ st.queue _ h (observed-Resolves r o st.mapper found listed, tt)),
        update-listed r (λ _. passed o) signal_name st.mapper,
      )
      | inr early ↦ rw (queue_mapping_early r o st found early) (
        Resolves-after r o st.mapper st.queue found h,
        update-listed r (λ _. passed o) signal_name st.mapper,
      )
    ]
  ]

  queue_mappings-Resolves :
      (refs listing : List Ref) (st : Reader)
      → get_dbc2vss_mappings signal_name st.mapper ≡ listing
      → All (λ r. contains listing r ≡ true) refs
      → All (Resolves st.mapper) st.queue
      → let st' = queue_mappings signal_name raw_value rx_time refs st in
        All (Resolves st'.mapper) st'.queue
  unfolding queue_mappings
  queue_mappings-Resolves [] listing st same listed h = h
  queue_mappings-Resolves (r ∷ refs) listing st same (listed_r, listed) h =
      let (h', kept) = queue_mapping-Resolves r st (rw same listed_r) h in
      queue_mappings-Resolves refs listing (queue_mapping signal_name raw_value rx_time r st)
        (kept ∙ same) listed h'

queue_signals-Resolves :
    (decode : Dict String Value) (rx_time : ℕ) (st : Reader)
    → All (Resolves st.mapper) st.queue
    → let st' = queue_signals decode rx_time st in All (Resolves st'.mapper) st'.queue
unfolding queue_signals
queue_signals-Resolves [] rx_time st h = h
queue_signals-Resolves ((signal_name, raw_value) ∷ decode) rx_time st h =
    let listing = get_dbc2vss_mappings signal_name st.mapper in
    queue_signals-Resolves decode rx_time (queue_mappings signal_name raw_value rx_time listing st)
      (queue_mappings-Resolves signal_name raw_value rx_time listing listing st refl
        (All-contains listing) h)

-- Whatever frame comes, each observation in the queue is one for which get_dbc2vss_mapping finds a
-- mapping, so the receiver's lookup does not answer None.
pub process_can_message-Resolves :
    (frame_id : ℕ) (payload : List ℕ) (rx_time : ℕ) (st : Reader)
    → All (Resolves st.mapper) st.queue
    → let st' = process_can_message frame_id payload rx_time st in
      All (Resolves st'.mapper) st'.queue
unfolding process_can_message
process_can_message-Resolves frame_id payload rx_time st h =
    elim (Option-cases (get_message_for_canid frame_id st.mapper.parser)) [
      | inl unknown ↦ rw (unknown, process_can_message) h
      | inr (message_def, known) ↦ elim (Option-cases (message_def.decode payload)) [
        | inl failed ↦ rw (known, process_can_message) (rw failed h)
        | inr (decode, decoded) ↦
            rw (known, process_can_message)
              (rw decoded (queue_signals-Resolves decode rx_time st h))
      ]
    ]

on_round-Resolves :
    (e : Round) (st : Reader)
    → All (Resolves st.mapper) st.queue
    → let st' = on_round e st in All (Resolves st'.mapper) st'.queue
unfolding on_round stop
on_round-Resolves e st h = after e.received (if e.stopped then stop st else st) stopped_first
  where
    stopped_first :
        All
          (Resolves (if e.stopped then stop st else st).mapper)
          (if e.stopped then stop st else st).queue
    stopped_first = elim (Bool-cases e.stopped) [
      | inl yes_stop ↦ rw yes_stop h
      | inr no_stop ↦ rw no_stop h
    ]

    after :
        (received : Option Frame) (st' : Reader)
        → All (Resolves st'.mapper) st'.queue
        → let st'' = elim received as (λ _. Reader) [
          | none ↦ st'
          | some f ↦ process_can_message f.frame_id f.payload f.rx_time st'
        ] in
          All (Resolves st''.mapper) st''.queue
    after none st' h' = h'
    after (some f) st' h' = process_can_message-Resolves f.frame_id f.payload f.rx_time st' h'

-- Whatever frames the receiving thread meets, and whether it is stopped or not, each observation in
-- the queue afterwards is one for which get_dbc2vss_mapping finds a mapping, if that held of the
-- queue before.
pub rx_worker-Resolves :
    (rounds : List Round) (st : Reader)
    → All (Resolves st.mapper) st.queue
    → let st' = rx_worker rounds st in All (Resolves st'.mapper) st'.queue
unfolding rx_worker
rx_worker-Resolves [] st h = h
rx_worker-Resolves (e ∷ rounds) st h = elim (Bool-cases st.running) [
  | inl on ↦ simp on (rx_worker-Resolves rounds (on_round e st) (on_round-Resolves e st h))
  | inr off ↦ simp off h
]

-- A reader that was stopped takes no more frames.
pub rx_worker_stopped : (rounds : List Round) (st : Reader) → rx_worker rounds (stop st) ≡ stop st
unfolding rx_worker stop
rx_worker_stopped [] st = refl
rx_worker_stopped (e ∷ rounds) st = refl
