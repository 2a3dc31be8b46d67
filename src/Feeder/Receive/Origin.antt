-- ===== src/Feeder/Receive/Origin.antt =====
-- From the frames to the datapoints.
use mathlib.Core.Path.{subst}
use mathlib.Core.List.{Mem, mem-cons_of_mem, mem-cons_self}
use kuksa_val_feeders.Feeder
use kuksa_val_feeders.Feeder.{Action, updated, disconnected, checked, reported}
use kuksa_val_feeders.Prelude.{
  All, All-append, All-weaken, List, Option, [], ap, arith, false, get_elem?, none, some, sym, ◌∙◌,
  ◌∷◌, ◌≡◌,
}
use kuksa_val_feeders.Feeder.Receive.{
  Event, Receiver, on_event, put, read, reader_round, receive, run, stop_requested, turn,
}
use kuksa_val_feeders.Feeder.Receive.Kept.{
  HoldsIn, HoldsOf, IsKept, reader_round-HoldsOf, turn-After,
}
use kuksa_val_feeders.Feeder.Receive.Sent.{Gives, FromQueue, turn-FromQueue}
use kuksa_val_feeders.Mapper.{Mapper, Ref, get_dbc2vss_mapping}
use kuksa_val_feeders.Mapper.Alike.{Alike, Alike-self, Alike-update, AlikeObjects}
use kuksa_val_feeders.Mapping.{VssMapping, VssObservation, transform_value, apply_transform}
use kuksa_val_feeders.Python.Errors.{Result, ok}
use kuksa_val_feeders.Python.Value.{Value, is_none}
use kuksa_val_feeders.Reader.{Frame}
use kuksa_val_feeders.Reader.Origin.{ArrivedIn, FromFrame, Traced, rx_worker-IsTraced}

abbrev ArrivedOn : Mapper → (Frame → Type 0) → Event → Type 0
ArrivedOn m0 Arrived (read e) = ArrivedIn m0 Arrived e
ArrivedOn m0 Arrived _ = Unit

module _ (evaluate : Value → Value → Option Value) (m0 : Mapper) where
  -- A sent datapoint is what the first mapping of the signal with the target as its VSS name makes
  -- of the signal's raw value in a frame that came.
  pub record Transforms (obs : VssObservation) (value : Value) : Type 0 where
    pub ref : Ref
    pub object : VssMapping
    pub found : get_dbc2vss_mapping obs.dbc_name obs.vss_name m0 ≡ some ref
    pub at_ref : get_elem? m0.objects ref ≡ some object
    pub transformed : transform_value evaluate object obs.raw_value ≡ ok value
    pub present : is_none value ≡ false

  abbrev pub IsFromFrame : (Frame → Type 0) → Action → Type 0
  IsFromFrame Arrived (updated target value) =
      (obs : VssObservation) × FromFrame m0 Arrived obs
      × (target ≡ obs.vss_name)
      × Transforms obs value
  IsFromFrame Arrived _ = Unit

  transform_value-AlikeObjects :
      (o0 o : VssMapping) (raw_value : Value)
      → AlikeObjects o0 o
      → transform_value evaluate o0 raw_value ≡ transform_value evaluate o raw_value
  unfolding transform_value
  transform_value-AlikeObjects o0 o raw_value alike =
      ap
        (λ t. elim t as (λ _. Result Value) [
          | none ↦ ok raw_value
          | some tr ↦ apply_transform evaluate tr raw_value
        ])
        (sym alike.transform)

  Gives-Transforms :
      (m : Mapper) (obs : VssObservation) (value : Value)
      → Alike m0 m
      → Gives evaluate m obs value
      → Transforms obs value
  Gives-Transforms m obs value alike g =
      let (o0, at_r, same) = alike.objects g.ref g.object g.at_ref in
      record {
        ref = g.ref;
        object = o0;
        found = sym (alike.finds obs.dbc_name obs.vss_name) ∙ g.found;
        at_ref = at_r;
        transformed = transform_value-AlikeObjects o0 g.object obs.raw_value same ∙ g.transformed;
        present = g.present;
      }

  module _ (Arrived : Frame → Type 0) where
    kept : IsKept (Traced m0 Arrived)
    kept = record {
      taken = λ m obs queue h. record { alike = h.alike; origins = h.origins.1 };
      changed = λ r o o' m queue found same h. record {
        alike = Alike-update r o o' m0 m found same h.alike;
        origins = h.origins;
      };
    }

    action-IsFromFrame :
        (mapper : Option Mapper) (queue : List VssObservation) (a : Action)
        → HoldsOf (Traced m0 Arrived) mapper queue
        → FromQueue evaluate mapper queue a
        → IsFromFrame Arrived a
    action-IsFromFrame mapper queue (updated target value) h
          (obs, rest, m, is_queue, is_mapper, same, gives) =
        let traced =
          subst (λ p. HoldsOf (Traced m0 Arrived) p (obs ∷ rest)) is_mapper
            (subst (HoldsOf (Traced m0 Arrived) mapper) is_queue h) in
        (obs, traced.origins.0, same, Gives-Transforms m obs value traced.alike gives)
    action-IsFromFrame mapper queue disconnected h from = tt
    action-IsFromFrame mapper queue (checked b) h from = tt
    action-IsFromFrame mapper queue (reported n) h from = tt

    run-IsFromFrame :
        (events : List Event) (st : Receiver)
        → All (ArrivedOn m0 Arrived) events
        → HoldsIn (Traced m0 Arrived) st
        → All (IsFromFrame Arrived) (run evaluate events st).0
    unfolding run on_event
    run-IsFromFrame [] st came h = tt
    run-IsFromFrame (receive t ∷ events) st came h =
        All-append (IsFromFrame Arrived) (turn evaluate t st).0 _
          (All-weaken _ _ (turn evaluate t st).0
            (λ a from. action-IsFromFrame st.feeder.mapper st.feeder.queue a h from)
            (turn-FromQueue evaluate t st))
          (run-IsFromFrame events (turn evaluate t st).1 came.1
            (turn-After evaluate (Traced m0 Arrived) kept t st h))
    run-IsFromFrame (read e ∷ events) st came h =
        run-IsFromFrame events (put (reader_round e st.feeder) st) came.1 (
          reader_round-HoldsOf evaluate (Traced m0 Arrived) kept e st.feeder
            (λ r. rx_worker-IsTraced m0 Arrived (e ∷ []) r (came.0, tt)) h)
    run-IsFromFrame (stop_requested ∷ events) st came h =
        run-IsFromFrame events (put (Feeder.stop st.feeder) st) came.1 h

abbrev frame_of : Option Frame → List Frame → List Frame
frame_of none frames = frames
frame_of (some f) frames = f ∷ frames

-- The frames that the reader's thread gets in a run.
abbrev pub frames_of : List Event → List Frame
frames_of [] = []
frames_of (read e ∷ events) = frame_of e.received (frames_of events)
frames_of (e ∷ events) = frames_of events

module _ (m0 : Mapper) where
  ArrivedOn-weaken :
      (P Q : Frame → Type 0)
      → ((f : Frame) → P f → Q f)
      → (e : Event) → ArrivedOn m0 P e
      → ArrivedOn m0 Q e
  ArrivedOn-weaken P Q implies (read e) came = λ f is_f. implies f (came f is_f)
  ArrivedOn-weaken P Q implies (receive t) came = tt
  ArrivedOn-weaken P Q implies stop_requested came = tt

  received-Mem :
      (received : Option Frame) (frames : List Frame) (f : Frame)
      → received ≡ some f
      → Mem f (frame_of received frames)
  received-Mem none frames f h = cc
  received-Mem (some g) frames f h =
      let same : g ≡ f = ground (arith, h) in subst (λ x. Mem x (g ∷ frames)) same mem-cons_self

  later-Mem :
      (received : Option Frame) (frames : List Frame) (f : Frame)
      → Mem f frames
      → Mem f (frame_of received frames)
  later-Mem none frames f h = h
  later-Mem (some g) frames f h = mem-cons_of_mem g h

  frames_of-ArrivedOn :
      (events : List Event) → All (ArrivedOn m0 (λ f. Mem f (frames_of events))) events
  frames_of-ArrivedOn [] = tt
  frames_of-ArrivedOn (read e ∷ events) = (
    received-Mem e.received (frames_of events),
    All-weaken _ _ events (ArrivedOn-weaken _ _ (later-Mem e.received (frames_of events)))
        (frames_of-ArrivedOn events),
  )
  frames_of-ArrivedOn (receive t ∷ events) = (tt, frames_of-ArrivedOn events)
  frames_of-ArrivedOn (stop_requested ∷ events) = (tt, frames_of-ArrivedOn events)

-- Every datapoint that is sent in a run from an empty queue comes from a frame that the reader's
-- thread got in the run: the message of the frame's ID decodes the payload to a dictionary with the
-- raw value of some CAN signal, and the mapping of this signal that has the target as its VSS name
-- transforms the raw value to the value that is sent, which is not None.
pub run-FromFrames :
    (evaluate : Value → Value → Option Value) (m0 : Mapper) (events : List Event) (st : Receiver)
    → st.feeder.mapper ≡ some m0
    → st.feeder.queue ≡ []
    → All (IsFromFrame evaluate m0 (λ f. Mem f (frames_of events))) (run evaluate events st).0
run-FromFrames evaluate m0 events st is_m0 is_empty =
    let Arrived : Frame → Type 0 = λ f. Mem f (frames_of events) in
    run-IsFromFrame evaluate m0 Arrived events st (frames_of-ArrivedOn m0 events) (
      subst (λ m. HoldsOf (Traced m0 Arrived) m st.feeder.queue) (sym is_m0)
        (subst (Traced m0 Arrived m0) (sym is_empty)
          (record { alike = Alike-self m0; origins = tt })))
