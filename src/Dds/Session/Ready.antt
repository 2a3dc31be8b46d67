-- ===== src/Dds/Session/Ready.antt =====
-- When a session counts as registered, and what that is worth.
use mathlib.Core.Path.{subst}
use kuksa_val_feeders.Prelude.{
  All, All-weaken, Bool, List, Option, String, ap, false, inl, inr, none, refl, some, sym, true,
  ◌∙◌, ◌∷◌, [], ◌≡◌, ℕ, text_eq, nat_eq,
}
use kuksa_val_feeders.Prelude.Int.{ℤ}
use kuksa_val_feeders.Dds.Mapper.{TopicInfo, Vss2DdsMapper, VssInfo, new_vss2dds_mapper}
use kuksa_val_feeders.Dds.Mapper.Grouped.{
  entries_of, entries_of-names, new_vss2dds_mapper-fields, new_vss2dds_mapper-groups,
}
use kuksa_val_feeders.Dds.Provider.{Provider, update_datapoint}
use kuksa_val_feeders.Dds.Provider.Types.{update_datapoint_known}
use kuksa_val_feeders.Dds.Session.{
  Event, Session, connectivity_changed, create_provider, data_available, is_up, new_session,
  on_broker_connectivity_change, on_event, on_sample, open_channel, round, rounds_on, run, start,
  stop, stop_requested,
}
use kuksa_val_feeders.Dds.Session.Rounds.{round-Same}
use kuksa_val_feeders.Dds.Session.Invariant.{Typed, run-IsEarly, start-Holds}
use kuksa_val_feeders.Python.Dict.{Dict, lookup}
use kuksa_val_feeders.Python.Errors.{ok}
use kuksa_val_feeders.Python.Value.{Fields, Value, has_field, obj}

-- update_datapoint returns what the databroker answers.
abbrev pub Answers : Option Provider → Value → Bool → VssInfo → Type 0
Answers none value accepted info = ⊥
Answers (some p) value accepted info =
    (update_datapoint info.vsssignal value accepted p).0 ≡ ok accepted

module _ (is_datatype : String → Bool) (nearest : ℤ → ℕ → Value) where
  Typed-Answers :
      (m : Vss2DdsMapper) (provider : Option Provider) (value : Value) (accepted : Bool)
      (info : VssInfo)
      → Typed is_datatype nearest m provider
      → has_field info.vsssignal m.mapping ≡ true
      → Answers provider value accepted info
  Typed-Answers m none value accepted info typed listed = elim typed [ ]
  Typed-Answers m (some p) value accepted info typed listed =
      update_datapoint_known info.vsssignal value accepted p (typed info.vsssignal listed)

  -- In every session with a mapping file, whatever the channel, the topics, the loop and stop do:
  -- while the session counts as registered it is connected, and the update of each signal of each
  -- topic is answered by the databroker, it does not raise KeyError for a missing datatype.
  pub start-Answers :
      (mapping : Fields) (m : Vss2DdsMapper) (early late : List (Event is_datatype nearest))
      (topic : String) (t : TopicInfo) (value : Value) (accepted : Bool)
      → new_vss2dds_mapper (obj mapping) ≡ ok m
      → lookup topic m.dds2vss_dict ≡ some t
      → (start is_datatype nearest m early late).registered ≡ true
      → ((start is_datatype nearest m early late).connected ≡ true)
        × All
            (Answers (start is_datatype nearest m early late).provider value accepted)
            t.vsssignals
  start-Answers mapping m early late topic t value accepted built listed registered =
      let s = start is_datatype nearest m early late in
      let (same, _) = new_vss2dds_mapper-fields mapping m built in
      let (signals, _) = new_vss2dds_mapper-groups mapping topic m t built listed in
      elim (start-Holds is_datatype nearest m early late).ready [
        | inl off ↦ cc (off, registered)
        | inr (up, typed) ↦ (
          up,
          subst (All (Answers s.provider value accepted)) (sym signals) (
              All-weaken _ _ (entries_of topic mapping)
                (λ info named.
                  Typed-Answers m s.provider value accepted info typed
                    (ap (has_field info.vsssignal) same ∙ named))
                (entries_of-names topic mapping)),
        )
      ]

  -- The channel does not go down.
  abbrev pub StaysUp : Event is_datatype nearest → Type 0
  StaysUp (connectivity_changed c answers) = is_up c ≡ true
  StaysUp _ = Unit

  record IsLost (s : Session) : Type 0 where
    connected : s.connected ≡ true
    unregistered : s.registered ≡ false

  on_sample-IsLost :
      (topic : String) (attributes : Dict String Value) (accepts : String → Bool)
      (provider : Option Provider) (mapper : Option Vss2DdsMapper) (s : Session)
      → IsLost s
      → IsLost (on_sample is_datatype nearest topic attributes accepts provider mapper s).1
  unfolding on_sample
  on_sample-IsLost topic attributes accepts none mapper s h = h
  on_sample-IsLost topic attributes accepts (some p) none s h = h
  on_sample-IsLost topic attributes accepts (some p) (some m) s h = record {
    connected = h.connected;
    unregistered = h.unregistered;
  }

  run-IsLost :
      (events : List (Event is_datatype nearest)) (s : Session)
      → All StaysUp events
      → IsLost s
      → IsLost (run is_datatype nearest events s)
  unfolding run on_event stop on_broker_connectivity_change
  run-IsLost [] s up h = h
  run-IsLost (connectivity_changed c answers ∷ events) s (up, later) h =
      rw up (simp h.connected (run-IsLost events s later h))
  run-IsLost (data_available topic attributes accepts ∷ events) s (_, later) h =
      run-IsLost events
        (on_sample is_datatype nearest topic attributes accepts s.provider s.mapper s).1 later
        (on_sample-IsLost topic attributes accepts s.provider s.mapper s h)
  run-IsLost (rounds_on class_of ∷ events) s (_, later) h =
      let same = round-Same class_of s in
      run-IsLost events (round class_of s).1 later (record {
        connected = same.connected ∙ h.connected;
        unregistered = same.registered ∙ h.unregistered;
      })
  run-IsLost (stop_requested ∷ events) s (_, later) h =
      run-IsLost events (stop s) later
        (record { connected = h.connected; unregistered = h.unregistered })

  -- If the channel is up before the provider is created, then the datapoints are not registered as
  -- long as the channel stays up.
  pub start_early-unregistered :
      (m : Vss2DdsMapper) (early late : List (Event is_datatype nearest))
      → (start is_datatype nearest m early []).connected ≡ true
      → All StaysUp late
      → (start is_datatype nearest m early late).registered ≡ false
  unfolding start run create_provider open_channel new_session
  start_early-unregistered m early late up stays =
      let h =
        run-IsEarly is_datatype nearest m early (open_channel m new_session)
          (record { mapper_is = refl; without = refl; unregistered = refl }) in
      (run-IsLost late
        (create_provider (run is_datatype nearest early (open_channel m new_session))) stays
        (record { connected = up; unregistered = h.unregistered })).unregistered
