-- ===== src/Examples/Samples.antt =====
-- Instances for the DDS provider: a speed in km/h, from a topic that has the speed in m/s and the
-- heading, whose entry lacks a transform.
use kuksa_val_feeders.Prelude.{
  List, String, [], false, refl, some, true, ℕ, ◌∷◌, ◌≡◌, All, Bool, arith, text_eq, nat_eq,
}
use kuksa_val_feeders.Prelude.Int.{pos, ℤ, ◌*ℤ◌, ◌+ℤ◌}
use kuksa_val_feeders.Client.Databroker.{idle, ready, unexpected_entries}
use kuksa_val_feeders.Dds.Listener.{on_data_available}
use kuksa_val_feeders.Dds.Listener.Sends.{
  Sends, on_data_available-Sends, on_data_available_untransformed, updated, nothing, with_sent,
}
use kuksa_val_feeders.Dds.Mapper.{
  TopicInfo, Vss2DdsMapper, VssInfo, formula, new_vss2dds_mapper, transform,
}
use kuksa_val_feeders.Dds.Mapper.Grouped.{entries_of, last_typename, new_vss2dds_mapper-groups}
use kuksa_val_feeders.Dds.Provider.{Answer, Provider, register_datapoints}
use kuksa_val_feeders.Dds.Session.{Event, connectivity_changed, data_available, start}
use kuksa_val_feeders.Dds.Session.Ready.{Answers, StaysUp, start-Answers, start_early-unregistered}
use kuksa_val_feeders.Python.Dict.{Dict, lookup}
use kuksa_val_feeders.Python.Errors.{err, ok, type_error}
use kuksa_val_feeders.Python.Run.{◌>>=◌}
use kuksa_val_feeders.Python.Value.{Fields, Value, end, field, int, null, obj, str}

-- whole results only
abbrev nearest : ℤ → ℕ → Value
nearest n d = int n

abbrev is_datatype : String → Bool
is_datatype s = true

abbrev speed_formula : Fields
speed_formula = field "nominator" (int (pos 18)) (field "denominator" (int (pos 1)) end)

abbrev speed_source : Fields
speed_source =
    field "transform" (obj (field "formula" (obj speed_formula) end))
      (field "typename" (str "Vehicle.Motion") (field "element" (str "speed") end))

abbrev heading_source : Fields
heading_source = field "typename" (str "Vehicle.Motion") (field "element" (str "heading") end)

abbrev entry : Fields → Value
entry source = obj (
    field "databroker" (obj (field "datatype" (str "FLOAT") end))
      (field "description" (str "") (field "source" (obj (field "Motion" (obj source) end)) end)))

abbrev mapping : Fields
mapping =
    field "Vehicle.Speed" (entry speed_source) (field "Vehicle.Heading" (entry heading_source) end)

abbrev speed : VssInfo
speed = record {
  vsssignal = "Vehicle.Speed";
  element = str "speed";
  transform = obj (field "formula" (obj speed_formula) end);
}

abbrev heading : VssInfo
heading = record { vsssignal = "Vehicle.Heading"; element = str "heading"; transform = str "" }

abbrev motion : TopicInfo
motion = record { vsssignals = speed ∷ heading ∷ []; typename = str "Vehicle.Motion" }

abbrev mapper : Vss2DdsMapper
mapper = record { mapping = mapping; dds2vss_dict = ("Motion", motion) ∷ [] }

mapping-built : new_vss2dds_mapper (obj mapping) ≡ ok mapper
unfolding new_vss2dds_mapper
mapping-built = refl

motion-listed : lookup "Motion" mapper.dds2vss_dict ≡ some motion
unfolding lookup
motion-listed = refl

new_vss2dds_mapper-groups_example :
    (motion.vsssignals ≡ entries_of "Motion" mapping)
    × (motion.typename ≡ last_typename "Motion" mapping null)
new_vss2dds_mapper-groups_example =
    new_vss2dds_mapper-groups mapping "Motion" mapper motion mapping-built motion-listed

abbrev sample : Dict String Value
sample = ("speed", int (pos 10)) ∷ ("heading", int (pos 90)) ∷ []

abbrev types : Dict String String
types = ("Vehicle.Speed", "FLOAT") ∷ ("Vehicle.Heading", "FLOAT") ∷ []

abbrev provider : Provider
provider = record { name_to_type = types; metadata_set = []; values_set = [] }

abbrev accepts : String → Bool
accepts name = true

abbrev speed_sent : List (String × Value × String)
speed_sent = ("Vehicle.Speed", int (pos 180), "FLOAT") ∷ []

speed-Sends : Sends nearest mapper "Motion" sample types (speed ∷ []) speed_sent
unfolding lookup transform formula ◌*ℤ◌ ◌+ℤ◌
speed-Sends =
    updated speed "speed" (int (pos 10)) (int (pos 180)) "FLOAT" refl refl refl refl nothing

on_data_available_untransformed_example :
    on_data_available nearest "Motion" sample accepts mapper provider
    ≡ (err type_error, with_sent provider speed_sent)
unfolding lookup
on_data_available_untransformed_example =
    on_data_available_untransformed nearest mapper "Motion" sample types accepts motion provider
      (speed ∷ []) speed_sent heading [] "heading" (int (pos 90)) motion-listed refl refl (refl, tt)
      speed-Sends refl refl refl

-- The same without the heading.
abbrev speed_mapping : Fields
speed_mapping = field "Vehicle.Speed" (entry speed_source) end

abbrev speed_motion : TopicInfo
speed_motion = record { vsssignals = speed ∷ []; typename = str "Vehicle.Motion" }

abbrev speed_mapper : Vss2DdsMapper
speed_mapper = record { mapping = speed_mapping; dds2vss_dict = ("Motion", speed_motion) ∷ [] }

speed_mapping-built : new_vss2dds_mapper (obj speed_mapping) ≡ ok speed_mapper
unfolding new_vss2dds_mapper
speed_mapping-built = refl

speed_motion-listed : lookup "Motion" speed_mapper.dds2vss_dict ≡ some speed_motion
unfolding lookup
speed_motion-listed = refl

only_speed-Sends : Sends nearest speed_mapper "Motion" sample types (speed ∷ []) speed_sent
unfolding lookup transform formula ◌*ℤ◌ ◌+ℤ◌
only_speed-Sends =
    updated speed "speed" (int (pos 10)) (int (pos 180)) "FLOAT" refl refl refl refl nothing

on_data_available-Sends_example :
    on_data_available nearest "Motion" sample accepts speed_mapper provider
    ≡ (ok tt, with_sent provider speed_sent)
on_data_available-Sends_example =
    on_data_available-Sends nearest speed_mapper "Motion" sample types accepts speed_motion provider
      speed_sent speed_motion-listed refl only_speed-Sends

-- A databroker that does not know the signals and accepts their registration.
abbrev answer : Answer
answer = record { metadata = unexpected_entries; accepted = true }

abbrev answers : String → Answer
answers name = answer

abbrev comes_up : Event is_datatype nearest
comes_up = connectivity_changed ready answers

-- A second thread reports a change before the provider is created.
abbrev nothing_early : List (Event is_datatype nearest)
nothing_early = []

abbrev late : List (Event is_datatype nearest)
late = comes_up ∷ data_available "Motion" sample accepts ∷ []

late_registered : (start is_datatype nearest speed_mapper nothing_early late).registered ≡ true
unfolding start register_datapoints on_data_available ◌>>=◌
late_registered = refl

start-Answers_example :
    ((start is_datatype nearest speed_mapper nothing_early late).connected ≡ true)
    × All
        (Answers
          (start is_datatype nearest speed_mapper nothing_early late).provider
          (int (pos 180))
          false)
        speed_motion.vsssignals
start-Answers_example =
    start-Answers is_datatype nearest speed_mapping speed_mapper nothing_early late "Motion"
      speed_motion (int (pos 180)) false speed_mapping-built speed_motion-listed late_registered

abbrev idle_early : List (Event is_datatype nearest)
idle_early = connectivity_changed idle answers ∷ []

idle_early_connected : (start is_datatype nearest speed_mapper idle_early []).connected ≡ true
unfolding start
idle_early_connected = refl

late-StaysUp : All (StaysUp is_datatype nearest) late
late-StaysUp = ground arith

start_early-unregistered_example :
    (start is_datatype nearest speed_mapper idle_early late).registered ≡ false
start_early-unregistered_example =
    start_early-unregistered is_datatype nearest speed_mapper idle_early late idle_early_connected
      late-StaysUp
