-- ===== src/Dds/Listener/Types.antt =====
-- A sample takes no datatype away.
use kuksa_val_feeders.Prelude.{
  Bool, List, Option-cases, String, [], inl, inr, ◌∷◌, text_eq, nat_eq, ℕ,
}
use kuksa_val_feeders.Prelude.Int.{ℤ}
use kuksa_val_feeders.Dds.Listener.{
  get_attribute, on_data_available, try_update, update_signal, update_signals,
}
use kuksa_val_feeders.Dds.Mapper.{Vss2DdsMapper, VssInfo, transform}
use kuksa_val_feeders.Dds.Provider.{update_datapoint}
use kuksa_val_feeders.Dds.Provider.Types.{HasType}
use kuksa_val_feeders.Python.Dict.{Dict, lookup}
use kuksa_val_feeders.Python.Run.{Keeps, Keeps-bind, Keeps-lift, Keeps-pure, raise}
use kuksa_val_feeders.Python.Value.{Value}

update_datapoint-Keeps :
    (name other : String) (value : Value) (accepted : Bool)
    → Keeps (HasType name) (update_datapoint other value accepted)
unfolding update_datapoint
update_datapoint-Keeps name other value accepted p h =
    elim (Option-cases (lookup other p.name_to_type)) [
      | inl unknown ↦ simp (unknown, update_datapoint) h
      | inr (t, known) ↦ simp (known, update_datapoint) h
    ]

module _ (nearest : ℤ → ℕ → Value) (name topic : String) (attributes : Dict String Value)
    (accepts : String → Bool) (m : Vss2DdsMapper) where
  update_signal-Keeps :
      (info : VssInfo)
      → Keeps (HasType name) (update_signal nearest topic attributes accepts m info)
  unfolding update_signal try_update
  update_signal-Keeps info =
      Keeps-bind _ _ (Keeps-lift (HasType name) (get_attribute info.element attributes)) (λ element.
        Keeps-bind _ _
          (Keeps-lift (HasType name) (transform nearest topic info.vsssignal element m))
          (λ value.
            Keeps-bind _ _
              (update_datapoint-Keeps name info.vsssignal value (accepts info.vsssignal))
              (λ updated. Keeps-pure (HasType name) tt)))

  update_signals-Keeps :
      (signals : List VssInfo)
      → Keeps (HasType name) (update_signals nearest topic attributes accepts m signals)
  unfolding update_signals
  update_signals-Keeps [] = Keeps-pure (HasType name) tt
  update_signals-Keeps (info ∷ signals) =
      Keeps-bind _ _ (update_signal-Keeps info) (λ _. update_signals-Keeps signals)

  pub on_data_available-Keeps :
      Keeps (HasType name) (on_data_available nearest topic attributes accepts m)
  unfolding on_data_available raise
  on_data_available-Keeps p h = elim (Option-cases (lookup topic m.dds2vss_dict)) [
    | inl absent ↦ simp (absent, on_data_available) h
    | inr (t, listed) ↦ rw (listed, on_data_available) (update_signals-Keeps t.vsssignals p h)
  ]
