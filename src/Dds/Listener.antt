-- ===== src/Dds/Listener.antt =====
-- The class DdsListener of dds2val/ddsproviderlib/helper.py. A sample has attributes by name.
pub mod Sends
pub mod Types
use kuksa_val_feeders.Prelude.{Bool, List, Option, String, [], none, some, ℕ, ◌∷◌, text_eq, nat_eq}
use kuksa_val_feeders.Prelude.Int.{ℤ}
use kuksa_val_feeders.Dds.Mapper.{TopicInfo, VssInfo, Vss2DdsMapper, transform}
use kuksa_val_feeders.Dds.Provider.{Provider, update_datapoint}
use kuksa_val_feeders.Python.Dict.{Dict, lookup}
use kuksa_val_feeders.Python.Errors.{Result, attribute_error, err, key_error, ok, type_error}
use kuksa_val_feeders.Python.Run.{Run, lift, pure, raise, ◌>>=◌, ◌>>◌}
use kuksa_val_feeders.Python.Value.{Value, str}

-- getattr(data, element)
unfoldable pub get_attribute : Value → Dict String Value → Result Value
unfolding lookup
get_attribute (str name) attributes = elim (lookup name attributes) [
  | none ↦ err attribute_error
  | some v ↦ ok v
]
get_attribute _ attributes = err type_error

-- `except AttributeError`
abbrev pub attribute_error_caught : Result (Unit {0}) → Result (Unit {0})
attribute_error_caught (err attribute_error) = ok tt
attribute_error_caught r = r

module _ (nearest : ℤ → ℕ → Value) where
  unfoldable pub try_update :
      String
      → Dict String Value
      → (String → Bool)
      → Vss2DdsMapper
      → VssInfo
      → Run Provider (Unit {0})
  unfolding get_attribute transform update_datapoint
  try_update topic attributes accepts m info = do
    element ← lift (get_attribute info.element attributes)
    value ← lift (transform nearest topic info.vsssignal element m)
    updated ← update_datapoint info.vsssignal value (accepts info.vsssignal)
    pure tt

  unfoldable pub update_signal :
      String
      → Dict String Value
      → (String → Bool)
      → Vss2DdsMapper
      → VssInfo
      → Run Provider (Unit {0})
  unfolding try_update
  update_signal topic attributes accepts m info p =
      let (result, p') = try_update topic attributes accepts m info p in
      (attribute_error_caught result, p')

  unfoldable pub update_signals :
      String
      → Dict String Value
      → (String → Bool)
      → Vss2DdsMapper
      → List VssInfo
      → Run Provider (Unit {0})
  unfolding update_signal
  update_signals topic attributes accepts m [] = pure tt
  update_signals topic attributes accepts m (info ∷ signals) =
      update_signal topic attributes accepts m info
      >> update_signals topic attributes accepts m signals

  -- on_data_available, with the answers of the client to the calls of set
  unfoldable pub on_data_available :
      String → Dict String Value → (String → Bool) → Vss2DdsMapper → Run Provider (Unit {0})
  unfolding update_signals lookup
  on_data_available topic attributes accepts m = elim (lookup topic m.dds2vss_dict) [
    | none ↦ raise key_error
    | some t ↦ update_signals topic attributes accepts m t.vsssignals
  ]
