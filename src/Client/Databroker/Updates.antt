-- ===== src/Client/Databroker/Updates.antt =====
-- The datatypes that a check of the datapoints finds, and the updates after it.
use kuksa_val_feeders.Client.Databroker.{update_datapoint}
use kuksa_val_feeders.Prelude.{
  Bool, Bool-cases, List, String, [], false, inl, inr, refl, some, true, none, if◌then◌else◌,
  Option, ◌++◌, ◌==◌, ◌∙◌, ◌∷◌, ◌≡◌, text_eq, nat_eq, ap, arith, sym,
}
use kuksa_val_feeders.Client.Databroker.{
  Channel, DatabrokerClient, Metadata, client_error, note_metadata, one_entry, set_value,
  unexpected_entries,
}
use kuksa_val_feeders.Python.Dict.{lookup, lookup-insert, has_key}
use kuksa_val_feeders.Python.Value.{Value}
use kuksa_val_feeders.Python.Errors.{ok}
use kuksa_val_feeders.Client.Databroker.Types.{
  IsOpen, both, check_all, check_all-HasType, check_all-cons, check_all-keeps, listed_later,
  note_metadata-keeps,
}

-- The type that the last answer for a name gives, or the one that was known.
abbrev pub last_type : String → List (String × Metadata) → Option String → Option String
last_type name [] known = known
last_type name ((vss_name, one_entry t) ∷ checks) known =
    last_type name checks (if vss_name == name then some t else known)
last_type name ((vss_name, unexpected_entries) ∷ checks) known = last_type name checks known
last_type name ((vss_name, client_error) ∷ checks) known = last_type name checks known

last_type-note_metadata :
    (name vss_name : String) (metadata : Metadata) (checks : List (String × Metadata))
    (b : DatabrokerClient)
    → last_type name checks (lookup name (note_metadata vss_name metadata b).1.name_to_type)
      ≡ last_type name ((vss_name, metadata) ∷ checks) (lookup name b.name_to_type)
unfolding note_metadata
last_type-note_metadata name vss_name (one_entry t) checks b =
    ap (last_type name checks) (lookup-insert vss_name name t b.name_to_type)
last_type-note_metadata name vss_name unexpected_entries checks b = refl
last_type-note_metadata name vss_name client_error checks b = refl

check_all-last_type :
    (name : String) (checks : List (String × Metadata)) (b : DatabrokerClient)
    → IsOpen b
    → lookup name (check_all checks b).1.name_to_type
      ≡ last_type name checks (lookup name b.name_to_type)
check_all-last_type name [] b opened = unfold check_all in refl
check_all-last_type name ((vss_name, metadata) ∷ checks) b opened =
    let opened' = (note_metadata-keeps name vss_name metadata b opened).0 in
    rw (check_all-cons vss_name metadata checks b opened) (
      check_all-last_type name checks (note_metadata vss_name metadata b).1 opened'
      ∙ last_type-note_metadata name vss_name metadata checks b)

last_type-answered :
    (name vss_name : String) (metadata : Metadata) (checks : List (String × Metadata))
    (b : DatabrokerClient) (known : Option String)
    → (note_metadata vss_name metadata b).0 ≡ true
    → ((vss_name == name) ≡ false → last_type name checks known ≡ last_type name checks none)
    → last_type name ((vss_name, metadata) ∷ checks) known
      ≡ last_type name ((vss_name, metadata) ∷ checks) none
unfolding note_metadata
last_type-answered name vss_name (one_entry t) checks b known first later =
    elim (Bool-cases (vss_name == name)) [
      | inl same ↦ rw same refl
      | inr other ↦ rw other (later other)
    ]
last_type-answered name vss_name unexpected_entries checks b known first later =
    ground (arith, first)
last_type-answered name vss_name client_error checks b known first later = ground (arith, first)

-- For a name that is listed the answers alone give the type.
last_type-listed :
    (name : String) (checks : List (String × Metadata)) (b : DatabrokerClient)
    (known : Option String)
    → IsOpen b
    → (check_all checks b).0 ≡ true
    → has_key name checks ≡ true
    → last_type name checks known ≡ last_type name checks none
last_type-listed name [] b known opened passed listed = unfold has_key in ground (arith, listed)
last_type-listed name ((vss_name, metadata) ∷ checks) b known opened passed listed =
    let cons = check_all-cons vss_name metadata checks b opened in
    let b' = (note_metadata vss_name metadata b).1 in
    let (first, others) =
      both (note_metadata vss_name metadata b).0 (check_all checks b').0
        (ap (λ (s : Bool × DatabrokerClient). s.0) (sym cons) ∙ passed) in
    let opened' = (note_metadata-keeps name vss_name metadata b opened).0 in
    last_type-answered name vss_name metadata checks b known first (λ other.
      last_type-listed name checks b' known opened' others
        (listed_later vss_name metadata name checks other listed))

-- An update of a name whose type is known, on an open client.
update_datapoint-typed :
    (name : String) (value : Value) (accepted : Bool) (b : DatabrokerClient) (data_type : String)
    (channel : Channel)
    → lookup name b.name_to_type ≡ some data_type
    → b.grpc_client ≡ some channel
    → update_datapoint name value accepted b ≡ (
      ok accepted,
      record b {
        grpc_client =
            some (record channel {
              values_set = channel.values_set ++ ((name, value, data_type) ∷ []);
            });
      },
    )
unfolding update_datapoint set_value
update_datapoint-typed name value accepted b data_type channel found opened =
    simp (opened, found, update_datapoint) refl

-- Once the check of the datapoints succeeded on an open client, an update of any of the checked
-- names does not raise KeyError: the name, the value and the datatype of the last answer that the
-- check got for the name are what the channel was asked to set last, after all it was asked before.
pub update_datapoint-checked :
    (checks : List (String × Metadata)) (b : DatabrokerClient) (name : String) (value : Value)
    (accepted : Bool)
    → IsOpen b
    → (check_all checks b).0 ≡ true
    → has_key name checks ≡ true
    → (data_type : String) × (channel : Channel) × (last_type name checks none ≡ some data_type)
      × ((check_all checks b).1.grpc_client ≡ some channel)
      × (update_datapoint name value accepted (check_all checks b).1 ≡ (
        ok accepted,
        record (check_all checks b).1 {
          grpc_client = some (record channel {
            values_set = channel.values_set ++ ((name, value, data_type) ∷ []);
          });
        },
      ))
update_datapoint-checked checks b name value accepted opened passed listed =
    let (t, found) = check_all-HasType name checks b opened passed listed in
    let (channel, still_open) = (check_all-keeps name checks b opened).0 in
    (
      t,
      channel,
      sym (
            check_all-last_type name checks b opened
            ∙ last_type-listed name checks b (lookup name b.name_to_type) opened passed listed)
          ∙ found,
      still_open,
      update_datapoint-typed name value accepted (check_all checks b).1 t channel found still_open,
    )
