-- ===== src/Mapper/WellFormed/Vss2dbc.antt =====
-- _analyze_vss2dbc keeps the invariant.
use kuksa_val_feeders.Prelude.{
  ℕ, Bool-cases, List, Option, String, [], get_elem?, inl, inr, length, none, refl, some, sym, true,
  ◌≡◌, text_eq, nat_eq,
}
use kuksa_val_feeders.Mapper.Refs.{
  AllRefs, AllRefs-append_ref, AllRefs-insert, AllRefs-open_entry, get_elem?-append_last,
}
use kuksa_val_feeders.Python.Value.{Fields, Value, get_item, obj}
use kuksa_val_feeders.Mapper.WellFormed.{
  IsWellFormed, VssRef, found_in_messages, grown, grown-IsWellFormed, looked_up,
  looked_up-IsWellFormed,
}
use kuksa_val_feeders.Python.Run.{Keeps, Keeps-bind, Keeps-lift, Keeps-raise, modify, ◌>>=◌, ◌>>◌}
use kuksa_val_feeders.Mapper.{Mapper, Ref}
use kuksa_val_feeders.Dbc.{Message, find_signal, get_canid_for_signal}
use kuksa_val_feeders.Mapping.{VssMapping, new_mapping}
use kuksa_val_feeders.Mapper.Build.{
  add_can_id, allocate, analyze_vss2dbc, append_vss_entry, open_vss_entry, record_can_id,
  record_vss2dbc,
}
use kuksa_val_feeders.Python.Errors.{attribute_error}
use kuksa_val_feeders.Mapper.Verify.{extract_verify_transform, signal_of}
use kuksa_val_feeders.Python.Dict.{has_key}
use kuksa_val_feeders.Prelude.Int.{pos}

module _ (messages : List Message) where
  -- Well formed, and the object `o` is behind `r`.
  abbrev Holds : Ref → VssMapping → Mapper → Type 0
  Holds r o m = IsWellFormed messages m × (get_elem? m.objects r ≡ some o)

  module _ (r : Ref) (o : VssMapping) where
    open_vss_entry-Keeps :
        (s name : String)
        → Keeps (Holds r o) (
            modify (λ (m : Mapper). record m {
              vss2dbc_mapping = open_vss_entry s name m.vss2dbc_mapping;
            }))
    unfolding modify open_vss_entry
    open_vss_entry-Keeps s name m (h, found) = (
      record {
        from_messages = h.from_messages;
        coherent = h.coherent;
        dbc2vss = h.dbc2vss;
        vss2dbc = kept;
        can_ids = h.can_ids;
      },
      found,
    )
      where
        kept : AllRefs (VssRef m.objects) (open_vss_entry s name m.vss2dbc_mapping)
        kept = elim (Bool-cases (has_key s m.vss2dbc_mapping)) [
          | inl there ↦ rw (there, open_vss_entry) h.vss2dbc
          | inr absent ↦ rw (absent, open_vss_entry) (AllRefs-insert name [] tt h.vss2dbc)
        ]

    append_vss_entry-Keeps : Keeps (Holds r o) (append_vss_entry o.vss_name r)
    unfolding append_vss_entry
    append_vss_entry-Keeps m (h, found) = elim (Bool-cases (has_key o.vss_name m.vss2dbc_mapping)) [
      | inl there ↦
          rw (there, append_vss_entry)
            (
              record {
                from_messages = h.from_messages;
                coherent = h.coherent;
                dbc2vss = h.dbc2vss;
                vss2dbc = AllRefs-append_ref o.vss_name r (o, found, refl) h.vss2dbc;
                can_ids = h.can_ids;
              },
              found,
            )
      | inr absent ↦ rw (absent, append_vss_entry) (h, found)
    ]

    recorded-Holds :
        (c : Option ℕ) (m : Mapper)
        → c ≡ find_signal o.dbc_name messages
        → Holds r o m
        → Holds r o (record_can_id c r m)
    unfolding record_can_id
    recorded-Holds none m is_canid h = h
    recorded-Holds (some x) m is_canid (h, found) = (
      record {
        from_messages = h.from_messages;
        coherent = h.coherent;
        dbc2vss = h.dbc2vss;
        vss2dbc = h.vss2dbc;
        can_ids = AllRefs-append_ref x r (o, found, sym is_canid) (AllRefs-open_entry x h.can_ids);
      },
      found,
    )

    add_can_id-Keeps : Keeps (Holds r o) (add_can_id o.dbc_name r)
    unfolding add_can_id ◌>>=◌
    add_can_id-Keeps m (h, found) =
        recorded-Holds (get_canid_for_signal o.dbc_name m.parser).0
          (looked_up messages o.dbc_name m) (found_in_messages messages o.dbc_name m h)
          (looked_up-IsWellFormed messages o.dbc_name h, found)

  -- once the object is in the store
  listed_vss-Keeps :
      (r : Ref) (o : VssMapping)
      → Keeps (Holds r o) (do
        modify λ m. record m {
          vss2dbc_mapping = open_vss_entry o.dbc_name o.vss_name m.vss2dbc_mapping;
        }
        append_vss_entry o.vss_name r
        add_can_id o.dbc_name r)
  listed_vss-Keeps r o =
      Keeps-bind _ _ (open_vss_entry-Keeps r o o.dbc_name o.vss_name)
        λ _. Keeps-bind _ _ (append_vss_entry-Keeps r o) λ _. add_can_id-Keeps r o

  stored_vss-Keeps :
      (o : VssMapping)
      → Keeps (IsWellFormed messages) (do
        r ← allocate o
        modify λ m. record m {
          vss2dbc_mapping = open_vss_entry o.dbc_name o.vss_name m.vss2dbc_mapping;
        }
        append_vss_entry o.vss_name r
        add_can_id o.dbc_name r)
  unfolding allocate
  stored_vss-Keeps o m h =
      unfold ◌>>=◌ in
      (listed_vss-Keeps (length m.objects) o (grown messages o m)
        (grown-IsWellFormed messages o h, get_elem?-append_last m.objects o)).0

  record_vss2dbc-Keeps :
      (name s : String) (t : Option Fields) (node : Fields)
      → Keeps (IsWellFormed messages) (record_vss2dbc name s t node)
  unfolding record_vss2dbc new_mapping
  record_vss2dbc-Keeps name s t node =
      Keeps-bind _ _ (Keeps-lift _ (get_item (obj node) "datatype")) λ datatype.
        Keeps-bind _ _ (Keeps-lift _ (get_item (obj node) "description"))
          λ description. stored_vss-Keeps (new_mapping name s t (pos 0) true datatype description)

  pub analyze_vss2dbc-Keeps :
      (name : String) (node : Fields) (def : Value)
      → Keeps (IsWellFormed messages) (analyze_vss2dbc name node def)
  unfolding analyze_vss2dbc
  analyze_vss2dbc-Keeps name node (obj d) = Keeps-bind _ _ (Keeps-lift _ (signal_of d)) λ s.
      Keeps-bind _ _ (Keeps-lift _ (extract_verify_transform d))
        λ t. record_vss2dbc-Keeps name s t node
  analyze_vss2dbc-Keeps name node _ = Keeps-raise _ _ attribute_error
