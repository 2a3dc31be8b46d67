-- ===== src/Mapper/WellFormed/Dbc2vss.antt =====
-- _analyze_dbc2vss keeps the invariant.
use kuksa_val_feeders.Prelude.{
  ℕ, Bool, List, Option, String, arith, contains, get_elem?, length, none, refl, some, true, ◌≡◌,
  text_eq, nat_eq,
}
use kuksa_val_feeders.Mapper.Refs.{
  AllRefs-append_ref, AllRefs-open_entry, AllRefs-weaken, get_elem?-append_last,
}
use kuksa_val_feeders.Python.Value.{Fields, Value, get_item, obj}
use kuksa_val_feeders.Mapper.WellFormed.{
  IsWellFormed, found_in_messages, grown, grown-IsWellFormed, looked_up, looked_up-IsWellFormed,
}
use kuksa_val_feeders.Python.Run.{Keeps, Keeps-bind, Keeps-lift, Keeps-raise, modify, ◌>>=◌}
use kuksa_val_feeders.Mapper.{Mapper, Ref}
use kuksa_val_feeders.Dbc.{Message, find_signal, get_canid_for_signal}
use kuksa_val_feeders.Mapping.{VssMapping, new_mapping}
use kuksa_val_feeders.Python.Dict.{add, contains-add}
use kuksa_val_feeders.Mapper.Build.{
  add_dbc2vss, analyze_dbc2vss, append_ref, open_entry, record_dbc2vss, whitelist_frame,
}
use kuksa_val_feeders.Python.Errors.{attribute_error}
use kuksa_val_feeders.Mapper.Verify.{extract_verify_transform, interval_of, on_change_of, signal_of}
use kuksa_val_feeders.Prelude.Int.{ℤ}

module _ (messages : List Message) where
  -- the last step of `add_dbc2vss`: the reference is listed and its frame passes the filters
  listed-IsWellFormed :
      (s : String) (r : Ref) (o : VssMapping) (m : Mapper) (c : Option ℕ)
      → get_elem? m.objects r ≡ some o
      → o.dbc_name ≡ s
      → c ≡ find_signal s messages
      → IsWellFormed messages m
      → IsWellFormed messages
          (whitelist_frame c (record m { dbc2vss_mapping = append_ref s r m.dbc2vss_mapping }))
  unfolding whitelist_frame
  listed-IsWellFormed s r o m none found named is_canid h = record {
    from_messages = h.from_messages;
    coherent = h.coherent;
    dbc2vss = AllRefs-append_ref s r (o, found, named, λ c f. cc) h.dbc2vss;
    vss2dbc = h.vss2dbc;
    can_ids = h.can_ids;
  }
  listed-IsWellFormed s r o m (some x) found named is_canid h = record {
    from_messages = h.from_messages;
    coherent = h.coherent;
    dbc2vss =
        AllRefs-append_ref s r (o, found, named, new_frame)
          (AllRefs-weaken h.dbc2vss
            (λ k q (y, at_q, is_k, frames). (y, at_q, is_k, λ c f. old_frame c (frames c f))));
    vss2dbc = h.vss2dbc;
    can_ids = h.can_ids;
  }
    where
      old_frame :
          (c : ℕ)
          → contains m.mapped_can_frame_ids c ≡ true
          → contains (add x m.mapped_can_frame_ids) c ≡ true
      old_frame c f = ground (arith, contains-add x c m.mapped_can_frame_ids)

      new_frame :
          (c : ℕ)
          → find_signal s messages ≡ some c
          → contains (add x m.mapped_can_frame_ids) c ≡ true
      new_frame c f = ground (arith, contains-add x c m.mapped_can_frame_ids)

  add_dbc2vss-Keeps :
      (s : String) (o : VssMapping)
      → o.dbc_name ≡ s
      → Keeps (IsWellFormed messages) (add_dbc2vss s o)
  unfolding add_dbc2vss ◌>>=◌
  add_dbc2vss-Keeps s o named m h =
      listed-IsWellFormed s (length m.objects) o (looked_up messages s (grown messages o m))
        (get_canid_for_signal s m.parser).0 (get_elem?-append_last m.objects o) named
        (found_in_messages messages s m h)
        (looked_up-IsWellFormed messages s (grown-IsWellFormed messages o h))

  open_dbc_entry-Keeps :
      (s : String)
      → Keeps
          (IsWellFormed messages)
          (modify (λ (m : Mapper). record m { dbc2vss_mapping = open_entry s m.dbc2vss_mapping }))
  unfolding modify
  open_dbc_entry-Keeps s m h = record {
    from_messages = h.from_messages;
    coherent = h.coherent;
    dbc2vss = AllRefs-open_entry s h.dbc2vss;
    vss2dbc = h.vss2dbc;
    can_ids = h.can_ids;
  }

  record_dbc2vss-Keeps :
      (name s : String) (t : Option Fields) (i : ℤ) (c : Bool) (node : Fields)
      → Keeps (IsWellFormed messages) (record_dbc2vss name s t i c node)
  unfolding record_dbc2vss new_mapping
  record_dbc2vss-Keeps name s t i c node = Keeps-bind _ _ (open_dbc_entry-Keeps s) λ _.
      Keeps-bind _ _ (Keeps-lift _ (get_item (obj node) "datatype")) λ datatype.
        Keeps-bind _ _ (Keeps-lift _ (get_item (obj node) "description"))
          λ description. add_dbc2vss-Keeps s (new_mapping name s t i c datatype description) refl

  pub analyze_dbc2vss-Keeps :
      (name : String) (node : Fields) (def : Value)
      → Keeps (IsWellFormed messages) (analyze_dbc2vss name node def)
  unfolding analyze_dbc2vss
  analyze_dbc2vss-Keeps name node (obj d) = Keeps-bind _ _ (Keeps-lift _ (signal_of d)) λ s.
      Keeps-bind _ _ (Keeps-lift _ (extract_verify_transform d)) λ t.
        Keeps-bind _ _ (Keeps-lift _ (on_change_of d)) λ c.
          Keeps-bind _ _ (Keeps-lift _ (interval_of c d))
            λ i. record_dbc2vss-Keeps name s t i c node
  analyze_dbc2vss-Keeps name node _ = Keeps-raise _ _ attribute_error
