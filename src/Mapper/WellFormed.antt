-- ===== src/Mapper/WellFormed.antt =====
-- The invariant of a Mapper: every reference leads to the object that its key promises.
-- The children keep it through each step of the construction, also where a step raises.
pub mod Dbc2vss
pub mod Vss2dbc
pub mod Traverse
use kuksa_val_feeders.Mapper.Refs.{
  AllRefs, AllRefs-weaken, get_elem?-append_left, AllRefs-append_ref, AllRefs-open_entry,
  get_elem?-append_last, AllRefs-insert,
}
use kuksa_val_feeders.Dbc.Lookup.{
  IsCoherent, get_canid_for_signal-IsCoherent, get_canid_for_signal_fst,
}
use kuksa_val_feeders.Prelude.{
  List, String, arith, contains, get_elem?, some, true, ℕ, ◌≡◌, Option, [], ap, ◌++◌, ◌∙◌, ◌∷◌,
  text_eq, nat_eq, Bool, length, none, refl, Bool-cases, inl, inr, sym,
}
use kuksa_val_feeders.Mapper.{Mapper, Ref}
use kuksa_val_feeders.Dbc.{Message, Parser, find_signal, get_canid_for_signal, Database}
use kuksa_val_feeders.Python.Run.{◌>>=◌, modify, Keeps, Keeps-bind, Keeps-lift}
use kuksa_val_feeders.Mapping.{VssMapping, new_mapping}
use kuksa_val_feeders.Mapper.Build.{
  add_dbc2vss, whitelist_frame, append_ref, open_entry, record_dbc2vss, add_can_id,
  append_vss_entry, open_vss_entry, record_can_id,
}
use kuksa_val_feeders.Python.Value.{Fields, get_item, obj}
use kuksa_val_feeders.Python.Dict.{add, contains-add, has_key}
use kuksa_val_feeders.Prelude.Int.{ℤ}

pub get_canid_for_signal_db : (s : String) (p : Parser) → (get_canid_for_signal s p).1.db ≡ p.db
unfolding get_canid_for_signal
get_canid_for_signal_db s p = ground arith

-- The reference leads to a mapping of the CAN signal `k`, whose frame passes the CAN filters.
abbrev pub DbcRef : List Message → List VssMapping → List ℕ → String → Ref → Type 0
DbcRef messages objects ids k r =
    (o : VssMapping) × (get_elem? objects r ≡ some o)
    × (o.dbc_name ≡ k)
    × ((c : ℕ) → find_signal k messages ≡ some c → contains ids c ≡ true)

-- The reference leads to a mapping of the VSS name `k`.
abbrev pub VssRef : List VssMapping → String → Ref → Type 0
VssRef objects k r = (o : VssMapping) × (get_elem? objects r ≡ some o) × (o.vss_name ≡ k)

-- The reference leads to a mapping whose CAN signal lies in the frame `c`.
abbrev pub CanRef : List Message → List VssMapping → ℕ → Ref → Type 0
CanRef messages objects c r =
    (o : VssMapping) × (get_elem? objects r ≡ some o) × (find_signal o.dbc_name messages ≡ some c)

pub record IsWellFormed (messages : List Message) (m : Mapper) : Type 0 where
  pub from_messages : m.parser.db.messages ≡ messages
  pub coherent : IsCoherent m.parser
  pub dbc2vss : AllRefs (DbcRef messages m.objects m.mapped_can_frame_ids) m.dbc2vss_mapping
  pub vss2dbc : AllRefs (VssRef m.objects) m.vss2dbc_mapping
  pub can_ids : AllRefs (CanRef messages m.objects) m.vss2dbc_can_id_mapping

module _ (messages : List Message) where
  -- A new object moves no other, so what held of the references still holds.
  abbrev pub grown : VssMapping → Mapper → Mapper
  grown o m = record m { objects = m.objects ++ (o ∷ []) }

  pub grown-IsWellFormed :
      (o : VssMapping) {m : Mapper} → IsWellFormed messages m → IsWellFormed messages (grown o m)
  grown-IsWellFormed o {m} h = record {
    from_messages = h.from_messages;
    coherent = h.coherent;
    dbc2vss = AllRefs-weaken h.dbc2vss (λ k r (x, found, is_k, frames).
        (x, get_elem?-append_left m.objects _ r found, is_k, frames));
    vss2dbc =
        AllRefs-weaken h.vss2dbc
          (λ k r (x, found, named). (x, get_elem?-append_left m.objects _ r found, named));
    can_ids =
        AllRefs-weaken h.can_ids
          (λ k r (x, found, canid). (x, get_elem?-append_left m.objects _ r found, canid));
  }

  -- The state after the frame of a signal was looked up.
  abbrev pub looked_up : String → Mapper → Mapper
  looked_up s m = record m { parser = (get_canid_for_signal s m.parser).1 }

  pub looked_up-IsWellFormed :
      (s : String) {m : Mapper} → IsWellFormed messages m → IsWellFormed messages (looked_up s m)
  looked_up-IsWellFormed s {m} h = record {
    from_messages =
        ap (λ (d : Database). d.messages) (get_canid_for_signal_db s m.parser) ∙ h.from_messages;
    coherent = get_canid_for_signal-IsCoherent m.parser h.coherent s;
    dbc2vss = h.dbc2vss;
    vss2dbc = h.vss2dbc;
    can_ids = h.can_ids;
  }

  pub found_in_messages :
      (s : String) (m : Mapper)
      → IsWellFormed messages m
      → (get_canid_for_signal s m.parser).0 ≡ find_signal s messages
  found_in_messages s m h =
      get_canid_for_signal_fst m.parser h.coherent s ∙ ap (find_signal s) h.from_messages
