-- ===== src/Dds/Provider/Types.antt =====
-- The datatypes that the provider knows, after a registration and over updates.
use kuksa_val_feeders.Prelude.{
  Bool, eq_iff, ap, Bool-cases, String, false, inl, inr, refl, some, true, ◌==◌, ◌∙◌, ◌≡◌, text_eq,
  nat_eq,
}
use mathlib.Core.Path.{subst}
use kuksa_val_feeders.Client.Databroker.{Metadata, client_error, one_entry, unexpected_entries}
use kuksa_val_feeders.Dds.Provider.{
  Answer, Provider, ask_metadata, data_type_of, if_registered, note_type, register, register_all,
  register_known, register_new, update_datapoint,
}
use kuksa_val_feeders.Python.Dict.{beq_refl, lookup, lookup-insert}
use kuksa_val_feeders.Python.Errors.{ok}
use kuksa_val_feeders.Python.Run.{
  Keeps, Run, Keeps-bind, Keeps-lift, Keeps-pure, bind_after, lift, pure,
}
use kuksa_val_feeders.Python.Value.{Fields, Value, end, field, get_field, get_item, has_field}

abbrev pub HasType : String → Provider → Type 0
HasType name p = (data_type : String) × (lookup name p.name_to_type ≡ some data_type)

-- An update of a known name is answered, and does not raise.
pub update_datapoint_known :
    (name : String) (value : Value) (accepted : Bool) (p : Provider)
    → HasType name p
    → (update_datapoint name value accepted p).0 ≡ ok accepted
unfolding update_datapoint
update_datapoint_known name value accepted p (t, known) = rw (known, update_datapoint) refl

note_type-HasType :
    (name other t : String) (p : Provider) → HasType name p → HasType name (note_type other t p)
unfolding note_type
note_type-HasType name other t p (s, known) = elim (Bool-cases (other == name)) [
  | inl same ↦ (t, lookup-insert other name t p.name_to_type ∙ rw same refl)
  | inr differ ↦ (s, lookup-insert other name t p.name_to_type ∙ rw differ known)
]

note_type-HasType_self : (name t : String) (p : Provider) → HasType name (note_type name t p)
unfolding note_type
note_type-HasType_self name t p =
    (t, lookup-insert name name t p.name_to_type ∙ rw (beq_refl name) refl)

-- A registration takes no type away.
register_known-Keeps :
    (name vss_signal t : String) (description : Value) (accepted : Bool) (metadata : Metadata)
    → Keeps (HasType name) (register_known vss_signal t description accepted metadata)
unfolding register_known register_new
register_known-Keeps name vss_signal t description accepted (one_entry known) p h =
    note_type-HasType name vss_signal known p h
register_known-Keeps name vss_signal t description true unexpected_entries p h =
    note_type-HasType name vss_signal t (ask_metadata vss_signal t description p) h
register_known-Keeps name vss_signal t description false unexpected_entries p h = h
register_known-Keeps name vss_signal t description accepted client_error p h = h

-- A name that is registered has a type.
register_known-HasType :
    (vss_signal t : String) (description : Value) (accepted : Bool) (metadata : Metadata)
    (p : Provider)
    → (register_known vss_signal t description accepted metadata p).0 ≡ ok true
    → HasType vss_signal (register_known vss_signal t description accepted metadata p).1
unfolding register_known register_new
register_known-HasType vss_signal t description accepted (one_entry known) p h =
    note_type-HasType_self vss_signal known p
register_known-HasType vss_signal t description true unexpected_entries p h =
    note_type-HasType_self vss_signal t (ask_metadata vss_signal t description p)
register_known-HasType vss_signal t description false unexpected_entries p h = cc
register_known-HasType vss_signal t description accepted client_error p h = cc

module _ (is_datatype : String → Bool) where
  register-Keeps :
      (name vss_signal : String) (datatype description : Value) (answer : Answer)
      → Keeps (HasType name) (register is_datatype vss_signal datatype description answer)
  unfolding register
  register-Keeps name vss_signal datatype description answer =
      Keeps-bind (lift (data_type_of is_datatype datatype))
        (λ t. register_known vss_signal t description answer.accepted answer.metadata)
        (Keeps-lift (HasType name) (data_type_of is_datatype datatype))
        (λ t. register_known-Keeps name vss_signal t description answer.accepted answer.metadata)

  register-HasType :
      (vss_signal : String) (datatype description : Value) (answer : Answer) (p : Provider)
      → (register is_datatype vss_signal datatype description answer p).0 ≡ ok true
      → HasType vss_signal (register is_datatype vss_signal datatype description answer p).1
  unfolding register
  register-HasType vss_signal datatype description answer p h =
      bind_after (HasType vss_signal) (lift (data_type_of is_datatype datatype))
        (λ t. register_known vss_signal t description answer.accepted answer.metadata) p h
        (λ t first returned.
          register_known-HasType vss_signal t description answer.accepted answer.metadata _
            returned)

  if_registered-Keeps :
      (name : String) (others : Run Provider Bool) (registered : Bool)
      → Keeps (HasType name) others
      → Keeps (HasType name) (if_registered others registered)
  if_registered-Keeps name others true h = h
  if_registered-Keeps name others false h = Keeps-pure (HasType name) false

  register_all-Keeps :
      (name : String) (answers : String → Answer) (mapping : Fields)
      → Keeps (HasType name) (register_all is_datatype answers mapping)
  unfolding register_all
  register_all-Keeps name answers end = Keeps-pure (HasType name) true
  register_all-Keeps name answers (field vss_signal entry mapping) =
      Keeps-bind _ _ (Keeps-lift (HasType name) (get_item entry "databroker")) (λ databroker.
        Keeps-bind _ _ (Keeps-lift (HasType name) (get_item databroker "datatype")) (λ datatype.
          Keeps-bind _ _ (Keeps-lift (HasType name) (get_item entry "description")) (λ description.
            Keeps-bind _ _
              (register-Keeps name vss_signal datatype description (answers vss_signal))
              (λ registered.
                if_registered-Keeps name _ registered (register_all-Keeps name answers mapping)))))

  -- What the rest of the loop gives after the registration of one name.
  registered_or_later :
      (name : String) (answers : String → Answer) (vss_signal : String) (entry : Value)
      (mapping : Fields) (registered : Bool) (p : Provider)
      → has_field name (field vss_signal entry mapping) ≡ true
      → (registered ≡ true → HasType vss_signal p)
      → ((p' : Provider)
          → (register_all is_datatype answers mapping p').0 ≡ ok true
          → has_field name mapping ≡ true
          → HasType name (register_all is_datatype answers mapping p').1)
      → (if_registered (register_all is_datatype answers mapping) registered p).0 ≡ ok true
      → HasType name (if_registered (register_all is_datatype answers mapping) registered p).1
  unfolding pure get_field
  registered_or_later name answers vss_signal entry mapping false p listed first later h = cc
  registered_or_later name answers vss_signal entry mapping true p listed first later h =
      elim (Bool-cases (vss_signal == name)) [
        | inl same ↦
            register_all-Keeps name answers mapping p
              (subst (λ n. HasType n p) ((eq_iff vss_signal name).0 same) (first refl))
        | inr other ↦ later p h (rw (other, has_field) at listed)
      ]

  -- After a registration of all datapoints, every name of the mapping has a type.
  pub register_all-HasType :
      (name : String) (answers : String → Answer) (mapping : Fields) (p : Provider)
      → has_field name mapping ≡ true
      → (register_all is_datatype answers mapping p).0 ≡ ok true
      → HasType name (register_all is_datatype answers mapping p).1
  unfolding register_all get_field
  register_all-HasType name answers end p listed h = cc
  register_all-HasType name answers (field vss_signal entry mapping) p listed h =
      bind_after (HasType name) _ _ p h λ databroker _ h1.
        bind_after (HasType name) _ _ _ h1 λ datatype _ h2.
          bind_after (HasType name) _ _ _ h2 λ description _ h3.
            bind_after (HasType name)
              (register is_datatype vss_signal datatype description (answers vss_signal)) _ _ h3
              λ registered answered h4.
                registered_or_later name answers vss_signal entry mapping registered _ listed
                  (λ is_true.
                    register-HasType vss_signal datatype description (answers vss_signal) _
                      (answered ∙ ap ok is_true))
                  (λ p' h' listed'. register_all-HasType name answers mapping p' listed' h') h4
