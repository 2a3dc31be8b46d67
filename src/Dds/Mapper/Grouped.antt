-- ===== src/Dds/Mapper/Grouped.antt =====
-- What _createdict collects for a topic.
use kuksa_val_feeders.Prelude.{
  All, All-weaken, if_holds, Bool-cases, List, Option, String, [], ap, append-nil, append_assoc,
  arith, eq_iff, if◌then◌else◌, inl, inr, none, refl, some, sym, true, ◌++◌, ◌==◌, ◌∙◌, ◌∷◌, ◌≡◌,
  text_eq, nat_eq,
}
use kuksa_val_feeders.Dds.Mapper.{
  Source, TopicInfo, Vss2DdsMapper, VssInfo, add_signal, createdict, info_of, new_vss2dds_mapper,
  read_source, signals_of,
}
use kuksa_val_feeders.Python.Dict.{Dict, beq_refl, lookup, lookup-insert}
use kuksa_val_feeders.Python.Errors.{Result, Result-cases, err, ok}
use kuksa_val_feeders.Python.Value.{Fields, Value, end, field, get_field, has_field, null, obj}

abbrev pub listed : String → String → Result Source → List VssInfo → List VssInfo
listed topic name (ok s) later = if s.topic == topic then info_of name s ∷ later else later
listed topic name (err e) later = later

-- The signals of the entries whose source names the topic first, in the order of the mapping.
abbrev pub entries_of : String → Fields → List VssInfo
entries_of topic end = []
entries_of topic (field name entry mapping) =
    listed topic name (read_source entry) (entries_of topic mapping)

abbrev named_by : String → Result Source → Value → Value
named_by topic (ok s) before = if s.topic == topic then s.typename else before
named_by topic (err e) before = before

-- The typename of the last of these entries.
abbrev pub last_typename : String → Fields → Value → Value
last_typename topic end before = before
last_typename topic (field name entry mapping) before =
    last_typename topic mapping (named_by topic (read_source entry) before)

abbrev typename_of : Option TopicInfo → Value
typename_of none = null
typename_of (some t) = t.typename

add_signal-lookup :
    (topic name : String) (s : Source) (d : Dict String TopicInfo)
    → let found = lookup topic (add_signal name s d) in
      (signals_of found ≡ signals_of (lookup topic d) ++ listed topic name (ok s) [])
      × (typename_of found ≡ named_by topic (ok s) (typename_of (lookup topic d)))
unfolding add_signal
add_signal-lookup topic name s d =
    let t : TopicInfo = record {
      vsssignals = signals_of (lookup s.topic d) ++ (info_of name s ∷ []);
      typename = s.typename;
    } in
    rw (lookup-insert s.topic topic t d) (elim (Bool-cases (s.topic == topic)) [
      | inl same ↦ rw same (
        ap (λ k. signals_of (lookup k d) ++ (info_of name s ∷ [])) ((eq_iff s.topic topic).0 same),
        refl,
      )
      | inr other ↦ rw other (sym (append-nil (signals_of (lookup topic d))), refl)
    ])

listed-append :
    (topic name : String) (s : Source) (later : List VssInfo)
    → listed topic name (ok s) later ≡ listed topic name (ok s) [] ++ later
listed-append topic name s later = ground arith

pub createdict-lookup :
    (topic : String) (mapping : Fields) (d : Dict String TopicInfo) {d' : Dict String TopicInfo}
    → createdict mapping d ≡ ok d'
    → (signals_of (lookup topic d') ≡ signals_of (lookup topic d) ++ entries_of topic mapping)
      × (typename_of (lookup topic d') ≡ last_typename topic mapping (typename_of (lookup topic d)))
unfolding createdict
createdict-lookup topic end d {d'} h =
    let same : d ≡ d' = cc in
    (
      ap (λ e. signals_of (lookup topic e)) (sym same)
          ∙ sym (append-nil (signals_of (lookup topic d))),
      ap (λ e. typename_of (lookup topic e)) (sym same),
    )
createdict-lookup topic (field name entry mapping) d {d'} h =
    elim (Result-cases (read_source entry)) [
      | inl (s, read) ↦
          let (signals, typename) =
            createdict-lookup topic mapping (add_signal name s d) (rw (read, createdict) at h) in
          let (added, renamed) = add_signal-lookup topic name s d in
          rw read (
            signals
                ∙ (ap (λ l. l ++ entries_of topic mapping) added
                    ∙ (append_assoc (signals_of (lookup topic d)) (listed topic name (ok s) [])
                          (entries_of topic mapping)
                        ∙ ap (λ l. signals_of (lookup topic d) ++ l)
                            (sym (listed-append topic name s (entries_of topic mapping))))),
            typename ∙ ap (λ v. last_typename topic mapping v) renamed,
          )
      | inr (e, failed) ↦ let raised : err e ≡ ok d' = rw (failed, createdict) at h in cc
    ]

pub new_vss2dds_mapper-fields :
    (mapping : Fields) (m : Vss2DdsMapper)
    → new_vss2dds_mapper (obj mapping) ≡ ok m
    → (m.mapping ≡ mapping) × (createdict mapping [] ≡ ok m.dds2vss_dict)
unfolding new_vss2dds_mapper
new_vss2dds_mapper-fields mapping m built = elim (Result-cases (createdict mapping [])) [
  | inl (d, made) ↦
      let same : ok (record { mapping = mapping; dds2vss_dict = d }) ≡ ok m =
        rw (made, new_vss2dds_mapper) at built in
      ground (arith, same, made)
  | inr (e, failed) ↦ let raised : err e ≡ ok m = rw (failed, new_vss2dds_mapper) at built in cc
]

-- In a mapper that was built from a mapping file, each topic has the signals of just those entries
-- whose source names it first, in the order of the file, and the typename of the last of them.
pub new_vss2dds_mapper-groups :
    (mapping : Fields) (topic : String) (m : Vss2DdsMapper) (t : TopicInfo)
    → new_vss2dds_mapper (obj mapping) ≡ ok m
    → lookup topic m.dds2vss_dict ≡ some t
    → (t.vsssignals ≡ entries_of topic mapping) × (t.typename ≡ last_typename topic mapping null)
unfolding new_vss2dds_mapper lookup
new_vss2dds_mapper-groups mapping topic m t built found =
    let (_, made) = new_vss2dds_mapper-fields mapping m built in
    let (signals, typename) = createdict-lookup topic mapping [] made in
    (ap signals_of (sym found) ∙ signals, ap typename_of (sym found) ∙ typename)

-- A signal of a topic is named in the mapping.
listed-names :
    (topic name : String) (r : Result Source) (entry : Value) (mapping : Fields)
    (later : List VssInfo)
    → All (λ i. has_field i.vsssignal (field name entry mapping) ≡ true) later
    → All (λ i. has_field i.vsssignal (field name entry mapping) ≡ true) (listed topic name r later)
unfolding get_field
listed-names topic name (err e) entry mapping later h = h
listed-names topic name (ok s) entry mapping later h =
    if_holds (All (λ i. has_field i.vsssignal (field name entry mapping) ≡ true)) (s.topic == topic)
      (λ same. (rw (beq_refl name, has_field) refl, h)) (λ other. h)

has_field-later :
    (k name : String) (entry : Value) (mapping : Fields)
    → has_field k mapping ≡ true
    → has_field k (field name entry mapping) ≡ true
unfolding get_field
has_field-later k name entry mapping h = elim (Bool-cases (name == k)) [
  | inl same ↦ rw (same, has_field) refl
  | inr other ↦ rw (other, has_field) h
]

pub entries_of-names :
    (topic : String) (mapping : Fields)
    → All (λ i. has_field i.vsssignal mapping ≡ true) (entries_of topic mapping)
entries_of-names topic end = tt
entries_of-names topic (field name entry mapping) =
    listed-names topic name (read_source entry) entry mapping (entries_of topic mapping) (
      All-weaken _ _ (entries_of topic mapping)
        (λ i h. has_field-later i.vsssignal name entry mapping h) (entries_of-names topic mapping))
