-- ===== src/Dds/Listener/Sends.antt =====
-- What the databroker is sent for a sample, and what an entry without a transform does.
use kuksa_val_feeders.Prelude.{
  All, Bool, List, Option, String, [], ap, append-nil, append_assoc, none, refl, some, sym, ◌++◌,
  ◌∙◌, ◌∷◌, ◌≡◌, text_eq, nat_eq, ℕ,
}
use kuksa_val_feeders.Prelude.Int.{ℤ}
use kuksa_val_feeders.Dds.Listener.{
  attribute_error_caught, get_attribute, on_data_available, try_update, update_signal,
  update_signals,
}
use kuksa_val_feeders.Dds.Mapper.{TopicInfo, Vss2DdsMapper, VssInfo, transform, transform_by}
use kuksa_val_feeders.Dds.Mapper.Transform.{
  Differs, IsUntransformed, transform_by-others, transform_by-untransformed,
}
use kuksa_val_feeders.Dds.Provider.{Provider, update_datapoint}
use kuksa_val_feeders.Python.Dict.{Dict, lookup}
use kuksa_val_feeders.Python.Errors.{Result, attribute_error, err, ok, type_error}
use kuksa_val_feeders.Python.Run.{Run, bind_err, bind_ok, lift, pure}
use kuksa_val_feeders.Python.Value.{Value, str}

abbrev pub with_sent : Provider → List (String × Value × String) → Provider
with_sent p sent = record p { values_set = p.values_set ++ sent }

get_attribute-lookup :
    (v : Value) (element : String) (attributes : Dict String Value) (found : Option Value)
    → v ≡ str element
    → lookup element attributes ≡ found
    → get_attribute v attributes ≡ elim found [ none ↦ err attribute_error | some w ↦ ok w ]
unfolding get_attribute
get_attribute-lookup v element attributes found is_text h =
    rw is_text
      (ap (λ o. elim o as (λ _. Result Value) [ none ↦ err attribute_error | some w ↦ ok w ]) h)

update_datapoint_sent :
    (name : String) (w : Value) (accepted : Bool) (data_type : String) (p : Provider)
    → lookup name p.name_to_type ≡ some data_type
    → update_datapoint name w accepted p ≡ (ok accepted, with_sent p ((name, w, data_type) ∷ []))
unfolding update_datapoint
update_datapoint_sent name w accepted data_type p typed = simp (typed, update_datapoint) refl

module _ (nearest : ℤ → ℕ → Value) (m : Vss2DdsMapper) (topic : String)
    (attributes : Dict String Value) (types : Dict String String) where
  -- The updates that a sample of the topic gives for signals: none where the sample lacks the
  -- element, else the transformed value with the datatype of the signal.
  pub data Sends : List VssInfo → List (String × Value × String) → Type 0 where
    nothing : Sends [] []
    missing :
        {signals : List VssInfo} {sent : List (String × Value × String)}
        → (info : VssInfo) (element : String) → info.element ≡ str element
        → lookup element attributes ≡ none
        → Sends signals sent
        → Sends (info ∷ signals) sent
    updated :
        {signals : List VssInfo} {sent : List (String × Value × String)}
        → (info : VssInfo) (element : String) (v w : Value) (data_type : String)
        → info.element ≡ str element
        → lookup element attributes ≡ some v
        → transform nearest topic info.vsssignal v m ≡ ok w
        → lookup info.vsssignal types ≡ some data_type
        → Sends signals sent
        → Sends (info ∷ signals) ((info.vsssignal, w, data_type) ∷ sent)

  module _ (accepts : String → Bool) where
    abbrev tries : VssInfo → Run Provider (Unit {0})
    tries = try_update nearest topic attributes accepts m

    try_update_missing :
        (info : VssInfo) (element : String) (p : Provider)
        → info.element ≡ str element
        → lookup element attributes ≡ none
        → tries info p ≡ (err attribute_error, p)
    unfolding try_update lift
    try_update_missing info element p is_text absent =
        bind_err _ _ p
          (ap (λ r. (r, p)) (get_attribute-lookup _ element attributes none is_text absent))

    try_update_updated :
        (info : VssInfo) (element : String) (v w : Value) (data_type : String) (p : Provider)
        → info.element ≡ str element
        → lookup element attributes ≡ some v
        → transform nearest topic info.vsssignal v m ≡ ok w
        → lookup info.vsssignal p.name_to_type ≡ some data_type
        → tries info p ≡ (ok tt, with_sent p ((info.vsssignal, w, data_type) ∷ []))
    unfolding try_update lift pure
    try_update_updated info element v w data_type p is_text found transforms typed =
        bind_ok _ _ p
          (ap (λ r. (r, p)) (get_attribute-lookup _ element attributes (some v) is_text found))
        ∙ (bind_ok _ _ p (ap (λ r. (r, p)) transforms)
            ∙ bind_ok _ _ p
                (update_datapoint_sent info.vsssignal w (accepts info.vsssignal) data_type p typed))

    -- The signals before a rest of the loop.
    update_signals-Sends :
        {signals : List VssInfo} {sent : List (String × Value × String)}
        → Sends signals sent
        → (rest : List VssInfo) (p : Provider) → p.name_to_type ≡ types
        → update_signals nearest topic attributes accepts m (signals ++ rest) p
          ≡ update_signals nearest topic attributes accepts m rest (with_sent p sent)
    unfolding update_signals update_signal
    update_signals-Sends nothing rest p same =
        ap
          (λ l.
            update_signals nearest topic attributes accepts m rest (record p { values_set = l }))
          (sym (append-nil p.values_set))
    update_signals-Sends (missing info element is_text absent later) rest p same =
        bind_ok _ _ p (
          ap (λ (r : Result (Unit {0}) × Provider). (attribute_error_caught r.0, r.1))
            (try_update_missing info element p is_text absent))
        ∙ update_signals-Sends later rest p same
    update_signals-Sends {sent = _ ∷ sent}
          (updated info element v w data_type is_text found transforms typed later) rest p same =
        let this : String × Value × String = (info.vsssignal, w, data_type) in
        bind_ok _ _ p (
          ap (λ (r : Result (Unit {0}) × Provider). (attribute_error_caught r.0, r.1))
            (try_update_updated info element v w data_type p is_text found transforms
              (ap (lookup info.vsssignal) same ∙ typed)))
        ∙ (update_signals-Sends later rest (with_sent p (this ∷ [])) same
            ∙ ap
                (λ l.
                  update_signals nearest topic attributes accepts m rest
                    (record p { values_set = l }))
                (append_assoc p.values_set (this ∷ []) sent))

  -- A sample on a topic whose signals are all registered and whose transforms all succeed: the
  -- callback returns, and the databroker is asked in order to set each signal whose element the
  -- sample has to its transformed value with its datatype, whether it accepts the others or not.
  pub on_data_available-Sends :
      (accepts : String → Bool) (t : TopicInfo) (p : Provider)
      (sent : List (String × Value × String))
      → lookup topic m.dds2vss_dict ≡ some t
      → p.name_to_type ≡ types
      → Sends t.vsssignals sent
      → on_data_available nearest topic attributes accepts m p ≡ (ok tt, with_sent p sent)
  unfolding on_data_available update_signals pure
  on_data_available-Sends accepts t p sent listed same sends =
      rw (listed, on_data_available)
        (ap (λ l. update_signals nearest topic attributes accepts m l p)
            (sym (append-nil t.vsssignals))
          ∙ update_signals-Sends accepts sends [] p same)

  -- A sample that has the element of a signal whose mapping lacks a transform: the callback raises
  -- TypeError, after the updates for the signals before this one, and without those after it.
  pub on_data_available_untransformed :
      (accepts : String → Bool) (t : TopicInfo) (p : Provider) (before : List VssInfo)
      (sent : List (String × Value × String)) (info : VssInfo) (after : List VssInfo)
      (element : String) (v : Value)
      → lookup topic m.dds2vss_dict ≡ some t
      → p.name_to_type ≡ types
      → t.vsssignals ≡ before ++ (info ∷ after)
      → All (Differs info.vsssignal) before
      → Sends before sent
      → info.element ≡ str element
      → lookup element attributes ≡ some v
      → IsUntransformed info
      → on_data_available nearest topic attributes accepts m p ≡ (err type_error, with_sent p sent)
  unfolding on_data_available update_signals update_signal try_update transform lift
  on_data_available_untransformed accepts t p before sent info after element v listed same signals
        differs sends is_text found untransformed =
      let raises : transform nearest topic info.vsssignal v m ≡ err type_error =
        rw (listed, transform)
          (ap (λ l. transform_by nearest l info.vsssignal v) signals
            ∙ (transform_by-others nearest before (info ∷ after) info.vsssignal v differs
                ∙ transform_by-untransformed nearest info after v untransformed)) in
      let q = with_sent p sent in
      let tried : try_update nearest topic attributes accepts m info q ≡ (err type_error, q) =
        bind_ok _ _ q (
          ap (λ r. (r, q))
            (get_attribute-lookup info.element element attributes (some v) is_text found))
        ∙ bind_err _ _ q (ap (λ r. (r, q)) raises) in
      rw (listed, on_data_available)
        (ap (λ l. update_signals nearest topic attributes accepts m l p) signals
          ∙ (update_signals-Sends accepts sends (info ∷ after) p same
              ∙ bind_err _ _ q (
                  ap (λ (r : Result (Unit {0}) × Provider). (attribute_error_caught r.0, r.1))
                    tried)))
