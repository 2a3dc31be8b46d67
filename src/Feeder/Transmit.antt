-- ===== src/Feeder/Transmit.antt =====
-- Feeder._vss_update of dbc2val/dbcfeeder.py, which the subscription calls, and CANClient.send.
pub mod Signals
pub mod Target
pub mod Unknown
pub mod Subscription
use kuksa_val_feeders.Prelude.{
  Bool, Eq, List, Option, String, [], arith, false, nat_beq_iff, none, refl, some, true, ℕ, ◌++◌,
  ◌==◌, ◌↔◌, ◌∷◌, ◌≡◌, text_eq, nat_eq,
}
use kuksa_val_feeders.Python.Dict.{Dict, add, add_all}
use kuksa_val_feeders.Mapper.{Mapper, get_value_dict, handle_update}
use kuksa_val_feeders.Dbc.{Message, get_canid_for_signal, get_message_for_canid}
use kuksa_val_feeders.Python.Run.{Run, pure, raise, ◌>>=◌, ◌>>◌}
use kuksa_val_feeders.Python.Value.{Value}
use kuksa_val_feeders.Python.Errors.{err, library_error, ok, type_error}

-- CAN IDs as get_canid_for_signal answers them, None among them
abbrev id_beq : Option ℕ → Option ℕ → Bool
id_beq none none = true
id_beq (some a) (some b) = a == b
id_beq _ _ = false

pub id_beq_iff : (a b : Option ℕ) → (id_beq a b ≡ true) ↔ (a ≡ b)
id_beq_iff none none = (λ h. refl, λ h. refl)
id_beq_iff none (some b) = ground arith
id_beq_iff (some a) none = ground arith
id_beq_iff (some a) (some b) = ground (arith, nat_beq_iff a b)

instance abbrev pub id_eq : Eq (Option ℕ)
id_eq = record { same = id_beq; same_iff = id_beq_iff }

-- An update of the subscription: what `entry` holds. A current value is only logged.
pub record EntryUpdate : Type 0 where
  pub path : String
  pub value : Option Value
  pub actuator_target : Option Value

-- The mapper, and the frames that were handed to the CAN client (a CanError is only logged there).
pub record Transmitter : Type 0 where
  pub mapper : Mapper
  pub frames : List (ℕ × List ℕ)

-- A method of the mapper.
unfoldable pub on_mapper : {A : Type 0} → Run Mapper A → Run Transmitter A
on_mapper method st = let (result, m) = method st.mapper in (result, record st { mapper = m })

module _ (evaluate : Value → Value → Option Value) where
  -- for update in updates
  unfoldable pub handle_updates : List EntryUpdate → List String → Run Mapper (List String)
  unfolding handle_update
  handle_updates [] dbc_ids = pure dbc_ids
  handle_updates (u ∷ updates) dbc_ids = elim u.actuator_target as (λ _. Run Mapper (List String)) [
    | none ↦ handle_updates updates dbc_ids
    | some target ↦ do
      new_dbc_ids ← handle_update evaluate u.path target
      handle_updates updates (add_all new_dbc_ids dbc_ids)
  ]

-- for dbc_id in dbc_ids
unfoldable pub canids_for_signals :
    List String → List (Option ℕ) → Mapper → List (Option ℕ) × Mapper
unfolding get_canid_for_signal
canids_for_signals [] can_ids m = (can_ids, m)
canids_for_signals (dbc_id ∷ dbc_ids) can_ids m =
    let (can_id, p) = get_canid_for_signal dbc_id m.parser in
    canids_for_signals dbc_ids (add can_id can_ids) (record m { parser = p })

-- The message is encoded and sent; `none` where the library raises.
unfoldable pub send_message : Message → Dict String Value → Run Transmitter (Unit {0})
send_message message_definition sig_dict st = elim (message_definition.encode sig_dict) [
  | none ↦ (err library_error, st)
  | some payload ↦
      (ok tt, record st { frames = st.frames ++ ((message_definition.frame_id, payload) ∷ []) })
]

-- One round of `for can_id in can_ids`. Without a message definition nothing is sent, and with
-- None for an ID the lookup of the message raises TypeError.
unfoldable pub send_frame : Option ℕ → Run Transmitter (Unit {0})
unfolding get_value_dict send_message get_message_for_canid
send_frame none = raise type_error
send_frame (some can_id) = do
  sig_dict ← on_mapper (get_value_dict can_id)
  λ (st : Transmitter). elim (get_message_for_canid can_id st.mapper.parser) [
    | none ↦ (ok tt, st)
    | some message_definition ↦ send_message message_definition sig_dict st
  ]

unfoldable pub send_frames : List (Option ℕ) → Run Transmitter (Unit {0})
unfolding send_frame
send_frames [] = pure tt
send_frames (can_id ∷ can_ids) = send_frame can_id >> send_frames can_ids

-- The method.
unfoldable pub vss_update :
    (Value → Value → Option Value) → List EntryUpdate → Run Transmitter (Unit {0})
unfolding handle_updates canids_for_signals send_frames
vss_update evaluate updates = do
  dbc_ids ← on_mapper (handle_updates evaluate updates [])
  can_ids ← on_mapper (λ m. let (ids, m') = canids_for_signals dbc_ids [] m in (ok ids, m'))
  send_frames can_ids
