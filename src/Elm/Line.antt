-- ===== src/Elm/Line.antt =====
-- _serial_procesor of dbc2val/dbcfeederlib/elm2canbridge.py: a line of the adapter as a CAN message.
-- Lines are ASCII. A line that is no UTF-8 raises outside of the try block and is not modelled.
use kuksa_val_feeders.Prelude.{
  Bool, List, Option, [], false, if◌then◌else◌, length, ltb, none, some, true, ℕ, ◌++◌, ◌==◌, ◌∷◌,
  text_eq, nat_eq,
}
use kuksa_val_feeders.Python.Hex.{fromhex, int16, join, split}
use kuksa_val_feeders.Prelude.Int.{pos_part, ℤ}

-- What can.Message is made of.
pub record CanMessage : Type 0 where
  pub arbitration_id : ℤ
  pub payload : List ℕ
  pub is_extended_id : Bool

-- The ID, whether it is extended, and the items after it. `none` stands for an exception and for
-- an invalid line, of which the loop makes nothing.
abbrev pub header : Option ℤ → Bool → List (List ℕ) → Option (ℤ × Bool × List (List ℕ))
header none is_extended_id items = none
header (some canid) is_extended_id items = some (canid, is_extended_id, items)

unfoldable pub extended_header : List (List ℕ) → Option (ℤ × Bool × List (List ℕ))
extended_header (a ∷ b ∷ c ∷ d ∷ items) = header (int16 (a ++ (b ++ (c ++ d)))) true items
extended_header _ = none

unfoldable pub parse_header : List (List ℕ) → Option (ℤ × Bool × List (List ℕ))
unfolding extended_header
parse_header [] = none
parse_header (first ∷ items) =
    if length first == 3 then header (int16 first) false items else extended_header (first ∷ items)

-- canid > 0x2000000
abbrev pub too_large : ℤ → Bool
too_large canid = ltb 0x2000000 (pos_part canid)

abbrev pub checked_message : ℤ → Bool → Option (List ℕ) → Option CanMessage
checked_message canid is_extended_id none = none
checked_message canid is_extended_id (some payload) =
    if ltb 8 (length payload)
    then none
    else if too_large canid
    then none
    else some
        (record { arbitration_id = canid; payload = payload; is_extended_id = is_extended_id })

unfoldable pub message_of : Option (ℤ × Bool × List (List ℕ)) → Option CanMessage
message_of none = none
message_of (some (canid, is_extended_id, items)) =
    checked_message canid is_extended_id (fromhex (join items))

unfoldable pub parse_line : List ℕ → Option CanMessage
unfolding parse_header message_of
parse_line line = message_of (parse_header (split line))

-- The loop, on the lines that come: the messages that are handed to the CAN device, which logs
-- its errors.
unfoldable pub serial_procesor : List (List ℕ) → List CanMessage
unfolding parse_line
serial_procesor [] = []
serial_procesor (line ∷ lines) =
    let rest = serial_procesor lines in
    elim (parse_line line) [ none ↦ rest | some can_msg ↦ can_msg ∷ rest ]
