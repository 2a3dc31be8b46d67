-- ===== src/Reader/Frames.antt =====
-- The frame IDs of j1939reader.py: a PGN with its source address.
use Prim.Native.Nat.{bit_and}
use kuksa_val_feeders.Prelude.Digits.{bit_or-shifted, bit_and-shifted}
use kuksa_val_feeders.Dbc.{Database, get_message_for_canid, mask_for}
use kuksa_val_feeders.Prelude.{List, sym, true, ℕ, ◌*◌, ◌<◌, ◌^◌, ◌∙◌, ◌≡◌}
use kuksa_val_feeders.Reader.{Reader, extended_frame_id, on_message, process_can_message}

-- For a source address of 8 bits, the mask of extended frame IDs drops the source address and keeps
-- the lowest 18 bits of the PGN.
pub masked_frame_id :
    (pgn source_address : ℕ)
    → source_address < 2 ^ 8
    → bit_and (extended_frame_id pgn source_address) (mask_for true)
      ≡ bit_and pgn 0b111111111111111111 * 2 ^ 8
unfolding extended_frame_id mask_for
masked_frame_id pgn source_address below =
    rw (bit_or-shifted 8 pgn source_address below)
      (bit_and-shifted 8 pgn 0b111111111111111111 source_address below)

-- A database that was loaded with the mask: a lookup sees the masked frame ID only, as cantools
-- documents for `frame_id_mask`.
abbrev pub Masked : Database → ℕ → Type 0
Masked db mask =
    (a b : ℕ)
    → bit_and a mask ≡ bit_and b mask
    → db.message_by_frame_id a ≡ db.message_by_frame_id b

process_same :
    (a b : ℕ) (payload : List ℕ) (rx_time : ℕ) (st : Reader)
    → get_message_for_canid a st.mapper.parser ≡ get_message_for_canid b st.mapper.parser
    → process_can_message a payload rx_time st ≡ process_can_message b payload rx_time st
unfolding process_can_message
process_same a b payload rx_time st same = rw (same, process_can_message)

-- With a database that was loaded with the mask of extended frame IDs, a J1939 message is processed
-- in the same way whichever ECU sent it.
pub on_message_any_source :
    (pgn s s' : ℕ) (payload : List ℕ) (rx_time : ℕ) (st : Reader)
    → Masked st.mapper.parser.db (mask_for true)
    → s < 2 ^ 8
    → s' < 2 ^ 8
    → on_message pgn s payload rx_time st ≡ on_message pgn s' payload rx_time st
unfolding on_message get_message_for_canid
on_message_any_source pgn s s' payload rx_time st masked below below' =
    process_same (extended_frame_id pgn s) (extended_frame_id pgn s') payload rx_time st (
      masked (extended_frame_id pgn s) (extended_frame_id pgn s')
        (masked_frame_id pgn s below ∙ sym (masked_frame_id pgn s' below')))
