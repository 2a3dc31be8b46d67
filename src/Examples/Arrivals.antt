-- ===== src/Examples/Arrivals.antt =====
-- Instances for the readers.
use Prim.Native.Nat.{bit_and}
use kuksa_val_feeders.Prelude.{
  List, Option, [], ap, arith, false, none, some, true, ℕ, ◌*◌, ◌^◌, ◌∷◌, ◌≡◌,
}
use kuksa_val_feeders.Reader.{Frame, Reader, Round, extended_frame_id, on_message}
use kuksa_val_feeders.Reader.Frames.{Masked, masked_frame_id, on_message_any_source}
use kuksa_val_feeders.Dbc.{Message, mask_for}
use kuksa_val_feeders.Examples.{database, mapper, only_door, parser}

abbrev pub reader : Reader
reader = record { running = true; mapper = mapper; queue = [] }

abbrev frame : ℕ → Frame
frame speed_now = record { frame_id = 258; payload = speed_now ∷ []; rx_time = 1000 }

abbrev rounds : List Round
rounds =
    record { stopped = false; received = some (frame 30) }
    ∷ record { stopped = true; received = none }
    ∷ []

masked_frame_id_example :
    bit_and (extended_frame_id 65265 254) (mask_for true)
    ≡ bit_and 65265 0b111111111111111111 * 2 ^ 8
masked_frame_id_example = masked_frame_id 65265 254 (omega arith)

-- A database as cantools has it after loading with the mask.
abbrev masked_lookup : ℕ → Option Message
masked_lookup frame_id = only_door (bit_and frame_id 0b00011111111111111111100000000)

abbrev masked_reader : Reader
masked_reader = record reader {
  mapper = record mapper {
    parser = record parser { db = record database { message_by_frame_id = masked_lookup } };
  };
}

masked : Masked masked_reader.mapper.parser.db (mask_for true)
unfolding mask_for
masked = λ a b same. ap only_door same

on_message_any_source_example :
    on_message 1 3 (30 ∷ []) 1000 masked_reader ≡ on_message 1 200 (30 ∷ []) 1000 masked_reader
on_message_any_source_example =
    on_message_any_source 1 3 200 (30 ∷ []) 1000 masked_reader masked (omega arith) (omega arith)
