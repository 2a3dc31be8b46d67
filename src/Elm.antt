-- ===== src/Elm.antt =====
-- dbc2val/dbcfeederlib/elm2canbridge.py: the process that frames what comes from the serial port.
-- Characters are their codes. The serial port and the CAN device are outside the model.
pub mod Dialogue
pub mod Bridge
pub mod Framing
pub mod Line
pub mod Printed
use kuksa_val_feeders.Prelude.{
  List, [], if◌then◌else◌, set, suc, take, zero, ℕ, ◌++◌, ◌==◌, ◌||◌, ◌∷◌, text_eq, nat_eq,
}

-- The local state of _serial_reader: a buffer of 64 bytes, and where the next byte goes.
pub record SerialReader : Type 0 where
  pub buffer : List ℕ
  pub index : ℕ

abbrev pub zeros : ℕ → List ℕ
zeros zero = []
zeros (suc n) = 0 ∷ zeros n

-- bytearray(64)
unfoldable pub new_serial_reader : SerialReader
new_serial_reader = record { buffer = zeros 64; index = 0 }

-- One round of the loop: the byte is written, and at a carriage return or at the last place what
-- stands before it is put into the queue.
unfoldable pub read_byte : ℕ → SerialReader → List (List ℕ) × SerialReader
read_byte byte st =
    let buffer = set st.buffer st.index byte in
    if byte == 13 || st.index == 63
    then (take st.index buffer ∷ [], record { buffer = buffer; index = 0 })
    else ([], record { buffer = buffer; index = suc st.index })

-- The loop, on the bytes that come.
unfoldable pub serial_reader : List ℕ → SerialReader → List (List ℕ) × SerialReader
unfolding read_byte
serial_reader [] st = ([], st)
serial_reader (byte ∷ bytes) st =
    let (lines, st') = read_byte byte st in
    let (later_lines, final) = serial_reader bytes st' in (lines ++ later_lines, final)
