-- ===== src/Examples/Lines.antt =====
-- Instances for the bridge.
-- "7E8 03 41" with a carriage return left over in the buffer from before
use kuksa_val_feeders.Elm.Framing.{
  Framed, Holds, sent_lines, serial_reader-Framed, serial_reader-lines,
}
use kuksa_val_feeders.Prelude.{List, [], arith, none, refl, some, suc, true, zero, ℕ, ◌∷◌, ◌≡◌}
use kuksa_val_feeders.Elm.{SerialReader, read_byte, new_serial_reader, serial_reader, zeros}
use kuksa_val_feeders.Elm.Printed.{extended_line, parse_line-extended, parse_line-too_large}
use kuksa_val_feeders.Elm.Line.{parse_line}
use kuksa_val_feeders.Prelude.Int.{pos}

abbrev bytes : List ℕ
bytes = b'7' ∷ b'E' ∷ b'8' ∷ b' ' ∷ b'0' ∷ b'3' ∷ 13 ∷ b'4' ∷ b'1' ∷ []

abbrev started : SerialReader
started = record { buffer = zeros 64; index = 0 }

-- 63 dots, a byte that is lost, and "A" in the next line.
abbrev dots : ℕ → List ℕ → List ℕ
dots zero after = after
dots (suc n) after = b'.' ∷ dots n after

abbrev too_long : List ℕ
too_long = dots 63 (b'B' ∷ b'A' ∷ 13 ∷ [])

serial_reader-Framed_example :
    (rest : List ℕ) × Framed too_long (serial_reader too_long started).0 rest
    × Holds rest (serial_reader too_long started).1
serial_reader-Framed_example =
    serial_reader-Framed too_long [] started
      (record { size = refl; room = omega arith; index_is = refl; content = refl })
      (tt, omega arith)

serial_reader_test :
    ((serial_reader bytes started).0 ≡ (b'7' ∷ b'E' ∷ b'8' ∷ b' ' ∷ b'0' ∷ b'3' ∷ []) ∷ [])
    × ((serial_reader too_long started).0 ≡ dots 63 [] ∷ (b'A' ∷ []) ∷ [])
unfolding serial_reader read_byte
serial_reader_test = (refl, refl)

abbrev lines : List (List ℕ)
lines = (b'7' ∷ b'E' ∷ []) ∷ [] ∷ (b'8' ∷ []) ∷ []

serial_reader-lines_example : (serial_reader (sent_lines lines) new_serial_reader).0 ≡ lines
serial_reader-lines_example = serial_reader-lines lines (ground arith)

parse_line-extended_example :
    parse_line (extended_line 0x1DAF110 (3 ∷ 65 ∷ []))
    ≡ some (record { arbitration_id = pos 0x1DAF110; payload = 3 ∷ 65 ∷ []; is_extended_id = true })
parse_line-extended_example =
    parse_line-extended 0x1DAF110 (3 ∷ 65 ∷ []) (omega arith) (omega arith)

parse_line-too_large_example : parse_line (extended_line 0x18DAF110 (3 ∷ [])) ≡ none
parse_line-too_large_example =
    parse_line-too_large 0x18DAF110 (3 ∷ []) (omega arith) (omega arith) (omega arith)
