-- ===== src/Elm/Framing.antt =====
-- What the serial reader puts into its queue.
use mathlib.Core.Path.{subst}
use kuksa_val_feeders.Prelude.{
  All-append, List, [], if◌then◌else◌, length, take, ℕ, ◌++◌, ◌==◌, ◌||◌, ◌∷◌, ◌≡◌, ◌≤◌, text_eq,
  nat_eq, Bool, Bool-cases, ap, arith, false, inl, inr, length-append, length-set, refl, suc,
  take-set, take-suc-set, true, ◌∙◌, All, append-nil, append_assoc, sym, ◌+◌,
}
use kuksa_val_feeders.Elm.{SerialReader, read_byte, serial_reader, new_serial_reader}

-- The framing without a buffer: `line` is what came since the last line, oldest byte first.
abbrev frames_after : List ℕ → List ℕ → List (List ℕ)
frames_after line [] = []
frames_after line (byte ∷ bytes) =
    if byte == 13 || length line == 63
    then line ∷ frames_after [] bytes
    else frames_after (line ++ (byte ∷ [])) bytes

-- The buffer holds `line` before the index, and has room.
pub record Holds (line : List ℕ) (st : SerialReader) : Type 0 where
  pub size : length st.buffer ≡ 64
  pub room : st.index ≤ 63
  pub index_is : st.index ≡ length line
  pub content : take st.index st.buffer ≡ line

-- A line is complete, by the state or by its length.
abbrev line_ends : ℕ → SerialReader → Bool
line_ends byte st = byte == 13 || st.index == 63

read_byte_ends :
    (byte : ℕ) (line : List ℕ) (st : SerialReader)
    → Holds line st
    → line_ends byte st ≡ true
    → ((read_byte byte st).0 ≡ line ∷ []) × Holds [] (read_byte byte st).1
unfolding read_byte
read_byte_ends byte line st h ends = rw ends (
  ap (λ l. l ∷ []) (take-set st.buffer st.index byte ∙ h.content),
  record {
    size = length-set st.buffer st.index byte ∙ h.size;
    room = omega arith;
    index_is = refl;
    content = refl;
  },
)

read_byte_goes_on :
    (byte : ℕ) (line : List ℕ) (st : SerialReader)
    → Holds line st
    → line_ends byte st ≡ false
    → ((read_byte byte st).0 ≡ []) × Holds (line ++ (byte ∷ [])) (read_byte byte st).1
unfolding read_byte
read_byte_goes_on byte line st h goes_on = rw goes_on (
  refl,
  record {
    size = length-set st.buffer st.index byte ∙ h.size;
    room = ground (arith, h.room, goes_on);
    index_is = ap suc h.index_is ∙ (omega (arith, length-append line (byte ∷ [])));
    content =
        take-suc-set st.buffer st.index byte (omega (arith, h.room, h.size))
        ∙ ap (λ l. l ++ (byte ∷ [])) h.content;
  },
)

same_test :
    (byte : ℕ) (line : List ℕ) (st : SerialReader)
    → Holds line st
    → (byte == 13 || length line == 63) ≡ line_ends byte st
same_test byte line st h = ap (λ n. byte == 13 || n == 63) (sym h.index_is)

-- The buffer is transparent, and the write of the next byte is again within it.
serial_reader-frames :
    (bytes line : List ℕ) (st : SerialReader)
    → Holds line st
    → ((serial_reader bytes st).0 ≡ frames_after line bytes)
      × ((rest : List ℕ) × Holds rest (serial_reader bytes st).1)
unfolding serial_reader
serial_reader-frames [] line st h = (refl, (line, h))
serial_reader-frames (byte ∷ bytes) line st h = elim (Bool-cases (line_ends byte st)) [
  | inl ends ↦
      let (out, h') = read_byte_ends byte line st h ends in
      let (lines, rest) = serial_reader-frames bytes [] (read_byte byte st).1 h' in
      (rw (out, lines) (rw (same_test byte line st h ∙ ends) refl), rest)
  | inr goes_on ↦
      let (out, h') = read_byte_goes_on byte line st h goes_on in
      let (lines, rest) =
        serial_reader-frames bytes (line ++ (byte ∷ [])) (read_byte byte st).1 h' in
      (rw (out, lines) (rw (same_test byte line st h ∙ goes_on) refl), rest)
]

-- A line as the adapter sends it: without a carriage return, and short enough for the buffer.
abbrev pub IsLine : List ℕ → Type 0
IsLine line = All (λ byte. (byte == 13) ≡ false) line × (length line ≤ 63)

-- The bytes taken apart into lines and the line that is not complete yet. A line ends before a
-- carriage return, or when it has 63 bytes; in both cases the byte that follows it belongs to no
-- line.
pub data Framed : List ℕ → List (List ℕ) → List ℕ → Type 0 where
  unfinished : {line : List ℕ} → IsLine line → Framed line [] line
  line_end :
      {line bytes rest : List ℕ} {lines : List (List ℕ)}
      → IsLine line
      → Framed bytes lines rest
      → Framed (line ++ (13 ∷ bytes)) (line ∷ lines) rest
  overlong :
      {line bytes rest : List ℕ} {lines : List (List ℕ)} (lost : ℕ)
      → IsLine line
      → (lost == 13) ≡ false
      → length line ≡ 63
      → Framed bytes lines rest
      → Framed (line ++ (lost ∷ bytes)) (line ∷ lines) rest

Framed-ends :
    (byte : ℕ) (line bytes rest : List ℕ) (lines : List (List ℕ))
    → IsLine line
    → (byte == 13 || length line == 63) ≡ true
    → Framed bytes lines rest
    → Framed (line ++ (byte ∷ bytes)) (line ∷ lines) rest
Framed-ends byte line bytes rest lines h ends framed = elim (Bool-cases (byte == 13)) [
  | inl return ↦
      let is_return : 13 ≡ byte = ground (arith, return) in
      subst (λ b. Framed (line ++ (b ∷ bytes)) (line ∷ lines) rest) is_return (line_end h framed)
  | inr other ↦ overlong byte h other (ground (arith, other, ends)) framed
]

IsLine-longer :
    (byte : ℕ) (line : List ℕ)
    → IsLine line
    → (byte == 13 || length line == 63) ≡ false
    → IsLine (line ++ (byte ∷ []))
IsLine-longer byte line (no_return, short) goes_on =
    let other : (byte == 13) ≡ false = ground (arith, goes_on) in
    (
      All-append (λ b. (b == 13) ≡ false) line (byte ∷ []) no_return (other, tt),
      ground (arith, short, goes_on, length-append line (byte ∷ [])),
    )

-- What the serial reader puts into its queue are the lines of the bytes, whatever earlier lines have
-- left in its buffer: a line ends at a carriage return, or after 63 bytes, and then the byte after
-- them is lost whatever it is. The bytes of the line that is not complete stand in the buffer, with
-- room for the next.
pub serial_reader-Framed :
    (bytes line : List ℕ) (st : SerialReader)
    → Holds line st
    → IsLine line
    → (rest : List ℕ) × Framed (line ++ bytes) (serial_reader bytes st).0 rest
      × Holds rest (serial_reader bytes st).1
unfolding serial_reader
serial_reader-Framed [] line st h is_line =
    (line, subst (λ l. Framed l [] line) (sym (append-nil line)) (unfinished is_line), h)
serial_reader-Framed (byte ∷ bytes) line st h is_line = elim (Bool-cases (line_ends byte st)) [
  | inl ends ↦
      let (out, h') = read_byte_ends byte line st h ends in
      let (rest, framed, held) =
        serial_reader-Framed bytes [] (read_byte byte st).1 h' (tt, omega arith) in
      (
        rest,
        rw out
            (Framed-ends byte line bytes rest _ is_line (same_test byte line st h ∙ ends) framed),
        held,
      )
  | inr goes_on ↦
      let (out, h') = read_byte_goes_on byte line st h goes_on in
      let longer = IsLine-longer byte line is_line (same_test byte line st h ∙ goes_on) in
      let (rest, framed, held) =
        serial_reader-Framed bytes (line ++ (byte ∷ [])) (read_byte byte st).1 h' longer in
      (
        rest,
        rw out (
            subst (λ l. Framed l (serial_reader bytes (read_byte byte st).1).0 rest)
              (append_assoc line (byte ∷ []) bytes) framed),
        held,
      )
]

-- The lines, each closed by a carriage return.
abbrev pub sent_lines : List (List ℕ) → List ℕ
sent_lines [] = []
sent_lines (line ∷ lines) = line ++ (13 ∷ sent_lines lines)

frames_after-line :
    (line before : List ℕ) (bytes : List ℕ)
    → All (λ byte. (byte == 13) ≡ false) line
    → length before + length line ≤ 63
    → frames_after before (line ++ (13 ∷ bytes)) ≡ (before ++ line) ∷ frames_after [] bytes
frames_after-line [] before bytes no_return short =
    ap (λ l. l ∷ frames_after [] bytes) (sym (append-nil before))
frames_after-line (byte ∷ line) before bytes (other, no_return) short =
    let room : (length before == 63) ≡ false = ground (arith, short) in
    rw other (
      rw room (
        frames_after-line line (before ++ (byte ∷ [])) bytes no_return
          (omega (arith, short, length-append before (byte ∷ [])))
        ∙ ap (λ l. l ∷ frames_after [] bytes) (append_assoc before (byte ∷ []) line)))

frames_after-lines :
    (lines : List (List ℕ)) → All IsLine lines → frames_after [] (sent_lines lines) ≡ lines
frames_after-lines [] h = refl
frames_after-lines (line ∷ lines) ((no_return, short), h) =
    frames_after-line line [] (sent_lines lines) no_return (omega (arith, short))
    ∙ ap (λ l. line ∷ l) (frames_after-lines lines h)

-- The lines that the adapter sends, each without a carriage return, of at most 63 bytes and closed
-- by a carriage return, come out of the serial reader one by one and unchanged.
pub serial_reader-lines :
    (lines : List (List ℕ))
    → All IsLine lines
    → (serial_reader (sent_lines lines) new_serial_reader).0 ≡ lines
unfolding new_serial_reader
serial_reader-lines lines h =
    (serial_reader-frames (sent_lines lines) [] new_serial_reader
      (record { size = refl; room = omega arith; index_is = refl; content = refl })).0
    ∙ frames_after-lines lines h
