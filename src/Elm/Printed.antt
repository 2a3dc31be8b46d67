-- ===== src/Elm/Printed.antt =====
-- Lines as the adapter prints them with headers and spaces on, and the messages made of them.
-- An 11-bit ID is three digits, a 29-bit ID four bytes.
use kuksa_val_feeders.Prelude.{
  All, Bool, List, [], arith, false, length, ltb, map, refl, some, ℕ, ◌%◌, ◌++◌, ◌/◌, ◌<◌, ◌^◌, ◌∷◌,
  ◌≡◌, ◌≤◌, ap, ◌∙◌, All-append, none, true,
}
use kuksa_val_feeders.Python.Hex.Printed.{
  IsWord, hex_byte, hex_char, hex_char-is_space, spaced, fromhex-hex, int16-hex, split-spaced,
}
use kuksa_val_feeders.Elm.Line.{
  message_of, parse_header, parse_line, checked_message, header, extended_header,
}
use kuksa_val_feeders.Prelude.Int.{pos}
use kuksa_val_feeders.Python.Hex.{int16, join, is_space}

abbrev id_digits : ℕ → List ℕ
id_digits canid = canid / 256 ∷ canid / 16 % 16 ∷ canid % 16 ∷ []

abbrev id_bytes : ℕ → List ℕ
id_bytes canid = canid / 16777216 ∷ canid / 65536 % 256 ∷ canid / 256 % 256 ∷ canid % 256 ∷ []

abbrev pub standard_line : ℕ → List ℕ → List ℕ
standard_line canid payload = spaced (map hex_char (id_digits canid) ∷ map hex_byte payload)

abbrev pub extended_line : ℕ → List ℕ → List ℕ
extended_line canid payload = spaced (map hex_byte (id_bytes canid ++ payload))

abbrev pub IsPayload : List ℕ → Type 0
IsPayload payload = All (λ b. b < 256) payload × (length payload ≤ 8)

hex_byte-IsWord : (b : ℕ) → b < 256 → IsWord (hex_byte b)
hex_byte-IsWord b below =
    let low : All (λ x. is_space x ≡ false) (hex_char (b % 16) ∷ []) =
      (hex_char-is_space (b % 16) (omega arith), tt) in
    (hex_char-is_space (b / 16) (omega (arith, below)), low)

hex_bytes-IsWord : (bytes : List ℕ) → All (λ b. b < 256) bytes → All IsWord (map hex_byte bytes)
hex_bytes-IsWord [] h = tt
hex_bytes-IsWord (b ∷ bytes) (below, h) = (hex_byte-IsWord b below, hex_bytes-IsWord bytes h)

-- A payload that was read back makes a message, if the ID is not too large.
checked_fits :
    (canid : ℕ) (is_extended_id : Bool) (payload : List ℕ)
    → canid ≤ 0x2000000
    → length payload ≤ 8
    → checked_message (pos canid) is_extended_id (some payload)
      ≡ some (record {
        arbitration_id = pos canid;
        payload = payload;
        is_extended_id = is_extended_id;
      })
checked_fits canid is_extended_id payload small short =
    let fits : ltb 8 (length payload) ≡ false = ground (arith, short) in
    let allowed : ltb 0x2000000 canid ≡ false = ground (arith, small) in rw fits (rw allowed refl)

read_payload :
    (canid : ℕ) (is_extended_id : Bool) (payload : List ℕ)
    → canid ≤ 0x2000000
    → IsPayload payload
    → message_of (some (pos canid, is_extended_id, map hex_byte payload))
      ≡ some (record {
        arbitration_id = pos canid;
        payload = payload;
        is_extended_id = is_extended_id;
      })
unfolding message_of
read_payload canid is_extended_id payload small (bytes, short) =
    ap (checked_message (pos canid) is_extended_id) (fromhex-hex payload bytes)
    ∙ checked_fits canid is_extended_id payload small short

int16-id_digits :
    (canid : ℕ) → canid < 2 ^ 11 → int16 (map hex_char (id_digits canid)) ≡ some (pos canid)
int16-id_digits canid below =
    int16-hex (canid / 256) (canid / 16 % 16 ∷ canid % 16 ∷ []) (omega (arith, below)) (omega arith)
    ∙ ap (λ n. some (pos n)) (omega arith)

id_digits-IsWord : (canid : ℕ) → canid < 2 ^ 11 → IsWord (map hex_char (id_digits canid))
id_digits-IsWord canid below =
    let low : All (λ x. is_space x ≡ false) (hex_char (canid % 16) ∷ []) =
      (hex_char-is_space (canid % 16) (omega arith), tt) in
    let middle : All (λ x. is_space x ≡ false)
        (hex_char (canid / 16 % 16) ∷ hex_char (canid % 16) ∷ []) =
      (hex_char-is_space (canid / 16 % 16) (omega arith), low) in
    (hex_char-is_space (canid / 256) (omega (arith, below)), middle)

parse_line-words :
    (words : List (List ℕ))
    → All IsWord words
    → parse_line (spaced words) ≡ message_of (parse_header words)
unfolding parse_line
parse_line-words words h = ap (λ ws. message_of (parse_header ws)) (split-spaced words h)

-- The line that the adapter prints for a message with an 11-bit ID and with at most 8 bytes is read
-- back as that message.
pub parse_line-standard :
    (canid : ℕ) (payload : List ℕ)
    → canid < 2 ^ 11
    → IsPayload payload
    → parse_line (standard_line canid payload)
      ≡ some (record { arbitration_id = pos canid; payload = payload; is_extended_id = false })
unfolding parse_header
parse_line-standard canid payload below h =
    parse_line-words (map hex_char (id_digits canid) ∷ map hex_byte payload)
      (id_digits-IsWord canid below, hex_bytes-IsWord payload h.0)
    ∙ (ap (λ i. message_of (header i false (map hex_byte payload))) (int16-id_digits canid below)
        ∙ read_payload canid false payload (omega (arith, below)) h)

-- The digits of a 29-bit ID after the first.
abbrev id_rest : ℕ → List ℕ
id_rest canid =
    canid / 16777216 % 16
    ∷ canid / 65536 % 256 / 16
    ∷ canid / 65536 % 256 % 16
    ∷ canid / 256 % 256 / 16
    ∷ canid / 256 % 256 % 16
    ∷ canid % 256 / 16
    ∷ canid % 256 % 16
    ∷ []

int16-id_bytes :
    (canid : ℕ) → canid < 2 ^ 32 → int16 (join (map hex_byte (id_bytes canid))) ≡ some (pos canid)
int16-id_bytes canid below =
    int16-hex (canid / 16777216 / 16) (id_rest canid) (omega (arith, below)) (omega arith)
    ∙ ap (λ n. some (pos n)) (omega arith)

id_bytes-below : (canid : ℕ) → canid < 2 ^ 32 → All (λ b. b < 256) (id_bytes canid)
id_bytes-below canid below = omega (arith, below)

-- The line of an ID of four bytes, whatever the check of the ID then says.
extended_header-line :
    (canid : ℕ) (payload : List ℕ)
    → canid < 2 ^ 32
    → All (λ b. b < 256) payload
    → parse_line (extended_line canid payload)
      ≡ message_of (some (pos canid, true, map hex_byte payload))
unfolding parse_header extended_header
extended_header-line canid payload below bytes =
    parse_line-words (map hex_byte (id_bytes canid ++ payload)) (
      hex_bytes-IsWord (id_bytes canid ++ payload)
        (All-append _ (id_bytes canid) payload (id_bytes-below canid below) bytes))
    ∙ ap (λ i. message_of (header i true (map hex_byte payload))) (int16-id_bytes canid below)

-- The line that the adapter prints for a message with an extended ID of at most 0x2000000 and with
-- at most 8 bytes is read back as that message.
pub parse_line-extended :
    (canid : ℕ) (payload : List ℕ)
    → canid ≤ 0x2000000
    → IsPayload payload
    → parse_line (extended_line canid payload)
      ≡ some (record { arbitration_id = pos canid; payload = payload; is_extended_id = true })
parse_line-extended canid payload small h =
    extended_header-line canid payload (omega (arith, small)) h.0
    ∙ read_payload canid true payload small h

-- Every message with an extended ID of more than 0x2000000 is dropped, although such an ID has up
-- to 29 bits.
pub parse_line-too_large :
    (canid : ℕ) (payload : List ℕ)
    → 0x2000000 < canid
    → canid < 2 ^ 29
    → IsPayload payload
    → parse_line (extended_line canid payload) ≡ none
unfolding message_of
parse_line-too_large canid payload large below (bytes, short) =
    let fits : ltb 8 (length payload) ≡ false = ground (arith, short) in
    let over : ltb 0x2000000 canid ≡ true = ground (arith, large) in
    extended_header-line canid payload (omega (arith, below)) bytes
    ∙ (ap (checked_message (pos canid) true) (fromhex-hex payload bytes) ∙ rw fits (rw over refl))
