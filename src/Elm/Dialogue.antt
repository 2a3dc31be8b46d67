-- ===== src/Elm/Dialogue.antt =====
-- dbc2val/dbcfeederlib/elm2canbridge.py: the initialisation of the adapter, _init_elm and its helpers.
-- The bytes that the adapter sends are the input; after them it stays silent, so that a loop which
-- reads on does not end.
pub mod Answered
pub mod Commands
pub mod Completes
pub mod Filters
use kuksa_val_feeders.Prelude.{
  Bool, List, Option, String, [], false, if◌then◌else◌, length, ltb, none, not, some, suc, true,
  zero, ℕ, ◌&&◌, ◌++◌, ◌+◌, ◌-◌, ◌/◌, ◌%◌, ◌==◌, ◌∷◌, text_eq, nat_eq,
}
use kuksa_val_feeders.Python.Hex.{is_space}
use kuksa_val_feeders.Python.Text.{codes}

-- What the serial port has in store for the program, and what was written to it, in order.
pub record Port : Type 0 where
  pub incoming : List ℕ
  pub written : List (List ℕ)

-- `hangs`: a loop reads on without an end; `exits`: sys.exit; `raises`: a byte that is not ASCII.
pub data Outcome (A : Type 0) : Type 0 where
  hangs exits raises : Outcome A
  done : (returned : A) → Outcome A

infixl 5 ◌>>=◌
abbrev pub ◌>>=◌ : {A B : Type 0} → Outcome A → (A → Outcome B) → Outcome B
hangs >>= then_call = hangs
exits >>= then_call = exits
raises >>= then_call = raises
done returned >>= then_call = then_call returned

abbrev drop_spaces : List ℕ → List ℕ
drop_spaces [] = []
drop_spaces (c ∷ cs) = if is_space c then drop_spaces cs else c ∷ cs

abbrev pub before_spaces : ℕ → List ℕ → List ℕ
before_spaces c [] = if is_space c then [] else c ∷ []
before_spaces c (d ∷ cs) = c ∷ d ∷ cs

abbrev drop_last_spaces : List ℕ → List ℕ
drop_last_spaces [] = []
drop_last_spaces (c ∷ cs) = before_spaces c (drop_last_spaces cs)

-- s.strip()
unfoldable pub strip : List ℕ → List ℕ
strip cs = drop_last_spaces (drop_spaces cs)

unfoldable pub is_text : List ℕ → List ℕ → Bool
is_text [] [] = true
is_text (c ∷ cs) (d ∷ ds) = c == d && is_text cs ds
is_text _ _ = false

unfoldable pub starts_with : List ℕ → List ℕ → Bool
starts_with [] cs = true
starts_with (d ∷ ds) (c ∷ cs) = c == d && starts_with ds cs
starts_with _ _ = false

abbrev pub skip : ℕ → List ℕ → List ℕ
skip zero cs = cs
skip (suc n) [] = []
skip (suc n) (c ∷ cs) = skip n cs

-- Reads up to the prompt.
unfoldable pub skip_to_prompt : List ℕ → Outcome (List ℕ)
skip_to_prompt [] = hangs
skip_to_prompt (c ∷ cs) = if c == b'>' then done cs else skip_to_prompt cs

abbrev pub with_incoming : Port → List ℕ → Outcome Port
with_incoming p rest = done (record p { incoming = rest })

unfoldable pub wait_for_prompt : Port → Outcome Port
unfolding skip_to_prompt
wait_for_prompt p = skip_to_prompt p.incoming >>= with_incoming p

-- The echo is read, and a different one only printed.
unfoldable pub write_to_elm : List ℕ → Port → Port
write_to_elm bytes p = record {
  incoming = skip (length bytes) p.incoming;
  written = p.written ++ (bytes ∷ []);
}

-- The text up to the carriage return and what comes after it.
unfoldable pub read_response : List ℕ → List ℕ → Outcome (List ℕ × List ℕ)
read_response response [] = hangs
read_response response (d ∷ ds) =
    if d == 13
    then done (response, ds)
    else if ltb d 128
    then read_response (response ++ (d ∷ [])) ds
    else raises

abbrev pub ok_text : List ℕ
ok_text = b'O' ∷ b'K' ∷ []

unfoldable pub judge : Bool → Port → List ℕ × List ℕ → Outcome Port
unfolding wait_for_prompt strip is_text
judge expectok p (resp, rest) = elim (expectok && not (is_text (strip resp) ok_text)) [
  | true ↦ exits
  | false ↦ wait_for_prompt (record p { incoming = rest })
]

unfoldable pub execute_command : Bool → List ℕ → Port → Outcome Port
unfolding write_to_elm read_response judge
execute_command expectok command p =
    let p' = write_to_elm command p in read_response [] p'.incoming >>= judge expectok p'

abbrev pub line : String → List ℕ
unfolding codes
line s = codes s ++ (13 ∷ [])

-- The last digits of a number, as many as asked for.
unfoldable pub last_digits : ℕ → ℕ → List ℕ
last_digits zero n = []
last_digits (suc width) n =
    let d = n % 16 in
    last_digits width (n / 16) ++ ((if ltb d 10 then b'0' + d else b'a' + (d - 10)) ∷ [])

-- The number of digits, with as much fuel as the number.
abbrev pub digit_count : ℕ → ℕ → ℕ
digit_count zero n = 1
digit_count (suc fuel) n = let more = digit_count fuel (n / 16) in if ltb n 16 then 1 else suc more

abbrev pub at_least : ℕ → ℕ → ℕ
at_least width count = if ltb count width then width else count

-- format(n, "04x") for a width of 4
unfoldable pub padded_hex : ℕ → ℕ → List ℕ
unfolding last_digits
padded_hex width n = last_digits (at_least width (digit_count n n)) n

unfoldable pub filter_command : ℕ → List ℕ
unfolding padded_hex codes
filter_command canid =
    if ltb canid 2048
    then codes "STFPA " ++ (padded_hex 4 canid ++ line ", 07ff")
    else codes "STFPA " ++ (padded_hex 8 canid ++ line ", 03ffffff")

unfoldable pub add_filters : List ℕ → Port → Outcome Port
unfolding execute_command filter_command
add_filters [] p = done p
add_filters (canid ∷ whitelist) p =
    execute_command true (filter_command canid) p >>= add_filters whitelist

unfoldable pub apply_whitelist : Option (List ℕ) → Port → Outcome Port
unfolding execute_command add_filters
apply_whitelist none p = done p
apply_whitelist (some whitelist) p = execute_command true (line "STFAC") p >>= add_filters whitelist

abbrev pub speed_command : List ℕ → List ℕ
unfolding codes
speed_command can_speed = codes "STPBR " ++ (can_speed ++ (13 ∷ []))

abbrev pub ack_command : Bool → List ℕ
ack_command ack = if ack then line "STCMM 1" else line "STCMM 0"

-- What comes after the adapter has said what it is.
unfoldable pub set_up : Option (List ℕ) → List ℕ → Bool → Port → Outcome Port
unfolding execute_command apply_whitelist
set_up whitelist can_speed ack p =
    execute_command true (line "ATL 0") p
    >>= execute_command true (line "AT H1")
    >>= execute_command true (line "AT S1")
    >>= execute_command true (line "AT D0")
    >>= apply_whitelist whitelist
    >>= execute_command true (line "STP 32")
    >>= execute_command true (speed_command can_speed)
    >>= execute_command false (line "STPBRR")
    >>= execute_command true (ack_command ack)

unfoldable pub identify : Port → List ℕ × List ℕ → Outcome Port
unfolding strip starts_with wait_for_prompt
identify p (resp, rest) =
    if starts_with (b'E' ∷ b'L' ∷ b'M' ∷ []) (strip resp)
    then wait_for_prompt (record p { incoming = rest })
    else exits

unfoldable pub detect : Port → Outcome Port
unfolding write_to_elm read_response identify
detect p = let p' = write_to_elm (line "ATI") p in read_response [] p'.incoming >>= identify p'

-- can_speed is str(can_speed).
unfoldable pub init_elm : Option (List ℕ) → List ℕ → Bool → Port → Outcome Port
unfolding wait_for_prompt detect set_up
init_elm whitelist can_speed ack p =
    wait_for_prompt (record p { written = p.written ++ ((13 ∷ 13 ∷ []) ∷ []) })
    >>= detect
    >>= set_up whitelist can_speed ack
