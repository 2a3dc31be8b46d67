-- ===== src/Recording/Csv/Plain.antt =====
-- Rows of plain fields are read as they were written.
use kuksa_val_feeders.Prelude.{
  All, Bool, List, [], append-nil, append_assoc, ap, arith, false, if◌then◌else◌, refl, sym, true,
  ℕ, ◌++◌, ◌==◌, ◌||◌, ◌∙◌, ◌∷◌, ◌≡◌, text_eq, nat_eq,
}
use kuksa_val_feeders.Python.Text.{Codes}
use kuksa_val_feeders.Recording.Csv.{
  CsvReader, Mode, in_field, needs_quotes, new_reader, read_char, read_rows, start_field,
  start_record, write_field, write_row,
}

-- A character that neither dialect treats specially.
abbrev pub is_plain : ℕ → Bool
is_plain c = if c == b',' || (c == 34 || (c == 13 || (c == 10 || c == b'|'))) then false else true

-- A text of such characters that does not begin with a space.
abbrev pub IsPlain : Codes → Type 0
IsPlain [] = Unit
IsPlain (c ∷ cs) = ((c == b' ') ≡ false) × All (λ x. is_plain x ≡ true) (c ∷ cs)

plain_unquoted : (cs : Codes) → All (λ x. is_plain x ≡ true) cs → needs_quotes cs ≡ false
plain_unquoted [] h = refl
plain_unquoted (c ∷ cs) (plain, h) = ground (arith, plain, plain_unquoted cs h)

write_field-plain : (cs : Codes) → IsPlain cs → write_field cs ≡ cs
unfolding write_field
write_field-plain [] h = refl
write_field-plain (c ∷ cs) (_, h) = rw (plain_unquoted (c ∷ cs) h) refl

-- Within a field.
read_rows-in_field :
    (cs rest before : Codes) (fields : List Codes)
    → All (λ x. is_plain x ≡ true) cs
    → read_rows (cs ++ rest) (record { mode = in_field; chars = before; fields = fields })
      ≡ read_rows rest (record { mode = in_field; chars = before ++ cs; fields = fields })
unfolding read_rows read_char
read_rows-in_field [] rest before fields h =
    ap (λ b. read_rows rest (record { mode = in_field; chars = b; fields = fields }))
      (sym (append-nil before))
read_rows-in_field (c ∷ cs) rest before fields (plain, h) =
    let newline : (c == 13 || c == 10) ≡ false = ground (arith, plain) in
    let comma : (c == b',') ≡ false = ground (arith, plain) in
    rw (newline, comma)
      (read_rows-in_field cs rest (before ++ (c ∷ [])) fields h
        ∙ ap (λ b. read_rows rest (record { mode = in_field; chars = b; fields = fields }))
            (append_assoc before (c ∷ []) cs))

abbrev starts : Mode → List Codes → CsvReader
starts mode fields = record { mode = mode; chars = []; fields = fields }

abbrev within : Codes → List Codes → CsvReader
within chars fields = record { mode = in_field; chars = chars; fields = fields }

first_char :
    (c : ℕ) (fields : List Codes)
    → (c == b' ') ≡ false
    → is_plain c ≡ true
    → (read_char c (starts start_field fields) ≡ ([], within (c ∷ []) fields))
      × (read_char c (starts start_record fields) ≡ ([], within (c ∷ []) fields))
unfolding read_char
first_char c fields space plain =
    let newline : (c == 13 || c == 10) ≡ false = ground (arith, plain) in
    let comma : (c == b',') ≡ false = ground (arith, plain) in
    let bar : (c == b'|') ≡ false = ground (arith, plain) in
    (rw (newline, bar, space, comma) refl, rw (newline, bar, space, comma) refl)

-- A field that a comma ends.
comma_after :
    (cs rest : Codes) (fields : List Codes)
    → read_rows (b',' ∷ rest) (within cs fields)
      ≡ read_rows rest (starts start_field (fields ++ (cs ∷ [])))
unfolding read_rows read_char
comma_after cs rest fields = refl

read_rows-field :
    (cs rest : Codes) (fields : List Codes)
    → IsPlain cs
    → (read_rows (cs ++ (b',' ∷ rest)) (starts start_field fields)
        ≡ read_rows rest (starts start_field (fields ++ (cs ∷ []))))
      × (read_rows (cs ++ (b',' ∷ rest)) (starts start_record fields)
          ≡ read_rows rest (starts start_field (fields ++ (cs ∷ []))))
unfolding read_rows
read_rows-field [] rest fields h = (refl, refl)
read_rows-field (c ∷ cs) rest fields (space, all) =
    let (field, row) = first_char c fields space all.0 in
    let later =
      read_rows-in_field cs (b',' ∷ rest) (c ∷ []) fields all.1
      ∙ comma_after (c ∷ cs) rest fields in
    (
      ap (λ (s : List (List Codes) × CsvReader). s.0 ++ read_rows (cs ++ (b',' ∷ rest)) s.1) field
          ∙ later,
      ap (λ (s : List (List Codes) × CsvReader). s.0 ++ read_rows (cs ++ (b',' ∷ rest)) s.1) row
          ∙ later,
    )

-- The last field of a row.
end_after :
    (cs rest : Codes) (fields : List Codes)
    → read_rows (13 ∷ 10 ∷ rest) (within cs fields)
      ≡ (fields ++ (cs ∷ [])) ∷ read_rows rest new_reader
unfolding read_rows read_char
end_after cs rest fields = refl

read_rows-last :
    (cs rest : Codes) (fields : List Codes)
    → IsPlain cs
    → read_rows (cs ++ (13 ∷ 10 ∷ rest)) (starts start_field fields)
      ≡ (fields ++ (cs ∷ [])) ∷ read_rows rest new_reader
unfolding read_rows
read_rows-last [] rest fields h = refl
read_rows-last (c ∷ cs) rest fields (space, all) =
    let (field, row) = first_char c fields space all.0 in
    ap (λ (s : List (List Codes) × CsvReader). s.0 ++ read_rows (cs ++ (13 ∷ 10 ∷ rest)) s.1) field
    ∙ (read_rows-in_field cs (13 ∷ 10 ∷ rest) (c ∷ []) fields all.1
        ∙ end_after (c ∷ cs) rest fields)

abbrev pub ArePlain : List Codes → Type 0
ArePlain fields = All IsPlain fields

read_rows-later :
    (cs : Codes) (fields before : List Codes) (rest : Codes)
    → ArePlain (cs ∷ fields)
    → read_rows (write_row (cs ∷ fields) ++ rest) (starts start_field before)
      ≡ (before ++ (cs ∷ fields)) ∷ read_rows rest new_reader
unfolding write_row
read_rows-later cs [] before rest (plain, h) =
    ap (λ t. read_rows ((t ++ (13 ∷ 10 ∷ [])) ++ rest) (starts start_field before))
      (write_field-plain cs plain)
    ∙ (ap (λ t. read_rows t (starts start_field before)) (append_assoc cs (13 ∷ 10 ∷ []) rest)
        ∙ read_rows-last cs rest before plain)
read_rows-later cs (next ∷ fields) before rest (plain, h) =
    let others = write_row (next ∷ fields) in
    ap (λ t. read_rows ((t ++ (b',' ∷ others)) ++ rest) (starts start_field before))
      (write_field-plain cs plain)
    ∙ (ap (λ t. read_rows t (starts start_field before)) (append_assoc cs (b',' ∷ others) rest)
        ∙ ((read_rows-field cs (others ++ rest) before plain).0
            ∙ (read_rows-later next fields (before ++ (cs ∷ [])) rest h
                ∙ ap (λ l. l ∷ read_rows rest new_reader)
                    (append_assoc before (cs ∷ []) (next ∷ fields)))))

-- A row of at least two fields.
pub read_rows-write_row :
    (cs next : Codes) (fields : List Codes) (rest : Codes)
    → ArePlain (cs ∷ next ∷ fields)
    → read_rows (write_row (cs ∷ next ∷ fields) ++ rest) new_reader
      ≡ (cs ∷ next ∷ fields) ∷ read_rows rest new_reader
unfolding write_row
read_rows-write_row cs next fields rest (plain, h) =
    let others = write_row (next ∷ fields) in
    ap (λ t. read_rows ((t ++ (b',' ∷ others)) ++ rest) new_reader) (write_field-plain cs plain)
    ∙ (ap (λ t. read_rows t new_reader) (append_assoc cs (b',' ∷ others) rest)
        ∙ ((read_rows-field cs (others ++ rest) [] plain).1
            ∙ read_rows-later next fields (cs ∷ []) rest h))
