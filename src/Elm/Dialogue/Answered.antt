-- ===== src/Elm/Dialogue/Answered.antt =====
-- One command of the dialogue with an adapter that echoes it and answers.
use kuksa_val_feeders.Prelude.{
  All, Bool, List, [], ap, append-nil, append_assoc, false, length, ltb, not, refl, sym, true, ℕ,
  ◌&&◌, ◌++◌, ◌==◌, ◌∙◌, ◌∷◌, ◌≡◌, text_eq, nat_eq,
}
use kuksa_val_feeders.Elm.Dialogue.{
  Port, done, execute_command, exits, is_text, judge, ok_text, read_response, skip, skip_to_prompt,
  strip, wait_for_prompt, with_incoming, write_to_elm, ◌>>=◌,
}

-- A text, the carriage return, and what comes up to the prompt.
pub record Reply : Type 0 where
  pub text : List ℕ
  pub more : List ℕ

abbrev pub IsAscii : List ℕ → Type 0
IsAscii text = All (λ d. ((d == 13) ≡ false) × (ltb d 128 ≡ true)) text

abbrev pub HasNoPrompt : List ℕ → Type 0
HasNoPrompt cs = All (λ c. (c == b'>') ≡ false) cs

pub record IsReply (r : Reply) : Type 0 where
  pub ascii : IsAscii r.text
  pub no_prompt : HasNoPrompt r.more

abbrev pub says_ok : Reply → Bool
says_ok r = is_text (strip r.text) ok_text

-- What comes from the adapter for a command, and then.
abbrev pub exchange : List ℕ → Reply → List ℕ → List ℕ
exchange command r rest = command ++ (r.text ++ (13 ∷ (r.more ++ (b'>' ∷ rest))))

pub skip-length : (cs rest : List ℕ) → skip (length cs) (cs ++ rest) ≡ rest
skip-length [] rest = refl
skip-length (c ∷ cs) rest = skip-length cs rest

pub skip_to_prompt-append :
    (cs rest : List ℕ) → HasNoPrompt cs → skip_to_prompt (cs ++ (b'>' ∷ rest)) ≡ done rest
unfolding skip_to_prompt
skip_to_prompt-append [] rest h = refl
skip_to_prompt-append (c ∷ cs) rest (other, h) = rw other (skip_to_prompt-append cs rest h)

pub read_response-append :
    (response text rest : List ℕ)
    → IsAscii text
    → read_response response (text ++ (13 ∷ rest)) ≡ done (response ++ text, rest)
unfolding read_response
read_response-append response [] rest h = ap (λ t. done (t, rest)) (sym (append-nil response))
read_response-append response (d ∷ text) rest ((other, ascii), h) =
    rw (other, ascii)
      (read_response-append (response ++ (d ∷ [])) text rest h
        ∙ ap (λ t. done (t, rest)) (append_assoc response (d ∷ []) text))

abbrev pub sent : List ℕ → List ℕ → List (List ℕ) → Port
sent command rest written = record { incoming = rest; written = written ++ (command ∷ []) }

execute_command-judged :
    (expectok : Bool) (command : List ℕ) (r : Reply) (rest : List ℕ) (written : List (List ℕ))
    → IsReply r
    → execute_command expectok command
        (record { incoming = exchange command r rest; written = written })
      ≡ judge expectok
          (sent command (r.text ++ (13 ∷ (r.more ++ (b'>' ∷ rest)))) written)
          (r.text, r.more ++ (b'>' ∷ rest))
unfolding execute_command write_to_elm
execute_command-judged expectok command r rest written h =
    rw
      (
        skip-length command (r.text ++ (13 ∷ (r.more ++ (b'>' ∷ rest)))),
        read_response-append [] r.text (r.more ++ (b'>' ∷ rest)) h.ascii,
      )
      refl

pub execute_command-answered :
    (expectok : Bool) (command : List ℕ) (r : Reply) (rest : List ℕ) (written : List (List ℕ))
    → IsReply r
    → (expectok && not (says_ok r)) ≡ false
    → execute_command expectok command
        (record { incoming = exchange command r rest; written = written })
      ≡ done (sent command rest written)
unfolding judge wait_for_prompt
execute_command-answered expectok command r rest written h accepted =
    execute_command-judged expectok command r rest written h
    ∙ rw (accepted, judge)
        (ap
          (λ o.
            o >>= with_incoming (sent command (r.text ++ (13 ∷ (r.more ++ (b'>' ∷ rest)))) written))
          (skip_to_prompt-append r.more rest h.no_prompt))

pub execute_command-refused :
    (command : List ℕ) (r : Reply) (rest : List ℕ) (written : List (List ℕ))
    → IsReply r
    → says_ok r ≡ false
    → execute_command true command
        (record { incoming = exchange command r rest; written = written })
      ≡ exits
unfolding judge
execute_command-refused command r rest written h refused =
    execute_command-judged true command r rest written h ∙ rw (refused, judge) refl
