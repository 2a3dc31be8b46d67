-- ===== src/Dbc/Lookup.antt =====
-- The caches of DBCParser are transparent: a lookup answers what the database says.
use kuksa_val_feeders.Prelude.{
  ℕ, String, ◌≡◌, Option, some, arith, text_eq, nat_eq, inl, inr, List, eq_iff, nat_beq_iff,
  Option-cases, [], ◌∷◌,
}
use kuksa_val_feeders.Python.Dict.{lookup, lookup-insert}
use kuksa_val_feeders.Dbc.{
  Database, Parser, find_signal, get_canid_for_signal, names_of, get_signals_for_canid, new_parser,
}

-- What the caches hold is what a search would find.
pub record IsCoherent (p : Parser) : Type 0 where
  pub canids :
      (s : String) (c : Option ℕ)
      → lookup s p.signal_to_canid ≡ some c
      → c ≡ find_signal s p.db.messages
  pub names :
      (c : ℕ) (l : List String)
      → lookup c p.canid_to_signals ≡ some l
      → l ≡ names_of (p.db.message_by_frame_id c)

pub new_parser-IsCoherent : (db : Database) (extended : _) → IsCoherent (new_parser db extended)
unfolding new_parser lookup
new_parser-IsCoherent db extended = record {
  canids = λ s c h. ground arith;
  names = λ c l h. ground arith;
}

module _ (p : Parser) (h : IsCoherent p) where
  -- The answer with coherent caches is that of the search through the messages.
  pub get_canid_for_signal_fst :
      (s : String) → (get_canid_for_signal s p).0 ≡ find_signal s p.db.messages
  unfolding get_canid_for_signal
  get_canid_for_signal_fst s = elim (Option-cases (lookup s p.signal_to_canid)) [
    | inl fresh ↦ rw (fresh, get_canid_for_signal)
    | inr (c, known) ↦ rw (known, get_canid_for_signal) (h.canids s c known)
  ]

  pub get_canid_for_signal-IsCoherent : (s : String) → IsCoherent (get_canid_for_signal s p).1
  unfolding get_canid_for_signal
  get_canid_for_signal-IsCoherent s = elim (Option-cases (lookup s p.signal_to_canid)) [
    | inl fresh ↦
        rw (fresh, get_canid_for_signal)
          (record {
            canids = λ t c found. ground (
              arith,
              lookup-insert s t (find_signal s p.db.messages) p.signal_to_canid,
              h.canids t c,
              eq_iff s t,
            );
            names = h.names;
          })
    | inr (c, known) ↦ rw (known, get_canid_for_signal) h
  ]

  -- The answer with coherent caches is that of the database.
  pub get_signals_for_canid_fst :
      (c : ℕ) → (get_signals_for_canid c p).0 ≡ names_of (p.db.message_by_frame_id c)
  unfolding get_signals_for_canid
  get_signals_for_canid_fst c = elim (Option-cases (lookup c p.canid_to_signals)) [
    | inl fresh ↦ rw (fresh, get_signals_for_canid)
    | inr (l, known) ↦ rw (known, get_signals_for_canid) (h.names c l known)
  ]

  pub get_signals_for_canid-IsCoherent : (c : ℕ) → IsCoherent (get_signals_for_canid c p).1
  unfolding get_signals_for_canid
  get_signals_for_canid-IsCoherent c = elim (Option-cases (lookup c p.canid_to_signals)) [
    | inl fresh ↦
        rw (fresh, get_signals_for_canid)
          (record {
            canids = h.canids;
            names = λ d l found. ground (
              arith,
              lookup-insert c d (names_of (p.db.message_by_frame_id c)) p.canid_to_signals,
              h.names d l,
              nat_beq_iff c d,
            );
          })
    | inr (l, known) ↦ rw (known, get_signals_for_canid) h
  ]

-- A call of one of the two lookups, and what it answers.
pub data Lookup : Type 0 where
  canid_for_signal : String → Lookup
  signals_for_canid : ℕ → Lookup

pub data Answer : Type 0 where
  canid : Option ℕ → Answer
  signals : List String → Answer

abbrev look_up : Lookup → Parser → Answer × Parser
look_up (canid_for_signal s) p = let (found, p') = get_canid_for_signal s p in (canid found, p')
look_up (signals_for_canid c) p = let (names, p') = get_signals_for_canid c p in (signals names, p')

-- The answers to lookups that are made one after the other.
unfoldable pub look_up_all : List Lookup → Parser → List Answer
look_up_all [] p = []
look_up_all (l ∷ lookups) p =
    let (answer, p') = look_up l p in let rest = look_up_all lookups p' in answer ∷ rest

-- What the database says, without a cache: the frame ID of the first message that has the signal,
-- and the names of the signals of the message with the frame ID, each once.
abbrev pub answer_of : Database → Lookup → Answer
answer_of db (canid_for_signal s) = canid (find_signal s db.messages)
answer_of db (signals_for_canid c) = signals (names_of (db.message_by_frame_id c))
