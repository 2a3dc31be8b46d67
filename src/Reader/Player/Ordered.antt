-- ===== src/Reader/Player/Ordered.antt =====
-- What a player sends.
use kuksa_val_feeders.Prelude.{
  All, Bool-cases, List, length, ◌+◌, ◌≤◌, [], ap, arith, false, if◌then◌else◌, inl, inr, refl, suc,
  sym, true, zero, ℕ, ◌++◌, ◌∙◌, ◌∷◌, ◌≡◌,
}
use kuksa_val_feeders.Reader.{Frame}
use kuksa_val_feeders.Reader.Player.{
  Pass, Place, Player, at_messages, before_message, before_pass, ended, on_test, tx_worker,
}

module _ (passes : ℕ → Pass) where
  -- The messages of so many passes from a pass on; there are no more after one that raises.
  abbrev pub of_passes : ℕ → ℕ → List Frame
  of_passes pass zero = []
  of_passes pass (suc n) =
      let others = of_passes (suc pass) n in
      (passes pass).messages ++ (if (passes pass).raises then [] else others)

  -- The tests in so many passes: one before each pass and each message.
  abbrev pub tests_of : ℕ → ℕ → ℕ
  tests_of pass zero = 0
  tests_of pass (suc n) = suc (length (passes pass).messages + tests_of (suc pass) n)

  -- What follows the messages of a pass, in so many passes.
  abbrev after_pass : ℕ → ℕ → List Frame
  after_pass pass n = if (passes pass).raises then [] else of_passes (suc pass) n

  -- What is to come at a place, in so many passes after the current one.
  abbrev to_come : Place → ℕ → List Frame
  to_come (before_pass pass) n = of_passes pass n
  to_come (before_message pass message messages) n = message ∷ (messages ++ after_pass pass n)
  to_come ended n = []

  abbrev Begins : List Frame → Place → Type 0
  Begins sent place = (n : ℕ) × (rest : List Frame) × (to_come place n ≡ sent ++ rest)

  at_messages-Begins :
      (pass : ℕ) (messages : List Frame) (n : ℕ)
      → to_come (at_messages passes pass messages) n ≡ messages ++ after_pass pass n
  at_messages-Begins pass [] n = elim (Bool-cases (passes pass).raises) [
    | inl raises ↦ rw raises refl
    | inr ends ↦ rw ends refl
  ]
  at_messages-Begins pass (m ∷ messages) n = refl

  -- The player runs, with its bus open.
  abbrev pub IsPlaying : Player → Type 0
  IsPlaying p = (p.running ≡ true) × (p.bus_open ≡ true)

  tx_worker-Begins :
      (tests : List Player) (place : Place)
      → All IsPlaying tests
      → Begins (tx_worker passes tests place) place
  unfolding tx_worker on_test
  tx_worker-Begins [] place h = (0, to_come place 0, refl)
  tx_worker-Begins (p ∷ tests) ended h = tx_worker-Begins tests ended h.1
  tx_worker-Begins (p ∷ tests) (before_pass pass) h =
      let messages = (passes pass).messages in
      let (n, rest, later) = tx_worker-Begins tests (at_messages passes pass messages) h.1 in
      rw (h.0.0) (suc n, rest, sym (at_messages-Begins pass messages n) ∙ later)
  tx_worker-Begins (p ∷ tests) (before_message pass message messages) h =
      let (n, rest, later) = tx_worker-Begins tests (at_messages passes pass messages) h.1 in
      rw (h.0.0) (
        rw (h.0.1)
          (n, rest, ap (λ l. message ∷ l) (sym (at_messages-Begins pass messages n) ∙ later)))

  abbrev pub IsStopped : Player → Type 0
  IsStopped p = p.running ≡ false

  tx_worker-stopped :
      (stopped : List Player) (place : Place)
      → All IsStopped stopped
      → tx_worker passes stopped place ≡ []
  unfolding tx_worker on_test
  tx_worker-stopped [] place h = refl
  tx_worker-stopped (p ∷ stopped) ended h = tx_worker-stopped stopped ended h.1
  tx_worker-stopped (p ∷ stopped) (before_pass pass) h =
      rw (h.0) (tx_worker-stopped stopped ended h.1)
  tx_worker-stopped (p ∷ stopped) (before_message pass message messages) h =
      rw (h.0) (tx_worker-stopped stopped (before_pass (suc pass)) h.1)

  -- Nothing is sent once the tests find the player stopped.
  tx_worker-append :
      (tests stopped : List Player) (place : Place)
      → All IsStopped stopped
      → tx_worker passes (tests ++ stopped) place ≡ tx_worker passes tests place
  unfolding tx_worker
  tx_worker-append [] stopped place h = tx_worker-stopped stopped place h
  tx_worker-append (p ∷ tests) stopped place h =
      ap (λ l. (on_test passes p place).0 ++ l)
        (tx_worker-append tests stopped (on_test passes p place).1 h)

  -- All of `expected` is sent, and possibly more.
  abbrev Sends : List Frame → List Frame → Type 0
  Sends expected sent = (rest : List Frame) × (sent ≡ expected ++ rest)

  -- Enough tests for the passes, at the beginning of a pass.
  abbrev Completes : ℕ → Type 0
  Completes n =
      (tests : List Player) (pass : ℕ)
      → All IsPlaying tests
      → tests_of pass n ≤ length tests
      → Sends (of_passes pass n) (tx_worker passes tests (before_pass pass))

  at_messages-Sends :
      (n pass : ℕ) (messages : List Frame) (tests : List Player)
      → Completes n
      → All IsPlaying tests
      → length messages + tests_of (suc pass) n ≤ length tests
      → Sends
          (messages ++ after_pass pass n)
          (tx_worker passes tests (at_messages passes pass messages))
  unfolding tx_worker on_test
  at_messages-Sends n pass [] tests others h enough = elim (Bool-cases (passes pass).raises) [
    | inl raises ↦ rw raises (tx_worker passes tests ended, refl)
    | inr ends ↦ rw ends (others tests (suc pass) h (omega (arith, enough)))
  ]
  at_messages-Sends n pass (m ∷ messages) [] others h enough = ground (arith, enough)
  at_messages-Sends n pass (m ∷ messages) (p ∷ tests) others h enough =
      let (rest, sent) =
        at_messages-Sends n pass messages tests others h.1 (omega (arith, enough)) in
      rw (h.0.0) (rw (h.0.1) (rest, ap (λ l. m ∷ l) sent))

  tx_worker-Sends : (n : ℕ) → Completes n
  unfolding tx_worker on_test
  tx_worker-Sends zero tests pass h enough = (tx_worker passes tests (before_pass pass), refl)
  tx_worker-Sends (suc n) [] pass h enough = ground (arith, enough)
  tx_worker-Sends (suc n) (p ∷ tests) pass h enough = rw (h.0.0) (
      at_messages-Sends n pass (passes pass).messages tests (tx_worker-Sends n) h.1
        (omega (arith, enough)))

  -- What is sent until the player is stopped, and then.
  pub record Plays (n : ℕ) (playing : List Player) (sent : List Frame) : Type 0 where
    pub ordered :
        (passes_begun : ℕ) × (rest : List Frame) × (of_passes 0 passes_begun ≡ sent ++ rest)
    pub complete : (rest : List Frame) × (sent ≡ of_passes 0 n ++ rest)
    pub no_more : sent ≡ tx_worker passes playing (before_pass 0)

  -- A player that is started and later stopped sends the messages that the log reader yields, in
  -- order, pass after pass up to a pass in which the reader raises, no message left out and none
  -- sent twice; it has sent those of the first n passes when it has made as many tests while it was
  -- playing as these have passes and messages; and it sends nothing once it is stopped.
  pub tx_worker-Plays :
      (playing stopped : List Player)
      → All IsPlaying playing
      → All IsStopped stopped
      → (n : ℕ) → tests_of 0 n ≤ length playing
      → Plays n playing (tx_worker passes (playing ++ stopped) (before_pass 0))
  tx_worker-Plays playing stopped plays stops n enough =
      rw (tx_worker-append playing stopped (before_pass 0) stops) (record {
        ordered = tx_worker-Begins playing (before_pass 0) plays;
        complete = tx_worker-Sends n playing 0 plays enough;
        no_more = refl;
      })
