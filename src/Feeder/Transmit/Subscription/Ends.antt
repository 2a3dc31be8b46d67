-- ===== src/Feeder/Transmit/Subscription/Ends.antt =====
-- A target value that ends the subscription.
use kuksa_val_feeders.Prelude.{
  All, List, Option, String, [], ap, false, if_holds, none, refl, true, ℕ, ◌∷◌, ◌≡◌,
}
use kuksa_val_feeders.Feeder.Transmit.{Transmitter, vss_update}
use kuksa_val_feeders.Feeder.Transmit.Signals.{Stores, outcome, target_update}
use kuksa_val_feeders.Feeder.Transmit.Subscription.{
  Event, Subscription, after_update, on_event, run_subscribe, second_passed, stop_called,
  updates_received,
}
use kuksa_val_feeders.Feeder.Transmit.Unknown.{vss_update_unknown}
use kuksa_val_feeders.Mapper.{Ref}
use kuksa_val_feeders.Mapping.{VssMapping}
use kuksa_val_feeders.Python.Errors.{Result, err, ok, type_error}
use kuksa_val_feeders.Python.Value.{Value}

-- Nobody asks the feeder to stop.
abbrev pub GoesOn : Event → Type 0
GoesOn stop_called = ⊥
GoesOn _ = Unit

-- The subscription has ended, these frames were sent, and the loop goes on.
pub record Idles (frames : List (ℕ × List ℕ)) (s : Subscription) : Type 0 where
  pub unsubscribed : s.subscribed ≡ false
  pub transmit : s.transmit ≡ true
  pub looping : s.looping ≡ true
  pub sent : s.transmitter.frames ≡ frames

module _ (evaluate : Value → Value → Option Value) where
  on_event-Idles :
      (frames : List (ℕ × List ℕ)) (e : Event) (s : Subscription)
      → GoesOn e
      → Idles frames s
      → Idles frames (on_event evaluate e s)
  unfolding on_event
  on_event-Idles frames (updates_received updates) s goes h =
      if_holds (Idles frames) s.subscribed (λ on. cc (on, h.unsubscribed)) (λ off. h)
  on_event-Idles frames second_passed s goes h =
      if_holds (Idles frames) s.transmit (λ on. h) (λ off. cc (off, h.transmit))
  on_event-Idles frames stop_called s goes h = elim goes [ ]

  run_subscribe-Idles :
      (frames : List (ℕ × List ℕ)) (events : List Event) (s : Subscription)
      → All GoesOn events
      → Idles frames s
      → Idles frames (run_subscribe evaluate events s)
  unfolding run_subscribe
  run_subscribe-Idles frames [] s goes h = h
  run_subscribe-Idles frames (e ∷ events) s goes h =
      run_subscribe-Idles frames events (on_event evaluate e s) goes.1
        (on_event-Idles frames e s goes.0 h)

  after_update-Idles :
      (r : Result (Unit {0}) × Transmitter) (frames : List (ℕ × List ℕ)) (s : Subscription)
      → s.transmit ≡ true
      → s.looping ≡ true
      → outcome r ≡ (err type_error, frames)
      → Idles frames (after_update r s)
  after_update-Idles (ok u, t) frames s on loops failed =
      cc (ap (λ (o : Result (Unit {0}) × List (ℕ × List ℕ)). o.0) failed)
  after_update-Idles (err e, t) frames s on loops failed = record {
    unsubscribed = refl;
    transmit = on;
    looping = loops;
    sent = ap (λ (o : Result (Unit {0}) × List (ℕ × List ℕ)). o.1) failed;
  }

  -- A target value for a VSS signal that is mapped to a CAN signal which the database lacks ends the
  -- subscription: whatever updates come afterwards, no frame is sent any more, although the
  -- transmitter's loop goes on as long as nobody stops the feeder.
  pub run_subscribe-unknown :
      (path : String) (q : Ref) (o : VssMapping) (target w : Value) (events : List Event)
      (s : Subscription)
      → Stores evaluate path q o target w none s.transmitter.mapper
      → s.subscribed ≡ true
      → s.transmit ≡ true
      → s.looping ≡ true
      → All GoesOn events
      → Idles s.transmitter.frames
          (run_subscribe evaluate (updates_received (target_update path target) ∷ events) s)
  unfolding run_subscribe on_event
  run_subscribe-unknown path q o target w events s stores subscribed transmit looping goes =
      run_subscribe-Idles s.transmitter.frames events
        (on_event evaluate (updates_received (target_update path target)) s) goes
        (if_holds (Idles s.transmitter.frames) s.subscribed
          (λ on.
            after_update-Idles (vss_update evaluate (target_update path target) s.transmitter)
              s.transmitter.frames s transmit looping
              (vss_update_unknown evaluate path q o target w s.transmitter.mapper
                s.transmitter.frames stores))
          (λ off. cc (off, subscribed)))
