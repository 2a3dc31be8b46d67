-- ===== src/Dds/Session/Invariant.antt =====
-- What holds before and after the provider is there.
use mathlib.Core.Path.{subst}
use kuksa_val_feeders.Prelude.{
  Bool, List, Option, String, [], ap, false, if_holds, inl, inr, none, refl, some, sym, true, ◌⊎◌,
  ◌∷◌, ◌≡◌, text_eq, nat_eq, ℕ, ◌∙◌,
}
use kuksa_val_feeders.Prelude.Int.{ℤ}
use kuksa_val_feeders.Client.Databroker.{Connectivity}
use kuksa_val_feeders.Dds.Listener.Types.{on_data_available-Keeps}
use kuksa_val_feeders.Dds.Mapper.{Vss2DdsMapper}
use kuksa_val_feeders.Dds.Provider.{Answer, Provider, register_datapoints}
use kuksa_val_feeders.Dds.Provider.Types.{HasType, register_all-HasType}
use kuksa_val_feeders.Dds.Session.Rounds.{Same, round-Same}
use kuksa_val_feeders.Dds.Session.{
  Event, Session, connectivity_changed, create_provider, data_available, is_up, new_session,
  on_broker_connectivity_change, on_event, on_sample, open_channel, register_on, round, rounds_on,
  run, set_registered, start, stop, stop_requested,
}
use kuksa_val_feeders.Python.Dict.{Dict}
use kuksa_val_feeders.Python.Errors.{Result, err, ok}
use kuksa_val_feeders.Python.Value.{Value, has_field}

some_inj : (a b : Vss2DdsMapper) → some a ≡ some b → a ≡ b
some_inj a b h = cc

module _ (is_datatype : String → Bool) (nearest : ℤ → ℕ → Value) (m : Vss2DdsMapper) where
  abbrev pub Typed : Option Provider → Type 0
  Typed none = ⊥
  Typed (some p) = (name : String) → has_field name m.mapping ≡ true → HasType name p

  -- What holds once there is a provider.
  pub record Holds (s : Session) : Type 0 where
    pub mapper_is : s.mapper ≡ some m
    pub ready : (s.registered ≡ false) ⊎ ((s.connected ≡ true) × Typed s.provider)

  -- What holds before.
  pub record IsEarly (s : Session) : Type 0 where
    pub mapper_is : s.mapper ≡ some m
    pub without : s.provider ≡ none
    pub unregistered : s.registered ≡ false

  set_registered-Holds :
      (s : Session) (r : Result Bool × Provider)
      → s.mapper ≡ some m
      → s.connected ≡ true
      → s.registered ≡ false
      → (r.0 ≡ ok true → Typed (some r.1))
      → Holds (set_registered is_datatype nearest s r).1
  set_registered-Holds s (ok true, p) is_m up off typed = record {
    mapper_is = is_m;
    ready = inr (up, typed refl);
  }
  set_registered-Holds s (ok false, p) is_m up off typed = record {
    mapper_is = is_m;
    ready = inl refl;
  }
  set_registered-Holds s (err e, p) is_m up off typed = record { mapper_is = is_m; ready = inl off }

  register_on-Holds :
      (answers : String → Answer) (provider : Option Provider) (mapper : Option Vss2DdsMapper)
      (s : Session)
      → s.mapper ≡ some m
      → mapper ≡ some m
      → s.connected ≡ true
      → s.registered ≡ false
      → Holds (register_on is_datatype nearest answers provider mapper s).1
  unfolding register_on register_datapoints
  register_on-Holds answers none mapper s is_m same up off = record {
    mapper_is = is_m;
    ready = inl off;
  }
  register_on-Holds answers (some p) none s is_m same up off = record {
    mapper_is = is_m;
    ready = inl off;
  }
  register_on-Holds answers (some p) (some m') s is_m same up off =
      set_registered-Holds s (register_datapoints is_datatype answers m' p) is_m up off
        (λ returned name listed.
          register_all-HasType is_datatype name answers m'.mapping p
            (ap (λ (o : Vss2DdsMapper). has_field name o.mapping) (some_inj m' m same) ∙ listed)
            returned)

  Same-Holds : (s s' : Session) → Same s s' → Holds s → Holds s'
  Same-Holds s s' same h = record {
    mapper_is = same.mapper ∙ h.mapper_is;
    ready = elim h.ready [
      | inl off ↦ inl (same.registered ∙ off)
      | inr (up, typed) ↦ inr (same.connected ∙ up, subst Typed (sym same.provider) typed)
    ];
  }

  change-Holds :
      (c : Connectivity) (answers : String → Answer) (s : Session)
      → Holds s
      → Holds (on_broker_connectivity_change is_datatype nearest c answers s).1
  unfolding on_broker_connectivity_change
  change-Holds c answers s h =
      if_holds (λ (r : Result (Unit {0}) × Session). Holds r.1) (is_up c)
        (λ comes.
          if_holds (λ (r : Result (Unit {0}) × Session). Holds r.1) s.connected (λ up. h)
            (λ down.
              register_on-Holds answers s.provider s.mapper (record s { connected = true })
                h.mapper_is h.mapper_is refl
                (elim h.ready [ inl off ↦ off | inr (up, typed) ↦ cc (up, down) ])))
        (λ goes. record { mapper_is = h.mapper_is; ready = inl refl })

  sample-Holds :
      (topic : String) (attributes : Dict String Value) (accepts : String → Bool)
      (provider : Option Provider) (mapper : Option Vss2DdsMapper) (s : Session)
      → s.provider ≡ provider
      → Holds s
      → Holds (on_sample is_datatype nearest topic attributes accepts provider mapper s).1
  unfolding on_sample
  sample-Holds topic attributes accepts none mapper s same h = h
  sample-Holds topic attributes accepts (some p) none s same h = h
  sample-Holds topic attributes accepts (some p) (some m') s same h = record {
    mapper_is = h.mapper_is;
    ready = elim h.ready [
      | inl off ↦ inl off
      | inr (up, typed) ↦ inr (
        up,
        λ name listed.
            on_data_available-Keeps nearest name topic attributes accepts m' p
              (subst Typed same typed name listed),
      )
    ];
  }

  run-Holds :
      (events : List (Event is_datatype nearest)) (s : Session)
      → Holds s
      → Holds (run is_datatype nearest events s)
  unfolding run on_event stop
  run-Holds [] s h = h
  run-Holds (connectivity_changed c answers ∷ events) s h =
      run-Holds events (on_broker_connectivity_change is_datatype nearest c answers s).1
        (change-Holds c answers s h)
  run-Holds (data_available topic attributes accepts ∷ events) s h =
      run-Holds events
        (on_sample is_datatype nearest topic attributes accepts s.provider s.mapper s).1
        (sample-Holds topic attributes accepts s.provider s.mapper s refl h)
  run-Holds (rounds_on class_of ∷ events) s h =
      run-Holds events (round class_of s).1
        (Same-Holds s (round class_of s).1 (round-Same class_of s) h)
  run-Holds (stop_requested ∷ events) s h =
      run-Holds events (stop s) (record { mapper_is = h.mapper_is; ready = h.ready })

  register_on-IsEarly :
      (answers : String → Answer) (provider : Option Provider) (mapper : Option Vss2DdsMapper)
      (s : Session)
      → provider ≡ none
      → IsEarly s
      → IsEarly (register_on is_datatype nearest answers provider mapper s).1
  unfolding register_on
  register_on-IsEarly answers none mapper s without h = h
  register_on-IsEarly answers (some p) mapper s without h = cc

  change-IsEarly :
      (c : Connectivity) (answers : String → Answer) (s : Session)
      → IsEarly s
      → IsEarly (on_broker_connectivity_change is_datatype nearest c answers s).1
  unfolding on_broker_connectivity_change
  change-IsEarly c answers s h =
      let same : (b : Bool) → IsEarly (record s { connected = b }) = λ b. record {
        mapper_is = h.mapper_is;
        without = h.without;
        unregistered = h.unregistered;
      } in
      if_holds (λ (r : Result (Unit {0}) × Session). IsEarly r.1) (is_up c)
        (λ comes.
          if_holds (λ (r : Result (Unit {0}) × Session). IsEarly r.1) s.connected (λ up. h)
            (λ down. register_on-IsEarly answers s.provider s.mapper _ h.without (same true)))
        (λ goes. record { mapper_is = h.mapper_is; without = h.without; unregistered = refl })

  sample-IsEarly :
      (topic : String) (attributes : Dict String Value) (accepts : String → Bool)
      (provider : Option Provider) (mapper : Option Vss2DdsMapper) (s : Session)
      → provider ≡ none
      → IsEarly s
      → IsEarly (on_sample is_datatype nearest topic attributes accepts provider mapper s).1
  unfolding on_sample
  sample-IsEarly topic attributes accepts none mapper s without h = h
  sample-IsEarly topic attributes accepts (some p) mapper s without h = cc

  pub run-IsEarly :
      (events : List (Event is_datatype nearest)) (s : Session)
      → IsEarly s
      → IsEarly (run is_datatype nearest events s)
  unfolding run on_event stop
  run-IsEarly [] s h = h
  run-IsEarly (connectivity_changed c answers ∷ events) s h =
      run-IsEarly events (on_broker_connectivity_change is_datatype nearest c answers s).1
        (change-IsEarly c answers s h)
  run-IsEarly (data_available topic attributes accepts ∷ events) s h =
      run-IsEarly events
        (on_sample is_datatype nearest topic attributes accepts s.provider s.mapper s).1
        (sample-IsEarly topic attributes accepts s.provider s.mapper s h.without h)
  run-IsEarly (rounds_on class_of ∷ events) s h =
      let same = round-Same class_of s in
      run-IsEarly events (round class_of s).1 (record {
        mapper_is = same.mapper ∙ h.mapper_is;
        without = same.provider ∙ h.without;
        unregistered = same.registered ∙ h.unregistered;
      })
  run-IsEarly (stop_requested ∷ events) s h =
      run-IsEarly events (stop s)
        (record { mapper_is = h.mapper_is; without = h.without; unregistered = h.unregistered })

  pub start-Holds :
      (early late : List (Event is_datatype nearest))
      → Holds (start is_datatype nearest m early late)
  unfolding start create_provider open_channel new_session
  start-Holds early late =
      let h =
        run-IsEarly early (open_channel m new_session)
          (record { mapper_is = refl; without = refl; unregistered = refl }) in
      run-Holds late (create_provider (run is_datatype nearest early (open_channel m new_session)))
        (record { mapper_is = h.mapper_is; ready = inl h.unregistered })
