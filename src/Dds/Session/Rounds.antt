-- ===== src/Dds/Session/Rounds.antt =====
-- What a round of the loop leaves alone.
use kuksa_val_feeders.Prelude.{
  Option, Option-cases, String, [], if_holds, inl, inr, none, refl, some, ◌∷◌, ◌≡◌, ◌++◌, text_eq,
  nat_eq,
}
use kuksa_val_feeders.Dds.Mapper.{TopicInfo, Vss2DdsMapper}
use kuksa_val_feeders.Dds.Session.{Session, round, subscribe, subscribe_topics}
use kuksa_val_feeders.Python.Dict.{Dict}
use kuksa_val_feeders.Python.Errors.{Result, Result-cases}
use kuksa_val_feeders.Python.Value.{Value}

-- The loop changes the readers only.
pub record Same (s s' : Session) : Type 0 where
  pub mapper : s'.mapper ≡ s.mapper
  pub provider : s'.provider ≡ s.provider
  pub registered : s'.registered ≡ s.registered
  pub connected : s'.connected ≡ s.connected

pub unchanged : (s : Session) → Same s s
unchanged s = record { mapper = refl; provider = refl; registered = refl; connected = refl }

subscribe_topics-Same :
    (class_of : Value → Result (Unit {0})) (topics : Dict String TopicInfo) (s : Session)
    → Same s (subscribe_topics class_of topics s).1
unfolding subscribe_topics
subscribe_topics-Same class_of [] s = record {
  mapper = refl;
  provider = refl;
  registered = refl;
  connected = refl;
}
subscribe_topics-Same class_of ((topic, t) ∷ topics) s = elim (Result-cases (class_of t.typename)) [
  | inl (found, evaluated) ↦
      let h =
        subscribe_topics-Same class_of topics (record s { readers = s.readers ++ (topic ∷ []) }) in
      rw (evaluated, subscribe_topics)
        (record {
          mapper = h.mapper;
          provider = h.provider;
          registered = h.registered;
          connected = h.connected;
        })
  | inr (e, failed) ↦ rw (failed, subscribe_topics) (unchanged s)
]

subscribe-Same :
    (class_of : Value → Result (Unit {0})) (mapper : Option Vss2DdsMapper) (s : Session)
    → Same s (subscribe class_of mapper s).1
unfolding subscribe
subscribe-Same class_of none s = unchanged s
subscribe-Same class_of (some m) s = elim (Option-cases s.provider) [
  | inl without ↦ simp (without, subscribe) (unchanged s)
  | inr (p, there) ↦ simp (there, subscribe) (subscribe_topics-Same class_of m.dds2vss_dict s)
]

pub round-Same : (class_of : Value → Result (Unit {0})) (s : Session) → Same s (round class_of s).1
unfolding round
round-Same class_of s =
    if_holds (λ (r : Result (Unit {0}) × Session). Same s r.1) s.shutdown (λ down. unchanged s)
      (λ on.
        if_holds (λ (r : Result (Unit {0}) × Session). Same s r.1) s.connected
          (λ up.
            if_holds (λ (r : Result (Unit {0}) × Session). Same s r.1) s.subscribed
              (λ done. unchanged s) (λ fresh. subscribe-Same class_of s.mapper s))
          (λ lost. unchanged s))
