-- ===== src/Settings/Consistent.antt =====
-- What holds of the settings with which the feeder is started.
use kuksa_val_feeders.Settings.{
  Arguments, Config, Environment, Settings, is_some, config_get, first_given, is_given,
}
use kuksa_val_feeders.Prelude.{
  Bool-cases, inl, inr, List, Option, String, arith, false, refl, some, true, ◌==◌, ◌≡◌, text_eq,
  nat_eq, ap,
}
use kuksa_val_feeders.Python.Errors.{Result, err, ok, ◌>>=◌}
use kuksa_val_feeders.Python.Dict.{has_key, lookup}
use kuksa_val_feeders.Python.Text.{split_on}

-- A result that is there comes through the first part.
pub bind-ok :
    {A B : Type 0} (r : Result A) (f : A → Result B) {b : B}
    → (r >>= f) ≡ ok b
    → (a : A) × (r ≡ ok a) × (f a ≡ ok b)
bind-ok (ok a) f h = (a, refl, h)
bind-ok (err e) f h = ground (arith, h)

-- A text that is not empty comes from the argument, else from the variable, else from the option.
pub data FirstGiven (argument variable option : Option String) (s : String) : Type 0 where
  by_argument : argument ≡ some s → FirstGiven argument variable option s
  by_variable :
      is_given argument ≡ false → variable ≡ some s → FirstGiven argument variable option s
  by_option :
      is_given argument ≡ false
      → is_given variable ≡ false
      → option ≡ some s
      → FirstGiven argument variable option s

pub first_given-FirstGiven :
    (argument variable option : Option String) (s : String)
    → first_given argument variable option ≡ some s
    → FirstGiven argument variable option s
unfolding first_given
first_given-FirstGiven argument variable option s h = elim (Bool-cases (is_given argument)) [
  | inl given ↦ by_argument (ground (arith, given, h))
  | inr absent ↦ elim (Bool-cases (is_given variable)) [
    | inl given ↦ by_variable absent (ground (arith, absent, given, h))
    | inr empty ↦ by_option absent empty (ground (arith, absent, empty, h))
  ]
]

-- The CAN port, from the first place that has one.
abbrev pub PortGiven : Arguments → Environment → Config → String → Type 0
PortGiven args env config canport =
    FirstGiven args.canport (lookup "CAN_PORT" env) (config_get "can" "port" config) canport
    × ((canport == "") ≡ false)

-- The names of the DBC files, split from the text of the first place that has one.
abbrev pub NamesGiven : Arguments → Environment → Config → List String → Type 0
NamesGiven args env config names =
    (dbcfile : String) × FirstGiven args.dbcfile (lookup "DBC_FILE" env)
      (config_get "can" "dbcfile" config) dbcfile
    × ((dbcfile == "") ≡ false)
    × (names ≡ split_on b',' dbcfile)

-- The port elmcan comes with its section and without a dump file.
abbrev pub ElmcanFits : String → Option String → Config → Type 0
ElmcanFits canport candumpfile config =
    (canport == "elmcan") ≡ true → (is_some candumpfile ≡ false) × (has_key "elmcan" config ≡ true)

pub ok-injective : {A : Type 0} {a b : A} → ok a ≡ ok b → a ≡ b
ok-injective {A} {a} {b} h = ap unwrapped h
  where
    unwrapped : Result A → A
    unwrapped (ok x) = x
    unwrapped (err e) = a
