-- ===== src/Settings/ConfigFile.antt =====
-- _parse_config of dbc2val/dbcfeeder.py: which file is read.
-- `exists` and `is_file` are os.path.exists and os.path.isfile, and `read_config` is what
-- ConfigParser.read makes of a file.
use kuksa_val_feeders.Prelude.{
  Bool, List, Option, String, [], if◌then◌else◌, none, some, ◌==◌, ◌∷◌, text_eq, nat_eq, false, ◌≡◌,
  refl,
}
use kuksa_val_feeders.Python.Errors.{Result, err, file_not_found_error, ok, ◌>>=◌}
use kuksa_val_feeders.Settings.{Config}

abbrev pub config_candidates : List String
config_candidates = "/config/dbc_feeder.ini" ∷ "/etc/dbc_feeder.ini" ∷ "config/dbc_feeder.ini" ∷ []

module _ (exists is_file : String → Bool) where
  unfoldable pub first_candidate : List String → Option String
  first_candidate [] = none
  first_candidate (candidate ∷ candidates) =
      if is_file candidate then some candidate else first_candidate candidates

  unfoldable pub find_config : String → Result (Option String)
  unfolding first_candidate
  find_config filename =
      if filename == ""
      then ok (first_candidate config_candidates)
      else if exists filename
      then ok (some filename)
      else err file_not_found_error

  -- Without a file the configuration has no sections.
  unfoldable pub parse_config : (String → Result Config) → String → Result Config
  unfolding find_config
  parse_config read_config filename = find_config filename >>= λ configfile.
      elim configfile as (λ _. Result Config) [ none ↦ ok [] | some name ↦ read_config name ]

  without_files : ((name : String) → is_file name ≡ false) → find_config "" ≡ ok none
  unfolding find_config first_candidate
  without_files h =
      rw (h "/config/dbc_feeder.ini", h "/etc/dbc_feeder.ini", h "config/dbc_feeder.ini") refl
