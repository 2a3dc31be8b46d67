-- ===== src/Elm/Bridge.antt =====
-- The constructor of elm2canbridge in dbc2val/dbcfeederlib/elm2canbridge.py, and what Feeder.start of
-- dbc2val/dbcfeeder.py gives to it.
use kuksa_val_feeders.Elm.Dialogue.{Outcome, Port, exits, init_elm}
use kuksa_val_feeders.Mapper.{CanFilter, Mapper, can_frame_id_whitelist}
use kuksa_val_feeders.Prelude.{Bool, List, Option, if◌then◌else◌, map, none, some, ℕ}

-- The frame IDs of the mapper's filters.
unfoldable pub whitelisted_frame_ids : Mapper → List ℕ × Mapper
unfolding can_frame_id_whitelist
whitelisted_frame_ids m =
    let (filters, m') = can_frame_id_whitelist m in
    (map (λ (filter : CanFilter). filter.can_id) filters, m')

-- elm.open(): whether the port is open then, none where it raises.
abbrev pub with_port : Option Bool → Outcome Port → Outcome Port
with_port none initialised = exits
with_port (some is_open) initialised = if is_open then initialised else exits

-- `created` tells whether createvcan.sh succeeds.
unfoldable pub new_bridge :
    Bool → Option Bool → Option (List ℕ) → List ℕ → Bool → Port → Outcome Port
unfolding init_elm
new_bridge created opened whitelist speed canack elm =
    if created then with_port opened (init_elm whitelist speed canack elm) else exits
