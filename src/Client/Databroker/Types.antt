-- ===== src/Client/Databroker/Types.antt =====
-- The connection state, and the datatypes that update_datapoint needs.
use mathlib.Core.Path.{subst}
use kuksa_val_feeders.Prelude.{
  Bool, Bool-cases, List, String, [], false, inl, inr, refl, some, true, ◌&&◌, ◌==◌, ◌∙◌, ◌∷◌, ◌≡◌,
  text_eq, nat_eq, ap, arith, eq_iff, sym,
}
use kuksa_val_feeders.Client.Databroker.{
  Channel, Connectivity, DatabrokerClient, Metadata, connecting, idle,
  on_broker_connectivity_change, ready, shutdown, transient_failure, is_connected,
  is_signal_defined, client_error, note_metadata, one_entry, unexpected_entries,
}
use kuksa_val_feeders.Python.Dict.{Dict, insert, lookup, lookup-insert, beq_refl, has_key}

-- The connectivity changes that the channel reports, one after the other.
unfoldable pub changes : List Connectivity → DatabrokerClient → DatabrokerClient
unfolding on_broker_connectivity_change
changes [] b = b
changes (c ∷ connectivities) b = changes connectivities (on_broker_connectivity_change c b)

abbrev pub is_up : Connectivity → Bool
is_up ready = true
is_up idle = true
is_up _ = false

-- The state that the last change reports, or the one before the changes.
abbrev pub last_up : Bool → List Connectivity → Bool
last_up up [] = up
last_up up (c ∷ connectivities) = last_up (is_up c) connectivities

-- The client is connected if and only if the channel was ready or idle at its last change.
pub is_connected-changes :
    (connectivities : List Connectivity) (b : DatabrokerClient)
    → is_connected (changes connectivities b) ≡ last_up (is_connected b) connectivities
unfolding changes is_connected on_broker_connectivity_change
is_connected-changes [] b = refl
is_connected-changes (idle ∷ cs) b = is_connected-changes cs (record b { connected = true })
is_connected-changes (connecting ∷ cs) b = is_connected-changes cs (record b { connected = false })
is_connected-changes (ready ∷ cs) b = is_connected-changes cs (record b { connected = true })
is_connected-changes (transient_failure ∷ cs) b =
    is_connected-changes cs (record b { connected = false })
is_connected-changes (shutdown ∷ cs) b = is_connected-changes cs (record b { connected = false })

-- The check of the datapoints, as the feeder makes it: every name is checked.
unfoldable pub check_all : List (String × Metadata) → DatabrokerClient → Bool × DatabrokerClient
unfolding is_signal_defined
check_all [] b = (true, b)
check_all ((vss_name, metadata) ∷ checks) b =
    let (defined, b') = is_signal_defined vss_name metadata b in
    let (others, b'') = check_all checks b' in (defined && others, b'')

abbrev pub HasType : String → DatabrokerClient → Type 0
HasType name b = (data_type : String) × (lookup name b.name_to_type ≡ some data_type)

abbrev pub IsOpen : DatabrokerClient → Type 0
IsOpen b = (channel : Channel) × (b.grpc_client ≡ some channel)

inserted-HasType :
    (name other : String) (t : String) (types : Dict String String)
    → (s : String) × (lookup name types ≡ some s)
    → (s : String) × (lookup name (insert other t types) ≡ some s)
inserted-HasType name other t types (s, found) = elim (Bool-cases (other == name)) [
  | inl same ↦ (t, lookup-insert other name t types ∙ rw same refl)
  | inr differ ↦ (s, lookup-insert other name t types ∙ rw differ found)
]

-- One check on an open client.
is_signal_defined-open :
    (vss_name : String) (metadata : Metadata) (b : DatabrokerClient)
    → IsOpen b
    → is_signal_defined vss_name metadata b ≡ note_metadata vss_name metadata b
unfolding is_signal_defined
is_signal_defined-open vss_name metadata b (channel, opened) = simp (opened, is_signal_defined) refl

pub note_metadata-keeps :
    (name vss_name : String) (metadata : Metadata) (b : DatabrokerClient)
    → IsOpen b
    → let b' = (note_metadata vss_name metadata b).1 in
      IsOpen b' × (HasType name b → HasType name b')
unfolding note_metadata
note_metadata-keeps name vss_name (one_entry t) b opened =
    (opened, inserted-HasType name vss_name t b.name_to_type)
note_metadata-keeps name vss_name unexpected_entries b opened = (opened, λ h. h)
note_metadata-keeps name vss_name client_error b opened = (opened, λ h. h)

note_metadata-HasType :
    (vss_name : String) (metadata : Metadata) (b : DatabrokerClient)
    → (note_metadata vss_name metadata b).0 ≡ true
    → HasType vss_name (note_metadata vss_name metadata b).1
unfolding note_metadata
note_metadata-HasType vss_name (one_entry t) b h =
    (t, lookup-insert vss_name vss_name t b.name_to_type ∙ rw (beq_refl vss_name) refl)
note_metadata-HasType vss_name unexpected_entries b h = ground (arith, h)
note_metadata-HasType vss_name client_error b h = ground (arith, h)

pub both : (x y : Bool) → (x && y) ≡ true → (x ≡ true) × (y ≡ true)
both x y h = ground (arith, h)

pub check_all-cons :
    (vss_name : String) (metadata : Metadata) (checks : List (String × Metadata))
    (b : DatabrokerClient)
    → IsOpen b
    → check_all ((vss_name, metadata) ∷ checks) b ≡ (
      (note_metadata vss_name metadata b).0
          && (check_all checks (note_metadata vss_name metadata b).1).0,
      (check_all checks (note_metadata vss_name metadata b).1).1,
    )
unfolding check_all
check_all-cons vss_name metadata checks b opened =
    ap
      (λ (s : Bool × DatabrokerClient). (s.0 && (check_all checks s.1).0, (check_all checks s.1).1))
      (is_signal_defined-open vss_name metadata b opened)

-- The types that were there stay there.
pub check_all-keeps :
    (name : String) (checks : List (String × Metadata)) (b : DatabrokerClient)
    → IsOpen b
    → IsOpen (check_all checks b).1 × (HasType name b → HasType name (check_all checks b).1)
check_all-keeps name [] b opened = unfold check_all in (opened, λ h. h)
check_all-keeps name ((vss_name, metadata) ∷ checks) b opened =
    let (opened', kept) = note_metadata-keeps name vss_name metadata b opened in
    let (opened'', kept') =
      check_all-keeps name checks (note_metadata vss_name metadata b).1 opened' in
    rw (check_all-cons vss_name metadata checks b opened) (opened'', λ h. kept' (kept h))

pub listed_later :
    (vss_name : String) (metadata : Metadata) (name : String) (checks : List (String × Metadata))
    → (vss_name == name) ≡ false
    → has_key name ((vss_name, metadata) ∷ checks) ≡ true
    → has_key name checks ≡ true
unfolding has_key
listed_later vss_name metadata name checks other listed = ground (arith, other, listed)

-- Every name has a type if the check succeeds.
pub check_all-HasType :
    (name : String) (checks : List (String × Metadata)) (b : DatabrokerClient)
    → IsOpen b
    → (check_all checks b).0 ≡ true
    → has_key name checks ≡ true
    → HasType name (check_all checks b).1
check_all-HasType name [] b opened passed listed = unfold has_key in ground (arith, listed)
check_all-HasType name ((vss_name, metadata) ∷ checks) b opened passed listed =
    let cons = check_all-cons vss_name metadata checks b opened in
    let b' = (note_metadata vss_name metadata b).1 in
    let (first, others) =
      both (note_metadata vss_name metadata b).0 (check_all checks b').0
        (ap (λ (s : Bool × DatabrokerClient). s.0) (sym cons) ∙ passed) in
    let opened' = (note_metadata-keeps name vss_name metadata b opened).0 in
    rw cons (elim (Bool-cases (vss_name == name)) [
      | inl same ↦ (check_all-keeps name checks b' opened').1 (named same first)
      | inr other ↦ check_all-HasType name checks b' opened' others (later_listed other)
    ])
  where
    named :
        (vss_name == name) ≡ true
        → (note_metadata vss_name metadata b).0 ≡ true
        → HasType name (note_metadata vss_name metadata b).1
    named same first =
        subst (λ n. HasType n (note_metadata vss_name metadata b).1) ((eq_iff vss_name name).0 same)
          (note_metadata-HasType vss_name metadata b first)

    later_listed : (vss_name == name) ≡ false → has_key name checks ≡ true
    later_listed other = listed_later vss_name metadata name checks other listed
