-- ===== src/Registry/Creating.antt =====
-- What `CreateInstrument` of registry/internal/service.go leaves in the store.
use secwager.Registry.Hashing.{hash_legs}
use secwager.Registry.Validate.{
  validate_structural, max_expiry, validate_cross_leg, validate_entities,
}
use secwager.Registry.Storing.{insert_legs-Stores, Reads, collect_legs-Reads}
use mathlib.Core.Path.{sym, subst}
use secwager.Prelude.{
  String, List, Option, Bool, ◌≡◌, All, ◌++◌, ◌||◌, str_eq_iff, ◌∷◌, map, Bool-cases, refl, [],
  false, inl, str_eq, some, none, arith, filter, inr, true, Option-cases, ap, str_eq_refl, ◌∙◌,
}
use secwager.Prelude.Int.{ℤ, pos}
use secwager.Registry.Legs.{Leg}
use secwager.Registry.Refdata.{RefStore}
use secwager.Registry.Instruments.{
  InstrumentTables, CreateFaults, LegRow, StoredLeg, collected, collect_failed, collect_panics,
  create, instrument_known, leg_of_row, insert_legs, Collected, collect_legs,
}
use secwager.Registry.Owning.{AreOwned, create_instrument-AreOwned}
use secwager.Registry.Service.{
  internal, panics, refused, created, CreateReply, refused, created, legs_of, get, got, reply_of,
  expiry_of, store_valid, create_instrument, store_rows,
}

-- How `Create` ends: with a new instrument and its legs, or with the tables as they were.
abbrev IsCreated :
    CreateFaults
    → String
    → ℤ
    → List LegRow
    → InstrumentTables
    → Option Bool × InstrumentTables
    → Type 0
IsCreated faults id expiry rows t (none, u) = u ≡ t
IsCreated faults id expiry rows t (some true, u) = (u ≡ t) × (instrument_known id t ≡ true)
IsCreated faults id expiry rows t (some false, u) =
    (legs_of id u ≡ legs_of id t ++ map leg_of_row rows)
    × (u.instruments ≡ record { id = id; expiry = expiry; created_at = faults.now } ∷ t.instruments)
    × (instrument_known id t ≡ false)

create-IsCreated :
    (faults : CreateFaults) (id : String) (expiry : ℤ) (rows : List LegRow) (t : InstrumentTables)
    → IsCreated faults id expiry rows t (create faults id expiry rows t)
unfolding create legs_of
create-IsCreated faults id expiry rows t =
    elim (Bool-cases (faults.begin_fails || faults.check_fails)) [
      | inl lost ↦ rw lost refl
      | inr begun ↦ elim (Bool-cases (instrument_known id t)) [
        | inl known ↦ rw (begun, known) (refl, known)
        | inr new ↦ elim (Bool-cases faults.insert_fails) [
          | inl fails ↦ rw (begun, new, fails) refl
          | inr fine ↦
              let t' : InstrumentTables = record t {
                instruments =
                    record { id = id; expiry = expiry; created_at = faults.now } ∷ t.instruments;
              } in
              let stored = insert_legs-Stores faults id rows t' in
              elim (Option-cases (insert_legs faults id rows t')) [
                | inl lost ↦ rw (begun, new, fine, lost) refl
                | inr (u, made) ↦
                    let (legs, instruments) = rw made at stored in
                    elim (Bool-cases faults.commit_fails) [
                      | inl fails ↦ rw (begun, new, fine, made, fails) refl
                      | inr done ↦ rw (begun, new, fine, made, done) (legs, instruments, new)
                    ]
              ]
        ]
      ]
    ]

-- An instrument that is not there has no legs.
no_legs_of :
    (id : String) (t : InstrumentTables) (legs : List StoredLeg)
    → instrument_known id t ≡ false
    → All (λ l. instrument_known l.instrument_id t ≡ true) legs
    → filter (λ l. str_eq l.instrument_id id) legs ≡ []
no_legs_of id t [] new owned = refl
no_legs_of id t (l ∷ legs) new owned = elim (Bool-cases (str_eq l.instrument_id id)) [
  | inl its ↦ ground (
    arith,
    new,
    subst (λ i. instrument_known i t ≡ true) ((str_eq_iff l.instrument_id id).0 its) owned.0,
  )
  | inr other ↦ rw other (no_legs_of id t legs new owned.1)
]

-- How `CreateInstrument` ends: a new instrument is read back by `GetInstrument` with the legs and the
-- expiry of the answer, any other answer leaves the tables as they were, and after an answer with an id
-- that instrument is there.
abbrev pub IsStored :
    Option String → List Leg → InstrumentTables → CreateReply × InstrumentTables → Type 0
IsStored hash legs t (refused e, u) = u ≡ t
IsStored hash legs t (internal, u) = u ≡ t
IsStored hash legs t (panics, u) = u ≡ t
IsStored hash legs t (created id expiry true, u) =
    (hash ≡ some id) × (instrument_known id u ≡ true) × (u ≡ t)
IsStored hash legs t (created id expiry false, u) =
    (hash ≡ some id)
    × (instrument_known id u ≡ true)
    × (instrument_known id t ≡ false)
    × (get false id u ≡ got (record { id = id; legs = legs; expiry_unix = expiry }))

store_created :
    (legs : List Leg) (id : String) (expiry : ℤ) (rows : List LegRow) (t : InstrumentTables)
    (faults : CreateFaults) (ending : Option Bool × InstrumentTables)
    → validate_structural legs ≡ none
    → AreOwned t
    → map leg_of_row rows ≡ legs
    → IsCreated faults id expiry rows t ending
    → IsStored (some id) legs t (reply_of id expiry ending.0, ending.1)
unfolding reply_of get expiry_of legs_of validate_structural
store_created legs id expiry rows t faults (none, u) valid owned reads same = same
store_created legs id expiry rows t faults (some true, u) valid owned reads (same, known) =
    (refl, subst (λ v. instrument_known id v ≡ true) (sym same) known, same)
store_created [] id expiry rows t faults (some false, u) valid owned reads h = ground (arith, valid)
store_created (leg ∷ legs) id expiry rows t faults (some false, u) valid owned reads
      (stored, instruments, new) =
    let none_before : legs_of id t ≡ [] =
      ap (map (λ l. leg_of_row l.row)) (no_legs_of id t t.legs new owned) in
    let now : legs_of id u ≡ leg ∷ legs =
      stored ∙ ap (λ front. front ++ map leg_of_row rows) none_before ∙ reads in
    let expires : expiry_of id u.instruments ≡ some expiry =
      rw (instruments, str_eq_refl id) refl in
    (refl, rw (instruments, str_eq_refl id) refl, new, rw (expires, now) refl)

store_rows-IsStored :
    (faults : CreateFaults) (legs : List Leg) (id : String) (expiry : ℤ) (c : Collected)
    (t : InstrumentTables)
    → validate_structural legs ≡ none
    → AreOwned t
    → Reads legs c
    → IsStored (some id) legs t (store_rows faults id expiry c t)
unfolding store_rows
store_rows-IsStored faults legs id expiry (collected rows) t valid owned reads =
    store_created legs id expiry rows t faults (create faults id expiry rows t) valid owned reads
      (create-IsCreated faults id expiry rows t)
store_rows-IsStored faults legs id expiry collect_failed t valid owned reads = refl
store_rows-IsStored faults legs id expiry collect_panics t valid owned reads = refl

module _ (leg_hash : Leg → Option String) (digest : String → String) (faults : CreateFaults)
    (rs : RefStore) where
  store_valid-IsStored :
      (legs : List Leg) (t : InstrumentTables)
      → validate_structural legs ≡ none
      → AreOwned t
      → IsStored
          (hash_legs leg_hash digest legs)
          legs
          t
          (store_valid leg_hash digest faults rs legs t)
  unfolding store_valid
  store_valid-IsStored legs t valid owned = elim (Option-cases (hash_legs leg_hash digest legs)) [
    | inl lost ↦ rw (lost, store_valid) refl
    | inr (id, hashed) ↦
        rw (hashed, store_valid)
          (store_rows-IsStored faults legs id (max_expiry rs legs (pos 0))
            (collect_legs leg_hash rs legs) t valid owned (collect_legs-Reads leg_hash rs legs))
  ]

  -- In tables that keep the foreign key: a new instrument is read back by `GetInstrument` with its legs
  -- and the expiry of the answer, and was not there before; any other answer, whatever fails, leaves
  -- the tables as they were; after an answer with an id, which is the hash of the legs, the instrument
  -- is there; and the tables still keep the foreign key.
  pub create_instrument-IsStored :
      (legs : List Leg) (t : InstrumentTables)
      → AreOwned t
      → IsStored
          (hash_legs leg_hash digest legs)
          legs
          t
          (create_instrument leg_hash digest faults rs legs t)
        × AreOwned (create_instrument leg_hash digest faults rs legs t).1
  unfolding create_instrument
  create_instrument-IsStored legs t owned = (
    elim (Option-cases (validate_structural legs)) [
      | inr (e, malformed) ↦ rw (malformed, create_instrument) refl
      | inl formed ↦ elim (Option-cases (validate_cross_leg leg_hash legs)) [
        | inr (e, contradicting) ↦ rw (formed, create_instrument, contradicting) refl
        | inl consistent ↦ elim (Option-cases (validate_entities rs legs)) [
          | inr (e, unknown) ↦ rw (formed, create_instrument, consistent, unknown) refl
          | inl known ↦
              rw (formed, create_instrument, consistent, known)
                (store_valid-IsStored legs t formed owned)
        ]
      ]
    ],
    create_instrument-AreOwned leg_hash digest faults rs legs t owned,
  )
