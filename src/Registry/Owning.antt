-- ===== src/Registry/Owning.antt =====
-- The foreign key from a leg to its instrument, in the tables of registry/internal/postgres.go.
use secwager.Registry.Hashing.{hash_legs}
use secwager.Registry.Validate.{
  validate_structural, validate_cross_leg, validate_entities, max_expiry,
}
use secwager.Registry.Service.{create_instrument, store_rows, store_valid}
use secwager.Prelude.{
  String, List, Option, ◌≡◌, All, some, Bool-cases, inr, ◌||◌, [], none, refl, arith, inl, ◌∷◌,
  All-append, Option-cases, str_eq_refl, true,
}
use secwager.Prelude.Int.{ℤ, pos}
use secwager.Registry.Legs.{Leg}
use secwager.Registry.Refdata.{RefStore}
use secwager.Registry.Instruments.{
  InstrumentTables, CreateFaults, Collected, LegRow, StoredLeg, collected, collect_failed,
  collect_panics, instrument_known, create, insert_leg, insert_legs, leg_stored, insert_entities,
  collect_legs,
}

-- Every stored leg is one of an instrument that is there.
abbrev pub AreOwned : InstrumentTables → Type 0
AreOwned t = All (λ l. instrument_known l.instrument_id t ≡ true) t.legs

abbrev StayOwned : String → Option InstrumentTables → Type 0
StayOwned id none = Unit
StayOwned id (some u) = AreOwned u × (instrument_known id u ≡ true)

module _ (faults : CreateFaults) (id : String) where
  insert_leg-StayOwned :
      (row : LegRow) (t : InstrumentTables)
      → AreOwned t
      → instrument_known id t ≡ true
      → StayOwned id (insert_leg faults id row t)
  unfolding insert_leg
  insert_leg-StayOwned row t owned known =
      elim (Bool-cases (faults.leg_fails row || leg_stored id row t.legs)) [
        | inl fails ↦ rw fails tt
        | inr fine ↦
            elim (Option-cases (insert_entities faults t.next_leg_id id row.entities t.entities)) [
              | inl lost ↦ rw (fine, lost) tt
              | inr (entities, made) ↦
                  rw (fine, made)
                    (
                      All-append (λ l. instrument_known l.instrument_id t ≡ true) t.legs _ owned
                          (known, tt),
                      known,
                    )
            ]
      ]

  insert_legs-StayOwned :
      (rows : List LegRow) (t : InstrumentTables)
      → AreOwned t
      → instrument_known id t ≡ true
      → StayOwned id (insert_legs faults id rows t)
  unfolding insert_legs
  insert_legs-StayOwned [] t owned known = (owned, known)
  insert_legs-StayOwned (row ∷ rows) t owned known =
      elim (Option-cases (insert_leg faults id row t)) [
        | inl lost ↦ rw (lost, insert_legs) tt
        | inr (u, made) ↦
            let first = insert_leg-StayOwned row t owned known in
            let (owned', known') = rw made at first in
            rw (made, insert_legs) (insert_legs-StayOwned rows u owned' known')
      ]

  more_owned :
      (expiry : ℤ) (t : InstrumentTables) (legs : List StoredLeg)
      → All (λ l. instrument_known l.instrument_id t ≡ true) legs
      → All
          (λ l.
            instrument_known l.instrument_id (record t {
              instruments =
                  record { id = id; expiry = expiry; created_at = faults.now } ∷ t.instruments;
            })
            ≡ true)
          legs
  more_owned expiry t [] owned = tt
  more_owned expiry t (l ∷ legs) owned = (ground (arith, owned.0), more_owned expiry t legs owned.1)

  create-AreOwned :
      (expiry : ℤ) (rows : List LegRow) (t : InstrumentTables)
      → AreOwned t
      → AreOwned (create faults id expiry rows t).1
  unfolding create
  create-AreOwned expiry rows t owned =
      elim (Bool-cases (faults.begin_fails || faults.check_fails)) [
        | inl lost ↦ rw lost owned
        | inr begun ↦ elim (Bool-cases (instrument_known id t)) [
          | inl known ↦ rw (begun, known) owned
          | inr new ↦ elim (Bool-cases faults.insert_fails) [
            | inl fails ↦ rw (begun, new, fails) owned
            | inr fine ↦
                let t' : InstrumentTables = record t {
                  instruments =
                      record { id = id; expiry = expiry; created_at = faults.now } ∷ t.instruments;
                } in
                let stored =
                  insert_legs-StayOwned rows t' (more_owned expiry t t.legs owned)
                    (rw (str_eq_refl id) refl) in
                elim (Option-cases (insert_legs faults id rows t')) [
                  | inl lost ↦ rw (begun, new, fine, lost) owned
                  | inr (u, made) ↦
                      let (owned', known') = rw made at stored in
                      elim (Bool-cases faults.commit_fails) [
                        | inl fails ↦ rw (begun, new, fine, made, fails) owned
                        | inr works ↦ rw (begun, new, fine, made, works) owned'
                      ]
                ]
          ]
        ]
      ]

  store_rows-AreOwned :
      (expiry : ℤ) (c : Collected) (t : InstrumentTables)
      → AreOwned t
      → AreOwned (store_rows faults id expiry c t).1
  unfolding store_rows
  store_rows-AreOwned expiry (collected rows) t owned = create-AreOwned expiry rows t owned
  store_rows-AreOwned expiry collect_failed t owned = owned
  store_rows-AreOwned expiry collect_panics t owned = owned

-- A request keeps the foreign key.
pub create_instrument-AreOwned :
    (leg_hash : Leg → Option String) (digest : String → String) (faults : CreateFaults)
    (rs : RefStore) (legs : List Leg) (t : InstrumentTables)
    → AreOwned t
    → AreOwned (create_instrument leg_hash digest faults rs legs t).1
unfolding create_instrument store_valid
create_instrument-AreOwned leg_hash digest faults rs legs t owned =
    elim (Option-cases (validate_structural legs)) [
      | inr (e, malformed) ↦ rw (malformed, create_instrument) owned
      | inl formed ↦ elim (Option-cases (validate_cross_leg leg_hash legs)) [
        | inr (e, contradicting) ↦ rw (formed, create_instrument, contradicting) owned
        | inl consistent ↦ elim (Option-cases (validate_entities rs legs)) [
          | inr (e, unknown) ↦ rw (formed, create_instrument, consistent, unknown) owned
          | inl there ↦ elim (Option-cases (hash_legs leg_hash digest legs)) [
            | inl lost ↦ rw (formed, create_instrument, consistent, there, lost, store_valid) owned
            | inr (id, hashed) ↦
                rw (formed, create_instrument, consistent, there, hashed, store_valid)
                  (store_rows-AreOwned faults id (max_expiry rs legs (pos 0))
                    (collect_legs leg_hash rs legs) t owned)
          ]
        ]
      ]
    ]
