-- ===== src/Registry/Once.antt =====
-- An instrument of registry/internal/service.go is created at most once.
use secwager.Registry.Validate.{
  validate_structural, validate_cross_leg, validate_entities, max_expiry,
}
use secwager.Registry.Hashing.{hash_legs, hash_legs_reordered}
use secwager.Registry.Owning.{AreOwned}
use secwager.Registry.Creating.{IsStored, create_instrument-IsStored}
use mathlib.Core.List.{Permᴰ}
use mathlib.Core.Path.{sym, subst}
use secwager.Prelude.{
  String, List, Option, Bool, ◌≡◌, refl, some, false, ◌||◌, true, inl, inr, Bool-cases, ◌∙◌,
  Option-cases,
}
use secwager.Prelude.Int.{ℤ, pos}
use secwager.Registry.Legs.{Leg}
use secwager.Registry.Refdata.{RefStore}
use secwager.Registry.Instruments.{
  InstrumentTables, CreateFaults, Collected, LegRow, collected, collect_failed, collect_panics,
  create, instrument_known, collect_legs,
}
use secwager.Registry.Service.{created, create_instrument, store_rows, store_valid}

create_known :
    (faults : CreateFaults) (id : String) (expiry : ℤ) (rows : List LegRow) (u : InstrumentTables)
    → instrument_known id u ≡ true
    → (create faults id expiry rows u).1 ≡ u
unfolding create
create_known faults id expiry rows u known =
    elim (Bool-cases (faults.begin_fails || faults.check_fails)) [
      | inl lost ↦ rw lost refl
      | inr begun ↦ rw (begun, known) refl
    ]

store_rows_known :
    (faults : CreateFaults) (id : String) (expiry : ℤ) (c : Collected) (u : InstrumentTables)
    → instrument_known id u ≡ true
    → (store_rows faults id expiry c u).1 ≡ u
unfolding store_rows
store_rows_known faults id expiry (collected rows) u known =
    create_known faults id expiry rows u known
store_rows_known faults id expiry collect_failed u known = refl
store_rows_known faults id expiry collect_panics u known = refl

module _ (leg_hash : Leg → Option String) (digest : String → String) where
  create_instrument_known :
      (faults : CreateFaults) (rs : RefStore) (legs : List Leg) (id : String) (u : InstrumentTables)
      → hash_legs leg_hash digest legs ≡ some id
      → instrument_known id u ≡ true
      → (create_instrument leg_hash digest faults rs legs u).1 ≡ u
  unfolding create_instrument store_valid
  create_instrument_known faults rs legs id u hashed known =
      elim (Option-cases (validate_structural legs)) [
        | inr (e, malformed) ↦ rw (malformed, create_instrument) refl
        | inl formed ↦ elim (Option-cases (validate_cross_leg leg_hash legs)) [
          | inr (e, contradicting) ↦ rw (formed, create_instrument, contradicting) refl
          | inl consistent ↦ elim (Option-cases (validate_entities rs legs)) [
            | inr (e, unknown) ↦ rw (formed, create_instrument, consistent, unknown) refl
            | inl there ↦
                rw (formed, create_instrument, consistent, there, hashed, store_valid)
                  (store_rows_known faults id (max_expiry rs legs (pos 0))
                    (collect_legs leg_hash rs legs) u known)
          ]
        ]
      ]

  -- What an answer with an id says of the tables.
  ending_known :
      (legs : List Leg) (t : InstrumentTables) (id : String) (expiry : ℤ) (existed : Bool)
      (u : InstrumentTables)
      → IsStored (hash_legs leg_hash digest legs) legs t (created id expiry existed, u)
      → (hash_legs leg_hash digest legs ≡ some id) × (instrument_known id u ≡ true)
  ending_known legs t id expiry true u h = (h.0, h.1)
  ending_known legs t id expiry false u h = (h.0, h.1)

  -- After a request for legs has been answered with an id, a request for the same legs in any order
  -- changes no table, whatever the reference data are by then and whatever fails.
  pub create_instrument_once :
      (faults later_faults : CreateFaults) (rs later_rs : RefStore) (legs reordered : List Leg)
      (t u : InstrumentTables) (id : String) (expiry : ℤ) (existed : Bool)
      → AreOwned t
      → create_instrument leg_hash digest faults rs legs t ≡ (created id expiry existed, u)
      → Permᴰ legs reordered
      → (create_instrument leg_hash digest later_faults later_rs reordered u).1 ≡ u
  create_instrument_once faults later_faults rs later_rs legs reordered t u id expiry existed owned
        answer same_legs =
      let stored : IsStored (hash_legs leg_hash digest legs) legs t (created id expiry existed, u) =
        subst (IsStored (hash_legs leg_hash digest legs) legs t) answer
          (create_instrument-IsStored leg_hash digest faults rs legs t owned).0 in
      let (hashed, known) = ending_known legs t id expiry existed u stored in
      create_instrument_known later_faults later_rs reordered id u
        (sym (hash_legs_reordered leg_hash digest legs reordered same_legs) ∙ hashed) known
