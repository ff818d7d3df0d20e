-- ===== src/Registry/Service.antt =====
-- `CreateInstrument` and `GetInstrument` of registry/internal/service.go, over the store of
-- registry/internal/postgres.go and a snapshot of the reference data.
use secwager.Registry.Hashing.{hash_legs}
use secwager.Registry.Validate.{
  validate_structural, validate_cross_leg, max_expiry, validate_entities,
}
use secwager.Prelude.{
  String, List, Option, Bool, some, ◌∷◌, if◌then◌else◌, str_eq, map, filter, [], none,
}
use secwager.Prelude.Int.{ℤ, pos}
use secwager.Registry.Legs.{Leg, Refusal}
use secwager.Registry.Refdata.{RefStore}
use secwager.Registry.Instruments.{
  collect_failed, collect_panics, collected, InstrumentTables, CreateFaults, InstrumentRecord,
  InstrumentRow, leg_of_row, collect_legs, create, Collected,
}

-- The join of an instrument with its legs.
unfoldable pub legs_of : String → InstrumentTables → List Leg
unfolding leg_of_row
legs_of id t = map (λ l. leg_of_row l.row) (filter (λ l. str_eq l.instrument_id id) t.legs)

unfoldable pub expiry_of : String → List InstrumentRow → Option ℤ
expiry_of id [] = none
expiry_of id (i ∷ rows) = if str_eq i.id id then some i.expiry else expiry_of id rows

pub data GetReply : Type 0 where
  got : InstrumentRecord → GetReply
  not_found get_failed : GetReply

-- `Get`
unfoldable pub get : Bool → String → InstrumentTables → GetReply
unfolding legs_of expiry_of
get query_fails id t = if query_fails then get_failed else elim (expiry_of id t.instruments) [
  | none ↦ not_found
  | some expiry ↦ elim (legs_of id t) [
    | [] ↦ not_found
    | leg ∷ legs ↦ got (record { id = id; legs = leg ∷ legs; expiry_unix = expiry })
  ]
]

pub data CreateReply : Type 0 where
  refused : Refusal → CreateReply
  created : (id : String) → ℤ → (already_existed : Bool) → CreateReply
  internal panics : CreateReply

unfoldable pub reply_of : String → ℤ → Option Bool → CreateReply
reply_of id expiry none = internal
reply_of id expiry (some already_existed) = created id expiry already_existed

-- `CreateInstrument` once the legs' rows have been collected.
unfoldable pub store_rows :
    CreateFaults → String → ℤ → Collected → InstrumentTables → CreateReply × InstrumentTables
unfolding create reply_of
store_rows faults id expiry (collected rows) t =
    (reply_of id expiry (create faults id expiry rows t).0, (create faults id expiry rows t).1)
store_rows faults id expiry collect_failed t = (internal, t)
store_rows faults id expiry collect_panics t = (panics, t)

module _ (leg_hash : Leg → Option String) (digest : String → String) (faults : CreateFaults)
    (rs : RefStore) where
  -- The legs have been validated.
  unfoldable pub store_valid : List Leg → InstrumentTables → CreateReply × InstrumentTables
  unfolding hash_legs collect_legs max_expiry store_rows
  store_valid legs t = elim (hash_legs leg_hash digest legs) [
    | none ↦ (internal, t)
    | some id ↦ store_rows faults id (max_expiry rs legs (pos 0)) (collect_legs leg_hash rs legs) t
  ]

  unfoldable pub create_instrument : List Leg → InstrumentTables → CreateReply × InstrumentTables
  unfolding validate_structural validate_cross_leg validate_entities store_valid
  create_instrument legs t = elim (validate_structural legs) [
    | some e ↦ (refused e, t)
    | none ↦ elim (validate_cross_leg leg_hash legs) [
      | some e ↦ (refused e, t)
      | none ↦ elim (validate_entities rs legs) [
        | some e ↦ (refused e, t)
        | none ↦ store_valid legs t
      ]
    ]
  ]
