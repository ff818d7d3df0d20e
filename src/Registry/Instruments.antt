-- ===== src/Registry/Instruments.antt =====
-- Instruments of the registry: registry/internal/instrstore.go, the store on Postgres of
-- registry/internal/postgres.go with the tables of registry/db/migrations, and `CreateInstrument` and
-- `GetInstrument` of registry/internal/service.go.
use secwager.Prelude.{
  ℕ, String, List, Option, Bool, ◌+◌, ◌==◌, ◌||◌, if◌then◌else◌, any, str_eq, none, some, ◌&&◌, ◌∷◌,
  false, [], ◌++◌, true,
}
use secwager.Prelude.Int.{ℤ}
use secwager.Registry.Legs.{Leg, PlayerProp, Predicate}
use secwager.Registry.Refdata.{RefStore, Game, get_game, get_player}

pub record LegRow : Type 0 where
  pub leg_hash : String
  pub game_id : String
  pub league : ℕ
  pub entities : List String
  pub outcome : Option ℕ
  pub player_id : Option String
  pub prop_type : Option ℕ
  pub comparator : Option ℕ
  pub threshold : Option ℤ
  pub expiry_unix : ℤ

pub record InstrumentRecord : Type 0 where
  pub id : String
  pub legs : List Leg
  pub expiry_unix : ℤ

-- Rows of `instruments`, with the expiry in seconds and the creation in microseconds of Unix time, of `instrument_legs` and of
-- `instrument_leg_entities`.
pub record InstrumentRow : Type 0 where
  pub id : String
  pub expiry : ℤ
  pub created_at : ℤ

pub record StoredLeg : Type 0 where
  pub leg_id : ℕ
  pub instrument_id : String
  pub row : LegRow

pub record EntityRow : Type 0 where
  pub leg_id : ℕ
  pub instrument_id : String
  pub entity_id : String

-- New rows stand at the end of the legs, as they are read; `next_leg_id` is the sequence, without the
-- gaps that a rollback leaves.
pub record InstrumentTables : Type 0 where
  pub instruments : List InstrumentRow
  pub legs : List StoredLeg
  pub entities : List EntityRow
  pub next_leg_id : ℕ

-- Which statements of a request fail, by a lost connection or, for a leg, by a foreign key into the
-- reference data, and the time at which the database begins its transaction.
pub record CreateFaults : Type 0 where
  pub now : ℤ
  pub begin_fails : Bool
  pub check_fails : Bool
  pub insert_fails : Bool
  pub leg_fails : LegRow → Bool
  pub entity_fails : String → Bool
  pub commit_fails : Bool

-- What the loop of `collectLegs` gives; a panic is the read of a game or a player that is not there.
pub data Collected : Type 0 where
  collected : List LegRow → Collected
  collect_failed collect_panics : Collected

abbrev pub game_row : String → String → Game → LegRow
game_row hash game_id game = record {
  leg_hash = hash;
  game_id = game_id;
  league = game.league;
  entities = game_id ∷ game.home_team_id ∷ game.away_team_id ∷ [];
  outcome = none;
  player_id = none;
  prop_type = none;
  comparator = none;
  threshold = none;
  expiry_unix = game.expiry_unix;
}

abbrev pub prop_row : PlayerProp → String → LegRow → LegRow
prop_row pp team_id row = record row {
  entities = row.entities ++ (pp.player_id ∷ team_id ∷ []);
  player_id = some pp.player_id;
  prop_type = some pp.prop_type;
  comparator = some pp.comparator;
  threshold = some pp.threshold;
}

-- One leg whose hash and game are there.
unfoldable pub predicate_row : RefStore → Predicate → LegRow → Option LegRow
predicate_row rs (Predicate.game_outcome outcome) row = some (record row { outcome = some outcome })
predicate_row rs (Predicate.player_prop pp) row = elim (get_player rs pp.player_id) [
  | none ↦ none
  | some player ↦ some (prop_row pp player.team_id row)
]
predicate_row rs Predicate.no_predicate row = some row

module _ (leg_hash : Leg → Option String) where
  unfoldable pub leg_row : RefStore → Leg → Collected
  unfolding predicate_row
  leg_row rs leg = elim (leg_hash leg) [
    | none ↦ collect_failed
    | some h ↦ elim (get_game rs leg.game_id) [
      | none ↦ collect_panics
      | some game ↦ elim (predicate_row rs leg.predicate (game_row h leg.game_id game)) [
        | none ↦ collect_panics
        | some row ↦ collected (row ∷ [])
      ]
    ]
  ]

  -- The rows of one leg in front of those of the rest.
  unfoldable pub collect_more : Collected → Collected → Collected
  collect_more (collected rows) (collected more) = collected (rows ++ more)
  collect_more (collected rows) collect_failed = collect_failed
  collect_more (collected rows) collect_panics = collect_panics
  collect_more collect_failed rest = collect_failed
  collect_more collect_panics rest = collect_panics

  unfoldable pub collect_legs : RefStore → List Leg → Collected
  unfolding leg_row collect_more
  collect_legs rs [] = collected []
  collect_legs rs (leg ∷ legs) = collect_more (leg_row rs leg) (collect_legs rs legs)

-- `ON CONFLICT DO NOTHING`
unfoldable pub insert_entity : ℕ → String → String → List EntityRow → List EntityRow
insert_entity leg_id instrument_id entity rows =
    if any (λ r. r.leg_id == leg_id && str_eq r.entity_id entity) rows
    then rows
    else record { leg_id = leg_id; instrument_id = instrument_id; entity_id = entity } ∷ rows

unfoldable pub insert_entities :
    CreateFaults → ℕ → String → List String → List EntityRow → Option (List EntityRow)
unfolding insert_entity
insert_entities faults leg_id id [] rows = some rows
insert_entities faults leg_id id (entity ∷ entities) rows =
    let rest = insert_entities faults leg_id id entities (insert_entity leg_id id entity rows) in
    if faults.entity_fails entity then none else rest

-- The unique key on the instrument and the hash.
abbrev pub leg_stored : String → LegRow → List StoredLeg → Bool
leg_stored id row = any (λ l. str_eq l.instrument_id id && str_eq l.row.leg_hash row.leg_hash)

abbrev pub add_leg : String → LegRow → List EntityRow → InstrumentTables → InstrumentTables
add_leg id row entities t = record t {
  legs = t.legs ++ (record { leg_id = t.next_leg_id; instrument_id = id; row = row } ∷ []);
  entities = entities;
  next_leg_id = t.next_leg_id + 1;
}

-- The body of the loop over the legs: nothing for an error.
unfoldable pub insert_leg :
    CreateFaults → String → LegRow → InstrumentTables → Option InstrumentTables
unfolding insert_entities
insert_leg faults id row t =
    if faults.leg_fails row || leg_stored id row t.legs
    then none
    else elim (insert_entities faults t.next_leg_id id row.entities t.entities) [
      | none ↦ none
      | some entities ↦ some (add_leg id row entities t)
    ]

unfoldable pub insert_legs :
    CreateFaults → String → List LegRow → InstrumentTables → Option InstrumentTables
unfolding insert_leg
insert_legs faults id [] t = some t
insert_legs faults id (row ∷ rows) t = elim (insert_leg faults id row t) [
  | none ↦ none
  | some t' ↦ insert_legs faults id rows t'
]

abbrev pub instrument_known : String → InstrumentTables → Bool
instrument_known id t = any (λ i. str_eq i.id id) t.instruments

-- `Create`: whether the instrument was there, or nothing for an error; an error rolls back.
unfoldable pub create :
    CreateFaults → String → ℤ → List LegRow → InstrumentTables → Option Bool × InstrumentTables
unfolding insert_legs
create faults id expiry rows t =
    if faults.begin_fails || faults.check_fails
    then (none, t)
    else if instrument_known id t
    then (some true, t)
    else if faults.insert_fails
    then (none, t)
    else elim (insert_legs faults id rows (record t {
      instruments = record { id = id; expiry = expiry; created_at = faults.now } ∷ t.instruments;
    })) [ none ↦ (none, t) | some t' ↦ if faults.commit_fails then (none, t) else (some false, t') ]

-- A leg as it is read back.
unfoldable pub leg_of_row : LegRow → Leg
leg_of_row row = record {
  game_id = row.game_id;
  predicate = elim row.outcome [
    | some outcome ↦ Predicate.game_outcome outcome
    | none ↦ elim row.player_id [
      | none ↦ Predicate.no_predicate
      | some player ↦ elim row.prop_type [
        | none ↦ Predicate.no_predicate
        | some prop ↦ elim row.comparator [
          | none ↦ Predicate.no_predicate
          | some comparator ↦ elim row.threshold [
            | none ↦ Predicate.no_predicate
            | some threshold ↦ Predicate.player_prop (record {
              player_id = player;
              prop_type = prop;
              comparator = comparator;
              threshold = threshold;
            })
          ]
        ]
      ]
    ]
  ];
}
