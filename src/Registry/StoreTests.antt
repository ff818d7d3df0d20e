-- ===== src/Registry/StoreTests.antt =====
-- Instruments created in an empty store of registry/internal/postgres.go.
use secwager.Registry.Owning.{AreOwned}
use secwager.Registry.TextOrder.{text_leb}
use secwager.Registry.Hashing.{hash_legs, hash_each, sort_texts, insert_text, concat_texts}
use secwager.Registry.Once.{create_instrument_once}
use secwager.Registry.Validate.{
  validate_structural, first_refusal, validate_cross_leg, see_legs, see_leg, see_predicate,
  add_prop, check_prop_contradiction, validate_entities, entity_refusal, max_expiry, later,
}
use secwager.Registry.Creating.{IsStored, create_instrument-IsStored}
use mathlib.Core.List.{Permᴰ}
use secwager.Prelude.{String, List, Option, ◌≡◌, none, [], refl, ◌∷◌, some, ◌<>◌, false}
use secwager.Prelude.Int.{pos}
use secwager.Registry.Legs.{Leg, Predicate}
use secwager.Registry.Refdata.{RefStore, Game, Player, get_game, get_player, lookup}
use secwager.Registry.Instruments.{
  create, InstrumentTables, CreateFaults, collect_legs, collect_more, leg_row, predicate_row,
  create, insert_legs, insert_leg, insert_entities, insert_entity,
}
use secwager.Registry.Service.{created, create_instrument, store_valid, store_rows, reply_of}

abbrev derby : Game
derby = record {
  id = "derby";
  league = 3;
  home_team_id = "EPL::ARS";
  away_team_id = "EPL::TOT";
  scheduled_unix = pos 1000;
  expiry_unix = pos 8200;
}

abbrev striker : Player
striker = record {
  id = "EPL::ARS::SAKA";
  name = "Bukayo Saka";
  team_id = "EPL::ARS";
  positions = 13 ∷ [];
}

abbrev small_ref : RefStore
small_ref = record {
  teams = [];
  players = ("EPL::ARS::SAKA", striker) ∷ [];
  games = ("derby", derby) ∷ [];
  game_roster = λ id. "EPL::ARS::SAKA" ∷ [];
  prop_rules = λ league position. 20 ∷ [];
}

abbrev home_win : Leg
home_win = record { game_id = "derby"; predicate = Predicate.game_outcome 1 }

abbrev two_goals : Leg
two_goals = record {
  game_id = "derby";
  predicate =
      Predicate.player_prop (record {
        player_id = "EPL::ARS::SAKA";
        prop_type = 20;
        comparator = 2;
        threshold = pos 2;
      });
}

-- A hash that tells the two legs apart.
abbrev kind_hash : Leg → Option String
kind_hash leg = elim leg.predicate [
  | Predicate.game_outcome outcome ↦ some "o"
  | Predicate.player_prop pp ↦ some "p"
  | Predicate.no_predicate ↦ none
]

abbrev marked : String → String
marked s = s <> "!"

abbrev no_create_faults : CreateFaults
no_create_faults = record {
  now = pos 7000000;
  begin_fails = false;
  check_fails = false;
  insert_fails = false;
  leg_fails = λ row. false;
  entity_fails = λ id. false;
  commit_fails = false;
}

abbrev empty_tables : InstrumentTables
empty_tables = record { instruments = []; legs = []; entities = []; next_leg_id = 1 }

abbrev pair_of_legs : List Leg
pair_of_legs = two_goals ∷ home_win ∷ []

abbrev after_pair : InstrumentTables
after_pair =
    (create_instrument kind_hash marked no_create_faults small_ref pair_of_legs empty_tables).1

pair_created :
    create_instrument kind_hash marked no_create_faults small_ref pair_of_legs empty_tables
    ≡ (created "op!" (pos 8200) false, after_pair)
unfolding create_instrument validate_structural first_refusal validate_cross_leg see_legs see_leg
    see_predicate add_prop check_prop_contradiction validate_entities entity_refusal store_valid
    hash_legs hash_each sort_texts insert_text text_leb concat_texts max_expiry later store_rows
    collect_legs collect_more leg_row predicate_row create insert_legs insert_leg insert_entities
    insert_entity reply_of get_game get_player lookup
pair_created = refl

create_instrument-IsStored_example :
    IsStored
      (hash_legs kind_hash marked pair_of_legs)
      pair_of_legs
      empty_tables
      (create_instrument kind_hash marked no_create_faults small_ref pair_of_legs empty_tables)
    × AreOwned
        (create_instrument kind_hash marked no_create_faults small_ref pair_of_legs empty_tables).1
create_instrument-IsStored_example =
    create_instrument-IsStored kind_hash marked no_create_faults small_ref pair_of_legs empty_tables
      tt

create_instrument_once_example :
    (create_instrument kind_hash marked no_create_faults small_ref
      (home_win ∷ two_goals ∷ [])
      after_pair).1
    ≡ after_pair
create_instrument_once_example =
    create_instrument_once kind_hash marked no_create_faults no_create_faults small_ref small_ref
      pair_of_legs (home_win ∷ two_goals ∷ []) empty_tables after_pair "op!" (pos 8200) false tt
      pair_created (Permᴰ.swap refl refl)
