-- ===== src/Registry/BackingTests.antt =====
-- An instrument created on a snapshot of the reference data: registry/internal/refcache.go and
-- registry/internal/service.go.
use secwager.VendorRefdata.Settling.{steps_run}
use secwager.VendorRefdata.Mapping.{MapOrder, GoText}
use secwager.VendorRefdata.Integrity.{IsIntact}
use secwager.Registry.Rules.{default_prop_rules}
use secwager.Registry.Instruments.{create, insert_legs, insert_leg, insert_entities, insert_entity}
use secwager.Registry.Hashing.{hash_legs, hash_each, sort_texts, insert_text, concat_texts}
use secwager.Registry.Backing.{create_instrument-AreBacked, IsReached}
use secwager.Prelude.Int.{pos}
use secwager.Registry.Validate.{
  validate_structural, first_refusal, validate_cross_leg, see_legs, see_leg, see_predicate,
  add_prop, check_prop_contradiction, validate_entities, entity_refusal, max_expiry, later,
}
use secwager.VendorRefdata.Tables.{TeamRecord, Tables, PlayerRecord, GameRecord}
use secwager.Registry.Refdata.{
  RefStore, put_entry, list_players_by_game, players_of, get_player, lookup, list_games, list_teams,
  list_where, get_game,
}
use secwager.Registry.Loading.{
  LoadFaults, refresh, load_ref_from_db, cached, load_rows, build_roster, roster_player, team_of,
}
use secwager.Registry.Instruments.{
  CreateFaults, InstrumentTables, collect_legs, collect_more, leg_row, predicate_row, create,
}
use secwager.Registry.Legs.{Leg, Predicate}
use secwager.Registry.Snapshots.{started, refreshed, IsBacked}
use secwager.Registry.Service.{created, create_instrument, store_valid, store_rows, reply_of}
use secwager.Prelude.{String, refl, [], true, false, none, All, Option, map, some, ◌≡◌, ◌∷◌}

abbrev arsenal_row : TeamRecord
arsenal_row = record {
  id = "EPL::ARS";
  name = "Arsenal";
  short_name = "ARS";
  league_id = 3;
  external_id = "42";
  external_vendor = "apisports";
}

abbrev spurs_row : TeamRecord
spurs_row = record arsenal_row {
  id = "EPL::TOT";
  name = "Spurs";
  short_name = "TOT";
  external_id = "47";
}

abbrev saka_row : PlayerRecord
saka_row = record {
  id = "EPL::ARS::SAKA";
  name = "Bukayo Saka";
  team_id = "EPL::ARS";
  positions = 13 ∷ [];
  external_id = "1460";
  external_vendor = "apisports";
}

abbrev derby_row : GameRecord
derby_row = record {
  id = "derby";
  league_id = 3;
  season_year = 2025;
  home_team_id = "EPL::ARS";
  away_team_id = "EPL::TOT";
  scheduled_unix = pos 1000;
  expiry_unix = pos 8200;
  status = "SCHEDULED";
  home_score = none;
  away_score = none;
  external_id = "9";
  external_vendor = "apisports";
}

abbrev derby_tables : Tables
derby_tables = record {
  leagues = 3 ∷ [];
  seasons = (3, 2025) ∷ [];
  teams = arsenal_row ∷ spurs_row ∷ [];
  players = saka_row ∷ [];
  games = derby_row ∷ [];
  stats = [];
}

abbrev no_load_faults : LoadFaults
no_load_faults = record { teams_fail = false; players_fail = false; games_fail = false }

abbrev fresh_snapshot : Option RefStore
fresh_snapshot = refresh no_load_faults derby_tables derby_tables derby_tables none

-- A refresh whose second query fails leaves the snapshot; the endpoints answer from it.
stale :
    (refresh
        (record no_load_faults { players_fail = true })
        derby_tables
        derby_tables
        derby_tables
        fresh_snapshot
      ≡ fresh_snapshot)
    × (map (λ p. p.id) (list_players_by_game (cached fresh_snapshot) "derby")
        ≡ "EPL::ARS::SAKA" ∷ [])
    × (list_games (cached fresh_snapshot) 3 (pos 1001) (pos 0) ≡ [])
    × (list_teams (cached fresh_snapshot) 0 ≡ team_of arsenal_row ∷ team_of spurs_row ∷ [])
    × (get_game (cached none) "derby" ≡ none)
unfolding refresh load_ref_from_db load_rows put_entry build_roster roster_player cached
    list_players_by_game players_of get_player lookup list_games list_teams list_where get_game
stale = (refl, refl, refl, refl, refl)

abbrev goals_leg : Leg
goals_leg = record {
  game_id = "derby";
  predicate =
      Predicate.player_prop (record {
        player_id = "EPL::ARS::SAKA";
        prop_type = 20;
        comparator = 2;
        threshold = pos 2;
      });
}

abbrev leg_code : Leg → Option String
leg_code leg = some "p"

abbrev as_it_is : String → String
as_it_is s = s

abbrev works : CreateFaults
works = record {
  now = pos 7000000;
  begin_fails = false;
  check_fails = false;
  insert_fails = false;
  leg_fails = λ row. false;
  entity_fails = λ id. false;
  commit_fails = false;
}

abbrev no_instruments : InstrumentTables
no_instruments = record { instruments = []; legs = []; entities = []; next_leg_id = 1 }

abbrev with_goals : InstrumentTables
with_goals =
    (create_instrument leg_code as_it_is works (cached fresh_snapshot) (goals_leg ∷ [])
      no_instruments).1

goals_created :
    create_instrument leg_code as_it_is works
      (cached fresh_snapshot)
      (goals_leg ∷ [])
      no_instruments
    ≡ (created "p" (pos 8200) false, with_goals)
unfolding create_instrument validate_structural first_refusal validate_cross_leg see_legs see_leg
    see_predicate add_prop check_prop_contradiction validate_entities entity_refusal store_valid
    hash_legs hash_each sort_texts insert_text concat_texts max_expiry later store_rows collect_legs
    collect_more leg_row predicate_row create insert_legs insert_leg insert_entities insert_entity
    reply_of get_game get_player lookup refresh load_ref_from_db load_rows put_entry build_roster
    roster_player cached default_prop_rules
goals_created = refl

abbrev go_text : GoText
go_text = record {
  to_upper = λ s. s;
  fields = λ s. s ∷ [];
  date = λ ts. "20260104";
  parse_time = λ layout value. none;
  parse_int = λ s. none;
  parse_float = λ s. none;
}

abbrev in_order : MapOrder
in_order = record { walk = λ xs. xs }

derby-IsIntact : IsIntact derby_tables
derby-IsIntact = record {
  team_keys = (refl, (refl, tt));
  player_keys = (refl, tt);
  game_keys = (refl, tt);
  player_teams = (refl, tt);
  game_teams = ((refl, refl), tt);
  stat_games = tt;
  stat_players = tt;
}

create_instrument-AreBacked_example :
    (at_players : Tables) × (at_games : Tables) × IsReached go_text in_order derby_tables at_players
    × IsReached go_text in_order derby_tables at_games
    × All (IsBacked at_players.players at_games.games) (goals_leg ∷ [])
unfolding steps_run
create_instrument-AreBacked_example =
    create_instrument-AreBacked leg_code as_it_is works go_text in_order derby_tables fresh_snapshot
      (goals_leg ∷ []) no_instruments with_goals "p" (pos 8200) false derby-IsIntact
      (refreshed no_load_faults derby_tables derby_tables derby_tables none ([], refl) ([], refl)
        started)
      goals_created
