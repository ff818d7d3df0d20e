-- ===== src/Registry/RosterTests.antt =====
-- A fixture of registry/internal/refstore.go and the endpoints of registry/internal/service.go on it.
use secwager.Registry.Rules.{default_prop_rules}
use secwager.Registry.Rostering.{on_roster}
use secwager.Registry.Loading.{cached, build_roster, no_roster, no_rules, roster_player}
use secwager.Prelude.Int.{pos}
use secwager.Registry.Refdata.{
  RefStore, Game, list_players_by_game, Player, get_player, players_of, get_team, get_game,
  list_games, list_where, lookup, put_entry,
}
use secwager.Registry.Fixture.{
  load_fixture, FileGame, FixtureFile, read_teams, read_players, put_rule, read_games, parse_each,
  read_rules, parse_enum, read_rule,
}
use secwager.Registry.Rosters.{from_fixture, list_players_by_game_lem}
use secwager.Registry.Endpoints.{ref_not_found, answer_ref, RefRequest, RefReply}
use secwager.Prelude.{List, ◌∷◌, some, none, [], refl, str_eq, ◌≡◌, any, String}

abbrev cup_game : FileGame
cup_game = record {
  id = "cup";
  league = "EPL";
  home_team_id = "t1";
  away_team_id = "t2";
  scheduled_unix = pos 10;
  expiry_unix = pos 20;
}

abbrev cup_fixture : FixtureFile
cup_fixture = record {
  teams = record { id = "t1"; name = "One"; short_name = "O"; league = "EPL" } ∷ [];
  players =
      record { id = "p1"; name = "Ann"; team_id = "t2"; positions = "SOCCER_FORWARD" ∷ [] }
      ∷ record { id = "p2"; name = "Bea"; team_id = "t3"; positions = [] }
      ∷ [];
  games = cup_game ∷ [];
  prop_type_rules =
      record { league = "EPL"; position = "SOCCER_FORWARD"; allowed = "GOALS" ∷ [] } ∷ [];
}

abbrev ann : Player
ann = record { id = "p1"; name = "Ann"; team_id = "t2"; positions = 13 ∷ [] }

abbrev cup_players : List (String × Player)
cup_players =
    ("p1", ann) ∷ ("p2", record { id = "p2"; name = "Bea"; team_id = "t3"; positions = [] }) ∷ []

abbrev cup_games : List (String × Game)
cup_games =
    (
      "cup",
      record {
        id = "cup";
        league = 3;
        home_team_id = "t1";
        away_team_id = "t2";
        scheduled_unix = pos 10;
        expiry_unix = pos 20;
      },
    )
    ∷ []

abbrev cup_store : RefStore
cup_store = record {
  teams = ("t1", record { id = "t1"; name = "One"; short_name = "O"; league = 3 }) ∷ [];
  players = cup_players;
  games = cup_games;
  game_roster = build_roster cup_players cup_games no_roster;
  prop_rules = put_rule 3 13 (20 ∷ []) no_rules;
}

cup_loaded : load_fixture (some cup_fixture) ≡ some cup_store
unfolding load_fixture read_teams read_players read_games read_rules read_rule parse_each parse_enum
    lookup put_entry
cup_loaded = refl

-- A name that is not in the enum, and that of zero.
bad_leagues :
    (load_fixture
        (some (record cup_fixture { games = record cup_game { league = "SERIE_A" } ∷ [] }))
      ≡ none)
    × (load_fixture (
          some
            (record cup_fixture { games = record cup_game { league = "LEAGUE_UNSPECIFIED" } ∷ [] }))
        ≡ none)
unfolding load_fixture read_teams read_players read_games parse_each parse_enum lookup put_entry
bad_leagues = (refl, refl)

answers :
    (answer_ref (some cup_store) (RefRequest.ask_players_by_game "cup")
      ≡ RefReply.players_reply (ann ∷ []))
    × (answer_ref (some cup_store) (RefRequest.ask_team "t9") ≡ ref_not_found)
    × (answer_ref (some cup_store) (RefRequest.ask_games 0 (pos 5) (pos 9))
        ≡ RefReply.games_reply [])
    × (answer_ref (some cup_store) (RefRequest.ask_prop_types 3 13)
        ≡ RefReply.prop_types_reply (20 ∷ []))
    × (answer_ref none (RefRequest.ask_prop_types 1 2)
        ≡ RefReply.prop_types_reply (1 ∷ 3 ∷ 4 ∷ 5 ∷ []))
unfolding answer_ref cached list_players_by_game players_of get_player get_team list_games
    list_where lookup build_roster roster_player default_prop_rules
answers = (refl, refl, refl, refl, refl)

list_players_by_game_lem_example :
    any (λ p. str_eq p.id "p2") (list_players_by_game cup_store "cup")
    ≡ on_roster (get_player cup_store "p2") (get_game cup_store "cup")
list_players_by_game_lem_example =
    list_players_by_game_lem cup_store (from_fixture (some cup_fixture) cup_loaded) "p2" "cup"
