-- ===== src/Registry/Fixture.antt =====
-- `loadFixture` of registry/internal/refstore.go and its parsers. The file, as JSON decodes it, is an
-- argument: nothing for a file that cannot be read or decoded. The names of the enums are those of
-- proto/registry.
use secwager.Registry.Refdata.{put_entry, lookup, Game, Team, Player, RefStore}
use secwager.Registry.Loading.{build_roster, no_rules, no_roster}
use secwager.Prelude.Int.{ℤ}
use secwager.Prelude.{ℕ, ◌&&◌, ◌∷◌, Option, [], String, List, some, none, ◌==◌, if◌then◌else◌}

pub record FileTeam : Type 0 where
  pub id : String
  pub name : String
  pub short_name : String
  pub league : String

pub record FilePlayer : Type 0 where
  pub id : String
  pub name : String
  pub team_id : String
  pub positions : List String

pub record FileGame : Type 0 where
  pub id : String
  pub league : String
  pub home_team_id : String
  pub away_team_id : String
  pub scheduled_unix : ℤ
  pub expiry_unix : ℤ

pub record FileRule : Type 0 where
  pub league : String
  pub position : String
  pub allowed : List String

pub record FixtureFile : Type 0 where
  pub teams : List FileTeam
  pub players : List FilePlayer
  pub games : List FileGame
  pub prop_type_rules : List FileRule

abbrev pub league_value : List (String × ℕ)
league_value =
    ("LEAGUE_UNSPECIFIED", 0)
    ∷ ("MLB", 1)
    ∷ ("NFL", 2)
    ∷ ("EPL", 3)
    ∷ ("LA_LIGA", 4)
    ∷ ("MLS", 5)
    ∷ []

abbrev pub position_value : List (String × ℕ)
position_value =
    ("POSITION_UNSPECIFIED", 0)
    ∷ ("MLB_PITCHER", 1)
    ∷ ("MLB_BATTER", 2)
    ∷ ("SOCCER_GOALKEEPER", 10)
    ∷ ("SOCCER_DEFENDER", 11)
    ∷ ("SOCCER_MIDFIELDER", 12)
    ∷ ("SOCCER_FORWARD", 13)
    ∷ ("NFL_QB", 20)
    ∷ ("NFL_RB", 21)
    ∷ ("NFL_WR", 22)
    ∷ ("NFL_TE", 23)
    ∷ ("NFL_DEF", 24)
    ∷ []

abbrev pub prop_type_value : List (String × ℕ)
prop_type_value =
    ("PROP_UNSPECIFIED", 0)
    ∷ ("HOMERUNS", 1)
    ∷ ("STRIKEOUTS", 2)
    ∷ ("HITS", 3)
    ∷ ("RBIS", 4)
    ∷ ("WALKS", 5)
    ∷ ("EARNED_RUNS", 6)
    ∷ ("GOALS", 20)
    ∷ ("ASSISTS", 21)
    ∷ ("SAVES", 22)
    ∷ ("YELLOW_CARDS", 23)
    ∷ ("PASSING_YARDS", 40)
    ∷ ("RUSHING_YARDS", 41)
    ∷ ("RECEIVING_YARDS", 42)
    ∷ ("TOUCHDOWNS", 43)
    ∷ ("INTERCEPTIONS", 44)
    ∷ []

-- A name that the enum has, but for that of zero.
unfoldable pub parse_enum : List (String × ℕ) → String → Option ℕ
unfolding lookup
parse_enum values s = elim (lookup s values) [
  | none ↦ none
  | some v ↦ if v == 0 then none else some v
]

unfoldable pub parse_each : List (String × ℕ) → List String → Option (List ℕ)
unfolding parse_enum
parse_each values [] = some []
parse_each values (s ∷ ss) = elim (parse_enum values s) [
  | none ↦ none
  | some v ↦ elim (parse_each values ss) [ none ↦ none | some vs ↦ some (v ∷ vs) ]
]

unfoldable pub read_teams : List FileTeam → List (String × Team) → Option (List (String × Team))
unfolding parse_enum put_entry
read_teams [] m = some m
read_teams (t ∷ ts) m = elim (parse_enum league_value t.league) [
  | none ↦ none
  | some league ↦ read_teams ts (
      put_entry t.id
        (record { id = t.id; name = t.name; short_name = t.short_name; league = league }) m)
]

unfoldable pub read_players :
    List FilePlayer → List (String × Player) → Option (List (String × Player))
unfolding parse_each put_entry
read_players [] m = some m
read_players (p ∷ ps) m = elim (parse_each position_value p.positions) [
  | none ↦ none
  | some positions ↦ read_players ps (
      put_entry p.id
        (record { id = p.id; name = p.name; team_id = p.team_id; positions = positions }) m)
]

abbrev fixture_game : ℕ → FileGame → Game
fixture_game league g = record {
  id = g.id;
  league = league;
  home_team_id = g.home_team_id;
  away_team_id = g.away_team_id;
  scheduled_unix = g.scheduled_unix;
  expiry_unix = g.expiry_unix;
}

unfoldable pub read_games : List FileGame → List (String × Game) → Option (List (String × Game))
unfolding parse_enum put_entry
read_games [] m = some m
read_games (g ∷ gs) m = elim (parse_enum league_value g.league) [
  | none ↦ none
  | some league ↦ read_games gs (put_entry g.id (fixture_game league g) m)
]

abbrev pub PropRules : Type 0
PropRules = (league position : ℕ) → List ℕ

-- `propRules[ruleKey{league, position}] = props`
abbrev pub put_rule : (league position : ℕ) → List ℕ → PropRules → PropRules
put_rule league position props rules l p = if l == league && p == position then props else rules l p

unfoldable pub read_rule : FileRule → PropRules → Option PropRules
unfolding parse_enum parse_each
read_rule r rules = elim (parse_enum league_value r.league) [
  | none ↦ none
  | some league ↦ elim (parse_enum position_value r.position) [
    | none ↦ none
    | some position ↦ elim (parse_each prop_type_value r.allowed) [
      | none ↦ none
      | some props ↦ some (put_rule league position props rules)
    ]
  ]
]

unfoldable pub read_rules : List FileRule → PropRules → Option PropRules
unfolding read_rule
read_rules [] rules = some rules
read_rules (r ∷ rs) rules = elim (read_rule r rules) [
  | none ↦ none
  | some more ↦ read_rules rs more
]

unfoldable pub load_fixture : Option FixtureFile → Option RefStore
unfolding read_teams read_players read_games read_rules build_roster
load_fixture none = none
load_fixture (some f) = elim (read_teams f.teams []) [
  | none ↦ none
  | some teams ↦ elim (read_players f.players []) [
    | none ↦ none
    | some players ↦ elim (read_games f.games []) [
      | none ↦ none
      | some games ↦ elim (read_rules f.prop_type_rules no_rules) [
        | none ↦ none
        | some rules ↦ some (record {
          teams = teams;
          players = players;
          games = games;
          game_roster = build_roster players games no_roster;
          prop_rules = rules;
        })
      ]
    ]
  ]
]
