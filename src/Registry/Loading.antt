-- ===== src/Registry/Loading.antt =====
-- `loadRefFromDB` of registry/internal/pgrefstore.go, over the tables that vendor_refdata writes, and the
-- cache of registry/internal/refcache.go. The three queries run one after another outside a transaction,
-- so each finds tables of its own.
use secwager.Registry.Refdata.{put_entry, Player, Team, RefStore, Game}
use secwager.VendorRefdata.Tables.{TeamRecord, GameRecord, Tables, PlayerRecord}
use secwager.Registry.Rules.{default_prop_rules}
use secwager.Prelude.{
  ℕ, none, List, ◌||◌, ◌++◌, String, if◌then◌else◌, str_eq, Option, some, Bool, ◌∷◌, [],
}

-- `m[key] = value` for each row.
unfoldable pub load_rows {ℓ κ} :
    {A : Type ℓ} {B : Type κ}
    → (A → String)
    → (A → B)
    → List A
    → List (String × B)
    → List (String × B)
unfolding put_entry
load_rows key value [] m = m
load_rows key value (r ∷ rows) m = load_rows key value rows (put_entry (key r) (value r) m)

abbrev pub team_of : TeamRecord → Team
team_of r = record { id = r.id; name = r.name; short_name = r.short_name; league = r.league_id }

abbrev pub player_of : PlayerRecord → Player
player_of r = record { id = r.id; name = r.name; team_id = r.team_id; positions = r.positions }

abbrev pub game_of : GameRecord → Game
game_of r = record {
  id = r.id;
  league = r.league_id;
  home_team_id = r.home_team_id;
  away_team_id = r.away_team_id;
  scheduled_unix = r.scheduled_unix;
  expiry_unix = r.expiry_unix;
}

abbrev pub Roster : Type 0
Roster = String → List String

-- `gameRoster[id] = append(gameRoster[id], p)`
abbrev pub append_player : (game_id player_id : String) → Roster → Roster
append_player game_id player_id roster id =
    if str_eq id game_id then roster id ++ (player_id ∷ []) else roster id

abbrev pub plays : Player → Game → Bool
plays p g = str_eq p.team_id g.home_team_id || str_eq p.team_id g.away_team_id

-- The inner loop, over the games, and the outer one, over the players.
unfoldable pub roster_player : Player → List (String × Game) → Roster → Roster
roster_player p [] roster = roster
roster_player p ((k, g) ∷ games) roster =
    if plays p g
    then roster_player p games (append_player g.id p.id roster)
    else roster_player p games roster

unfoldable pub build_roster : List (String × Player) → List (String × Game) → Roster → Roster
unfolding roster_player
build_roster [] games roster = roster
build_roster ((k, p) ∷ players) games roster =
    build_roster players games (roster_player p games roster)

-- Which of the queries fail.
pub record LoadFaults : Type 0 where
  pub teams_fail : Bool
  pub players_fail : Bool
  pub games_fail : Bool

abbrev pub no_roster : Roster
no_roster game_id = []

abbrev pub no_rules : (league position : ℕ) → List ℕ
no_rules league position = []

abbrev pub ref_of : Tables → Tables → Tables → RefStore
ref_of at_teams at_players at_games =
    let players : List (String × Player) = load_rows (λ r. r.id) player_of at_players.players [] in
    let games : List (String × Game) = load_rows (λ r. r.id) game_of at_games.games [] in
    record {
      teams = load_rows (λ r. r.id) team_of at_teams.teams [];
      players = players;
      games = games;
      game_roster = build_roster players games no_roster;
      prop_rules = no_rules;
    }

-- Nothing for an error.
unfoldable pub load_ref_from_db : LoadFaults → Tables → Tables → Tables → Option RefStore
unfolding load_rows build_roster
load_ref_from_db faults at_teams at_players at_games =
    if faults.teams_fail
    then none
    else if faults.players_fail
    then none
    else if faults.games_fail
    then none
    else some (ref_of at_teams at_players at_games)

-- `refresh` on the snapshot of the cache: an error leaves it.
unfoldable pub refresh : LoadFaults → Tables → Tables → Tables → Option RefStore → Option RefStore
unfolding load_ref_from_db default_prop_rules
refresh faults at_teams at_players at_games snapshot =
    elim (load_ref_from_db faults at_teams at_players at_games) [
      | none ↦ snapshot
      | some rs ↦ some (record rs { prop_rules = default_prop_rules })
    ]

-- `get` of the cache.
unfoldable pub cached : Option RefStore → RefStore
unfolding default_prop_rules
cached none = record {
  teams = [];
  players = [];
  games = [];
  game_roster = no_roster;
  prop_rules = default_prop_rules;
}
cached (some rs) = rs
