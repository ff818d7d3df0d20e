-- ===== src/Registry/Endpoints.antt =====
-- The endpoints of registry/internal/service.go that read the reference data, over what the cache gives.
use secwager.Prelude.Int.{ℤ}
use secwager.Registry.Loading.{cached}
use secwager.Registry.Refdata.{
  Team, Player, Game, get_team, get_game, get_player, list_teams, list_games, list_players_by_game,
  RefStore, allowed_prop_types,
}
use secwager.Prelude.{ℕ, List, none, Option, String, some}

-- A request for one entity by its id, or for a list.
pub data RefRequest : Type 0 where
  ask_team ask_game ask_player ask_players_by_game : String → RefRequest
  ask_teams : (league : ℕ) → RefRequest
  ask_games : (league : ℕ) (from_unix to_unix : ℤ) → RefRequest
  ask_prop_types : (league position : ℕ) → RefRequest

pub data RefReply : Type 0 where
  team_reply : Team → RefReply
  game_reply : Game → RefReply
  player_reply : Player → RefReply
  teams_reply : List Team → RefReply
  games_reply : List Game → RefReply
  players_reply : List Player → RefReply
  prop_types_reply : List ℕ → RefReply
  ref_not_found : RefReply

abbrev or_not_found : {A : Type 0} → (A → RefReply) → Option A → RefReply
or_not_found reply none = ref_not_found
or_not_found reply (some a) = reply a

-- The seven endpoints.
unfoldable pub answer_ref : Option RefStore → RefRequest → RefReply
unfolding cached get_team get_game get_player list_teams list_games list_players_by_game
answer_ref snapshot (RefRequest.ask_team id) =
    or_not_found RefReply.team_reply (get_team (cached snapshot) id)
answer_ref snapshot (RefRequest.ask_game id) =
    or_not_found RefReply.game_reply (get_game (cached snapshot) id)
answer_ref snapshot (RefRequest.ask_player id) =
    or_not_found RefReply.player_reply (get_player (cached snapshot) id)
answer_ref snapshot (RefRequest.ask_teams league) =
    RefReply.teams_reply (list_teams (cached snapshot) league)
answer_ref snapshot (RefRequest.ask_games league from_unix to_unix) =
    RefReply.games_reply (list_games (cached snapshot) league from_unix to_unix)
answer_ref snapshot (RefRequest.ask_players_by_game id) =
    RefReply.players_reply (list_players_by_game (cached snapshot) id)
answer_ref snapshot (RefRequest.ask_prop_types league position) =
    RefReply.prop_types_reply (allowed_prop_types (cached snapshot) league position)
