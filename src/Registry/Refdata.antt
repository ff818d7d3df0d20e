-- ===== src/Registry/Refdata.antt =====
-- `refStore` of registry/internal/refstore.go with its lookups and lists. A map that the code walks is
-- its list of entries in the order of the walk, which Go leaves open; a map that it only reads is a
-- function.
use secwager.Prelude.Int.{ℤ, pos, ltb_ℤ}
use secwager.Prelude.{
  ℕ, String, str_eq, Bool, Option, List, ◌==◌, any, ◌||◌, ◌&&◌, if◌then◌else◌, some, none, not, ◌∷◌,
  [],
}

pub record Team : Type 0 where
  pub id : String
  pub name : String
  pub short_name : String
  pub league : ℕ

pub record Player : Type 0 where
  pub id : String
  pub name : String
  pub team_id : String
  pub positions : List ℕ

pub record Game : Type 0 where
  pub id : String
  pub league : ℕ
  pub home_team_id : String
  pub away_team_id : String
  pub scheduled_unix : ℤ
  pub expiry_unix : ℤ

-- `m[k]` and `m[k] = v`
unfoldable pub lookup {ℓ} : {A : Type ℓ} → String → List (String × A) → Option A
lookup k [] = none
lookup k ((j, v) ∷ m) = if str_eq j k then some v else lookup k m

unfoldable pub put_entry {ℓ} : {A : Type ℓ} → String → A → List (String × A) → List (String × A)
put_entry k v [] = (k, v) ∷ []
put_entry k v ((j, w) ∷ m) = if str_eq j k then (k, v) ∷ m else (j, w) ∷ put_entry k v m

pub record RefStore : Type 0 where
  pub teams : List (String × Team)
  pub players : List (String × Player)
  pub games : List (String × Game)
  pub game_roster : String → List String
  pub prop_rules : (league position : ℕ) → List ℕ

unfoldable pub get_team : RefStore → String → Option Team
unfolding lookup
get_team rs id = lookup id rs.teams

unfoldable pub get_game : RefStore → String → Option Game
unfolding lookup
get_game rs id = lookup id rs.games

unfoldable pub get_player : RefStore → String → Option Player
unfolding lookup
get_player rs id = lookup id rs.players

-- The entries that a test lets through, in the order of the walk.
unfoldable pub list_where {ℓ} : {A : Type ℓ} → (A → Bool) → List (String × A) → List A
list_where p [] = []
list_where p ((k, v) ∷ m) = if p v then v ∷ list_where p m else list_where p m

unfoldable pub list_teams : RefStore → ℕ → List Team
unfolding list_where
list_teams rs league = list_where (λ t. league == 0 || t.league == league) rs.teams

-- The three tests of `listGames`, each of which skips a game.
abbrev pub skips_game : ℕ → (from_unix to_unix : ℤ) → Game → Bool
skips_game league from_unix to_unix g =
    (not (league == 0) && not (g.league == league))
    || (ltb_ℤ (pos 0) from_unix && ltb_ℤ g.scheduled_unix from_unix)
    || (ltb_ℤ (pos 0) to_unix && ltb_ℤ to_unix g.scheduled_unix)

unfoldable pub list_games : RefStore → ℕ → (from_unix to_unix : ℤ) → List Game
unfolding list_where
list_games rs league from_unix to_unix =
    list_where (λ g. not (skips_game league from_unix to_unix g)) rs.games

-- Ids without a player are left out.
unfoldable pub players_of : RefStore → List String → List Player
unfolding get_player
players_of rs [] = []
players_of rs (id ∷ ids) = elim (get_player rs id) [
  | none ↦ players_of rs ids
  | some p ↦ p ∷ players_of rs ids
]

unfoldable pub list_players_by_game : RefStore → String → List Player
unfolding players_of
list_players_by_game rs game_id = players_of rs (rs.game_roster game_id)

abbrev pub player_in_game : RefStore → (player_id game_id : String) → Bool
player_in_game rs player_id game_id = any (λ id. str_eq id player_id) (rs.game_roster game_id)

abbrev pub allowed_prop_types : RefStore → (league position : ℕ) → List ℕ
allowed_prop_types rs league position = rs.prop_rules league position

abbrev pub prop_allowed_for_player : ℕ → Player → ℕ → RefStore → Bool
prop_allowed_for_player pt player league rs =
    any (λ pos. any (λ allowed. allowed == pt) (allowed_prop_types rs league pos)) player.positions
