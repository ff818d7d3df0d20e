-- ===== src/VendorRefdata/Tables.antt =====
-- The records of vendor_refdata/internal/store.go and the tables of registry/db/migrations that its
-- statements write. New rows stand in front.
use secwager.Prelude.{
  ℕ, String, List, Option, Bool, [], ◌&&◌, none, some, ◌∷◌, any, if◌then◌else◌, str_eq, ◌==◌,
}
use secwager.Prelude.Int.{ℤ}

pub record TeamRecord : Type 0 where
  pub id : String
  pub name : String
  pub short_name : String
  pub league_id : ℕ
  pub external_id : String
  pub external_vendor : String

pub record PlayerRecord : Type 0 where
  pub id : String
  pub name : String
  pub team_id : String
  pub positions : List ℕ
  pub external_id : String
  pub external_vendor : String

pub record GameRecord : Type 0 where
  pub id : String
  pub league_id : ℕ
  pub season_year : ℕ
  pub home_team_id : String
  pub away_team_id : String
  pub scheduled_unix : ℤ
  pub expiry_unix : ℤ
  pub status : String
  pub home_score : Option ℤ
  pub away_score : Option ℤ
  pub external_id : String
  pub external_vendor : String

-- A row of `game_player_stats`.
pub record StatRow : Type 0 where
  pub game_id : String
  pub player_id : String
  pub prop_type : ℕ
  pub value : ℤ

pub record Tables : Type 0 where
  pub leagues : List ℕ
  pub seasons : List (ℕ × ℕ)
  pub teams : List TeamRecord
  pub players : List PlayerRecord
  pub games : List GameRecord
  pub stats : List StatRow

-- Which statements fail on their own, by a lost connection or the like: those that write or look up
-- an external id, those that write the statistics of a game and a player, and so on.
pub record StoreFaults : Type 0 where
  pub season_fails : Bool
  pub list_fails : Bool
  pub team_fails : String → Bool
  pub player_lookup_fails : String → Bool
  pub player_write_fails : String → Bool
  pub game_fails : String → Bool
  pub stat_fails : (game_id player_id : String) → ℕ → Bool
  pub final_fails : String → Bool

-- Rows with the same external id, and with the same id: the unique keys.
abbrev pub same_team : TeamRecord → TeamRecord → Bool
same_team t r = str_eq r.external_vendor t.external_vendor && str_eq r.external_id t.external_id

abbrev pub same_player : PlayerRecord → PlayerRecord → Bool
same_player p r = str_eq r.external_vendor p.external_vendor && str_eq r.external_id p.external_id

abbrev pub same_game : GameRecord → GameRecord → Bool
same_game g r = str_eq r.external_vendor g.external_vendor && str_eq r.external_id g.external_id

abbrev pub same_stat : StatRow → StatRow → Bool
same_stat s r =
    str_eq r.game_id s.game_id && str_eq r.player_id s.player_id && r.prop_type == s.prop_type

-- `SELECT ... WHERE`, of which the code reads the first row.
unfoldable pub select_row {ℓ} : {A : Type ℓ} → (A → Bool) → List A → Option A
select_row p [] = none
select_row p (r ∷ rows) = if p r then some r else select_row p rows

-- `UPDATE ... WHERE`
unfoldable pub update_rows {ℓ} : {A : Type ℓ} → (A → Bool) → (A → A) → List A → List A
update_rows p f [] = []
update_rows p f (r ∷ rows) = (if p r then f r else r) ∷ update_rows p f rows

-- The foreign keys.
abbrev pub team_known : String → Tables → Bool
team_known id t = any (λ r. str_eq r.id id) t.teams

abbrev pub league_known : ℕ → Tables → Bool
league_known id t = any (λ l. l == id) t.leagues

abbrev pub season_known : ℕ → ℕ → Tables → Bool
season_known league year t = any (λ (l, y). l == league && y == year) t.seasons

abbrev pub game_known : String → Tables → Bool
game_known id t = any (λ r. str_eq r.id id) t.games

abbrev pub player_known : String → Tables → Bool
player_known id t = any (λ r. str_eq r.id id) t.players
