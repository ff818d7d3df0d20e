-- ===== src/VendorRefdata/Mlb.antt =====
-- The teams, rosters and schedule of vendor_refdata/internal/mlb.go. The vendor's answers are a
-- parameter, nothing for a call that failed.
use secwager.VendorRefdata.Store.{upsert_season, upsert_game, upsert_player, upsert_team}
use secwager.Prelude.{
  ℕ, String, List, Option, itoa, str_eq, some, none, [], ◌||◌, if◌then◌else◌, ◌∷◌,
}
use secwager.Prelude.Int.{ℤ, ◌+ℤ◌, pos}
use secwager.VendorRefdata.Runs.{Run, each, done, and_then, failed, logged, panicked}
use secwager.VendorRefdata.Tables.{Tables, StoreFaults, PlayerRecord, GameRecord}
use secwager.VendorRefdata.Mapping.{
  GoText, VendorTeam, lookup_name, make_team_id, make_player_id, mlb, make_game_id,
  mlb_position_map, team_record, code_by_id, no_codes,
}

abbrev pub mlb_vendor : String
mlb_vendor = "mlb_stats"

-- An entry of a roster.
pub record MlbPlayer : Type 0 where
  pub id : ℕ
  pub full_name : String
  pub position_type : String

-- A game of the schedule, which is also the answer of the status check.
pub record MlbGame : Type 0 where
  pub game_pk : ℕ
  pub game_date : String
  pub game_number : ℕ
  pub detailed_state : String
  pub home_id : ℕ
  pub home_score : ℤ
  pub away_id : ℕ
  pub away_score : ℤ

-- The schedule is the list of the games of each date.
pub record MlbClient : Type 0 where
  pub teams : Option (List VendorTeam)
  pub roster : ℕ → Option (List MlbPlayer)
  pub schedule : Option (List (List MlbGame))

module _ (go : GoText) (faults : StoreFaults) where
  unfoldable pub parse_iso8601_unix : String → Option ℤ
  parse_iso8601_unix s = elim (go.parse_time "2006-01-02T15:04:05Z" s) [
    | some ts ↦ some ts
    | none ↦ go.parse_time "2006-01-02T15:04:05Z07:00" s
  ]

  unfoldable pub mlb_player_record : String → String → ℕ → MlbPlayer → PlayerRecord
  unfolding make_team_id itoa
  mlb_player_record abbr id place p = record {
    id = id;
    name = p.full_name;
    team_id = make_team_id go mlb abbr;
    positions = place ∷ [];
    external_id = itoa p.id;
    external_vendor = mlb_vendor;
  }

  -- The body of the loop of `fetchMLBRoster`.
  unfoldable pub store_mlb_player : String → MlbPlayer → Tables → Run
  unfolding lookup_name make_player_id upsert_player mlb_player_record
  store_mlb_player abbr p t = elim (lookup_name mlb_position_map p.position_type) [
    | none ↦ done t
    | some place ↦ elim (make_player_id go mlb abbr p.full_name) [
      | none ↦ panicked t
      | some id ↦ upsert_player faults (mlb_player_record abbr id place p) t
    ]
  ]

  unfoldable pub fetch_mlb_roster : MlbClient → VendorTeam → Tables → Run
  unfolding each store_mlb_player
  fetch_mlb_roster client team t = elim (client.roster team.id) [
    | none ↦ failed t
    | some players ↦ each (store_mlb_player team.code) players t
  ]

  unfoldable pub mlb_game_record : ℕ → (home_abbr away_abbr : String) → ℤ → MlbGame → GameRecord
  unfolding make_team_id make_game_id itoa
  mlb_game_record year home_abbr away_abbr ts g = record {
    id = make_game_id go mlb away_abbr home_abbr ts g.game_number;
    league_id = mlb;
    season_year = year;
    home_team_id = make_team_id go mlb home_abbr;
    away_team_id = make_team_id go mlb away_abbr;
    scheduled_unix = ts;
    expiry_unix = ts +ℤ pos 14400;
    status = "SCHEDULED";
    home_score = none;
    away_score = none;
    external_id = itoa g.game_pk;
    external_vendor = mlb_vendor;
  }

  -- The body of the loop over the games of a date.
  unfoldable pub store_mlb_game : ℕ → (ℕ → String) → MlbGame → Tables → Run
  unfolding upsert_game mlb_game_record parse_iso8601_unix
  store_mlb_game year abbrs g t =
      if str_eq (abbrs g.home_id) "" || str_eq (abbrs g.away_id) ""
      then done t
      else elim (parse_iso8601_unix g.game_date) [
        | none ↦ done t
        | some ts ↦
            upsert_game faults (mlb_game_record year (abbrs g.home_id) (abbrs g.away_id) ts g) t
      ]

  unfoldable pub fetch_mlb_ref_data : MlbClient → ℕ → Tables → Run
  unfolding upsert_season and_then each logged upsert_team team_record code_by_id fetch_mlb_roster
      store_mlb_game
  fetch_mlb_ref_data client year t = and_then (upsert_season faults mlb year t) (λ t.
      elim client.teams [
        | none ↦ failed t
        | some teams ↦
            logged
              (each (λ team t. upsert_team faults (team_record go mlb mlb_vendor team) t) teams t)
              (λ t. logged (each (fetch_mlb_roster client) teams t) (λ t. elim client.schedule [
                | none ↦ failed t
                | some dates ↦ each (each (store_mlb_game year (code_by_id teams no_codes))) dates t
              ]))
      ])
