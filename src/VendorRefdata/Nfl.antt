-- ===== src/VendorRefdata/Nfl.antt =====
-- The teams, rosters and weeks of vendor_refdata/internal/nfl.go. The vendor's answers are a
-- parameter, nothing for a call that failed.
use secwager.VendorRefdata.Store.{upsert_game, upsert_season, upsert_player, upsert_team}
use secwager.Prelude.{
  ℕ, String, List, Option, ◌||◌, zero, some, [], if◌then◌else◌, suc, itoa, str_eq, none, ◌∷◌, ◌&&◌,
}
use secwager.Prelude.Int.{ℤ, ◌+ℤ◌, pos, leb_ℤ}
use secwager.VendorRefdata.Runs.{Run, each, done, failed, and_then, logged, panicked}
use secwager.VendorRefdata.Tables.{Tables, StoreFaults, PlayerRecord, GameRecord}
use secwager.VendorRefdata.Mapping.{
  GoText, VendorTeam, lookup_name, make_team_id, make_player_id, make_game_id, nfl,
  nfl_position_map, team_record, code_by_id, no_codes,
}

abbrev pub nfl_vendor : String
nfl_vendor = "apisports"

pub record NflPlayer : Type 0 where
  pub id : ℕ
  pub name : String
  pub position : String

pub record NflGame : Type 0 where
  pub id : ℕ
  pub timestamp : ℤ
  pub home_id : ℕ
  pub away_id : ℕ

pub record NflClient : Type 0 where
  pub teams : Option (List VendorTeam)
  pub players : ℕ → Option (List NflPlayer)
  pub games : ℕ → Option (List NflGame)

module _ (go : GoText) (faults : StoreFaults) where
  unfoldable pub nfl_player_record : String → String → ℕ → NflPlayer → PlayerRecord
  unfolding make_team_id itoa
  nfl_player_record code id place p = record {
    id = id;
    name = p.name;
    team_id = make_team_id go nfl code;
    positions = place ∷ [];
    external_id = itoa p.id;
    external_vendor = nfl_vendor;
  }

  -- The body of the loop of `fetchNFLRoster`.
  unfoldable pub store_nfl_player : String → NflPlayer → Tables → Run
  unfolding lookup_name make_player_id upsert_player nfl_player_record
  store_nfl_player code p t = elim (lookup_name nfl_position_map p.position) [
    | none ↦ done t
    | some place ↦ elim (make_player_id go nfl code p.name) [
      | none ↦ panicked t
      | some id ↦ upsert_player faults (nfl_player_record code id place p) t
    ]
  ]

  unfoldable pub fetch_nfl_roster : NflClient → VendorTeam → Tables → Run
  unfolding each store_nfl_player
  fetch_nfl_roster client team t = elim (client.players team.id) [
    | none ↦ failed t
    | some players ↦ each (store_nfl_player team.code) players t
  ]

  unfoldable pub nfl_game_record : ℕ → (home_code away_code : String) → NflGame → GameRecord
  unfolding make_team_id make_game_id itoa
  nfl_game_record year home_code away_code g = record {
    id = make_game_id go nfl away_code home_code g.timestamp 1;
    league_id = nfl;
    season_year = year;
    home_team_id = make_team_id go nfl home_code;
    away_team_id = make_team_id go nfl away_code;
    scheduled_unix = g.timestamp;
    expiry_unix = g.timestamp +ℤ pos 14400;
    status = "SCHEDULED";
    home_score = none;
    away_score = none;
    external_id = itoa g.id;
    external_vendor = nfl_vendor;
  }

  -- The body of the loop of `fetchNFLWeek`.
  unfoldable pub store_nfl_game : ℕ → (ℕ → String) → NflGame → Tables → Run
  unfolding upsert_game nfl_game_record
  store_nfl_game year codes g t =
      if str_eq (codes g.home_id) "" || str_eq (codes g.away_id) ""
      then done t
      else if leb_ℤ g.timestamp (pos 0) && leb_ℤ (pos 0) g.timestamp
      then done t
      else upsert_game faults (nfl_game_record year (codes g.home_id) (codes g.away_id) g) t

  unfoldable pub fetch_nfl_week : NflClient → ℕ → (ℕ → String) → ℕ → Tables → Run
  unfolding each store_nfl_game
  fetch_nfl_week client year codes week t = elim (client.games week) [
    | none ↦ failed t
    | some games ↦ each (store_nfl_game year codes) games t
  ]

  -- The numbers from `n` on.
  unfoldable pub count_from : ℕ → ℕ → List ℕ
  count_from n zero = []
  count_from n (suc left) = n ∷ count_from (suc n) left

  unfoldable pub fetch_nfl_ref_data : NflClient → ℕ → Tables → Run
  unfolding upsert_season and_then each logged upsert_team team_record code_by_id fetch_nfl_roster
      fetch_nfl_week count_from
  fetch_nfl_ref_data client year t = and_then (upsert_season faults nfl year t) (λ t.
      elim client.teams [
        | none ↦ failed t
        | some teams ↦
            logged
              (each (λ team t. upsert_team faults (team_record go nfl nfl_vendor team) t) teams t)
              (λ t.
                logged (each (fetch_nfl_roster client) teams t)
                  (each (fetch_nfl_week client year (code_by_id teams no_codes)) (count_from 1 22)))
      ])
