-- ===== src/VendorRefdata/Soccer.antt =====
-- The teams, players and fixtures of vendor_refdata/internal/soccer.go. The vendor's answers are a
-- parameter, nothing for a call that failed.
use secwager.VendorRefdata.Store.{upsert_game, upsert_season, upsert_player, upsert_team}
use secwager.Prelude.{
  ℕ, String, List, Option, leb, false, [], if◌then◌else◌, none, some, true, itoa, str_eq, zero, suc,
  ◌∷◌, ◌||◌,
}
use secwager.Prelude.Int.{ℤ, ◌+ℤ◌, pos}
use secwager.VendorRefdata.Runs.{Run, each, logged, done, failed, and_then, unfinished, panicked}
use secwager.VendorRefdata.Tables.{Tables, StoreFaults, PlayerRecord, GameRecord}
use secwager.VendorRefdata.Mapping.{
  GoText, VendorTeam, make_team_id, lookup_name, make_player_id, make_game_id,
  soccer_player_list_position_map, team_record, code_by_id, soccer_league_map, no_codes,
}

abbrev pub soccer_vendor : String
soccer_vendor = "apisports"

-- A player with the team's id and the position of each of the statistics.
pub record SoccerPlayer : Type 0 where
  pub id : ℕ
  pub name : String
  pub statistics : List (ℕ × String)

pub record PlayersPage : Type 0 where
  pub current : ℕ
  pub total : ℕ
  pub players : List SoccerPlayer

pub record Fixture : Type 0 where
  pub id : ℕ
  pub timestamp : ℤ
  pub home_id : ℕ
  pub away_id : ℕ

-- The answers by the vendor's id of a league, and by the page.
pub record SoccerClient : Type 0 where
  pub teams : ℕ → Option (List VendorTeam)
  pub players : (league_id page : ℕ) → Option PlayersPage
  pub fixtures : ℕ → Option (List Fixture)

abbrev pub soccer_league_ids : List ℕ
soccer_league_ids = 39 ∷ 140 ∷ 253 ∷ []

module _ (go : GoText) (faults : StoreFaults) where
  unfoldable pub soccer_player_record : ℕ → String → String → ℕ → SoccerPlayer → PlayerRecord
  unfolding make_team_id itoa
  soccer_player_record league code id place p = record {
    id = id;
    name = p.name;
    team_id = make_team_id go league code;
    positions = place ∷ [];
    external_id = itoa p.id;
    external_vendor = soccer_vendor;
  }

  -- A player on the team with the given code.
  unfoldable pub store_placed : ℕ → String → ℕ → SoccerPlayer → Tables → Run
  unfolding make_player_id upsert_player soccer_player_record
  store_placed league code place p t =
      if str_eq code "" then done t else elim (make_player_id go league code p.name) [
        | none ↦ panicked t
        | some id ↦ upsert_player faults (soccer_player_record league code id place p) t
      ]

  -- A player whose first statistics name the team and the position.
  unfoldable pub store_listed : ℕ → (ℕ → String) → SoccerPlayer → ℕ → String → Tables → Run
  unfolding lookup_name store_placed
  store_listed league codes p team_id position t =
      elim (lookup_name soccer_player_list_position_map position) [
        | none ↦ done t
        | some place ↦ store_placed league (codes team_id) place p t
      ]

  -- The body of the loop over a page.
  unfoldable pub store_first : ℕ → (ℕ → String) → SoccerPlayer → List (ℕ × String) → Tables → Run
  unfolding store_listed
  store_first league codes p [] t = done t
  store_first league codes p ((team_id, position) ∷ _) t =
      store_listed league codes p team_id position t

  unfoldable pub store_soccer_player : ℕ → (ℕ → String) → SoccerPlayer → Tables → Run
  unfolding store_first
  store_soccer_player league codes p = store_first league codes p p.statistics

  -- The loop over the pages, from `page` on.
  unfoldable pub fetch_pages :
      (fuel : ℕ) → SoccerClient → (league_id league : ℕ) → (ℕ → String) → (page : ℕ) → Tables → Run
  unfolding each logged store_soccer_player
  fetch_pages zero client league_id league codes page t = unfinished t
  fetch_pages (suc fuel) client league_id league codes page t =
      elim (client.players league_id page) [
        | none ↦ failed t
        | some reply ↦ logged (each (store_soccer_player league codes) reply.players t) (λ t.
            elim (leb reply.total reply.current) [
              | true ↦ done t
              | false ↦ fetch_pages fuel client league_id league codes (suc page) t
            ])
      ]

  unfoldable pub fixture_record :
      (league year : ℕ) → (home_code away_code : String) → Fixture → GameRecord
  unfolding make_team_id make_game_id itoa
  fixture_record league year home_code away_code f = record {
    id = make_game_id go league away_code home_code f.timestamp 1;
    league_id = league;
    season_year = year;
    home_team_id = make_team_id go league home_code;
    away_team_id = make_team_id go league away_code;
    scheduled_unix = f.timestamp;
    expiry_unix = f.timestamp +ℤ pos 7200;
    status = "SCHEDULED";
    home_score = none;
    away_score = none;
    external_id = itoa f.id;
    external_vendor = soccer_vendor;
  }

  -- The body of the loop over the fixtures.
  unfoldable pub store_fixture : (league year : ℕ) → (ℕ → String) → Fixture → Tables → Run
  unfolding upsert_game fixture_record
  store_fixture league year codes f t =
      if str_eq (codes f.home_id) "" || str_eq (codes f.away_id) ""
      then done t
      else upsert_game faults (fixture_record league year (codes f.home_id) (codes f.away_id) f) t

  unfoldable pub fetch_fixtures :
      SoccerClient → (league_id league year : ℕ) → (ℕ → String) → Tables → Run
  unfolding each store_fixture
  fetch_fixtures client league_id league year codes t = elim (client.fixtures league_id) [
    | none ↦ failed t
    | some fixtures ↦ each (store_fixture league year codes) fixtures t
  ]

  -- `fuel` bounds the pages.
  unfoldable pub fetch_soccer_ref_data :
      (fuel : ℕ) → SoccerClient → (year league_id : ℕ) → Tables → Run
  unfolding upsert_season and_then each logged upsert_team team_record code_by_id fetch_pages
      fetch_fixtures
  fetch_soccer_ref_data fuel client year league_id t = elim (soccer_league_map league_id) [
    | none ↦ failed t
    | some league ↦ and_then (upsert_season faults league year t) (λ t.
        elim (client.teams league_id) [
          | none ↦ failed t
          | some teams ↦
              let codes = code_by_id teams no_codes in
              logged
                (each (λ team t. upsert_team faults (team_record go league soccer_vendor team) t)
                  teams t)
                (λ t.
                  and_then (fetch_pages fuel client league_id league codes 1 t)
                    (fetch_fixtures client league_id league year codes))
        ])
  ]
