-- ===== src/VendorRefdata/SoccerResults.antt =====
-- vendor_refdata/internal/soccerresults.go: finished fixtures and the statistics of their players.
use secwager.VendorRefdata.Soccer.{soccer_vendor}
use secwager.VendorRefdata.Store.{lookup_player_by_external, mark_game_final}
use secwager.VendorRefdata.Statistics.{coerce_nil, write_stats}
use secwager.Prelude.{
  ℕ, String, List, Option, ◌==◌, none, [], str_eq, if◌then◌else◌, ◌||◌, itoa, Bool, ◌∷◌, some,
}
use secwager.Prelude.Int.{ℤ}
use secwager.VendorRefdata.Runs.{Run, each, each_or_fail, logged, failed, done}
use secwager.VendorRefdata.Tables.{Tables, StoreFaults, GameRecord}
use secwager.VendorRefdata.Mapping.{MapOrder, epl, la_liga, mls}

pub record FixtureDetail : Type 0 where
  pub status_short : String
  pub home_goals : Option ℤ
  pub away_goals : Option ℤ
  pub home_id : ℕ
  pub away_id : ℕ

pub record SoccerStatistics : Type 0 where
  pub goals : Option ℤ
  pub assists : Option ℤ
  pub saves : Option ℤ
  pub yellow : Option ℤ

pub record FixturePlayer : Type 0 where
  pub id : ℕ
  pub statistics : List SoccerStatistics

-- The fixture by its external id, and the groups of players by fixture and team.
pub record SoccerResults : Type 0 where
  pub detail : String → Option (List FixtureDetail)
  pub team_stats : (fixture_id team_id : String) → Option (List (List FixturePlayer))

unfoldable pub soccer_values : SoccerStatistics → List (ℕ × ℤ)
soccer_values s =
    (20, coerce_nil s.goals)
    ∷ (21, coerce_nil s.assists)
    ∷ (22, coerce_nil s.saves)
    ∷ (23, coerce_nil s.yellow)
    ∷ []

abbrev pub is_soccer : ℕ → Bool
is_soccer league = league == epl || league == la_liga || league == mls

module _ (order : MapOrder) (faults : StoreFaults) where
  -- The first statistics of the player with the given id.
  unfoldable pub write_listed : String → ℕ → SoccerStatistics → Tables → Run
  unfolding lookup_player_by_external write_stats soccer_values itoa
  write_listed game_id id s t = elim (lookup_player_by_external faults soccer_vendor (itoa id) t) [
    | none ↦ failed t
    | some none ↦ done t
    | some (some r) ↦ write_stats order faults game_id r.id (soccer_values s) t
  ]

  unfoldable pub write_first : String → ℕ → List SoccerStatistics → Tables → Run
  unfolding write_listed
  write_first game_id id [] t = done t
  write_first game_id id (s ∷ _) t = write_listed game_id id s t

  unfoldable pub write_soccer_player : String → FixturePlayer → Tables → Run
  unfolding write_first
  write_soccer_player game_id p = write_first game_id p.id p.statistics

  unfoldable pub fetch_soccer_team_stats :
      SoccerResults → (game_id fixture_id team_id : String) → Tables → Run
  unfolding each_or_fail write_soccer_player
  fetch_soccer_team_stats client game_id fixture_id team_id t =
      elim (client.team_stats fixture_id team_id) [
        | none ↦ failed t
        | some [] ↦ done t
        | some (players ∷ _) ↦ each_or_fail (write_soccer_player game_id) players t
      ]

  -- Errors of the statistics are logged, and the game is marked all the same.
  unfoldable pub finish_soccer_game : SoccerResults → GameRecord → FixtureDetail → Tables → Run
  unfolding logged each fetch_soccer_team_stats mark_game_final itoa
  finish_soccer_game client g d t =
      if str_eq d.status_short "FT"
      then logged
          (each (fetch_soccer_team_stats client g.id g.external_id)
            (itoa d.home_id ∷ itoa d.away_id ∷ []) t)
          (mark_game_final faults g.id (coerce_nil d.home_goals) (coerce_nil d.away_goals))
      else done t

  unfoldable pub fetch_soccer_game_result : SoccerResults → GameRecord → Tables → Run
  unfolding finish_soccer_game
  fetch_soccer_game_result client g t = elim (client.detail g.external_id) [
    | none ↦ failed t
    | some [] ↦ done t
    | some (d ∷ _) ↦ finish_soccer_game client g d t
  ]

  unfoldable pub fetch_soccer_results : SoccerResults → List GameRecord → Tables → Run
  unfolding each fetch_soccer_game_result
  fetch_soccer_results client =
      each (λ g t. if is_soccer g.league_id then fetch_soccer_game_result client g t else done t)
