-- ===== src/VendorRefdata/MlbResults.antt =====
-- vendor_refdata/internal/mlbresults.go: finished games and the statistics of their players.
use secwager.VendorRefdata.Statistics.{write_stats}
use secwager.VendorRefdata.Store.{lookup_player_by_external, mark_game_final}
use secwager.Prelude.{
  ℕ, String, List, Option, filter, [], ◌||◌, str_eq, put, Bool, map, some, itoa, none, ◌==◌,
  if◌then◌else◌, ◌∷◌,
}
use secwager.Prelude.Int.{ℤ, ltb_ℤ, pos}
use secwager.VendorRefdata.Runs.{Run, each_or_fail, and_then, each, logged, failed, done}
use secwager.VendorRefdata.Tables.{Tables, StoreFaults, GameRecord}
use secwager.VendorRefdata.Mapping.{MapOrder, mlb}
use secwager.VendorRefdata.Mlb.{MlbGame, mlb_vendor}

pub record MlbBoxscorePlayer : Type 0 where
  pub id : ℕ
  pub home_runs : ℤ
  pub hits : ℤ
  pub rbi : ℤ
  pub base_on_balls : ℤ
  pub strike_outs : ℤ
  pub earned_runs : ℤ
  pub pitching_base_on_balls : ℤ

-- The players of a boxscore are maps, given as the lists of their values.
pub record MlbBoxscore : Type 0 where
  pub home : List MlbBoxscorePlayer
  pub away : List MlbBoxscorePlayer

-- The status check by the games' external ids, and the boxscores.
pub record MlbResults : Type 0 where
  pub status : List String → Option (List (List MlbGame))
  pub boxscore : ℕ → Option MlbBoxscore

abbrev pub positive : ℤ → Bool
positive n = ltb_ℤ (pos 0) n

abbrev pub has_batting_stats : MlbBoxscorePlayer → Bool
has_batting_stats p =
    positive p.home_runs || positive p.hits || positive p.rbi || positive p.base_on_balls

abbrev pub has_pitching_stats : MlbBoxscorePlayer → Bool
has_pitching_stats p =
    positive p.strike_outs || positive p.earned_runs || positive p.pitching_base_on_balls

-- `pkToGame` over the games of the league: a later game replaces an earlier one.
unfoldable pub pk_to_game :
    List GameRecord → (String → Option GameRecord) → String → Option GameRecord
pk_to_game [] m = m
pk_to_game (g ∷ games) m =
    pk_to_game games (if g.league_id == mlb then put m g.external_id (some g) else m)

abbrev pub no_games : String → Option GameRecord
no_games _ = none

unfoldable pub pks_of : List GameRecord → List String
pks_of games = map (λ g. g.external_id) (filter (λ g. g.league_id == mlb) games)

module _ (order : MapOrder) (faults : StoreFaults) where
  unfoldable pub write_batting : (game_id player_id : String) → MlbBoxscorePlayer → Tables → Run
  unfolding write_stats
  write_batting game_id player_id p t =
      if has_batting_stats p
      then write_stats order faults game_id player_id
          ((1, p.home_runs) ∷ (3, p.hits) ∷ (4, p.rbi) ∷ (5, p.base_on_balls) ∷ []) t
      else done t

  unfoldable pub write_pitching : (game_id player_id : String) → MlbBoxscorePlayer → Tables → Run
  unfolding write_stats
  write_pitching game_id player_id p t =
      if has_pitching_stats p
      then write_stats order faults game_id player_id
          ((2, p.strike_outs) ∷ (6, p.earned_runs) ∷ (5, p.pitching_base_on_balls) ∷ []) t
      else done t

  unfoldable pub write_mlb_player : String → MlbBoxscorePlayer → Tables → Run
  unfolding lookup_player_by_external write_batting write_pitching logged
  write_mlb_player game_id p t = elim (lookup_player_by_external faults mlb_vendor (itoa p.id) t) [
    | none ↦ failed t
    | some none ↦ done t
    | some (some r) ↦ logged (write_batting game_id r.id p t) (write_pitching game_id r.id p)
  ]

  unfoldable pub fetch_mlb_boxscore : MlbResults → String → ℕ → Tables → Run
  unfolding each_or_fail write_mlb_player
  fetch_mlb_boxscore client game_id game_pk t = elim (client.boxscore game_pk) [
    | none ↦ failed t
    | some box ↦
        each_or_fail (λ players. each_or_fail (write_mlb_player game_id) (order.walk players))
          (box.home ∷ box.away ∷ []) t
  ]

  -- A game is marked only if its boxscore was fetched and written without an error.
  unfoldable pub finish_mlb_game :
      MlbResults → (String → Option GameRecord) → MlbGame → Tables → Run
  unfolding and_then fetch_mlb_boxscore mark_game_final itoa
  finish_mlb_game client games sg t =
      if str_eq sg.detailed_state "Final"
      then elim (games (itoa sg.game_pk)) [
        | none ↦ done t
        | some g ↦
            and_then (fetch_mlb_boxscore client g.id sg.game_pk t)
              (mark_game_final faults g.id sg.home_score sg.away_score)
      ]
      else done t

  unfoldable pub fetch_mlb_results : MlbResults → List GameRecord → Tables → Run
  unfolding each finish_mlb_game pk_to_game pks_of
  fetch_mlb_results client games t = elim (pks_of games) [
    | [] ↦ done t
    | pk ∷ pks ↦ elim (client.status (pk ∷ pks)) [
      | none ↦ failed t
      | some dates ↦ each (each (finish_mlb_game client (pk_to_game games no_games))) dates t
    ]
  ]
