-- ===== src/VendorRefdata/Fetching/Soccer.antt =====
-- What the fetches of vendor_refdata/internal/soccerresults.go keep.
use secwager.VendorRefdata.Statistics.{coerce_nil}
use secwager.VendorRefdata.Runs.{done}
use secwager.VendorRefdata.Soccer.{soccer_vendor}
use secwager.VendorRefdata.Store.{lookup_player_by_external}
use secwager.VendorRefdata.Preserving.{
  Ends, each-keeps, logged-keeps, Ends-failed, Ends-done, each_or_fail-keeps,
}
use secwager.Prelude.{
  ℕ, String, List, All, Bool-cases, inr, str_eq, itoa, Option-cases, inl, if◌then◌else◌, none, [],
  ◌∷◌, some, All-map,
}
use secwager.VendorRefdata.Tables.{Tables, StoreFaults, GameRecord}
use secwager.VendorRefdata.Mapping.{MapOrder}
use secwager.VendorRefdata.Fetching.{each_always, Respects, write_stats-keeps}
use secwager.VendorRefdata.SoccerResults.{
  SoccerResults, FixturePlayer, FixtureDetail, SoccerStatistics, fetch_soccer_results,
  fetch_soccer_team_stats, write_soccer_player, write_listed, finish_soccer_game,
  fetch_soccer_game_result, write_first, is_soccer, soccer_values,
}

module _ (order : MapOrder) (faults : StoreFaults) (P : String → Type 0)
    (R : Tables → Tables → Type 0) (u : Respects faults P R) where
  write_listed-keeps :
      (game_id : String)
      → P game_id
      → (id : ℕ) (s : SoccerStatistics) (t : Tables)
      → Ends R t (write_listed order faults game_id id s t)
  unfolding write_listed
  write_listed-keeps game_id h id s t =
      elim (Option-cases (lookup_player_by_external faults soccer_vendor (itoa id) t)) [
        | inl lost ↦ rw (lost, write_listed) (Ends-failed R u.same u.chain t)
        | inr (none, found) ↦ rw (found, write_listed) (Ends-done R u.same u.chain t)
        | inr (some r, found) ↦
            rw (found, write_listed)
              (write_stats-keeps order faults P R u game_id r.id (soccer_values s) t h)
      ]

  write_first-keeps :
      (game_id : String)
      → P game_id
      → (id : ℕ) (statistics : List SoccerStatistics) (t : Tables)
      → Ends R t (write_first order faults game_id id statistics t)
  unfolding write_first
  write_first-keeps game_id h id [] t = Ends-done R u.same u.chain t
  write_first-keeps game_id h id (s ∷ statistics) t = write_listed-keeps game_id h id s t

  write_soccer_player-keeps :
      (game_id : String)
      → P game_id
      → (p : FixturePlayer) (t : Tables) → Ends R t (write_soccer_player order faults game_id p t)
  unfolding write_soccer_player
  write_soccer_player-keeps game_id h p = write_first-keeps game_id h p.id p.statistics

  fetch_soccer_team_stats-keeps :
      (client : SoccerResults) (game_id fixture_id : String)
      → P game_id
      → (team_id : String) (t : Tables)
      → Ends R t (fetch_soccer_team_stats order faults client game_id fixture_id team_id t)
  unfolding fetch_soccer_team_stats
  fetch_soccer_team_stats-keeps client game_id fixture_id h team_id t =
      elim (Option-cases (client.team_stats fixture_id team_id)) [
        | inl gone ↦ rw (gone, fetch_soccer_team_stats) (Ends-failed R u.same u.chain t)
        | inr ([], reply) ↦ rw (reply, fetch_soccer_team_stats) (Ends-done R u.same u.chain t)
        | inr (players ∷ groups, reply) ↦
            rw (reply, fetch_soccer_team_stats)
              (each_or_fail-keeps R u.same u.chain (write_soccer_player order faults game_id)
                (write_soccer_player-keeps game_id h) players t)
      ]

  finish_soccer_game-keeps :
      (client : SoccerResults) (g : GameRecord)
      → P g.id
      → (d : FixtureDetail) (t : Tables) → Ends R t (finish_soccer_game order faults client g d t)
  unfolding finish_soccer_game
  finish_soccer_game-keeps client g h d t = elim (Bool-cases (str_eq d.status_short "FT")) [
    | inl over ↦ rw over (
        logged-keeps R u.same u.chain t _ _
          (each_always order faults P R u
            (fetch_soccer_team_stats order faults client g.id g.external_id)
            (fetch_soccer_team_stats-keeps client g.id g.external_id h)
            (itoa d.home_id ∷ itoa d.away_id ∷ []) t)
          (u.final g.id (coerce_nil d.home_goals) (coerce_nil d.away_goals) h))
    | inr running ↦ rw running (Ends-done R u.same u.chain t)
  ]

  fetch_soccer_game_result-keeps :
      (client : SoccerResults) (g : GameRecord)
      → P g.id
      → (t : Tables) → Ends R t (fetch_soccer_game_result order faults client g t)
  unfolding fetch_soccer_game_result
  fetch_soccer_game_result-keeps client g h t = elim (Option-cases (client.detail g.external_id)) [
    | inl gone ↦ rw (gone, fetch_soccer_game_result) (Ends-failed R u.same u.chain t)
    | inr ([], reply) ↦ rw (reply, fetch_soccer_game_result) (Ends-done R u.same u.chain t)
    | inr (d ∷ ds, reply) ↦
        rw (reply, fetch_soccer_game_result) (finish_soccer_game-keeps client g h d t)
  ]

  soccer_game-keeps :
      (client : SoccerResults) (g : GameRecord)
      → P g.id
      → (t : Tables)
      → Ends R t (
          if is_soccer g.league_id
          then fetch_soccer_game_result order faults client g t
          else done t)
  soccer_game-keeps client g h t = elim (Bool-cases (is_soccer g.league_id)) [
    | inl its ↦ rw its (fetch_soccer_game_result-keeps client g h t)
    | inr other ↦ rw other (Ends-done R u.same u.chain t)
  ]

  pub fetch_soccer_results-keeps :
      (client : SoccerResults) (games : List GameRecord)
      → All (λ g. P g.id) games
      → (t : Tables) → Ends R t (fetch_soccer_results order faults client games t)
  unfolding fetch_soccer_results
  fetch_soccer_results-keeps client games hs t =
      each-keeps R u.same u.chain _ games (All-map (soccer_game-keeps client) games hs) t
