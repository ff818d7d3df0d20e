-- ===== src/VendorRefdata/EventFetcher.antt =====
-- `EventFetcher.RunOnce` of vendor_refdata/internal/eventfetcher.go.
use secwager.VendorRefdata.Store.{list_active_games}
use secwager.Prelude.{List, ◌==◌, filter, some, [], none, ◌∷◌}
use secwager.Prelude.Int.{ℤ}
use secwager.VendorRefdata.Runs.{Run, done, logged, failed}
use secwager.VendorRefdata.Tables.{Tables, StoreFaults, GameRecord}
use secwager.VendorRefdata.Mapping.{GoText, MapOrder, mlb, nfl}
use secwager.VendorRefdata.MlbResults.{MlbResults, fetch_mlb_results}
use secwager.VendorRefdata.SoccerResults.{SoccerResults, fetch_soccer_results, is_soccer}
use secwager.VendorRefdata.NflResults.{NflResults, fetch_nfl_results}

pub record EventFetcher : Type 0 where
  pub mlb_client : MlbResults
  pub soccer_client : SoccerResults
  pub nfl_client : NflResults

abbrev pub unless_empty : List GameRecord → (Tables → Run) → Tables → Run
unless_empty [] run t = done t
unless_empty (g ∷ games) run t = run t

-- The fetches return no error.
unfoldable pub fetch_results :
    GoText → MapOrder → StoreFaults → EventFetcher → List GameRecord → Tables → Run
unfolding logged fetch_mlb_results fetch_soccer_results fetch_nfl_results
fetch_results go order faults e games t =
    let mlb_games = filter (λ g. g.league_id == mlb) games in
    let soccer_games = filter (λ g. is_soccer g.league_id) games in
    let nfl_games = filter (λ g. g.league_id == nfl) games in
    logged (unless_empty mlb_games (fetch_mlb_results order faults e.mlb_client mlb_games) t) (λ t.
      logged
        (unless_empty soccer_games (fetch_soccer_results order faults e.soccer_client soccer_games)
          t)
        (λ t.
          logged
            (unless_empty nfl_games (fetch_nfl_results go order faults e.nfl_client nfl_games) t)
            done))

unfoldable pub events_once :
    GoText → MapOrder → StoreFaults → EventFetcher → (now : ℤ) → Tables → Run
unfolding list_active_games fetch_results
events_once go order faults e now t = elim (list_active_games faults now t) [
  | none ↦ failed t
  | some games ↦ fetch_results go order faults e games t
]
