-- ===== src/VendorRefdata/Fetching/Whole.antt =====
-- What the writes of results keep, a round of internal/eventfetcher.go of vendor_refdata keeps.
use secwager.VendorRefdata.Fetching.Nfl.{fetch_nfl_results-keeps}
use secwager.VendorRefdata.Fetching.Soccer.{fetch_soccer_results-keeps}
use secwager.VendorRefdata.Fetching.Mlb.{fetch_mlb_results-keeps}
use secwager.VendorRefdata.Preserving.{Ends, Ends-failed, Ends-done, logged-keeps, All-always}
use secwager.Prelude.Int.{ℤ}
use secwager.VendorRefdata.Runs.{Run}
use secwager.VendorRefdata.Store.{list_active_games, unscored, is_active}
use secwager.VendorRefdata.EventFetcher.{fetch_results, events_once, EventFetcher, unless_empty}
use secwager.VendorRefdata.Fetching.{Respects}
use secwager.VendorRefdata.Tables.{StoreFaults, Tables, GameRecord}
use secwager.VendorRefdata.Mapping.{GoText, MapOrder, mlb, nfl}
use secwager.VendorRefdata.SoccerResults.{is_soccer}
use secwager.Prelude.{
  Bool-cases, inl, [], String, inr, ◌∷◌, ◌==◌, All, map, filter, List, All-filter,
}

module _ (go : GoText) (order : MapOrder) (faults : StoreFaults) (P : String → Type 0)
    (R : Tables → Tables → Type 0) (u : Respects faults P R) where
  unless_empty-keeps :
      (games : List GameRecord) (run : Tables → Run)
      → ((t : Tables) → Ends R t (run t))
      → (t : Tables) → Ends R t (unless_empty games run t)
  unless_empty-keeps [] run h t = Ends-done R u.same u.chain t
  unless_empty-keeps (g ∷ games) run h t = h t

  pub fetch_results-keeps :
      (e : EventFetcher) (games : List GameRecord)
      → All (λ g. P g.id) games
      → (t : Tables) → Ends R t (fetch_results go order faults e games t)
  unfolding fetch_results
  fetch_results-keeps e games apart t =
      let mlb_games = filter (λ g. g.league_id == mlb) games in
      let soccer_games = filter (λ g. is_soccer g.league_id) games in
      let nfl_games = filter (λ g. g.league_id == nfl) games in
      logged-keeps R u.same u.chain t _ _
        (unless_empty-keeps mlb_games _
          (fetch_mlb_results-keeps order faults P R u e.mlb_client mlb_games
            (All-filter (λ g. P g.id) (λ g. g.league_id == mlb) games apart))
          t)
        (λ t.
          logged-keeps R u.same u.chain t _ _
            (unless_empty-keeps soccer_games _
              (fetch_soccer_results-keeps order faults P R u e.soccer_client soccer_games
                (All-filter (λ g. P g.id) (λ g. is_soccer g.league_id) games apart))
              t)
            (λ t.
              logged-keeps R u.same u.chain t _ _
                (unless_empty-keeps nfl_games _
                  (fetch_nfl_results-keeps go order faults P R u e.nfl_client nfl_games
                    (All-filter (λ g. P g.id) (λ g. g.league_id == nfl) games apart))
                  t)
                (Ends-done R u.same u.chain)))

  pub events_once-keeps :
      (e : EventFetcher) (now : ℤ)
      → ((id : String) → P id)
      → (t : Tables) → Ends R t (events_once go order faults e now t)
  unfolding events_once list_active_games
  events_once-keeps e now always t = elim (Bool-cases faults.list_fails) [
    | inl lost ↦ rw lost (Ends-failed R u.same u.chain t)
    | inr fine ↦
        let games = map unscored (filter (is_active now) t.games) in
        rw fine (fetch_results-keeps e games (All-always (λ g. always g.id) games) t)
  ]
