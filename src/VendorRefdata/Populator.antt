-- ===== src/VendorRefdata/Populator.antt =====
-- `Populator.RunOnce` of vendor_refdata/internal/populator.go.
use secwager.Prelude.{ℕ}
use secwager.VendorRefdata.Runs.{Run, each, logged, done}
use secwager.VendorRefdata.Tables.{Tables, StoreFaults}
use secwager.VendorRefdata.Mapping.{GoText}
use secwager.VendorRefdata.Mlb.{MlbClient, fetch_mlb_ref_data}
use secwager.VendorRefdata.Soccer.{SoccerClient, fetch_soccer_ref_data, soccer_league_ids}
use secwager.VendorRefdata.Nfl.{NflClient, fetch_nfl_ref_data}

pub record Populator : Type 0 where
  pub mlb_client : MlbClient
  pub soccer_client : SoccerClient
  pub nfl_client : NflClient
  pub year : ℕ

-- The errors of the three fetches are logged. `fuel` bounds the pages of each soccer league.
unfoldable pub populate_once : GoText → StoreFaults → (fuel : ℕ) → Populator → Tables → Run
unfolding fetch_mlb_ref_data fetch_soccer_ref_data fetch_nfl_ref_data each logged
populate_once go faults fuel p t = logged (fetch_mlb_ref_data go faults p.mlb_client p.year t) (λ t.
    logged (each (fetch_soccer_ref_data go faults fuel p.soccer_client p.year) soccer_league_ids t)
      (λ t. logged (fetch_nfl_ref_data go faults p.nfl_client p.year t) done))
