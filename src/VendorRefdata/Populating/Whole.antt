-- ===== src/VendorRefdata/Populating/Whole.antt =====
-- What a run of vendor_refdata/internal/populator.go keeps.
use secwager.VendorRefdata.Populating.Nfl.{fetch_nfl_ref_data-keeps}
use secwager.VendorRefdata.Populating.Soccer.{fetch_soccer_ref_data-keeps}
use secwager.VendorRefdata.Soccer.{fetch_soccer_ref_data, soccer_league_ids}
use secwager.VendorRefdata.Populating.Mlb.{fetch_mlb_ref_data-keeps}
use secwager.VendorRefdata.Preserving.{Ends, logged-keeps, Ends-done}
use secwager.Prelude.{ℕ}
use secwager.VendorRefdata.Tables.{Tables, StoreFaults}
use secwager.VendorRefdata.Mapping.{GoText}
use secwager.VendorRefdata.Populating.{Upholds, each_always}
use secwager.VendorRefdata.Populator.{Populator, populate_once}

module _ (go : GoText) (faults : StoreFaults) (R : Tables → Tables → Type 0)
    (u : Upholds faults R) where
  pub populate_once-keeps :
      (fuel : ℕ) (p : Populator) (t : Tables) → Ends R t (populate_once go faults fuel p t)
  unfolding populate_once
  populate_once-keeps fuel p t =
      logged-keeps R u.same u.chain t _ _
        (fetch_mlb_ref_data-keeps go faults R u p.mlb_client p.year t)
        (λ t.
          logged-keeps R u.same u.chain t _ _
            (each_always faults R u (fetch_soccer_ref_data go faults fuel p.soccer_client p.year)
              (fetch_soccer_ref_data-keeps go faults R u fuel p.soccer_client p.year)
              soccer_league_ids t)
            (λ t.
              logged-keeps R u.same u.chain t _ _
                (fetch_nfl_ref_data-keeps go faults R u p.nfl_client p.year t)
                (Ends-done R u.same u.chain)))
