-- ===== src/VendorRefdata/Populating.antt =====
-- What the upserts of vendor_refdata/internal/store.go keep, the fetches of nfl.go, mlb.go, soccer.go
-- and populator.go keep: what they share.
use secwager.VendorRefdata.Store.{upsert_season, upsert_team, upsert_player, upsert_game}
use secwager.VendorRefdata.Runs.{Run, each}
use secwager.VendorRefdata.Preserving.{Ends, each-keeps, All-always}
use secwager.Prelude.{ℕ, String, List, ◌≡◌}
use secwager.VendorRefdata.Tables.{Tables, StoreFaults, GameRecord, TeamRecord, PlayerRecord}
use secwager.VendorRefdata.Mapping.{GoText, VendorTeam, team_record}
pub mod Nfl
pub mod Mlb
pub mod Soccer
pub mod Whole

-- A relation between tables before and after that the upserts of reference data uphold.
pub record Upholds (faults : StoreFaults) (R : Tables → Tables → Type 0) : Type 0 where
  pub same : (t : Tables) → R t t
  pub chain : (t u v : Tables) → R t u → R u v → R t v
  pub season : (league year : ℕ) (t : Tables) → Ends R t (upsert_season faults league year t)
  pub team : (r : TeamRecord) (t : Tables) → Ends R t (upsert_team faults r t)
  pub player : (p : PlayerRecord) (t : Tables) → Ends R t (upsert_player faults p t)
  pub game :
      (g : GameRecord) → g.status ≡ "SCHEDULED" → (t : Tables) → Ends R t (upsert_game faults g t)

module _ (faults : StoreFaults) (R : Tables → Tables → Type 0) (u : Upholds faults R) where
  pub each_always :
      {A : Type 0} (f : A → Tables → Run)
      → ((x : A) (t : Tables) → Ends R t (f x t))
      → (xs : List A) (t : Tables) → Ends R t (each f xs t)
  each_always f h xs t = each-keeps R u.same u.chain f xs (All-always h xs) t

module _ (go : GoText) (faults : StoreFaults) (R : Tables → Tables → Type 0)
    (u : Upholds faults R) where
  pub teams-keeps :
      (league : ℕ) (vendor : String) (teams : List VendorTeam) (t : Tables)
      → Ends R t (each (λ r t. upsert_team faults (team_record go league vendor r) t) teams t)
  teams-keeps league vendor =
      each_always faults R u (λ r t. upsert_team faults (team_record go league vendor r) t)
        (λ r. u.team (team_record go league vendor r))
