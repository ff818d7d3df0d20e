-- ===== src/VendorRefdata/Fetching.antt =====
-- What the writes of statistics and of final scores keep, the fetches of nflresults.go, mlbresults.go
-- and soccerresults.go of vendor_refdata/internal keep: what they share.
use secwager.VendorRefdata.Store.{upsert_player_stat, mark_game_final}
use secwager.VendorRefdata.Preserving.{Ends, each-keeps, All-always}
use secwager.VendorRefdata.Statistics.{write_stats}
use secwager.VendorRefdata.Runs.{Run, each}
use secwager.Prelude.{ℕ, String, List, ◌≡◌}
use secwager.Prelude.Int.{ℤ}
use secwager.VendorRefdata.Tables.{Tables, StoreFaults, StatRow}
use secwager.VendorRefdata.Mapping.{MapOrder}
pub mod Nfl
pub mod Mlb
pub mod Soccer
pub mod Whole

-- A relation between tables before and after that the writes for games with `P` of their ids uphold.
pub record Respects (faults : StoreFaults) (P : String → Type 0) (R : Tables → Tables → Type 0)
    : Type 0 where
  pub same : (t : Tables) → R t t
  pub chain : (t u v : Tables) → R t u → R u v → R t v
  pub stat : (s : StatRow) → P s.game_id → (t : Tables) → Ends R t (upsert_player_stat faults s t)
  pub final :
      (id : String) (home away : ℤ)
      → P id
      → (t : Tables) → Ends R t (mark_game_final faults id home away t)

module _ (order : MapOrder) (faults : StoreFaults) (P : String → Type 0)
    (R : Tables → Tables → Type 0) (u : Respects faults P R) where
  pub each_always :
      {A : Type 0} (f : A → Tables → Run)
      → ((x : A) (t : Tables) → Ends R t (f x t))
      → (xs : List A) (t : Tables) → Ends R t (each f xs t)
  each_always f h xs t = each-keeps R u.same u.chain f xs (All-always h xs) t

  pub write_stats-keeps :
      (game_id player_id : String) (values : List (ℕ × ℤ)) (t : Tables)
      → P game_id
      → Ends R t (write_stats order faults game_id player_id values t)
  unfolding write_stats
  write_stats-keeps game_id player_id values t h =
      each_always _ (λ v t. u.stat _ h t) (order.walk values) t
