-- ===== src/VendorRefdata/Statistics.antt =====
-- What the result fetchers of vendor_refdata/internal share: a missing number is 0, and the values of
-- one player are written one after another.
use secwager.VendorRefdata.Store.{upsert_player_stat}
use secwager.Prelude.{ℕ, String, List, Option, none, some}
use secwager.Prelude.Int.{ℤ, pos}
use secwager.VendorRefdata.Runs.{Run, each}
use secwager.VendorRefdata.Tables.{Tables, StoreFaults}
use secwager.VendorRefdata.Mapping.{MapOrder}

abbrev pub coerce_nil : Option ℤ → ℤ
coerce_nil none = pos 0
coerce_nil (some n) = n

module _ (order : MapOrder) (faults : StoreFaults) where
  -- The loop over the values of one player, which logs its errors.
  unfoldable pub write_stats : (game_id player_id : String) → List (ℕ × ℤ) → Tables → Run
  unfolding each upsert_player_stat
  write_stats game_id player_id values =
      each
        (λ (prop, value) t.
          upsert_player_stat faults
            (record { game_id = game_id; player_id = player_id; prop_type = prop; value = value })
            t)
        (order.walk values)
