-- ===== src/VendorRefdata/Fetching/Nfl.antt =====
-- What the fetches of vendor_refdata/internal/nflresults.go keep.
use secwager.VendorRefdata.Nfl.{nfl_vendor}
use secwager.VendorRefdata.Statistics.{coerce_nil}
use secwager.VendorRefdata.Runs.{done}
use secwager.VendorRefdata.Store.{lookup_player_by_external}
use secwager.VendorRefdata.Preserving.{
  Ends, logged-keeps, Ends-failed, each-keeps, each_or_fail-keeps, Ends-done,
}
use secwager.Prelude.{
  ℕ, String, List, All, inl, some, if◌then◌else◌, ◌==◌, ◌∷◌, none, str_eq, itoa, inr, Bool-cases,
  [], Option-cases, All-map,
}
use secwager.VendorRefdata.Tables.{Tables, StoreFaults, GameRecord}
use secwager.VendorRefdata.Mapping.{GoText, MapOrder, nfl}
use secwager.VendorRefdata.Fetching.{Respects, write_stats-keeps}
use secwager.VendorRefdata.NflResults.{
  NflResults, NflDetail, NflPlayerAccum, write_nfl_player, fetch_nfl_player_stats, finish_nfl_game,
  fetch_nfl_game_result, fetch_nfl_results, accum_teams, nfl_to_write,
}

module _ (go : GoText) (order : MapOrder) (faults : StoreFaults) (P : String → Type 0)
    (R : Tables → Tables → Type 0) (u : Respects faults P R) where
  write_nfl_player-keeps :
      (game_id : String)
      → P game_id
      → (a : ℕ × NflPlayerAccum) (t : Tables)
      → Ends R t (write_nfl_player go order faults game_id a t)
  unfolding write_nfl_player
  write_nfl_player-keeps game_id h (id, a) t =
      elim (Option-cases (lookup_player_by_external faults nfl_vendor (itoa id) t)) [
        | inl lost ↦ rw (lost, write_nfl_player) (Ends-failed R u.same u.chain t)
        | inr (none, found) ↦ rw (found, write_nfl_player) (Ends-done R u.same u.chain t)
        | inr (some p, found) ↦
            rw (found, write_nfl_player)
              (write_stats-keeps order faults P R u game_id p.id (nfl_to_write a) t h)
      ]

  fetch_nfl_player_stats-keeps :
      (client : NflResults) (game_id external_id : String)
      → P game_id
      → (t : Tables)
      → Ends R t (fetch_nfl_player_stats go order faults client game_id external_id t)
  unfolding fetch_nfl_player_stats
  fetch_nfl_player_stats-keeps client game_id external_id h t =
      elim (Option-cases (client.player_stats external_id)) [
        | inl gone ↦ rw (gone, fetch_nfl_player_stats) (Ends-failed R u.same u.chain t)
        | inr (teams, reply) ↦
            rw (reply, fetch_nfl_player_stats)
              (each_or_fail-keeps R u.same u.chain (write_nfl_player go order faults game_id)
                (write_nfl_player-keeps game_id h) (order.walk (accum_teams go teams [])) t)
      ]

  finish_nfl_game-keeps :
      (client : NflResults) (g : GameRecord)
      → P g.id
      → (d : NflDetail) (t : Tables) → Ends R t (finish_nfl_game go order faults client g d t)
  unfolding finish_nfl_game
  finish_nfl_game-keeps client g h d t = elim (Bool-cases (str_eq d.status_short "FT")) [
    | inl over ↦ rw over (
        logged-keeps R u.same u.chain t _ _
          (fetch_nfl_player_stats-keeps client g.id g.external_id h t)
          (u.final g.id (coerce_nil d.home_total) (coerce_nil d.away_total) h))
    | inr running ↦ rw running (Ends-done R u.same u.chain t)
  ]

  fetch_nfl_game_result-keeps :
      (client : NflResults) (g : GameRecord)
      → P g.id
      → (t : Tables) → Ends R t (fetch_nfl_game_result go order faults client g t)
  unfolding fetch_nfl_game_result
  fetch_nfl_game_result-keeps client g h t = elim (Option-cases (client.detail g.external_id)) [
    | inl gone ↦ rw (gone, fetch_nfl_game_result) (Ends-failed R u.same u.chain t)
    | inr ([], reply) ↦ rw (reply, fetch_nfl_game_result) (Ends-done R u.same u.chain t)
    | inr (d ∷ ds, reply) ↦ rw (reply, fetch_nfl_game_result) (finish_nfl_game-keeps client g h d t)
  ]

  nfl_game-keeps :
      (client : NflResults) (g : GameRecord)
      → P g.id
      → (t : Tables)
      → Ends R t
          (if g.league_id == nfl then fetch_nfl_game_result go order faults client g t else done t)
  nfl_game-keeps client g h t = elim (Bool-cases (g.league_id == nfl)) [
    | inl its ↦ rw its (fetch_nfl_game_result-keeps client g h t)
    | inr other ↦ rw other (Ends-done R u.same u.chain t)
  ]

  pub fetch_nfl_results-keeps :
      (client : NflResults) (games : List GameRecord)
      → All (λ g. P g.id) games
      → (t : Tables) → Ends R t (fetch_nfl_results go order faults client games t)
  unfolding fetch_nfl_results
  fetch_nfl_results-keeps client games hs t =
      each-keeps R u.same u.chain _ games (All-map (nfl_game-keeps client) games hs) t
