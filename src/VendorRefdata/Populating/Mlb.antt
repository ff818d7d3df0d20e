-- ===== src/VendorRefdata/Populating/Mlb.antt =====
-- What the fetches of vendor_refdata/internal/mlb.go keep.
use secwager.VendorRefdata.Runs.{each}
use secwager.VendorRefdata.Store.{upsert_season}
use secwager.VendorRefdata.Preserving.{
  Ends, Ends-done, Ends-failed, and_then-keeps, logged-keeps, Ends-panicked,
}
use secwager.Prelude.{ℕ, String, ◌||◌, refl, Bool-cases, Option-cases, inr, str_eq, inl}
use secwager.VendorRefdata.Tables.{Tables, StoreFaults}
use secwager.VendorRefdata.Mapping.{
  GoText, VendorTeam, lookup_name, mlb_position_map, mlb, make_player_id, code_by_id, no_codes,
}
use secwager.VendorRefdata.Populating.{Upholds, each_always, teams-keeps}
use secwager.VendorRefdata.Mlb.{
  MlbClient, MlbPlayer, MlbGame, fetch_mlb_ref_data, store_mlb_player, fetch_mlb_roster,
  store_mlb_game, mlb_game_record, parse_iso8601_unix, mlb_player_record, mlb_vendor,
}

module _ (go : GoText) (faults : StoreFaults) (R : Tables → Tables → Type 0)
    (u : Upholds faults R) where
  store_mlb_player-keeps :
      (abbr : String) (p : MlbPlayer) (t : Tables) → Ends R t (store_mlb_player go faults abbr p t)
  unfolding store_mlb_player
  store_mlb_player-keeps abbr p t =
      elim (Option-cases (lookup_name mlb_position_map p.position_type)) [
        | inl gone ↦ rw (gone, store_mlb_player) (Ends-done R u.same u.chain t)
        | inr (place, there) ↦ elim (Option-cases (make_player_id go mlb abbr p.full_name)) [
          | inl blank ↦ rw (there, store_mlb_player, blank) (Ends-panicked R u.same u.chain t)
          | inr (id, named) ↦
              rw (there, store_mlb_player, named)
                (u.player (mlb_player_record go faults abbr id place p) t)
        ]
      ]

  fetch_mlb_roster-keeps :
      (client : MlbClient) (r : VendorTeam) (t : Tables)
      → Ends R t (fetch_mlb_roster go faults client r t)
  unfolding fetch_mlb_roster
  fetch_mlb_roster-keeps client r t = elim (Option-cases (client.roster r.id)) [
    | inl gone ↦ rw (gone, fetch_mlb_roster) (Ends-failed R u.same u.chain t)
    | inr (players, reply) ↦
        rw (reply, fetch_mlb_roster)
          (each_always faults R u (store_mlb_player go faults r.code)
            (store_mlb_player-keeps r.code) players t)
  ]

  store_mlb_game-keeps :
      (year : ℕ) (abbrs : ℕ → String) (g : MlbGame) (t : Tables)
      → Ends R t (store_mlb_game go faults year abbrs g t)
  unfolding store_mlb_game mlb_game_record
  store_mlb_game-keeps year abbrs g t =
      elim (Bool-cases (str_eq (abbrs g.home_id) "" || str_eq (abbrs g.away_id) "")) [
        | inl unknown ↦ rw unknown (Ends-done R u.same u.chain t)
        | inr known ↦ elim (Option-cases (parse_iso8601_unix go faults g.game_date)) [
          | inl garbled ↦ rw (known, garbled) (Ends-done R u.same u.chain t)
          | inr (ts, date) ↦
              rw (known, date)
                (u.game (mlb_game_record go faults year (abbrs g.home_id) (abbrs g.away_id) ts g)
                  refl t)
        ]
      ]

  pub fetch_mlb_ref_data-keeps :
      (client : MlbClient) (year : ℕ) (t : Tables)
      → Ends R t (fetch_mlb_ref_data go faults client year t)
  unfolding fetch_mlb_ref_data
  fetch_mlb_ref_data-keeps client year t =
      and_then-keeps R u.same u.chain t (upsert_season faults mlb year t) _ (u.season mlb year t)
        (λ t. elim (Option-cases client.teams) [
          | inl gone ↦ rw gone (Ends-failed R u.same u.chain t)
          | inr (teams, reply) ↦ rw reply (
              logged-keeps R u.same u.chain t _ _ (teams-keeps go faults R u mlb mlb_vendor teams t)
                (λ t.
                  logged-keeps R u.same u.chain t _ _
                    (each_always faults R u (fetch_mlb_roster go faults client)
                      (fetch_mlb_roster-keeps client) teams t)
                    (λ t. elim (Option-cases client.schedule) [
                      | inl gone ↦ rw gone (Ends-failed R u.same u.chain t)
                      | inr (dates, schedule) ↦
                          let codes = code_by_id teams no_codes in
                          rw schedule (
                            each_always faults R u (each (store_mlb_game go faults year codes))
                              (each_always faults R u (store_mlb_game go faults year codes)
                                (store_mlb_game-keeps year codes))
                              dates t)
                    ])))
        ])
