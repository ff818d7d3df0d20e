-- ===== src/VendorRefdata/Populating/Nfl.antt =====
-- What the fetches of vendor_refdata/internal/nfl.go keep.
use secwager.VendorRefdata.Store.{upsert_season}
use secwager.Prelude.Int.{leb_ℤ, pos}
use secwager.VendorRefdata.Preserving.{
  Ends, Ends-done, and_then-keeps, Ends-failed, logged-keeps, Ends-panicked,
}
use secwager.Prelude.{ℕ, String, ◌&&◌, inr, Option-cases, refl, inl, Bool-cases, str_eq, ◌||◌}
use secwager.VendorRefdata.Tables.{Tables, StoreFaults}
use secwager.VendorRefdata.Mapping.{
  GoText, VendorTeam, lookup_name, nfl_position_map, nfl, make_player_id, code_by_id, no_codes,
}
use secwager.VendorRefdata.Populating.{Upholds, each_always, teams-keeps}
use secwager.VendorRefdata.Nfl.{
  NflClient, NflPlayer, NflGame, store_nfl_player, store_nfl_game, fetch_nfl_week, fetch_nfl_roster,
  fetch_nfl_ref_data, nfl_game_record, nfl_player_record, nfl_vendor, count_from,
}

module _ (go : GoText) (faults : StoreFaults) (R : Tables → Tables → Type 0)
    (u : Upholds faults R) where
  store_nfl_player-keeps :
      (code : String) (p : NflPlayer) (t : Tables) → Ends R t (store_nfl_player go faults code p t)
  unfolding store_nfl_player
  store_nfl_player-keeps code p t = elim (Option-cases (lookup_name nfl_position_map p.position)) [
    | inl gone ↦ rw (gone, store_nfl_player) (Ends-done R u.same u.chain t)
    | inr (place, there) ↦ elim (Option-cases (make_player_id go nfl code p.name)) [
      | inl blank ↦ rw (there, store_nfl_player, blank) (Ends-panicked R u.same u.chain t)
      | inr (id, named) ↦
          rw (there, store_nfl_player, named)
            (u.player (nfl_player_record go faults code id place p) t)
    ]
  ]

  fetch_nfl_roster-keeps :
      (client : NflClient) (r : VendorTeam) (t : Tables)
      → Ends R t (fetch_nfl_roster go faults client r t)
  unfolding fetch_nfl_roster
  fetch_nfl_roster-keeps client r t = elim (Option-cases (client.players r.id)) [
    | inl gone ↦ rw (gone, fetch_nfl_roster) (Ends-failed R u.same u.chain t)
    | inr (players, reply) ↦
        rw (reply, fetch_nfl_roster)
          (each_always faults R u (store_nfl_player go faults r.code)
            (store_nfl_player-keeps r.code) players t)
  ]

  store_nfl_game-keeps :
      (year : ℕ) (codes : ℕ → String) (g : NflGame) (t : Tables)
      → Ends R t (store_nfl_game go faults year codes g t)
  unfolding store_nfl_game nfl_game_record
  store_nfl_game-keeps year codes g t =
      elim (Bool-cases (str_eq (codes g.home_id) "" || str_eq (codes g.away_id) "")) [
        | inl unknown ↦ rw unknown (Ends-done R u.same u.chain t)
        | inr known ↦ elim (Bool-cases (leb_ℤ g.timestamp (pos 0) && leb_ℤ (pos 0) g.timestamp)) [
          | inl undated ↦ rw (known, undated) (Ends-done R u.same u.chain t)
          | inr dated ↦
              rw (known, dated)
                (u.game (nfl_game_record go faults year (codes g.home_id) (codes g.away_id) g) refl
                  t)
        ]
      ]

  fetch_nfl_week-keeps :
      (client : NflClient) (year : ℕ) (codes : ℕ → String) (week : ℕ) (t : Tables)
      → Ends R t (fetch_nfl_week go faults client year codes week t)
  unfolding fetch_nfl_week
  fetch_nfl_week-keeps client year codes week t = elim (Option-cases (client.games week)) [
    | inl gone ↦ rw (gone, fetch_nfl_week) (Ends-failed R u.same u.chain t)
    | inr (games, reply) ↦
        rw (reply, fetch_nfl_week)
          (each_always faults R u (store_nfl_game go faults year codes)
            (store_nfl_game-keeps year codes) games t)
  ]

  pub fetch_nfl_ref_data-keeps :
      (client : NflClient) (year : ℕ) (t : Tables)
      → Ends R t (fetch_nfl_ref_data go faults client year t)
  unfolding fetch_nfl_ref_data
  fetch_nfl_ref_data-keeps client year t =
      and_then-keeps R u.same u.chain t (upsert_season faults nfl year t) _ (u.season nfl year t)
        (λ t. elim (Option-cases client.teams) [
          | inl gone ↦ rw gone (Ends-failed R u.same u.chain t)
          | inr (teams, reply) ↦ rw reply (
              logged-keeps R u.same u.chain t _ _ (teams-keeps go faults R u nfl nfl_vendor teams t)
                (λ t.
                  logged-keeps R u.same u.chain t _ _
                    (each_always faults R u (fetch_nfl_roster go faults client)
                      (fetch_nfl_roster-keeps client) teams t)
                    (each_always faults R u
                      (fetch_nfl_week go faults client year (code_by_id teams no_codes))
                      (fetch_nfl_week-keeps client year (code_by_id teams no_codes))
                      (count_from go faults 1 22))))
        ])
