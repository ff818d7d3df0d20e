-- ===== src/VendorRefdata/Populating/Soccer.antt =====
-- What the fetches of vendor_refdata/internal/soccer.go keep.
use secwager.VendorRefdata.Store.{upsert_season}
use secwager.VendorRefdata.Preserving.{
  Ends, Ends-unfinished, Ends-done, Ends-failed, and_then-keeps, logged-keeps, Ends-panicked,
}
use secwager.Prelude.{
  ℕ, String, refl, ◌∷◌, leb, inr, ◌||◌, str_eq, zero, Option-cases, Bool-cases, suc, [], inl, List,
}
use secwager.VendorRefdata.Tables.{Tables, StoreFaults}
use secwager.VendorRefdata.Mapping.{
  GoText, soccer_league_map, lookup_name, make_player_id, soccer_player_list_position_map,
  code_by_id, no_codes,
}
use secwager.VendorRefdata.Populating.{Upholds, each_always, teams-keeps}
use secwager.VendorRefdata.Soccer.{
  SoccerClient, SoccerPlayer, Fixture, fetch_soccer_ref_data, fetch_pages, store_soccer_player,
  store_placed, store_fixture, fetch_fixtures, fixture_record, soccer_player_record, soccer_vendor,
  store_first, store_listed,
}

module _ (go : GoText) (faults : StoreFaults) (R : Tables → Tables → Type 0)
    (u : Upholds faults R) where
  store_placed-keeps :
      (league : ℕ) (code : String) (place : ℕ) (p : SoccerPlayer) (t : Tables)
      → Ends R t (store_placed go faults league code place p t)
  unfolding store_placed
  store_placed-keeps league code place p t = elim (Bool-cases (str_eq code "")) [
    | inl unknown ↦ rw unknown (Ends-done R u.same u.chain t)
    | inr known ↦ elim (Option-cases (make_player_id go league code p.name)) [
      | inl blank ↦ rw (known, blank) (Ends-panicked R u.same u.chain t)
      | inr (id, named) ↦
          rw (known, named) (u.player (soccer_player_record go faults league code id place p) t)
    ]
  ]

  store_listed-keeps :
      (league : ℕ) (codes : ℕ → String) (p : SoccerPlayer) (team_id : ℕ) (position : String)
      (t : Tables)
      → Ends R t (store_listed go faults league codes p team_id position t)
  unfolding store_listed
  store_listed-keeps league codes p team_id position t =
      elim (Option-cases (lookup_name soccer_player_list_position_map position)) [
        | inl gone ↦ rw (gone, store_listed) (Ends-done R u.same u.chain t)
        | inr (place, there) ↦
            rw (there, store_listed) (store_placed-keeps league (codes team_id) place p t)
      ]

  store_first-keeps :
      (league : ℕ) (codes : ℕ → String) (p : SoccerPlayer) (statistics : List (ℕ × String))
      (t : Tables)
      → Ends R t (store_first go faults league codes p statistics t)
  unfolding store_first
  store_first-keeps league codes p [] t = Ends-done R u.same u.chain t
  store_first-keeps league codes p ((team_id, position) ∷ statistics) t =
      store_listed-keeps league codes p team_id position t

  store_soccer_player-keeps :
      (league : ℕ) (codes : ℕ → String) (p : SoccerPlayer) (t : Tables)
      → Ends R t (store_soccer_player go faults league codes p t)
  unfolding store_soccer_player
  store_soccer_player-keeps league codes p = store_first-keeps league codes p p.statistics

  fetch_pages-keeps :
      (fuel : ℕ) (client : SoccerClient) (league_id league : ℕ) (codes : ℕ → String) (page : ℕ)
      (t : Tables)
      → Ends R t (fetch_pages go faults fuel client league_id league codes page t)
  unfolding fetch_pages
  fetch_pages-keeps zero client league_id league codes page t = Ends-unfinished R u.same u.chain t
  fetch_pages-keeps (suc fuel) client league_id league codes page t =
      elim (Option-cases (client.players league_id page)) [
        | inl gone ↦ rw (gone, fetch_pages) (Ends-failed R u.same u.chain t)
        | inr (reply, got) ↦
            rw (got, fetch_pages)
              (logged-keeps R u.same u.chain t _ _
                (each_always faults R u (store_soccer_player go faults league codes)
                  (store_soccer_player-keeps league codes) reply.players t)
                (λ t. elim (Bool-cases (leb reply.total reply.current)) [
                  | inl last ↦ rw last (Ends-done R u.same u.chain t)
                  | inr more ↦
                      rw more (fetch_pages-keeps fuel client league_id league codes (suc page) t)
                ]))
      ]

  store_fixture-keeps :
      (league year : ℕ) (codes : ℕ → String) (f : Fixture) (t : Tables)
      → Ends R t (store_fixture go faults league year codes f t)
  unfolding store_fixture fixture_record
  store_fixture-keeps league year codes f t =
      elim (Bool-cases (str_eq (codes f.home_id) "" || str_eq (codes f.away_id) "")) [
        | inl unknown ↦ rw unknown (Ends-done R u.same u.chain t)
        | inr known ↦ rw known (
            u.game (fixture_record go faults league year (codes f.home_id) (codes f.away_id) f) refl
              t)
      ]

  fetch_fixtures-keeps :
      (client : SoccerClient) (league_id league year : ℕ) (codes : ℕ → String) (t : Tables)
      → Ends R t (fetch_fixtures go faults client league_id league year codes t)
  unfolding fetch_fixtures
  fetch_fixtures-keeps client league_id league year codes t =
      elim (Option-cases (client.fixtures league_id)) [
        | inl gone ↦ rw (gone, fetch_fixtures) (Ends-failed R u.same u.chain t)
        | inr (fixtures, reply) ↦
            rw (reply, fetch_fixtures)
              (each_always faults R u (store_fixture go faults league year codes)
                (store_fixture-keeps league year codes) fixtures t)
      ]

  pub fetch_soccer_ref_data-keeps :
      (fuel : ℕ) (client : SoccerClient) (year league_id : ℕ) (t : Tables)
      → Ends R t (fetch_soccer_ref_data go faults fuel client year league_id t)
  unfolding fetch_soccer_ref_data
  fetch_soccer_ref_data-keeps fuel client year league_id t =
      elim (Option-cases (soccer_league_map league_id)) [
        | inl unknown ↦ rw (unknown, fetch_soccer_ref_data) (Ends-failed R u.same u.chain t)
        | inr (league, known) ↦
            rw (known, fetch_soccer_ref_data)
              (and_then-keeps R u.same u.chain t (upsert_season faults league year t) _
                (u.season league year t)
                (λ t. elim (Option-cases (client.teams league_id)) [
                  | inl gone ↦ rw gone (Ends-failed R u.same u.chain t)
                  | inr (teams, reply) ↦
                      let codes = code_by_id teams no_codes in
                      rw reply (
                        logged-keeps R u.same u.chain t _ _
                          (teams-keeps go faults R u league soccer_vendor teams t)
                          (λ t.
                            and_then-keeps R u.same u.chain t _ _
                              (fetch_pages-keeps fuel client league_id league codes 1 t)
                              (fetch_fixtures-keeps client league_id league year codes)))
                ]))
      ]
