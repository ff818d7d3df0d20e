-- ===== src/VendorRefdata/Paging.antt =====
-- The loop over the pages of vendor_refdata/internal/soccer.go comes to an end.
use secwager.VendorRefdata.Identities.{insert_player-cases}
use secwager.VendorRefdata.Runs.{Run, and_then, each, logged, unfinished, done, failed, panicked}
use secwager.VendorRefdata.Store.{
  insert_from, upsert_player, suffixed, upsert_team, upsert_season, upsert_game,
}
use secwager.Prelude.{
  ℕ, String, List, ◌≡◌, ◌≤◌, ◌<◌, arith, some, false, [], ◌∷◌, inl, inr, leb, ◌+◌, Bool-cases, true,
  refl, zero, Option-cases, str_eq, Bool, suc,
}
use secwager.VendorRefdata.Tables.{Tables, StoreFaults, PlayerRecord}
use secwager.VendorRefdata.Mapping.{
  GoText, VendorTeam, make_player_id, lookup_name, soccer_player_list_position_map,
  soccer_league_map, team_record, code_by_id, no_codes,
}
use secwager.VendorRefdata.Soccer.{
  SoccerClient, SoccerPlayer, PlayersPage, Fixture, fetch_soccer_ref_data, fetch_pages,
  store_placed, store_first, fetch_fixtures, store_listed, store_soccer_player,
  soccer_player_record, store_fixture, soccer_vendor,
}

-- The fuel of the model was enough.
abbrev pub is_finished : Run → Bool
is_finished (unfinished t) = false
is_finished _ = true

-- What the vendor documents of its pages: each says its own number, and there are at most `pages`.
abbrev pub IsPaged : SoccerClient → (league_id pages : ℕ) → Type 0
IsPaged client league_id pages =
    (page : ℕ) (reply : PlayersPage)
    → client.players league_id page ≡ some reply
    → (reply.current ≡ page) × (reply.total ≤ pages)

logged_finished :
    (r : Run) (k : Tables → Run)
    → is_finished r ≡ true
    → ((t : Tables) → is_finished (k t) ≡ true)
    → is_finished (logged r k) ≡ true
unfolding logged
logged_finished (done t) k h next = next t
logged_finished (failed t) k h next = next t
logged_finished (panicked t) k h next = refl
logged_finished (unfinished t) k h next = h

and_then_finished :
    (r : Run) (k : Tables → Run)
    → is_finished r ≡ true
    → ((t : Tables) → is_finished (k t) ≡ true)
    → is_finished (and_then r k) ≡ true
unfolding and_then
and_then_finished (done t) k h next = next t
and_then_finished (failed t) k h next = refl
and_then_finished (panicked t) k h next = refl
and_then_finished (unfinished t) k h next = h

each_finished :
    {A : Type 0} (f : A → Tables → Run)
    → ((x : A) (t : Tables) → is_finished (f x t) ≡ true)
    → (xs : List A) (t : Tables) → is_finished (each f xs t) ≡ true
unfolding each
each_finished f h [] t = refl
each_finished f h (x ∷ xs) t = logged_finished (f x t) (each f xs) (h x t) (each_finished f h xs)

module _ (go : GoText) (faults : StoreFaults) where
  insert_from_finished :
      (left suffix : ℕ) (p : PlayerRecord) (t : Tables)
      → is_finished (insert_from faults left suffix p t) ≡ true
  unfolding insert_from
  insert_from_finished zero suffix p t = refl
  insert_from_finished (suc left) suffix p t =
      elim (insert_player-cases faults (record p { id = suffixed p.id suffix }) t) [
        | inl e ↦ rw (e, insert_from) refl
        | inr (inl e) ↦ rw (e, insert_from) (insert_from_finished left (suc suffix) p t)
        | inr (inr e) ↦ rw (e, insert_from) refl
      ]

  upsert_player_finished :
      (p : PlayerRecord) (t : Tables) → is_finished (upsert_player faults p t) ≡ true
  unfolding upsert_player
  upsert_player_finished p t = ground (arith, insert_from_finished 11 0 p t)

  store_placed_finished :
      (league : ℕ) (code : String) (place : ℕ) (p : SoccerPlayer) (t : Tables)
      → is_finished (store_placed go faults league code place p t) ≡ true
  unfolding store_placed
  store_placed_finished league code place p t = elim (Bool-cases (str_eq code "")) [
    | inl unknown ↦ rw unknown refl
    | inr known ↦ elim (Option-cases (make_player_id go league code p.name)) [
      | inl blank ↦ rw (known, blank) refl
      | inr (id, named) ↦
          rw (known, named)
            (upsert_player_finished (soccer_player_record go faults league code id place p) t)
    ]
  ]

  store_first_finished :
      (league : ℕ) (codes : ℕ → String) (p : SoccerPlayer) (statistics : List (ℕ × String))
      (t : Tables)
      → is_finished (store_first go faults league codes p statistics t) ≡ true
  unfolding store_first store_listed
  store_first_finished league codes p [] t = refl
  store_first_finished league codes p ((team_id, position) ∷ statistics) t =
      elim (Option-cases (lookup_name soccer_player_list_position_map position)) [
        | inl gone ↦ rw (gone, store_listed) refl
        | inr (place, there) ↦
            rw (there, store_listed) (store_placed_finished league (codes team_id) place p t)
      ]

  fetch_pages_finished :
      (client : SoccerClient) (league_id league pages : ℕ) (codes : ℕ → String)
      → IsPaged client league_id pages
      → (fuel page : ℕ) (t : Tables) → 0 < fuel
      → pages < fuel + page
      → is_finished (fetch_pages go faults fuel client league_id league codes page t) ≡ true
  unfolding fetch_pages store_soccer_player
  fetch_pages_finished client league_id league pages codes paged zero page t some_fuel enough =
      absurd (omega arith)
  fetch_pages_finished client league_id league pages codes paged (suc fuel) page t some_fuel
        enough =
      elim (Option-cases (client.players league_id page)) [
        | inl gone ↦ rw (gone, fetch_pages) refl
        | inr (reply, got) ↦
            let (here, few) = paged page reply got in
            rw (got, fetch_pages)
              (logged_finished _ _
                (each_finished (store_soccer_player go faults league codes)
                  (λ p. store_first_finished league codes p p.statistics) reply.players t)
                (λ t. elim (Bool-cases (leb reply.total reply.current)) [
                  | inl last ↦ rw last refl
                  | inr more ↦ rw more (
                      fetch_pages_finished client league_id league pages codes paged fuel (suc page)
                        t (ground (arith, more, here, few, enough))
                        (ground (arith, more, here, few, enough)))
                ]))
      ]

  store_fixture_finished :
      (league year : ℕ) (codes : ℕ → String) (f : Fixture) (t : Tables)
      → is_finished (store_fixture go faults league year codes f t) ≡ true
  unfolding store_fixture upsert_game
  store_fixture_finished league year codes f t = ground arith

  upsert_season_finished :
      (league year : ℕ) (t : Tables) → is_finished (upsert_season faults league year t) ≡ true
  unfolding upsert_season
  upsert_season_finished league year t = ground arith

  team_finished :
      (league : ℕ) (r : VendorTeam) (t : Tables)
      → is_finished (upsert_team faults (team_record go league soccer_vendor r) t) ≡ true
  unfolding upsert_team
  team_finished league r t = ground arith

  fetch_fixtures_finished :
      (client : SoccerClient) (league_id league year : ℕ) (codes : ℕ → String) (t : Tables)
      → is_finished (fetch_fixtures go faults client league_id league year codes t) ≡ true
  unfolding fetch_fixtures
  fetch_fixtures_finished client league_id league year codes t =
      elim (Option-cases (client.fixtures league_id)) [
        | inl gone ↦ rw (gone, fetch_fixtures) refl
        | inr (fixtures, reply) ↦
            rw (reply, fetch_fixtures)
              (each_finished (store_fixture go faults league year codes)
                (store_fixture_finished league year codes) fixtures t)
      ]

  -- If every page of the vendor's list of players says its own number, and no page says more than `pages`
  -- in all, the fetch of a league comes to an end within one page more than that.
  pub fetch_soccer_ref_data_finished :
      (client : SoccerClient) (year league_id pages : ℕ)
      → IsPaged client league_id pages
      → (t : Tables)
      → is_finished (fetch_soccer_ref_data go faults (suc pages) client year league_id t) ≡ true
  unfolding fetch_soccer_ref_data
  fetch_soccer_ref_data_finished client year league_id pages paged t =
      elim (Option-cases (soccer_league_map league_id)) [
        | inl unknown ↦ rw (unknown, fetch_soccer_ref_data) refl
        | inr (league, known) ↦
            rw (known, fetch_soccer_ref_data)
              (and_then_finished (upsert_season faults league year t) _
                (upsert_season_finished league year t)
                (λ t. elim (Option-cases (client.teams league_id)) [
                  | inl gone ↦ rw gone refl
                  | inr (teams, reply) ↦
                      let codes = code_by_id teams no_codes in
                      rw reply (
                        logged_finished _ _ (each_finished _ (team_finished league) teams t) (λ t.
                          and_then_finished _ _
                            (fetch_pages_finished client league_id league pages codes paged
                              (suc pages) 1 t (omega arith) (omega arith))
                            (fetch_fixtures_finished client league_id league year codes)))
                ]))
      ]
