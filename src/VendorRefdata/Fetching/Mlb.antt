-- ===== src/VendorRefdata/Fetching/Mlb.antt =====
-- What the fetches of vendor_refdata/internal/mlbresults.go keep.
use secwager.VendorRefdata.Runs.{each}
use secwager.VendorRefdata.Store.{lookup_player_by_external}
use secwager.VendorRefdata.Preserving.{
  Ends, Ends-done, Ends-failed, each_or_fail-keeps, and_then-keeps, logged-keeps,
}
use mathlib.Core.Path.{subst}
use mathlib.Core.Option.{some-injective}
use secwager.Prelude.{
  ℕ, String, List, All, ◌≡◌, inr, some, str_eq, [], if◌then◌else◌, put, inl, ◌==◌, Bool-cases, none,
  refl, itoa, Option-cases, ◌∷◌, Option, arith,
}
use secwager.VendorRefdata.Tables.{Tables, StoreFaults, GameRecord}
use secwager.VendorRefdata.Mapping.{MapOrder, mlb}
use secwager.VendorRefdata.Fetching.{each_always, Respects, write_stats-keeps}
use secwager.VendorRefdata.Mlb.{MlbGame, mlb_vendor}
use secwager.VendorRefdata.MlbResults.{
  MlbResults, MlbBoxscorePlayer, write_mlb_player, fetch_mlb_boxscore, pk_to_game, write_batting,
  fetch_mlb_results, finish_mlb_game, write_pitching, pks_of, has_pitching_stats, has_batting_stats,
  no_games,
}

-- What holds of the id of every game holds of the id of every game of the map.
pk_to_game-All :
    (P : String → Type 0) (games : List GameRecord) (m : String → Option GameRecord)
    → All (λ g. P g.id) games
    → ((pk : String) (g : GameRecord) → m pk ≡ some g → P g.id)
    → (pk : String) (g : GameRecord) → pk_to_game games m pk ≡ some g
    → P g.id
unfolding pk_to_game
pk_to_game-All P [] m hs old = old
pk_to_game-All P (x ∷ games) m hs old =
    pk_to_game-All P games (if x.league_id == mlb then put m x.external_id (some x) else m) hs.1
      (λ pk g e. elim (Bool-cases (x.league_id == mlb)) [
        | inl its ↦ elim (Bool-cases (str_eq pk x.external_id)) [
          | inl here ↦ subst (λ y. P y.id) (some-injective _ _ (rw (its, here) at e)) hs.0
          | inr there ↦ old pk g (rw (its, there) at e)
        ]
        | inr other ↦ old pk g (rw other at e)
      ])

module _ (order : MapOrder) (faults : StoreFaults) (P : String → Type 0)
    (R : Tables → Tables → Type 0) (u : Respects faults P R) where
  write_batting-keeps :
      (game_id player_id : String)
      → P game_id
      → (p : MlbBoxscorePlayer) (t : Tables)
      → Ends R t (write_batting order faults game_id player_id p t)
  unfolding write_batting
  write_batting-keeps game_id player_id h p t = elim (Bool-cases (has_batting_stats p)) [
    | inl some_of ↦ rw some_of (write_stats-keeps order faults P R u game_id player_id _ t h)
    | inr none_of ↦ rw none_of (Ends-done R u.same u.chain t)
  ]

  write_pitching-keeps :
      (game_id player_id : String)
      → P game_id
      → (p : MlbBoxscorePlayer) (t : Tables)
      → Ends R t (write_pitching order faults game_id player_id p t)
  unfolding write_pitching
  write_pitching-keeps game_id player_id h p t = elim (Bool-cases (has_pitching_stats p)) [
    | inl some_of ↦ rw some_of (write_stats-keeps order faults P R u game_id player_id _ t h)
    | inr none_of ↦ rw none_of (Ends-done R u.same u.chain t)
  ]

  write_mlb_player-keeps :
      (game_id : String)
      → P game_id
      → (p : MlbBoxscorePlayer) (t : Tables) → Ends R t (write_mlb_player order faults game_id p t)
  unfolding write_mlb_player
  write_mlb_player-keeps game_id h p t =
      elim (Option-cases (lookup_player_by_external faults mlb_vendor (itoa p.id) t)) [
        | inl lost ↦ rw (lost, write_mlb_player) (Ends-failed R u.same u.chain t)
        | inr (none, found) ↦ rw (found, write_mlb_player) (Ends-done R u.same u.chain t)
        | inr (some r, found) ↦
            rw (found, write_mlb_player)
              (logged-keeps R u.same u.chain t _ _ (write_batting-keeps game_id r.id h p t)
                (write_pitching-keeps game_id r.id h p))
      ]

  fetch_mlb_boxscore-keeps :
      (client : MlbResults) (game_id : String)
      → P game_id
      → (game_pk : ℕ) (t : Tables)
      → Ends R t (fetch_mlb_boxscore order faults client game_id game_pk t)
  unfolding fetch_mlb_boxscore
  fetch_mlb_boxscore-keeps client game_id h game_pk t =
      elim (Option-cases (client.boxscore game_pk)) [
        | inl gone ↦ rw (gone, fetch_mlb_boxscore) (Ends-failed R u.same u.chain t)
        | inr (box, reply) ↦
            rw (reply, fetch_mlb_boxscore)
              (each_or_fail-keeps R u.same u.chain _
                (λ players.
                  each_or_fail-keeps R u.same u.chain (write_mlb_player order faults game_id)
                    (write_mlb_player-keeps game_id h) (order.walk players))
                (box.home ∷ box.away ∷ []) t)
      ]

  finish_mlb_game-keeps :
      (client : MlbResults) (games : String → Option GameRecord)
      → ((pk : String) (g : GameRecord) → games pk ≡ some g → P g.id)
      → (sg : MlbGame) (t : Tables) → Ends R t (finish_mlb_game order faults client games sg t)
  unfolding finish_mlb_game
  finish_mlb_game-keeps client games known sg t =
      elim (Bool-cases (str_eq sg.detailed_state "Final")) [
        | inl over ↦ elim (Option-cases (games (itoa sg.game_pk))) [
          | inl gone ↦ rw (over, gone) (Ends-done R u.same u.chain t)
          | inr (g, there) ↦
              let h = known (itoa sg.game_pk) g there in
              rw (over, there)
                (and_then-keeps R u.same u.chain t _ _
                  (fetch_mlb_boxscore-keeps client g.id h sg.game_pk t)
                  (u.final g.id sg.home_score sg.away_score h))
        ]
        | inr running ↦ rw running (Ends-done R u.same u.chain t)
      ]

  pub fetch_mlb_results-keeps :
      (client : MlbResults) (games : List GameRecord)
      → All (λ g. P g.id) games
      → (t : Tables) → Ends R t (fetch_mlb_results order faults client games t)
  unfolding fetch_mlb_results
  fetch_mlb_results-keeps client games hs t = go_on (pks_of games) refl
    where
      go_on :
          (pks : List String)
          → pks_of games ≡ pks
          → Ends R t (fetch_mlb_results order faults client games t)
      go_on [] e = rw (e, fetch_mlb_results) (Ends-done R u.same u.chain t)
      go_on (pk ∷ pks) e = elim (Option-cases (client.status (pk ∷ pks))) [
        | inl gone ↦ rw (e, fetch_mlb_results, gone) (Ends-failed R u.same u.chain t)
        | inr (dates, reply) ↦
            let finish = finish_mlb_game order faults client (pk_to_game games no_games) in
            rw (e, fetch_mlb_results, reply)
              (each_always order faults P R u (each finish)
                (each_always order faults P R u finish (
                  finish_mlb_game-keeps client (pk_to_game games no_games)
                    (pk_to_game-All P games no_games hs (λ pk g e. ground (arith, e)))))
                dates t)
      ]
