-- ===== src/VendorRefdata/Guarding.antt =====
-- The upserts of reference data in vendor_refdata/internal/store.go keep the keys of the tables.
use secwager.VendorRefdata.Rows.{map-update_rows}
use secwager.VendorRefdata.Integrity.{
  StaysIntact, StaysIntact-refl, with_teams, with_games, add_player, with_players, All-update_rows,
  add_team, among, team_ids, among-map, add_game,
}
use secwager.VendorRefdata.Preserving.{Ends}
use secwager.VendorRefdata.Tables.{
  StoreFaults, TeamRecord, PlayerRecord, GameRecord, Tables, select_row, season_known, same_game,
  same_team, player_known, same_player, league_known, team_known, game_known,
}
use mathlib.Core.Path.{sym}
use secwager.VendorRefdata.Store.{
  insert_from, upsert_team, upsert_game, upsert_player, upsert_season, insert_player, suffixed,
  renamed, retimed, transferred, game_refers, unscored,
}
use secwager.Prelude.{
  ℕ, refl, arith, str_eq, inr, Bool-cases, zero, suc, ◌∙◌, Option-cases, true, inl, any, ◌≡◌,
}

module _ (faults : StoreFaults) where
  pub upsert_season-StaysIntact :
      (league year : ℕ) (t : Tables) → Ends StaysIntact t (upsert_season faults league year t)
  unfolding upsert_season Ends
  upsert_season-StaysIntact league year t = elim (Bool-cases faults.season_fails) [
    | inl fails ↦ rw fails (StaysIntact-refl t)
    | inr fine ↦ elim (Bool-cases (season_known league year t)) [
      | inl known ↦ rw (fine, known) (StaysIntact-refl t)
      | inr new ↦ elim (Bool-cases (league_known league t)) [
        | inl there ↦
            rw (fine, new, there)
              (λ h. record {
                team_keys = h.team_keys;
                player_keys = h.player_keys;
                game_keys = h.game_keys;
                player_teams = h.player_teams;
                game_teams = h.game_teams;
                stat_games = h.stat_games;
                stat_players = h.stat_players;
              })
        | inr gone ↦ rw (fine, new, gone) (StaysIntact-refl t)
      ]
    ]
  ]

  pub upsert_team-StaysIntact :
      (r : TeamRecord) (t : Tables) → Ends StaysIntact t (upsert_team faults r t)
  unfolding upsert_team Ends
  upsert_team-StaysIntact r t = elim (Bool-cases (faults.team_fails r.external_id)) [
    | inl fails ↦ rw fails (StaysIntact-refl t)
    | inr fine ↦ elim (Bool-cases (any (same_team r) t.teams)) [
      | inl old ↦
          rw (fine, old)
            (with_teams t _
              (map-update_rows (same_team r) (renamed r) (λ x. x.id) (λ x. refl) t.teams))
      | inr new ↦ elim (Bool-cases (team_known r.id t)) [
        | inl known ↦ rw (fine, new, known) (StaysIntact-refl t)
        | inr fresh ↦ elim (Bool-cases (league_known r.league_id t)) [
          | inl there ↦ rw (fine, new, fresh, there) (add_team t r fresh)
          | inr gone ↦ rw (fine, new, fresh, gone) (StaysIntact-refl t)
        ]
      ]
    ]
  ]

  insert_from-StaysIntact :
      (left suffix : ℕ) (p : PlayerRecord) (t : Tables)
      → Ends StaysIntact t (insert_from faults left suffix p t)
  unfolding insert_from insert_player Ends
  insert_from-StaysIntact zero suffix p t = StaysIntact-refl t
  insert_from-StaysIntact (suc left) suffix p t =
      let q : PlayerRecord = record p { id = suffixed p.id suffix } in
      let rest = insert_from-StaysIntact left (suc suffix) p t in
      elim (Bool-cases (faults.player_write_fails p.external_id)) [
        | inl fails ↦ rw (insert_from, insert_player, fails) (StaysIntact-refl t)
        | inr fine ↦ elim (Bool-cases (player_known q.id t)) [
          | inl known ↦ rw (insert_from, insert_player, fine, known) rest
          | inr fresh ↦ elim (Bool-cases (any (same_player q) t.players)) [
            | inl twice ↦ rw (insert_from, insert_player, fine, fresh, twice) (StaysIntact-refl t)
            | inr once ↦ elim (Bool-cases (team_known p.team_id t)) [
              | inl placed ↦
                  rw (insert_from, insert_player, fine, fresh, once, placed)
                    (add_player t q fresh placed)
              | inr lost ↦
                  rw (insert_from, insert_player, fine, fresh, once, lost) (StaysIntact-refl t)
            ]
          ]
        ]
      ]

  pub upsert_player-StaysIntact :
      (p : PlayerRecord) (t : Tables) → Ends StaysIntact t (upsert_player faults p t)
  unfolding upsert_player Ends
  upsert_player-StaysIntact p t = elim (Bool-cases (faults.player_lookup_fails p.external_id)) [
    | inl lost ↦ rw lost (StaysIntact-refl t)
    | inr fine ↦ elim (Option-cases (select_row (same_player p) t.players)) [
      | inl new ↦ rw (fine, new) (insert_from-StaysIntact 11 0 p t)
      | inr (r, old) ↦ elim (Bool-cases (faults.player_write_fails p.external_id)) [
        | inl fails ↦ rw (fine, old, fails) (StaysIntact-refl t)
        | inr works ↦ elim (Bool-cases (team_known p.team_id t)) [
          | inr lost ↦ rw (fine, old, works, lost) (StaysIntact-refl t)
          | inl placed ↦
              rw (fine, old, works, placed)
                (with_players t _
                  (map-update_rows (λ x. str_eq x.id r.id) (transferred p) (λ x. x.id) (λ x. refl)
                    t.players)
                  (λ h.
                    All-update_rows (λ q. among (team_ids t) q.team_id ≡ true)
                      (λ x. str_eq x.id r.id) (transferred p) t.players
                      (λ q k. sym (among-map (λ r. r.id) t.teams p.team_id) ∙ placed)
                      h.player_teams))
        ]
      ]
    ]
  ]

  pub upsert_game-StaysIntact :
      (g : GameRecord) (t : Tables) → Ends StaysIntact t (upsert_game faults g t)
  unfolding upsert_game Ends
  upsert_game-StaysIntact g t = elim (Bool-cases (faults.game_fails g.external_id)) [
    | inl fails ↦ rw fails (StaysIntact-refl t)
    | inr fine ↦ elim (Bool-cases (any (same_game g) t.games)) [
      | inl old ↦
          rw (fine, old)
            (with_games t _
              (map-update_rows (same_game g) (retimed g) (λ x. x.id) (λ x. refl) t.games)
              (λ h. All-update_rows _ (same_game g) (retimed g) t.games (λ r k. k) h.game_teams))
      | inr new ↦ elim (Bool-cases (game_known g.id t)) [
        | inl known ↦ rw (fine, new, known) (StaysIntact-refl t)
        | inr fresh ↦ elim (Bool-cases (game_refers g t)) [
          | inl refers ↦
              rw (fine, new, fresh, refers)
                (add_game t (unscored g) fresh (ground (arith, refers)) (ground (arith, refers)))
          | inr dangling ↦ rw (fine, new, fresh, dangling) (StaysIntact-refl t)
        ]
      ]
    ]
  ]
