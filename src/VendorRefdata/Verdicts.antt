-- ===== src/VendorRefdata/Verdicts.antt =====
-- The verdict on a game in the tables of vendor_refdata/internal/store.go: its row, but for the times,
-- and its statistics. The statements that keep it once the game is final.
use secwager.VendorRefdata.Rows.{any-update_rows, filter-update_rows, map-filter-update_rows}
use secwager.VendorRefdata.Runs.{tables_of}
use secwager.Prelude.Int.{pos, ℤ}
use secwager.VendorRefdata.Store.{
  upsert_season, mark_game_final, upsert_team, upsert_player_stat, insert_from, upsert_game,
  insert_player, upsert_player, retimed, game_refers,
}
use mathlib.Core.Path.{subst}
use secwager.Prelude.{
  ℕ, String, List, ◌≡◌, arith, str_eq_iff, filter, Bool-cases, any, true, false, not, str_eq, map,
  Bool, ◌&&◌, inr, refl, inl, ◌∙◌, suc, zero, some, ap,
}
use secwager.VendorRefdata.Tables.{
  Tables, StoreFaults, GameRecord, StatRow, game_known, season_known, TeamRecord, league_known,
  PlayerRecord, same_game, same_stat, player_known,
}

pub other_id : (a b c : String) → str_eq a b ≡ true → str_eq b c ≡ false → str_eq a c ≡ false
other_id a b c e ne = rw ((str_eq_iff a b).0 e) ne

abbrev pub timeless : GameRecord → GameRecord
timeless g = record g { scheduled_unix = pos 0; expiry_unix = pos 0 }

-- The rows and the statistics under an id, and a row under it that is not final.
abbrev pub verdict : String → Tables → List GameRecord × List StatRow
verdict id t =
    (map timeless (filter (λ r. str_eq r.id id) t.games), filter (λ r. str_eq r.game_id id) t.stats)

abbrev pub open_under : String → GameRecord → Bool
open_under id r = str_eq r.id id && not (str_eq r.status "FINAL")

-- There is a game under the id, and it is final.
abbrev pub IsFinal : String → Tables → Type 0
IsFinal id t = (game_known id t ≡ true) × (any (open_under id) t.games ≡ false)

-- If the game is final, it stays so, with the same verdict.
abbrev pub Settled : String → Tables → Tables → Type 0
Settled id t u = IsFinal id t → IsFinal id u × (verdict id u ≡ verdict id t)

module _ (id : String) where
  pub Settled-refl : (t : Tables) → Settled id t t
  Settled-refl t final = (final, refl)

  pub Settled-trans : (t u v : Tables) → Settled id t u → Settled id u v → Settled id t v
  Settled-trans t u v h k final = ((k (h final).0).0, (k (h final).0).1 ∙ (h final).1)

  new_id :
      (new : String) (t : Tables)
      → game_known id t ≡ true
      → game_known new t ≡ false
      → str_eq new id ≡ false
  new_id new t known unknown = elim (Bool-cases (str_eq new id)) [
    | inl e ↦
        ground (arith, known, subst (λ i. game_known i t ≡ false) ((str_eq_iff new id).0 e) unknown)
    | inr ne ↦ ne
  ]

  module _ (faults : StoreFaults) where
    pub upsert_season-Settled :
        (league year : ℕ) (t : Tables)
        → Settled id t (tables_of (upsert_season faults league year t))
    unfolding upsert_season
    upsert_season-Settled league year t final = elim (Bool-cases faults.season_fails) [
      | inl e ↦ rw e (final, refl)
      | inr e ↦ elim (Bool-cases (season_known league year t)) [
        | inl k ↦ rw (e, k) (final, refl)
        | inr k ↦ elim (Bool-cases (league_known league t)) [
          | inl l ↦ rw (e, k, l) (final, refl)
          | inr l ↦ rw (e, k, l) (final, refl)
        ]
      ]
    ]

    pub upsert_team-Settled :
        (team : TeamRecord) (t : Tables) → Settled id t (tables_of (upsert_team faults team t))
    unfolding upsert_team
    upsert_team-Settled team t final = ground (arith, final)

    insert_from-Settled :
        (left suffix : ℕ) (p : PlayerRecord) (t : Tables)
        → Settled id t (tables_of (insert_from faults left suffix p t))
    unfolding insert_from insert_player
    insert_from-Settled zero suffix p t final = (final, refl)
    insert_from-Settled (suc left) suffix p t final =
        ground (arith, insert_from-Settled left (suc suffix) p t final, final)

    pub upsert_player-Settled :
        (p : PlayerRecord) (t : Tables) → Settled id t (tables_of (upsert_player faults p t))
    unfolding upsert_player
    upsert_player-Settled p t final = ground (arith, insert_from-Settled 11 0 p t final, final)

    pub upsert_game-Settled :
        (g : GameRecord) (t : Tables) → Settled id t (tables_of (upsert_game faults g t))
    unfolding upsert_game
    upsert_game-Settled g t final = elim (Bool-cases (faults.game_fails g.external_id)) [
      | inl fails ↦ rw fails (final, refl)
      | inr fine ↦ elim (Bool-cases (any (same_game g) t.games)) [
        | inl there ↦
            rw (fine, there)
              (
                (
                  any-update_rows (same_game g) (λ r. str_eq r.id id) (retimed g) (λ r yes. refl)
                        t.games
                      ∙ final.0,
                  any-update_rows (same_game g) (open_under id) (retimed g) (λ r yes. refl) t.games
                      ∙ final.1,
                ),
                ap (λ games. (games, filter (λ r. str_eq r.game_id id) t.stats))
                    (map-filter-update_rows (same_game g) (λ r. str_eq r.id id) (retimed g) timeless
                      (λ r yes. refl) (λ r yes yes_q. refl) t.games),
              )
        | inr new ↦ elim (Bool-cases (game_known g.id t)) [
          | inl known ↦ rw (fine, new, known) (final, refl)
          | inr unknown ↦
              let ne = new_id g.id t final.0 unknown in
              elim (Bool-cases (game_refers g t)) [
                | inl refers ↦ rw (fine, new, unknown, refers, ne) (final, refl)
                | inr dangling ↦ rw (fine, new, unknown, dangling) (final, refl)
              ]
        ]
      ]
    ]

    pub upsert_player_stat-Settled :
        (s : StatRow) (t : Tables)
        → str_eq s.game_id id ≡ false
        → Settled id t (tables_of (upsert_player_stat faults s t))
    unfolding upsert_player_stat
    upsert_player_stat-Settled s t ne final =
        let elsewhere =
          filter-update_rows (same_stat s) (λ r. str_eq r.game_id id)
            (λ r. record r { value = s.value })
            (λ r yes. other_id r.game_id s.game_id id (ground (arith, yes)) ne)
            (λ r yes. other_id r.game_id s.game_id id (ground (arith, yes)) ne) t.stats in
        elim (Bool-cases (faults.stat_fails s.game_id s.player_id s.prop_type)) [
          | inl fails ↦ rw fails (final, refl)
          | inr fine ↦ elim (Bool-cases (any (same_stat s) t.stats)) [
            | inl there ↦
                rw (fine, there)
                  (
                    final,
                    ap (λ stats. (map timeless (filter (λ r. str_eq r.id id) t.games), stats))
                        elsewhere,
                  )
            | inr new ↦ elim (Bool-cases (game_known s.game_id t && player_known s.player_id t)) [
              | inl known ↦ rw (fine, new, known, ne) (final, refl)
              | inr unknown ↦ rw (fine, new, unknown) (final, refl)
            ]
          ]
        ]

    pub mark_game_final-Settled :
        (other : String) (home away : ℤ) (t : Tables)
        → str_eq other id ≡ false
        → Settled id t (tables_of (mark_game_final faults other home away t))
    unfolding mark_game_final
    mark_game_final-Settled other home away t ne final =
        let f : GameRecord → GameRecord =
          λ r. record r { status = "FINAL"; home_score = some home; away_score = some away } in
        let apart : (r : GameRecord) → str_eq r.id other ≡ true → str_eq r.id id ≡ false =
          λ r yes. other_id r.id other id yes ne in
        elim (Bool-cases (faults.final_fails other)) [
          | inl fails ↦ rw fails (final, refl)
          | inr fine ↦ rw fine (
            (
              any-update_rows (λ r. str_eq r.id other) (λ r. str_eq r.id id) f (λ r yes. refl)
                    t.games
                  ∙ final.0,
              any-update_rows (λ r. str_eq r.id other) (open_under id) f
                    (λ r yes. ground (arith, apart r yes)) t.games
                  ∙ final.1,
            ),
            ap (λ games. (map timeless games, filter (λ r. str_eq r.game_id id) t.stats))
                (filter-update_rows (λ r. str_eq r.id other) (λ r. str_eq r.id id) f apart apart
                  t.games),
          )
        ]
