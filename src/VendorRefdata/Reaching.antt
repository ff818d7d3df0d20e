-- ===== src/VendorRefdata/Reaching.antt =====
-- Whatever runs of internal/populator.go and internal/eventfetcher.go of vendor_refdata follow one
-- another, the keys of the tables hold.
use secwager.VendorRefdata.Fetching.Whole.{events_once-keeps}
use secwager.VendorRefdata.Rows.{map-update_rows}
use secwager.VendorRefdata.Populating.Whole.{populate_once-keeps}
use secwager.VendorRefdata.Guarding.{
  upsert_season-StaysIntact, upsert_team-StaysIntact, upsert_player-StaysIntact,
  upsert_game-StaysIntact,
}
use secwager.VendorRefdata.Runs.{tables_of}
use secwager.VendorRefdata.Integrity.{
  IsIntact, StaysIntact, among, StaysIntact-refl, game_ids, StaysIntact-trans, with_games,
  player_ids, All-update_rows, among-map,
}
use secwager.Prelude.Int.{ℤ}
use secwager.VendorRefdata.Store.{upsert_player_stat, mark_game_final}
use secwager.VendorRefdata.Fetching.{Respects}
use secwager.VendorRefdata.Mapping.{GoText, MapOrder}
use secwager.VendorRefdata.Preserving.{Ends}
use secwager.VendorRefdata.Populating.{Upholds}
use secwager.VendorRefdata.Tables.{
  Tables, StoreFaults, StatRow, same_stat, game_known, player_known,
}
use secwager.VendorRefdata.Settling.{populate, poll, step_run, steps_run, VendorStep}
use mathlib.Core.Path.{sym}
use secwager.Prelude.{
  arith, ◌≡◌, ◌∷◌, All, ◌&&◌, Bool-cases, str_eq, true, refl, List, ◌∙◌, any, String, [], inl, inr,
}

-- New rows of statistics, of games and players that are there.
with_stats :
    (t : Tables) (rows : List StatRow)
    → (IsIntact t → All (λ s. among (game_ids t) s.game_id ≡ true) rows)
    → (IsIntact t → All (λ s. among (player_ids t) s.player_id ≡ true) rows)
    → StaysIntact t (record t { stats = rows })
with_stats t rows games players h = record {
  team_keys = h.team_keys;
  player_keys = h.player_keys;
  game_keys = h.game_keys;
  player_teams = h.player_teams;
  game_teams = h.game_teams;
  stat_games = games h;
  stat_players = players h;
}

module _ (faults : StoreFaults) where
  upsert_player_stat-StaysIntact :
      (s : StatRow) (t : Tables) → Ends StaysIntact t (upsert_player_stat faults s t)
  unfolding upsert_player_stat Ends
  upsert_player_stat-StaysIntact s t =
      elim (Bool-cases (faults.stat_fails s.game_id s.player_id s.prop_type)) [
        | inl fails ↦ rw fails (StaysIntact-refl t)
        | inr fine ↦ elim (Bool-cases (any (same_stat s) t.stats)) [
          | inl old ↦
              rw (fine, old)
                (with_stats t _
                  (λ h.
                    All-update_rows _ (same_stat s) (λ r. record r { value = s.value }) t.stats
                      (λ r k. k) h.stat_games)
                  (λ h.
                    All-update_rows _ (same_stat s) (λ r. record r { value = s.value }) t.stats
                      (λ r k. k) h.stat_players))
          | inr new ↦ elim (Bool-cases (game_known s.game_id t && player_known s.player_id t)) [
            | inr dangling ↦ rw (fine, new, dangling) (StaysIntact-refl t)
            | inl refers ↦
                rw (fine, new, refers)
                  (with_stats t (s ∷ t.stats)
                    (λ h. (
                      sym (among-map (λ r. r.id) t.games s.game_id) ∙ ground (arith, refers),
                      h.stat_games,
                    ))
                    (λ h. (
                      sym (among-map (λ r. r.id) t.players s.player_id) ∙ ground (arith, refers),
                      h.stat_players,
                    )))
          ]
        ]
      ]

  mark_game_final-StaysIntact :
      (id : String) (home away : ℤ) (t : Tables)
      → Ends StaysIntact t (mark_game_final faults id home away t)
  unfolding mark_game_final Ends
  mark_game_final-StaysIntact id home away t = elim (Bool-cases (faults.final_fails id)) [
    | inl fails ↦ rw fails (StaysIntact-refl t)
    | inr fine ↦ rw fine (
        with_games t _ (map-update_rows (λ r. str_eq r.id id) _ (λ x. x.id) (λ x. refl) t.games)
          (λ h. All-update_rows _ (λ r. str_eq r.id id) _ t.games (λ r k. k) h.game_teams))
  ]

  StaysIntact-Upholds : Upholds faults StaysIntact
  StaysIntact-Upholds = record {
    same = StaysIntact-refl;
    chain = StaysIntact-trans;
    season = upsert_season-StaysIntact faults;
    team = upsert_team-StaysIntact faults;
    player = upsert_player-StaysIntact faults;
    game = λ g scheduled. upsert_game-StaysIntact faults g;
  }

  StaysIntact-Respects : Respects faults (λ id. Unit) StaysIntact
  StaysIntact-Respects = record {
    same = StaysIntact-refl;
    chain = StaysIntact-trans;
    stat = λ s here. upsert_player_stat-StaysIntact s;
    final = λ id home away here. mark_game_final-StaysIntact id home away;
  }

step_run-StaysIntact :
    (go : GoText) (order : MapOrder) (s : VendorStep) (t : Tables)
    → StaysIntact t (tables_of (step_run go order s t))
unfolding step_run Ends
step_run-StaysIntact go order (populate faults fuel p) t =
    populate_once-keeps go faults StaysIntact (StaysIntact-Upholds faults) fuel p t
step_run-StaysIntact go order (poll faults e now) t =
    events_once-keeps go order faults (λ id. Unit) StaysIntact (StaysIntact-Respects faults) e now
      (λ id. tt) t

-- In tables in which teams, players and games have ids of their own, players are on teams that are
-- there, games are between such teams, and statistics are of games and players that are there, all this
-- is so after any runs of the populator and of the event fetcher, whatever the vendors answer in them
-- and whichever statements fail.
pub steps_run-IsIntact :
    (go : GoText) (order : MapOrder) (steps : List VendorStep) (t : Tables)
    → IsIntact t
    → IsIntact (steps_run go order steps t)
unfolding steps_run
steps_run-IsIntact go order [] t h = h
steps_run-IsIntact go order (s ∷ steps) t h =
    steps_run-IsIntact go order steps (tables_of (step_run go order s t))
      (step_run-StaysIntact go order s t h)
