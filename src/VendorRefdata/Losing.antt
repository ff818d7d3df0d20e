-- ===== src/VendorRefdata/Losing.antt =====
-- A finished game of vendor_refdata/internal/nflresults.go whose statistics could not be fetched.
use secwager.VendorRefdata.Rows.{any-update_rows}
use secwager.VendorRefdata.Statistics.{coerce_nil}
use secwager.VendorRefdata.Runs.{tables_of, logged}
use secwager.VendorRefdata.Verdicts.{open_under, IsFinal, verdict}
use secwager.VendorRefdata.Store.{mark_game_final}
use secwager.Prelude.{
  String, List, ◌≡◌, Bool-cases, true, filter, ◌∷◌, refl, ◌∙◌, str_eq, false, ap, arith, [], inr,
  none, inl, any, some,
}
use secwager.Prelude.Int.{ℤ}
use secwager.VendorRefdata.Tables.{Tables, StoreFaults, GameRecord, update_rows, game_known}
use secwager.VendorRefdata.Mapping.{GoText, MapOrder}
use secwager.VendorRefdata.NflResults.{
  NflResults, NflDetail, fetch_nfl_game_result, finish_nfl_game, fetch_nfl_player_stats,
}
use secwager.VendorRefdata.Settling.{VendorStep, steps_run, steps_run-Settled}

closed_after :
    (id : String) (f : GameRecord → GameRecord)
    → ((r : GameRecord) → ((f r).status ≡ "FINAL"))
    → (games : List GameRecord)
    → any (open_under id) (update_rows (λ r. str_eq r.id id) f games) ≡ false
unfolding update_rows
closed_after id f final [] = refl
closed_after id f final (r ∷ games) =
    let rest = closed_after id f final games in
    elim (Bool-cases (str_eq r.id id)) [
      | inl hit ↦ rw (hit, rest, final r) (ground arith)
      | inr miss ↦ rw (miss, rest) (ground (arith, miss))
    ]

-- A statement that marks a known game leaves it final, and the statistics as they were.
pub mark_game_final-IsFinal :
    (faults : StoreFaults) (id : String) (home away : ℤ) (t : Tables)
    → faults.final_fails id ≡ false
    → game_known id t ≡ true
    → IsFinal id (tables_of (mark_game_final faults id home away t))
      × ((tables_of (mark_game_final faults id home away t)).stats ≡ t.stats)
unfolding mark_game_final
mark_game_final-IsFinal faults id home away t fine known =
    let f : GameRecord → GameRecord =
      λ r. record r { status = "FINAL"; home_score = some home; away_score = some away } in
    rw fine (
      (
        any-update_rows (λ r. str_eq r.id id) (λ r. str_eq r.id id) f (λ r yes. refl) t.games
            ∙ known,
        closed_after id f (λ r. refl) t.games,
      ),
      refl,
    )

-- If the vendor says that a known NFL game is over but its statistics cannot be had, and the final score
-- can be written, the game is final afterwards; and whatever runs follow, the game's statistics are
-- those from before.
pub fetch_nfl_game_result_loses :
    (go : GoText) (order : MapOrder) (faults : StoreFaults) (client : NflResults) (g : GameRecord)
    (d : NflDetail) (ds : List NflDetail) (t : Tables) (steps : List VendorStep)
    → client.detail g.external_id ≡ some (d ∷ ds)
    → str_eq d.status_short "FT" ≡ true
    → client.player_stats g.external_id ≡ none
    → faults.final_fails g.id ≡ false
    → game_known g.id t ≡ true
    → IsFinal g.id (tables_of (fetch_nfl_game_result go order faults client g t))
      × ((verdict g.id (
            steps_run go order steps
              (tables_of (fetch_nfl_game_result go order faults client g t)))).1
          ≡ (verdict g.id t).1)
unfolding fetch_nfl_game_result finish_nfl_game fetch_nfl_player_stats logged
fetch_nfl_game_result_loses go order faults client g d ds t steps detail over missing fine known =
    let (final, stats) =
      mark_game_final-IsFinal faults g.id (coerce_nil d.home_total) (coerce_nil d.away_total) t fine
        known in
    let later = steps_run-Settled go order g.id steps _ final in
    rw (detail, fetch_nfl_game_result, over, missing, fetch_nfl_player_stats)
      (final, ap (λ v. v.1) later.1 ∙ ap (λ rows. filter (λ r. str_eq r.game_id g.id) rows) stats)
