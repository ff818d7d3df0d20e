-- ===== src/VendorRefdata/Settling.antt =====
-- A final game of vendor_refdata stays as it is: no run of internal/populator.go and of
-- internal/eventfetcher.go changes its verdict.
use secwager.VendorRefdata.Fetching.Whole.{fetch_results-keeps}
use secwager.VendorRefdata.Populating.Whole.{populate_once-keeps}
use secwager.VendorRefdata.Store.{unscored, list_active_games, is_active}
use secwager.VendorRefdata.Runs.{tables_of, Run}
use secwager.VendorRefdata.Verdicts.{
  IsFinal, open_under, Settled, verdict, Settled-refl, Settled-trans, upsert_player_stat-Settled,
  upsert_season-Settled, upsert_team-Settled, mark_game_final-Settled, upsert_player-Settled,
  upsert_game-Settled,
}
use secwager.VendorRefdata.Preserving.{Ends}
use secwager.Prelude.{
  ℕ, String, List, All, ◌≡◌, arith, str_eq, map, [], refl, inl, false, any, ◌∷◌, inr, Bool-cases,
  filter,
}
use secwager.Prelude.Int.{ℤ}
use secwager.VendorRefdata.Tables.{Tables, StoreFaults, GameRecord}
use secwager.VendorRefdata.Mapping.{GoText, MapOrder}
use secwager.VendorRefdata.Populating.{Upholds}
use secwager.VendorRefdata.Fetching.{Respects}
use secwager.VendorRefdata.Populator.{Populator, populate_once}
use secwager.VendorRefdata.EventFetcher.{EventFetcher, events_once}

-- One run of one of the two programs, with what the vendors answer and which statements fail in it.
pub data VendorStep : Type 0 where
  populate : StoreFaults → (fuel : ℕ) → Populator → VendorStep
  poll : StoreFaults → EventFetcher → (now : ℤ) → VendorStep

unfoldable pub step_run : GoText → MapOrder → VendorStep → Tables → Run
unfolding populate_once events_once
step_run go order (populate faults fuel p) t = populate_once go faults fuel p t
step_run go order (poll faults e now) t = events_once go order faults e now t

-- The runs one after another, each on the tables that the last one left, however it ended.
unfoldable pub steps_run : GoText → MapOrder → List VendorStep → Tables → Tables
unfolding step_run
steps_run go order [] t = t
steps_run go order (s ∷ steps) t = steps_run go order steps (tables_of (step_run go order s t))

module _ (id : String) where
  active-Apart :
      (now : ℤ) (games : List GameRecord)
      → any (open_under id) games ≡ false
      → All (λ g. str_eq g.id id ≡ false) (map unscored (filter (is_active now) games))
  active-Apart now [] closed = tt
  active-Apart now (g ∷ games) closed =
      let rest = active-Apart now games (ground (arith, closed)) in
      elim (Bool-cases (is_active now g)) [
        | inl active ↦ rw active (ground (arith, closed, active), rest)
        | inr idle ↦ rw idle rest
      ]

  module _ (faults : StoreFaults) where
    Settled-Upholds : Upholds faults (Settled id)
    unfolding Ends
    Settled-Upholds = record {
      same = Settled-refl id;
      chain = Settled-trans id;
      season = upsert_season-Settled id faults;
      team = upsert_team-Settled id faults;
      player = upsert_player-Settled id faults;
      game = λ g scheduled. upsert_game-Settled id faults g;
    }

    Settled-Respects : Respects faults (λ other. str_eq other id ≡ false) (Settled id)
    unfolding Ends
    Settled-Respects = record {
      same = Settled-refl id;
      chain = Settled-trans id;
      stat = λ s ne t. upsert_player_stat-Settled id faults s t ne;
      final = λ other home away ne t. mark_game_final-Settled id faults other home away t ne;
    }

    events_once-Settled :
        (go : GoText) (order : MapOrder) (e : EventFetcher) (now : ℤ) (t : Tables)
        → Settled id t (tables_of (events_once go order faults e now t))
    unfolding events_once list_active_games Ends
    events_once-Settled go order e now t final = elim (Bool-cases faults.list_fails) [
      | inl lost ↦ rw lost (final, refl)
      | inr fine ↦ rw fine (
          fetch_results-keeps go order faults (λ other. str_eq other id ≡ false) (Settled id)
            Settled-Respects e (map unscored (filter (is_active now) t.games))
            (active-Apart now t.games final.1) t final)
    ]

  step_run-Settled :
      (go : GoText) (order : MapOrder) (s : VendorStep) (t : Tables)
      → Settled id t (tables_of (step_run go order s t))
  unfolding step_run Ends
  step_run-Settled go order (populate faults fuel p) t =
      populate_once-keeps go faults (Settled id) (Settled-Upholds faults) fuel p t
  step_run-Settled go order (poll faults e now) t = events_once-Settled faults go order e now t

-- A game that is final stays final, and its row, but for the times, and its statistics stay as they are,
-- whatever runs of the populator and of the event fetcher follow, whatever the vendors answer in them
-- and whichever statements fail.
pub steps_run-Settled :
    (go : GoText) (order : MapOrder) (id : String) (steps : List VendorStep) (t : Tables)
    → IsFinal id t
    → IsFinal id (steps_run go order steps t)
      × (verdict id (steps_run go order steps t) ≡ verdict id t)
unfolding steps_run
steps_run-Settled go order id [] t final = (final, refl)
steps_run-Settled go order id (s ∷ steps) t final =
    let u = tables_of (step_run go order s t) in
    Settled-trans id t u (steps_run go order steps u) (step_run-Settled id go order s t)
      (steps_run-Settled go order id steps u) final
