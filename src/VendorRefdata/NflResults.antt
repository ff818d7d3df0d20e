-- ===== src/VendorRefdata/NflResults.antt =====
-- vendor_refdata/internal/nflresults.go: finished games and the statistics of their players. The
-- sums stay far below 2^63.
use secwager.VendorRefdata.Statistics.{write_stats, coerce_nil}
use secwager.VendorRefdata.Nfl.{nfl_vendor}
use secwager.VendorRefdata.Store.{lookup_player_by_external, mark_game_final}
use secwager.Prelude.{
  ℕ, String, List, Option, true, none, str_eq, ◌==◌, Bool, if◌then◌else◌, ◌++◌, some, put, ◌∷◌,
  itoa, false, [],
}
use secwager.Prelude.Int.{ℤ, ◌+ℤ◌, pos, ltb_ℤ}
use secwager.VendorRefdata.Runs.{Run, failed, logged, each_or_fail, each, done}
use secwager.VendorRefdata.Tables.{Tables, StoreFaults, GameRecord}
use secwager.VendorRefdata.Mapping.{GoText, MapOrder, nfl}

pub record NflDetail : Type 0 where
  pub status_short : String
  pub home_total : Option ℤ
  pub away_total : Option ℤ

-- A JSON value of a statistic; a number is given as what its conversion to an integer is.
pub data StatValue : Type 0 where
  null other : StatValue
  number : ℤ → StatValue
  text : String → StatValue

pub record NflPlayerStats : Type 0 where
  pub id : ℕ
  pub statistics : List (String × StatValue)

pub record NflGroup : Type 0 where
  pub name : String
  pub players : List NflPlayerStats

-- The groups of each team, by the external id of the game.
pub record NflResults : Type 0 where
  pub detail : String → Option (List NflDetail)
  pub player_stats : String → Option (List (List NflGroup))

pub record NflPlayerAccum : Type 0 where
  pub passing_yards : ℤ
  pub passing_tds : ℤ
  pub interceptions : ℤ
  pub rushing_yards : ℤ
  pub rushing_tds : ℤ
  pub receiving_yards : ℤ
  pub receiving_tds : ℤ
  pub is_qb : Bool

abbrev pub empty_accum : NflPlayerAccum
empty_accum = record {
  passing_yards = pos 0;
  passing_tds = pos 0;
  interceptions = pos 0;
  rushing_yards = pos 0;
  rushing_tds = pos 0;
  receiving_yards = pos 0;
  receiving_tds = pos 0;
  is_qb = false;
}

-- A later value of a name replaces an earlier one.
unfoldable pub stat_map :
    List (String × StatValue) → (String → Option StatValue) → String → Option StatValue
stat_map [] m = m
stat_map ((name, value) ∷ stats) m = stat_map stats (put m name (some value))

abbrev pub no_stats : String → Option StatValue
no_stats _ = none

module _ (go : GoText) where
  unfoldable pub stat_int : (String → Option StatValue) → String → ℤ
  stat_int m name = elim (m name) [
    | none ↦ pos 0
    | some null ↦ pos 0
    | some other ↦ pos 0
    | some (number n) ↦ n
    | some (text s) ↦ elim (go.parse_int s) [
      | some n ↦ n
      | none ↦ elim (go.parse_float s) [ none ↦ pos 0 | some n ↦ n ]
    ]
  ]

  -- What one entry of a group adds.
  unfoldable pub add_stats : String → (String → Option StatValue) → NflPlayerAccum → NflPlayerAccum
  unfolding stat_int
  add_stats name m a =
      if str_eq name "Passing"
      then record a {
        is_qb = true;
        passing_yards = a.passing_yards +ℤ stat_int m "yards";
        passing_tds = a.passing_tds +ℤ stat_int m "passing touch downs";
        interceptions = a.interceptions +ℤ stat_int m "interceptions";
      }
      else if str_eq name "Rushing"
      then record a {
        rushing_yards = a.rushing_yards +ℤ stat_int m "yards";
        rushing_tds = a.rushing_tds +ℤ stat_int m "rushing touch downs";
      }
      else if str_eq name "Receiving"
      then record a {
        receiving_yards = a.receiving_yards +ℤ stat_int m "yards";
        receiving_tds = a.receiving_tds +ℤ stat_int m "receiving touch downs";
      }
      else a

  -- `getAccum` and the change of what it returns: the map as the list of its entries.
  unfoldable pub accumulate :
      String → NflPlayerStats → List (ℕ × NflPlayerAccum) → List (ℕ × NflPlayerAccum)
  unfolding add_stats stat_map
  accumulate name p [] = (p.id, add_stats name (stat_map p.statistics no_stats) empty_accum) ∷ []
  accumulate name p ((id, a) ∷ accum) =
      let rest = accumulate name p accum in
      if id == p.id
      then (id, add_stats name (stat_map p.statistics no_stats) a) ∷ accum
      else (id, a) ∷ rest

  unfoldable pub accum_players :
      String → List NflPlayerStats → List (ℕ × NflPlayerAccum) → List (ℕ × NflPlayerAccum)
  unfolding accumulate
  accum_players name [] accum = accum
  accum_players name (p ∷ players) accum = accum_players name players (accumulate name p accum)

  unfoldable pub accum_groups :
      List NflGroup → List (ℕ × NflPlayerAccum) → List (ℕ × NflPlayerAccum)
  unfolding accum_players
  accum_groups [] accum = accum
  accum_groups (group ∷ groups) accum =
      accum_groups groups (accum_players group.name group.players accum)

  unfoldable pub accum_teams :
      List (List NflGroup) → List (ℕ × NflPlayerAccum) → List (ℕ × NflPlayerAccum)
  unfolding accum_groups
  accum_teams [] accum = accum
  accum_teams (team ∷ teams) accum = accum_teams teams (accum_groups team accum)

-- `toWrite`: the prop types and their values.
unfoldable pub nfl_to_write : NflPlayerAccum → List (ℕ × ℤ)
nfl_to_write a =
    (if a.is_qb
      then (40, a.passing_yards) ∷ (43, a.passing_tds) ∷ (44, a.interceptions) ∷ []
      else (43, a.rushing_tds +ℤ a.receiving_tds) ∷ [])
    ++ ((if ltb_ℤ (pos 0) a.rushing_yards then (41, a.rushing_yards) ∷ [] else [])
        ++ (if ltb_ℤ (pos 0) a.receiving_yards then (42, a.receiving_yards) ∷ [] else []))

module _ (go : GoText) (order : MapOrder) (faults : StoreFaults) where
  unfoldable pub write_nfl_player : String → ℕ × NflPlayerAccum → Tables → Run
  unfolding lookup_player_by_external itoa nfl_to_write
  write_nfl_player game_id (id, a) t =
      elim (lookup_player_by_external faults nfl_vendor (itoa id) t) [
        | none ↦ failed t
        | some none ↦ done t
        | some (some p) ↦ write_stats order faults game_id p.id (nfl_to_write a) t
      ]

  unfoldable pub fetch_nfl_player_stats : NflResults → (game_id external_id : String) → Tables → Run
  unfolding each_or_fail write_nfl_player accum_teams
  fetch_nfl_player_stats client game_id external_id t = elim (client.player_stats external_id) [
    | none ↦ failed t
    | some teams ↦ each_or_fail (write_nfl_player game_id) (order.walk (accum_teams go teams [])) t
  ]

  -- An error of the statistics is logged, and the game is marked all the same.
  unfoldable pub finish_nfl_game : NflResults → GameRecord → NflDetail → Tables → Run
  unfolding logged fetch_nfl_player_stats mark_game_final
  finish_nfl_game client g d t =
      if str_eq d.status_short "FT"
      then logged (fetch_nfl_player_stats client g.id g.external_id t)
          (mark_game_final faults g.id (coerce_nil d.home_total) (coerce_nil d.away_total))
      else done t

  unfoldable pub fetch_nfl_game_result : NflResults → GameRecord → Tables → Run
  unfolding finish_nfl_game
  fetch_nfl_game_result client g t = elim (client.detail g.external_id) [
    | none ↦ failed t
    | some [] ↦ done t
    | some (d ∷ _) ↦ finish_nfl_game client g d t
  ]

  unfoldable pub fetch_nfl_results : NflResults → List GameRecord → Tables → Run
  unfolding each fetch_nfl_game_result
  fetch_nfl_results client =
      each (λ g t. if g.league_id == nfl then fetch_nfl_game_result client g t else done t)
