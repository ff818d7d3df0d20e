-- ===== src/VendorRefdata/Store.antt =====
-- `Store` of vendor_refdata/internal/store.go: its statements on the tables, under their unique and
-- foreign keys.
use secwager.Prelude.{
  ℕ, String, List, Option, Bool, none, filter, map, some, ◌+◌, if◌then◌else◌, any, suc, ◌&&◌, zero,
  ◌∷◌, ◌<>◌, str_eq, ◌||◌, not, itoa,
}
use secwager.Prelude.Int.{ℤ, leb_ℤ, ◌+ℤ◌, pos}
use secwager.VendorRefdata.Runs.{Run, failed, done}
use secwager.VendorRefdata.Tables.{
  Tables, StoreFaults, TeamRecord, PlayerRecord, GameRecord, StatRow, update_rows, select_row,
  player_known, season_known, league_known, same_team, same_stat, team_known, same_game,
  same_player, game_known,
}

unfoldable pub upsert_season : StoreFaults → (league year : ℕ) → Tables → Run
upsert_season faults league year t =
    if faults.season_fails
    then failed t
    else if season_known league year t
    then done t
    else if league_known league t
    then done (record t { seasons = (league, year) ∷ t.seasons })
    else failed t

abbrev pub renamed : TeamRecord → TeamRecord → TeamRecord
renamed team r = record r { name = team.name; short_name = team.short_name }

unfoldable pub upsert_team : StoreFaults → TeamRecord → Tables → Run
unfolding update_rows
upsert_team faults team t =
    if faults.team_fails team.external_id
    then failed t
    else if any (same_team team) t.teams
    then done (record t { teams = update_rows (same_team team) (renamed team) t.teams })
    else if team_known team.id t
    then failed t
    else if league_known team.league_id t
    then done (record t { teams = team ∷ t.teams })
    else failed t

-- One `INSERT` of a player: `taken` is the violation of the primary key.
pub data Attempt : Type 0 where
  inserted : Tables → Attempt
  taken refused : Attempt

unfoldable pub insert_player : StoreFaults → PlayerRecord → Tables → Attempt
insert_player faults p t =
    if faults.player_write_fails p.external_id
    then refused
    else if player_known p.id t
    then taken
    else if any (same_player p) t.players
    then refused
    else if team_known p.team_id t
    then inserted (record t { players = p ∷ t.players })
    else refused

unfoldable pub suffixed : String → ℕ → String
unfolding itoa
suffixed id zero = id
suffixed id (suc suffix) = id <> "_" <> itoa (suffix + 2)

-- The loop over the suffixes, from `suffix` on.
unfoldable pub insert_from : StoreFaults → (left suffix : ℕ) → PlayerRecord → Tables → Run
unfolding insert_player suffixed
insert_from faults zero suffix p t = failed t
insert_from faults (suc left) suffix p t =
    elim (insert_player faults (record p { id = suffixed p.id suffix }) t) [
      | inserted t' ↦ done t'
      | taken ↦ insert_from faults left (suc suffix) p t
      | refused ↦ failed t
    ]

abbrev pub transferred : PlayerRecord → PlayerRecord → PlayerRecord
transferred p r = record r { name = p.name; team_id = p.team_id; positions = p.positions }

unfoldable pub upsert_player : StoreFaults → PlayerRecord → Tables → Run
unfolding select_row update_rows insert_from
upsert_player faults p t =
    if faults.player_lookup_fails p.external_id
    then failed t
    else elim (select_row (same_player p) t.players) [
      | none ↦ insert_from faults 11 0 p t
      | some existing ↦
          if faults.player_write_fails p.external_id || not (team_known p.team_id t)
          then failed t
          else done (record t {
            players = update_rows (λ r. str_eq r.id existing.id) (transferred p) t.players;
          })
    ]

abbrev pub retimed : GameRecord → GameRecord → GameRecord
retimed g r = record r { scheduled_unix = g.scheduled_unix; expiry_unix = g.expiry_unix }

-- The foreign keys of a game.
abbrev pub game_refers : GameRecord → Tables → Bool
game_refers g t =
    league_known g.league_id t
    && season_known g.league_id g.season_year t
    && team_known g.home_team_id t
    && team_known g.away_team_id t

unfoldable pub upsert_game : StoreFaults → GameRecord → Tables → Run
unfolding update_rows
upsert_game faults g t =
    if faults.game_fails g.external_id
    then failed t
    else if any (same_game g) t.games
    then done (record t { games = update_rows (same_game g) (retimed g) t.games })
    else if game_known g.id t
    then failed t
    else if game_refers g t
    then done (record t { games = record g { home_score = none; away_score = none } ∷ t.games })
    else failed t

unfoldable pub upsert_player_stat : StoreFaults → StatRow → Tables → Run
unfolding update_rows
upsert_player_stat faults s t =
    if faults.stat_fails s.game_id s.player_id s.prop_type
    then failed t
    else if any (same_stat s) t.stats
    then done
        (record t { stats = update_rows (same_stat s) (λ r. record r { value = s.value }) t.stats })
    else if game_known s.game_id t && player_known s.player_id t
    then done (record t { stats = s ∷ t.stats })
    else failed t

-- `LookupPlayerByExternal`: nothing for an error.
unfoldable pub lookup_player_by_external :
    StoreFaults → (vendor external_id : String) → Tables → Option (Option PlayerRecord)
unfolding select_row
lookup_player_by_external faults vendor external_id t =
    if faults.player_lookup_fails external_id
    then none
    else some (
        select_row (λ r. str_eq r.external_vendor vendor && str_eq r.external_id external_id)
          t.players)

abbrev pub is_active : ℤ → GameRecord → Bool
is_active now g = not (str_eq g.status "FINAL") && leb_ℤ g.scheduled_unix (now +ℤ pos 1800)

-- The scores are not read.
abbrev pub unscored : GameRecord → GameRecord
unscored g = record g { home_score = none; away_score = none }

unfoldable pub list_active_games : StoreFaults → ℤ → Tables → Option (List GameRecord)
list_active_games faults now t =
    if faults.list_fails then none else some (map unscored (filter (is_active now) t.games))

unfoldable pub mark_game_final : StoreFaults → String → (home_score away_score : ℤ) → Tables → Run
unfolding update_rows
mark_game_final faults id home_score away_score t =
    if faults.final_fails id
    then failed t
    else done (record t {
      games =
          update_rows (λ r. str_eq r.id id)
            (λ r. record r {
              status = "FINAL";
              home_score = some home_score;
              away_score = some away_score;
            })
            t.games;
    })
