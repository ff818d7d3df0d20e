-- ===== src/VendorRefdata/Tests.antt =====
-- Runs of vendor_refdata on small tables.
use secwager.VendorRefdata.Store.{upsert_player, insert_from, insert_player, suffixed}
use secwager.VendorRefdata.Losing.{fetch_nfl_game_result_loses}
use secwager.VendorRefdata.Runs.{tables_of, each, logged}
use secwager.VendorRefdata.Paging.{IsPaged, is_finished, fetch_soccer_ref_data_finished}
use secwager.VendorRefdata.Verdicts.{IsFinal, verdict}
use secwager.VendorRefdata.Identities.{Kept, populate_once-Kept}
use mathlib.Core.Path.{sym, subst}
use mathlib.Core.Option.{some-injective}
use secwager.Prelude.{
  String, List, ◌≡◌, refl, ◌==◌, [], true, ap, false, none, itoa, if◌then◌else◌, ◌∷◌, ◌≤◌, Option,
  some, arith,
}
use secwager.Prelude.Int.{ℤ, pos}
use secwager.VendorRefdata.Tables.{Tables, StoreFaults, GameRecord, TeamRecord, select_row}
use secwager.VendorRefdata.Mapping.{
  GoText, MapOrder, VendorTeam, lookup_name, make_player_id, last_of, make_team_id,
}
use secwager.VendorRefdata.Nfl.{
  NflClient, NflPlayer, NflGame, fetch_nfl_roster, store_nfl_player, nfl_player_record,
}
use secwager.VendorRefdata.Soccer.{SoccerClient, fetch_soccer_ref_data}
use secwager.VendorRefdata.Populator.{Populator, populate_once}
use secwager.VendorRefdata.NflResults.{NflResults, NflDetail, fetch_nfl_game_result}
use secwager.VendorRefdata.EventFetcher.{EventFetcher}
use secwager.VendorRefdata.Settling.{VendorStep, poll, steps_run, populate, steps_run-Settled}

abbrev plain_text : GoText
plain_text = record {
  to_upper = λ s. s;
  fields = λ s. s ∷ [];
  date = λ ts. "20260104";
  parse_time = λ layout value. none;
  parse_int = λ s. none;
  parse_float = λ s. none;
}

abbrev as_listed : MapOrder
as_listed = record { walk = λ xs. xs }

abbrev no_store_faults : StoreFaults
no_store_faults = record {
  season_fails = false;
  list_fails = false;
  team_fails = λ id. false;
  player_lookup_fails = λ id. false;
  player_write_fails = λ id. false;
  game_fails = λ id. false;
  stat_fails = λ game player prop. false;
  final_fails = λ id. false;
}

abbrev bears : VendorTeam
bears = record { id = 1; name = "Bears"; code = "CHI" }

abbrev lions : VendorTeam
lions = record { id = 2; name = "Lions"; code = "DET" }

abbrev quarterback : NflPlayer
quarterback = record { id = 7; name = "Smith"; position = "QB" }

abbrev opener : NflGame
opener = record { id = 40; timestamp = pos 90000; home_id = 1; away_id = 2 }

abbrev nfl_listing : NflClient
nfl_listing = record {
  teams = some (bears ∷ lions ∷ []);
  players = λ team. if team == 1 then some (quarterback ∷ []) else none;
  games = λ week. if week == 1 then some (opener ∷ []) else none;
}

abbrev two_pages : SoccerClient
two_pages = record {
  teams = λ league. some [];
  players = λ league page. some (record { current = page; total = 2; players = [] });
  fixtures = λ league. some [];
}

abbrev populator : Populator
populator = record {
  mlb_client = record { teams = none; roster = λ team. none; schedule = none };
  soccer_client = two_pages;
  nfl_client = nfl_listing;
  year = 2026;
}

abbrev bears_row : TeamRecord
bears_row = record {
  id = "NFL::CHI";
  name = "Chicago";
  short_name = "CHI";
  league_id = 2;
  external_id = "1";
  external_vendor = "apisports";
}

abbrev lions_row : TeamRecord
lions_row = record {
  id = "NFL::DET";
  name = "Detroit";
  short_name = "DET";
  league_id = 2;
  external_id = "2";
  external_vendor = "apisports";
}

-- The opener, with the status and the scores as given.
abbrev opener_row : String → Option ℤ → GameRecord
opener_row status score = record {
  id = "NFL::DET@CHI::20260104";
  league_id = 2;
  season_year = 2026;
  home_team_id = "NFL::CHI";
  away_team_id = "NFL::DET";
  scheduled_unix = pos 80000;
  expiry_unix = pos 94400;
  status = status;
  home_score = score;
  away_score = score;
  external_id = "40";
  external_vendor = "apisports";
}

abbrev tables_with : GameRecord → Tables
tables_with g = record {
  leagues = 1 ∷ 2 ∷ 3 ∷ 4 ∷ 5 ∷ [];
  seasons = (2, 2026) ∷ [];
  teams = bears_row ∷ lions_row ∷ [];
  players = [];
  games = g ∷ [];
  stats = [];
}

abbrev played : Tables
played = tables_with (opener_row "FINAL" (some (pos 14)))

abbrev unplayed : Tables
unplayed = tables_with (opener_row "SCHEDULED" none)

-- The game is over, and the statistics cannot be had.
abbrev over : NflDetail
over = record { status_short = "FT"; home_total = some (pos 20); away_total = some (pos 3) }

abbrev no_statistics : NflResults
no_statistics = record { detail = λ id. some (over ∷ []); player_stats = λ id. none }

abbrev fetcher : EventFetcher
fetcher = record {
  mlb_client = record { status = λ pks. none; boxscore = λ pk. none };
  soccer_client = record { detail = λ id. none; team_stats = λ fixture team. none };
  nfl_client = no_statistics;
}

abbrev a_day : List VendorStep
a_day =
    poll no_store_faults fetcher (pos 100000)
    ∷ populate no_store_faults 3 populator
    ∷ poll no_store_faults fetcher (pos 200000)
    ∷ []

-- The quarterback is a new player.
nfl_roster_on_unplayed :
    (tables_of (fetch_nfl_roster plain_text no_store_faults nfl_listing bears unplayed)).players
    ≡ record {
      id = "NFL::CHI::Smith";
      name = "Smith";
      team_id = "NFL::CHI";
      positions = 20 ∷ [];
      external_id = "7";
      external_vendor = "apisports";
    }
      ∷ []
unfolding fetch_nfl_roster store_nfl_player each logged lookup_name make_player_id upsert_player
    nfl_player_record insert_from insert_player suffixed select_row last_of make_team_id itoa
nfl_roster_on_unplayed = refl

steps_run-Settled_example :
    IsFinal "NFL::DET@CHI::20260104" (steps_run plain_text as_listed a_day played)
    × (verdict "NFL::DET@CHI::20260104" (steps_run plain_text as_listed a_day played)
        ≡ verdict "NFL::DET@CHI::20260104" played)
steps_run-Settled_example =
    steps_run-Settled plain_text as_listed "NFL::DET@CHI::20260104" a_day played (refl, refl)

fetch_nfl_game_result_loses_example :
    IsFinal "NFL::DET@CHI::20260104" (
      tables_of (
        fetch_nfl_game_result plain_text as_listed no_store_faults no_statistics
          (opener_row "SCHEDULED" none)
          unplayed))
    × ((verdict "NFL::DET@CHI::20260104" (
          steps_run plain_text as_listed a_day (
            tables_of (
              fetch_nfl_game_result plain_text as_listed no_store_faults no_statistics
                (opener_row "SCHEDULED" none)
                unplayed)))).1
        ≡ (verdict "NFL::DET@CHI::20260104" unplayed).1)
fetch_nfl_game_result_loses_example =
    fetch_nfl_game_result_loses plain_text as_listed no_store_faults no_statistics
      (opener_row "SCHEDULED" none) over [] unplayed a_day refl refl refl refl refl

populate_once-Kept_example :
    Kept unplayed (tables_of (populate_once plain_text no_store_faults 3 populator unplayed))
populate_once-Kept_example = populate_once-Kept plain_text no_store_faults 3 populator unplayed

two_pages-IsPaged : IsPaged two_pages 39 2
two_pages-IsPaged page reply got =
    let same = some-injective _ _ got in
    (sym (ap (λ r. r.current) same), subst (λ r. r.total ≤ 2) same (omega arith))

fetch_soccer_ref_data_finished_example :
    is_finished (fetch_soccer_ref_data plain_text no_store_faults 3 two_pages 2026 39 unplayed)
    ≡ true
fetch_soccer_ref_data_finished_example =
    fetch_soccer_ref_data_finished plain_text no_store_faults two_pages 2026 39 2 two_pages-IsPaged
      unplayed
