-- ===== src/VendorRefdata/Mapping.antt =====
-- vendor_refdata/internal/mapping.go: the vendors' names for leagues and positions, and the ids.
use secwager.Prelude.{
  ℕ, String, List, Option, update, ◌∷◌, ltb, none, [], itoa, ◌<>◌, some, if◌then◌else◌, str_eq,
  ◌==◌,
}
use secwager.Prelude.Int.{ℤ}
use secwager.VendorRefdata.Tables.{TeamRecord}

-- What the code calls of Go's packages `strings` and `time`: `strings.ToUpper`, `strings.Fields`, the
-- date of a Unix time, `20060102` and in UTC, `time.Parse` with a layout, `strconv.ParseInt`, and
-- `strconv.ParseFloat` with the conversion to an integer.
pub record GoText : Type 0 where
  pub to_upper : String → String
  pub fields : String → List String
  pub date : ℤ → String
  pub parse_time : (layout value : String) → Option ℤ
  pub parse_int : String → Option ℤ
  pub parse_float : String → Option ℤ

-- The order in which a Go map with the given entries is walked.
pub record MapOrder : Type 1 where
  pub walk : {A : Type 0} → List A → List A

abbrev pub mlb : ℕ
mlb = 1

abbrev pub nfl : ℕ
nfl = 2

abbrev pub epl : ℕ
epl = 3

abbrev pub la_liga : ℕ
la_liga = 4

abbrev pub mls : ℕ
mls = 5

abbrev pub soccer_league_map : ℕ → Option ℕ
soccer_league_map id =
    if id == 39
    then some epl
    else if id == 140
    then some la_liga
    else if id == 253
    then some mls
    else none

-- A Go map from names, as the list of its entries.
unfoldable pub lookup_name {ℓ} : {A : Type ℓ} → List (String × A) → String → Option A
lookup_name [] name = none
lookup_name ((key, value) ∷ entries) name =
    if str_eq key name then some value else lookup_name entries name

abbrev pub soccer_player_list_position_map : List (String × ℕ)
soccer_player_list_position_map =
    ("Goalkeeper", 10)
    ∷ ("Keeper", 10)
    ∷ ("Defender", 11)
    ∷ ("Midfielder", 12)
    ∷ ("Attacker", 13)
    ∷ ("Forward", 13)
    ∷ []

abbrev pub nfl_position_map : List (String × ℕ)
nfl_position_map = ("QB", 20) ∷ ("RB", 21) ∷ ("WR", 22) ∷ ("TE", 23) ∷ ("DEF", 24) ∷ []

abbrev pub mlb_position_map : List (String × ℕ)
mlb_position_map =
    ("Pitcher", 1)
    ∷ ("Outfielder", 2)
    ∷ ("Infielder", 2)
    ∷ ("Catcher", 2)
    ∷ ("Hitter", 2)
    ∷ ("Two-Way Player", 2)
    ∷ []

abbrev pub league_prefix : ℕ → String
league_prefix league =
    if league == mlb
    then "MLB"
    else if league == nfl
    then "NFL"
    else if league == epl
    then "EPL"
    else if league == la_liga
    then "LA_LIGA"
    else if league == mls
    then "MLS"
    else ""

-- The last item, or nothing: an index of -1 panics.
unfoldable pub last_of {ℓ} : {A : Type ℓ} → List A → Option A
last_of [] = none
last_of (x ∷ xs) = elim (last_of xs) [ none ↦ some x | some y ↦ some y ]

module _ (go : GoText) where
  unfoldable pub make_team_id : ℕ → String → String
  make_team_id league code = league_prefix league <> "::" <> go.to_upper code

  -- Nothing when the code panics: a name without a word.
  unfoldable pub make_player_id : ℕ → (team_code full_name : String) → Option String
  unfolding last_of
  make_player_id league team_code full_name = elim (last_of (go.fields full_name)) [
    | none ↦ none
    | some last_name ↦
        some
          (league_prefix league <> "::" <> go.to_upper team_code <> "::" <> go.to_upper last_name)
  ]

  unfoldable pub make_game_id : ℕ → (away_code home_code : String) → ℤ → (game_number : ℕ) → String
  unfolding itoa
  make_game_id league away_code home_code scheduled_unix game_number =
      let base =
        league_prefix league
        <> "::"
        <> go.to_upper away_code
        <> "@"
        <> go.to_upper home_code
        <> "::"
        <> go.date scheduled_unix in
      if ltb 1 game_number then base <> "_G" <> itoa game_number else base

-- A team as the vendors list it; `code` is the abbreviation of the MLB. Ids of the vendors are not
-- negative.
pub record VendorTeam : Type 0 where
  pub id : ℕ
  pub name : String
  pub code : String

-- `teamCodeByID`: the empty code where there is no entry; a later entry replaces an earlier one.
unfoldable pub code_by_id : List VendorTeam → (ℕ → String) → ℕ → String
code_by_id [] codes = codes
code_by_id (team ∷ teams) codes = code_by_id teams (update codes team.id team.code)

abbrev pub no_codes : ℕ → String
no_codes _ = ""

unfoldable pub team_record : GoText → ℕ → String → VendorTeam → TeamRecord
unfolding make_team_id itoa
team_record go league vendor team = record {
  id = make_team_id go league team.code;
  name = team.name;
  short_name = team.code;
  league_id = league;
  external_id = itoa team.id;
  external_vendor = vendor;
}
