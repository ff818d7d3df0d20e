-- ===== src/Registry/Rosters.antt =====
-- Who is on the roster of a game, after either loader of registry/internal: that of pgrefstore.go and
-- that of the fixtures in refstore.go.
use secwager.VendorRefdata.Tables.{Tables}
use secwager.Registry.Loading.{
  LoadFaults, build_roster, load_ref_from_db, player_of, no_roster, no_rules, game_of,
}
use secwager.Registry.Entries.{IsKeyed, load_rows-IsKeyed, put_entry-IsKeyed, lookup-IsKeyed}
use secwager.Registry.Rostering.{loaded_lem, on_roster, build_roster_lem}
use secwager.Registry.Fixture.{
  read_players, read_games, load_fixture, FilePlayer, FixtureFile, FileGame, read_teams, parse_each,
  position_value, parse_enum, read_rules, league_value,
}
use secwager.Registry.Refdata.{
  RefStore, players_of, Player, get_player, Game, get_game, player_in_game, list_players_by_game,
}
use mathlib.Core.Option.{some-injective}
use mathlib.Core.Path.{subst}
use secwager.Prelude.{
  str_eq_iff, Option-cases, any, inl, ◌&&◌, ◌∙◌, none, inr, ◌∷◌, str_eq, ◌≡◌, String, Option, Bool,
  ap, arith, false, true, some, List, [], refl, sym,
}

-- A store that one of the loaders has given.
pub data IsFilled (rs : RefStore) : Type 0 where
  from_db :
      (faults : LoadFaults) (at_teams at_players at_games : Tables)
      → load_ref_from_db faults at_teams at_players at_games ≡ some rs
      → IsFilled rs
  from_fixture : (file : Option FixtureFile) → load_fixture file ≡ some rs → IsFilled rs

-- Players and games stand under their ids, and the roster has been built of them.
pub record IsRostered (rs : RefStore) : Type 0 where
  pub keyed_players : IsKeyed (λ p. p.id) rs.players
  pub keyed_games : IsKeyed (λ g. g.id) rs.games
  pub built : rs.game_roster ≡ build_roster rs.players rs.games no_roster

read_players-IsKeyed :
    (ps : List FilePlayer) (m n : List (String × Player))
    → IsKeyed (λ p. p.id) m
    → read_players ps m ≡ some n
    → IsKeyed (λ p. p.id) n
unfolding read_players
read_players-IsKeyed [] m n h e = subst (IsKeyed (λ p. p.id)) (some-injective _ _ e) h
read_players-IsKeyed (p ∷ ps) m n h e =
    elim (Option-cases (parse_each position_value p.positions)) [
      | inl bad ↦ ground (arith, rw (read_players, bad) at e)
      | inr (positions, good) ↦
          read_players-IsKeyed ps _ n (put_entry-IsKeyed (λ q. q.id) p.id _ m refl h)
            (rw (read_players, good) at e)
    ]

read_games-IsKeyed :
    (gs : List FileGame) (m n : List (String × Game))
    → IsKeyed (λ g. g.id) m
    → read_games gs m ≡ some n
    → IsKeyed (λ g. g.id) n
unfolding read_games
read_games-IsKeyed [] m n h e = subst (IsKeyed (λ g. g.id)) (some-injective _ _ e) h
read_games-IsKeyed (g ∷ gs) m n h e = elim (Option-cases (parse_enum league_value g.league)) [
  | inl bad ↦ ground (arith, rw (read_games, bad) at e)
  | inr (league, good) ↦
      read_games-IsKeyed gs _ n (put_entry-IsKeyed (λ q. q.id) g.id _ m refl h)
        (rw (read_games, good) at e)
]

load_fixture-IsRostered :
    (file : Option FixtureFile) (rs : RefStore) → load_fixture file ≡ some rs → IsRostered rs
unfolding load_fixture
load_fixture-IsRostered none rs e = ground (arith, e)
load_fixture-IsRostered (some f) rs e = elim (Option-cases (read_teams f.teams [])) [
  | inl lost ↦ ground (arith, rw (load_fixture, lost) at e)
  | inr (teams, t) ↦ elim (Option-cases (read_players f.players [])) [
    | inl lost ↦ ground (arith, rw (load_fixture, t, lost) at e)
    | inr (players, p) ↦ elim (Option-cases (read_games f.games [])) [
      | inl lost ↦ ground (arith, rw (load_fixture, t, p, lost) at e)
      | inr (games, g) ↦ elim (Option-cases (read_rules f.prop_type_rules no_rules)) [
        | inl lost ↦ ground (arith, rw (load_fixture, t, p, g, lost) at e)
        | inr (rules, r) ↦
            subst IsRostered (some-injective _ _ (rw (load_fixture, t, p, g, r) at e)) (record {
              keyed_players = read_players-IsKeyed f.players [] players tt p;
              keyed_games = read_games-IsKeyed f.games [] games tt g;
              built = refl;
            })
      ]
    ]
  ]
]

IsFilled-IsRostered : (rs : RefStore) → IsFilled rs → IsRostered rs
IsFilled-IsRostered rs (from_fixture file e) = load_fixture-IsRostered file rs e
IsFilled-IsRostered rs (from_db faults at_teams at_players at_games e) =
    subst IsRostered (loaded_lem faults at_teams at_players at_games rs e) (record {
      keyed_players =
          load_rows-IsKeyed (λ p. p.id) (λ r. r.id) player_of (λ r. refl) at_players.players [] tt;
      keyed_games =
          load_rows-IsKeyed (λ g. g.id) (λ r. r.id) game_of (λ r. refl) at_games.games [] tt;
      built = refl;
    })

module _ (rs : RefStore) (filled : IsFilled rs) where
  player_in_game_filled :
      (player_id game_id : String)
      → player_in_game rs player_id game_id
        ≡ on_roster (get_player rs player_id) (get_game rs game_id)
  unfolding get_player get_game
  player_in_game_filled player_id game_id =
      let h = IsFilled-IsRostered rs filled in
      ap (λ roster. any (λ id. str_eq id player_id) (roster game_id)) h.built
      ∙ build_roster_lem rs.players rs.games player_id game_id h.keyed_players h.keyed_games

  get_player_id : (id : String) (p : Player) → get_player rs id ≡ some p → p.id ≡ id
  unfolding get_player
  get_player_id id p e =
      lookup-IsKeyed (λ q. q.id) id p rs.players (IsFilled-IsRostered rs filled).keyed_players e

  abbrev is_there : Option Player → Bool
  is_there none = false
  is_there (some p) = true

  players_of_lem :
      (player_id : String) (ids : List String)
      → any (λ p. str_eq p.id player_id) (players_of rs ids)
        ≡ (any (λ id. str_eq id player_id) ids && is_there (get_player rs player_id))
  unfolding players_of
  players_of_lem player_id [] = refl
  players_of_lem player_id (id ∷ ids) =
      let rest = players_of_lem player_id ids in
      elim (Option-cases (get_player rs id)) [
        | inl gone ↦
            let absent : str_eq id player_id ≡ true → is_there (get_player rs player_id) ≡ false =
              λ same.
                ap is_there (ap (get_player rs) (sym ((str_eq_iff id player_id).0 same)) ∙ gone) in
            rw (players_of, gone) (rest ∙ ground (arith, absent))
        | inr (p, there) ↦
            let present : str_eq id player_id ≡ true → is_there (get_player rs player_id) ≡ true =
              λ same.
                ap is_there (ap (get_player rs) (sym ((str_eq_iff id player_id).0 same)) ∙ there) in
            let named : p.id ≡ id = get_player_id id p there in
            rw (players_of, there, named, rest) (ground (arith, present))
      ]

  on_roster_there :
      (p : Option Player) (g : Option Game) → (on_roster p g && is_there p) ≡ on_roster p g
  on_roster_there none g = refl
  on_roster_there (some p) none = refl
  on_roster_there (some p) (some g) = ground arith

  -- In a store that either loader has given, a player is in the answer for a game exactly if both are
  -- there and the player's team is the home or the away team.
  pub list_players_by_game_lem :
      (player_id game_id : String)
      → any (λ p. str_eq p.id player_id) (list_players_by_game rs game_id)
        ≡ on_roster (get_player rs player_id) (get_game rs game_id)
  unfolding list_players_by_game
  list_players_by_game_lem player_id game_id =
      players_of_lem player_id (rs.game_roster game_id)
      ∙ ap (λ b. b && is_there (get_player rs player_id)) (player_in_game_filled player_id game_id)
      ∙ on_roster_there (get_player rs player_id) (get_game rs game_id)
