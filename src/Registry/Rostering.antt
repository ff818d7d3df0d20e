-- ===== src/Registry/Rostering.antt =====
-- The rosters and the lookups of a snapshot loaded by registry/internal/pgrefstore.go.
use secwager.Registry.Entries.{
  holds_of, str_eq_comm, IsKeyed, HaveKeys, load_rows-IsKeyed, any-lookup, lookup-load_rows,
}
use secwager.VendorRefdata.Tables.{Tables, select_row}
use secwager.Registry.Loading.{
  Roster, roster_player, LoadFaults, build_roster, append_player, plays, load_ref_from_db, ref_of,
  no_roster, game_of, player_of,
}
use secwager.Registry.Refdata.{Player, Game, RefStore, get_player, get_game, player_in_game, lookup}
use mathlib.Core.Option.{map as map_option}
use mathlib.Core.Path.{subst}
use secwager.Prelude.{
  ◌++◌, List, ap, false, some, arith, [], Bool-cases, str_eq, ◌∙◌, String, Bool, refl, inl, ◌||◌,
  inr, any, none, ◌≡◌, ◌∷◌, Option, ◌&&◌,
}

module _ (player_id game_id : String) where
  abbrev has_player : List String → Bool
  has_player = any (λ id. str_eq id player_id)

  has_player-append :
      (xs ys : List String) → has_player (xs ++ ys) ≡ (has_player xs || has_player ys)
  has_player-append [] ys = refl
  has_player-append (x ∷ xs) ys = rw (has_player-append xs ys) (ground arith)

  has_player-append_player :
      (g p : String) (roster : Roster)
      → has_player (append_player g p roster game_id)
        ≡ (has_player (roster game_id) || (str_eq g game_id && str_eq p player_id))
  has_player-append_player g p roster = elim (Bool-cases (str_eq g game_id)) [
    | inl same ↦
        rw (str_eq_comm game_id g, same, has_player-append (roster game_id) (p ∷ [])) (ground arith)
    | inr other ↦ rw (str_eq_comm game_id g, other) (ground arith)
  ]

  abbrev in_some_game : Player → List (String × Game) → Bool
  in_some_game p = any (λ e. str_eq e.1.id game_id && plays p e.1)

  has_player-roster_player :
      (p : Player) (games : List (String × Game)) (roster : Roster)
      → has_player (roster_player p games roster game_id)
        ≡ (has_player (roster game_id) || (str_eq p.id player_id && in_some_game p games))
  unfolding roster_player
  has_player-roster_player p [] roster = ground arith
  has_player-roster_player p ((k, g) ∷ games) roster = elim (Bool-cases (plays p g)) [
    | inl in_game ↦
        rw (in_game, roster_player)
          (has_player-roster_player p games (append_player g.id p.id roster)
            ∙ ap (λ b. b || (str_eq p.id player_id && in_some_game p games))
                (has_player-append_player g.id p.id roster)
            ∙ ground arith)
    | inr apart ↦ rw (apart, roster_player) (has_player-roster_player p games roster ∙ ground arith)
  ]

  has_player-build_roster :
      (players : List (String × Player)) (games : List (String × Game)) (roster : Roster)
      → has_player (build_roster players games roster game_id) ≡ (
          has_player (roster game_id)
          || any (λ e. str_eq e.1.id player_id && in_some_game e.1 games) players)
  unfolding build_roster
  has_player-build_roster [] games roster = ground arith
  has_player-build_roster ((k, p) ∷ players) games roster =
      has_player-build_roster players games (roster_player p games roster)
      ∙ ap (λ b. b || any (λ e. str_eq e.1.id player_id && in_some_game e.1 games) players)
          (has_player-roster_player p games roster)
      ∙ ground arith

-- Whether the player and the game are there and the player's team is one of the game's.
abbrev pub on_roster : Option Player → Option Game → Bool
on_roster none g = false
on_roster (some p) none = false
on_roster (some p) (some g) = plays p g

on_roster_lem :
    (p : Option Player) (g : Option Game)
    → holds_of (λ q. q.id) (λ q. holds_of (λ h. h.id) (plays q) g) p ≡ on_roster p g
on_roster_lem none g = refl
on_roster_lem (some p) none = refl
on_roster_lem (some p) (some g) = refl

any_cong : {A : Type 0} (p q : A → Bool) (xs : List A) → ((x : A) → p x ≡ q x) → any p xs ≡ any q xs
any_cong p q [] h = refl
any_cong p q (x ∷ xs) h = rw (h x, any_cong p q xs h) refl

-- The roster of maps that have each value under its id, once.
pub build_roster_lem :
    (players : List (String × Player)) (games : List (String × Game)) (player_id game_id : String)
    → IsKeyed (λ p. p.id) players
    → IsKeyed (λ g. g.id) games
    → any (λ id. str_eq id player_id) (build_roster players games no_roster game_id)
      ≡ on_roster (lookup player_id players) (lookup game_id games)
build_roster_lem players games player_id game_id keyed_players keyed_games =
    has_player-build_roster player_id game_id players games no_roster
    ∙ any_cong _
        (λ e. str_eq e.1.id player_id && holds_of (λ g. g.id) (plays e.1) (lookup game_id games))
        players
        (λ e.
          ap (λ b. str_eq e.1.id player_id && b)
            (any-lookup (λ g. g.id) (plays e.1) game_id games keyed_games))
    ∙ any-lookup (λ p. p.id) (λ p. holds_of (λ g. g.id) (plays p) (lookup game_id games)) player_id
        players keyed_players
    ∙ on_roster_lem (lookup player_id players) (lookup game_id games)

module _ (faults : LoadFaults) (at_teams at_players at_games : Tables) (rs : RefStore)
    (loaded : load_ref_from_db faults at_teams at_players at_games ≡ some rs) where
  pub loaded_lem : ref_of at_teams at_players at_games ≡ rs
  unfolding load_ref_from_db
  loaded_lem = ground (arith, loaded)

  -- A player is on the roster of a game exactly if both are there and the player's team is the home or
  -- the away team.
  pub player_in_game_lem :
      (player_id game_id : String)
      → player_in_game rs player_id game_id
        ≡ on_roster (get_player rs player_id) (get_game rs game_id)
  unfolding get_player get_game
  player_in_game_lem player_id game_id =
      subst
        (λ s.
          player_in_game s player_id game_id
          ≡ on_roster (get_player s player_id) (get_game s game_id))
        loaded_lem
        (build_roster_lem _ _ player_id game_id
          (load_rows-IsKeyed (λ p. p.id) (λ r. r.id) player_of (λ r. refl) at_players.players [] tt)
          (load_rows-IsKeyed (λ g. g.id) (λ r. r.id) game_of (λ r. refl) at_games.games [] tt))

  -- Under the primary keys, a player and a game are there with what their rows say.
  pub get_player_lem :
      (id : String)
      → HaveKeys (λ r. r.id) at_players.players
      → get_player rs id
        ≡ map_option player_of (select_row (λ r. str_eq r.id id) at_players.players)
  unfolding get_player
  get_player_lem id keys =
      subst
        (λ s.
          get_player s id
          ≡ map_option player_of (select_row (λ r. str_eq r.id id) at_players.players))
        loaded_lem (lookup-load_rows (λ r. r.id) player_of id at_players.players [] keys refl)

  pub get_game_lem :
      (id : String)
      → HaveKeys (λ r. r.id) at_games.games
      → get_game rs id ≡ map_option game_of (select_row (λ r. str_eq r.id id) at_games.games)
  unfolding get_game
  get_game_lem id keys =
      subst
        (λ s. get_game s id ≡ map_option game_of (select_row (λ r. str_eq r.id id) at_games.games))
        loaded_lem (lookup-load_rows (λ r. r.id) game_of id at_games.games [] keys refl)
