-- ===== src/VendorRefdata/Integrity.antt =====
-- The primary and foreign keys of registry/db/migrations under the statements of
-- vendor_refdata/internal/store.go.

use secwager.VendorRefdata.Tables.{
  Tables, update_rows, TeamRecord, PlayerRecord, GameRecord, game_known, team_known, player_known,
}
use mathlib.Core.Path.{sym, subst}
use secwager.Prelude.{
  List, str_eq, any, String, refl, map, inr, ◌∙◌, ◌∷◌, All, arith, [], Bool-cases, Bool, false, inl,
  true, ◌≡◌, All-map,
}

abbrev pub among : List String → String → Bool
among ids id = any (λ j. str_eq j id) ids

abbrev pub AreUnique : List String → Type 0
AreUnique [] = Unit
AreUnique (id ∷ ids) = (among ids id ≡ false) × AreUnique ids

abbrev pub team_ids : Tables → List String
team_ids t = map (λ r. r.id) t.teams

abbrev pub player_ids : Tables → List String
player_ids t = map (λ r. r.id) t.players

abbrev pub game_ids : Tables → List String
game_ids t = map (λ r. r.id) t.games

-- Teams, players and games have ids of their own; a player's team, the two teams of a game, and the
-- game and the player of a statistic are there.
pub record IsIntact (t : Tables) : Type 0 where
  pub team_keys : AreUnique (team_ids t)
  pub player_keys : AreUnique (player_ids t)
  pub game_keys : AreUnique (game_ids t)
  pub player_teams : All (λ p. among (team_ids t) p.team_id ≡ true) t.players
  pub game_teams :
      All
        (λ g.
          (among (team_ids t) g.home_team_id ≡ true) × (among (team_ids t) g.away_team_id ≡ true))
        t.games
  pub stat_games : All (λ s. among (game_ids t) s.game_id ≡ true) t.stats
  pub stat_players : All (λ s. among (player_ids t) s.player_id ≡ true) t.stats

abbrev pub StaysIntact : Tables → Tables → Type 0
StaysIntact t u = IsIntact t → IsIntact u

pub StaysIntact-refl : (t : Tables) → StaysIntact t t
StaysIntact-refl t h = h

pub StaysIntact-trans : (t u v : Tables) → StaysIntact t u → StaysIntact u v → StaysIntact t v
StaysIntact-trans t u v f g h = g (f h)

pub among-map :
    {A : Type 0} (key : A → String) (rows : List A) (id : String)
    → any (λ r. str_eq (key r) id) rows ≡ among (map key rows) id
among-map key [] id = refl
among-map key (r ∷ rows) id = rw (among-map key rows id) refl

among_more : (ids : List String) (k id : String) → among ids id ≡ true → among (k ∷ ids) id ≡ true
among_more ids k id h = ground (arith, h)

pub All-update_rows :
    {A : Type 0} (P : A → Type 0) (p : A → Bool) (f : A → A) (rows : List A)
    → ((r : A) → P r → P (f r))
    → All P rows
    → All P (update_rows p f rows)
unfolding update_rows
All-update_rows P p f [] keep h = tt
All-update_rows P p f (r ∷ rows) keep h =
    let rest = All-update_rows P p f rows keep h.1 in
    elim (Bool-cases (p r)) [ inl hit ↦ rw hit (keep r h.0, rest) | inr miss ↦ rw miss (h.0, rest) ]

-- New rows of teams with the same ids.
pub with_teams :
    (t : Tables) (rows : List TeamRecord)
    → map (λ r. r.id) rows ≡ team_ids t
    → StaysIntact t (record t { teams = rows })
with_teams t rows same h = record {
  team_keys = subst AreUnique (sym same) h.team_keys;
  player_keys = h.player_keys;
  game_keys = h.game_keys;
  player_teams =
      subst (λ ids. All (λ p. among ids p.team_id ≡ true) t.players) (sym same) h.player_teams;
  game_teams =
      subst
        (λ ids.
          All (λ g. (among ids g.home_team_id ≡ true) × (among ids g.away_team_id ≡ true)) t.games)
        (sym same) h.game_teams;
  stat_games = h.stat_games;
  stat_players = h.stat_players;
}

pub add_team :
    (t : Tables) (r : TeamRecord)
    → team_known r.id t ≡ false
    → StaysIntact t (record t { teams = r ∷ t.teams })
add_team t r new h = record {
  team_keys = (sym (among-map (λ r. r.id) t.teams r.id) ∙ new, h.team_keys);
  player_keys = h.player_keys;
  game_keys = h.game_keys;
  player_teams = All-map (λ p k. among_more (team_ids t) r.id p.team_id k) t.players h.player_teams;
  game_teams =
      All-map
        (λ g k. (
          among_more (team_ids t) r.id g.home_team_id k.0,
          among_more (team_ids t) r.id g.away_team_id k.1,
        ))
        t.games h.game_teams;
  stat_games = h.stat_games;
  stat_players = h.stat_players;
}

-- New rows of players with the same ids, on teams that are there.
pub with_players :
    (t : Tables) (rows : List PlayerRecord)
    → map (λ r. r.id) rows ≡ player_ids t
    → (IsIntact t → All (λ p. among (team_ids t) p.team_id ≡ true) rows)
    → StaysIntact t (record t { players = rows })
with_players t rows same placed h = record {
  team_keys = h.team_keys;
  player_keys = subst AreUnique (sym same) h.player_keys;
  game_keys = h.game_keys;
  player_teams = placed h;
  game_teams = h.game_teams;
  stat_games = h.stat_games;
  stat_players =
      subst (λ ids. All (λ s. among ids s.player_id ≡ true) t.stats) (sym same) h.stat_players;
}

pub add_player :
    (t : Tables) (p : PlayerRecord)
    → player_known p.id t ≡ false
    → team_known p.team_id t ≡ true
    → StaysIntact t (record t { players = p ∷ t.players })
add_player t p new placed h = record {
  team_keys = h.team_keys;
  player_keys = (sym (among-map (λ r. r.id) t.players p.id) ∙ new, h.player_keys);
  game_keys = h.game_keys;
  player_teams = (sym (among-map (λ r. r.id) t.teams p.team_id) ∙ placed, h.player_teams);
  game_teams = h.game_teams;
  stat_games = h.stat_games;
  stat_players =
      All-map (λ s k. among_more (player_ids t) p.id s.player_id k) t.stats h.stat_players;
}

-- New rows of games with the same ids, between teams that are there.
pub with_games :
    (t : Tables) (rows : List GameRecord)
    → map (λ r. r.id) rows ≡ game_ids t
    → (IsIntact t
        → All
            (λ g.
              (among (team_ids t) g.home_team_id ≡ true)
              × (among (team_ids t) g.away_team_id ≡ true))
            rows)
    → StaysIntact t (record t { games = rows })
with_games t rows same between h = record {
  team_keys = h.team_keys;
  player_keys = h.player_keys;
  game_keys = subst AreUnique (sym same) h.game_keys;
  player_teams = h.player_teams;
  game_teams = between h;
  stat_games = subst (λ ids. All (λ s. among ids s.game_id ≡ true) t.stats) (sym same) h.stat_games;
  stat_players = h.stat_players;
}

pub add_game :
    (t : Tables) (g : GameRecord)
    → game_known g.id t ≡ false
    → team_known g.home_team_id t ≡ true
    → team_known g.away_team_id t ≡ true
    → StaysIntact t (record t { games = g ∷ t.games })
add_game t g new home away h = record {
  team_keys = h.team_keys;
  player_keys = h.player_keys;
  game_keys = (sym (among-map (λ r. r.id) t.games g.id) ∙ new, h.game_keys);
  player_teams = h.player_teams;
  game_teams = (
    (
      sym (among-map (λ r. r.id) t.teams g.home_team_id) ∙ home,
      sym (among-map (λ r. r.id) t.teams g.away_team_id) ∙ away,
    ),
    h.game_teams,
  );
  stat_games = All-map (λ s k. among_more (game_ids t) g.id s.game_id k) t.stats h.stat_games;
  stat_players = h.stat_players;
}
