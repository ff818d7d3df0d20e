-- ===== src/Registry/Snapshots.antt =====
-- What a snapshot of registry/internal/refcache.go says of the tables of vendor_refdata that it was
-- loaded from.
use mathlib.Core.Path.{sym}
use secwager.VendorRefdata.Integrity.{among-map, AreUnique, IsIntact}
use secwager.Registry.Accepting.{FitsGame}
use secwager.Registry.Rostering.{on_roster, get_player_lem, get_game_lem, player_in_game_lem}
use secwager.Registry.Rules.{default_prop_rules}
use secwager.Registry.Entries.{HaveKeys}
use secwager.Registry.Legs.{Predicate, Leg, draw, is_soccer}
use secwager.Registry.Loading.{
  cached, LoadFaults, load_ref_from_db, refresh, player_of, game_of, plays,
}
use secwager.Registry.Refdata.{RefStore, get_player, get_game, player_in_game, Game}
use secwager.VendorRefdata.Tables.{PlayerRecord, Tables, GameRecord, select_row}
use mathlib.Core.Option.{some-injective, map as map_option}
use mathlib.Core.Path.{subst}
use secwager.Prelude.{
  none, ◌||◌, ◌⊎◌, ◌==◌, true, inl, Option-cases, inr, List, Option, some, any, refl, str_eq,
  String, ◌≡◌, arith, ◌∙◌, ap, sym, map, ◌∷◌, [],
}

-- What a predicate on a game asks of the rows of players.
abbrev pub IsBackedBy : List PlayerRecord → GameRecord → Predicate → Type 0
IsBackedBy players g (Predicate.game_outcome outcome) =
    outcome ≡ draw → is_soccer g.league_id ≡ true
IsBackedBy players g (Predicate.player_prop pp) =
    (p : PlayerRecord) × (select_row (λ r. str_eq r.id pp.player_id) players ≡ some p)
    × ((str_eq p.team_id g.home_team_id || str_eq p.team_id g.away_team_id) ≡ true)
    × (any
          (λ position.
            any (λ allowed. allowed == pp.prop_type) (default_prop_rules g.league_id position))
          p.positions
        ≡ true)
IsBackedBy players g Predicate.no_predicate = Unit

-- The leg's game has a row, and its predicate what it asks for.
abbrev pub IsBacked : List PlayerRecord → List GameRecord → Leg → Type 0
IsBacked players games leg =
    (g : GameRecord) × (select_row (λ r. str_eq r.id leg.game_id) games ≡ some g)
    × IsBackedBy players g leg.predicate

-- What the cache can hold after a start and refreshes, each of which finds tables that satisfy `P`.
pub data IsSnapshot (P : Tables → Type 0) : Option RefStore → Type 0 where
  started : IsSnapshot P none
  refreshed :
      (faults : LoadFaults) (at_teams at_players at_games : Tables) (snapshot : Option RefStore)
      → P at_players
      → P at_games
      → IsSnapshot P snapshot
      → IsSnapshot P (refresh faults at_teams at_players at_games snapshot)

map_option-some :
    {A B : Type 0} (f : A → B) (o : Option A) (b : B)
    → map_option f o ≡ some b
    → (a : A) × (o ≡ some a) × (f a ≡ b)
map_option-some f none b e = ground (arith, e)
map_option-some f (some a) b e = (a, refl, some-injective _ _ e)

-- What the cache gives is loaded, with the fixed rules, or empty.
abbrev pub IsLoaded : (Tables → Type 0) → RefStore → Type 0
IsLoaded P rs =
    (at_players : Tables) × (at_games : Tables) × P at_players
    × P at_games
    × ((id : String)
        → get_player rs id
          ≡ map_option player_of (select_row (λ r. str_eq r.id id) at_players.players))
    × ((id : String)
        → get_game rs id ≡ map_option game_of (select_row (λ r. str_eq r.id id) at_games.games))
    × ((player_id game_id : String)
        → player_in_game rs player_id game_id
          ≡ on_roster (get_player rs player_id) (get_game rs game_id))
    × (rs.prop_rules ≡ default_prop_rules)

keys-HaveKeys :
    {A : Type 0} (key : A → String) (rows : List A) → AreUnique (map key rows) → HaveKeys key rows
keys-HaveKeys key [] h = tt
keys-HaveKeys key (r ∷ rows) h = (among-map key rows (key r) ∙ h.0, keys-HaveKeys key rows h.1)

module _ (P : Tables → Type 0) (keyed : (t : Tables) → P t → IsIntact t) where
  pub cached-IsLoaded :
      (snapshot : Option RefStore)
      → IsSnapshot P snapshot
      → IsLoaded P (cached snapshot) ⊎ (snapshot ≡ none)
  unfolding cached refresh get_player get_game
  cached-IsLoaded snapshot started = inr refl
  cached-IsLoaded snapshot (refreshed faults at_teams at_players at_games before p q h) =
      elim (Option-cases (load_ref_from_db faults at_teams at_players at_games)) [
        | inl lost ↦ rw (refresh, lost) (cached-IsLoaded before h)
        | inr (rs, loaded) ↦
            let ids_p = get_player_lem faults at_teams at_players at_games rs loaded in
            let ids_g = get_game_lem faults at_teams at_players at_games rs loaded in
            let rosters = player_in_game_lem faults at_teams at_players at_games rs loaded in
            rw (refresh, loaded)
              (inl (
                at_players,
                at_games,
                p,
                q,
                (λ id. ids_p id (
                    keys-HaveKeys (λ r. r.id) at_players.players (keyed at_players p).player_keys)),
                (λ id.
                    ids_g id
                      (keys-HaveKeys (λ r. r.id) at_games.games (keyed at_games q).game_keys)),
                rosters,
                refl,
              ))
      ]

backs :
    (rs : RefStore) (at_players at_games : Tables) (game_id : String) (g : GameRecord)
    (predicate : Predicate)
    → ((id : String)
        → get_player rs id
          ≡ map_option player_of (select_row (λ r. str_eq r.id id) at_players.players))
    → ((player_id : String)
        → player_in_game rs player_id game_id
          ≡ on_roster (get_player rs player_id) (some (game_of g)))
    → rs.prop_rules ≡ default_prop_rules
    → FitsGame rs game_id (game_of g) predicate
    → IsBackedBy at_players.players g predicate
backs rs at_players at_games game_id g (Predicate.game_outcome outcome) ids rosters rules h = h
backs rs at_players at_games game_id g (Predicate.player_prop pp) ids rosters rules
      (player, there, in_game, allowed) =
    let (p, row, same) = map_option-some player_of _ player (sym (ids pp.player_id) ∙ there) in
    let on : on_roster (some player) (some (game_of g)) ≡ true =
      ap (λ o. on_roster o (some (game_of g))) (sym there) ∙ sym (rosters pp.player_id) ∙ in_game in
    (
      p,
      row,
      subst (λ q. plays q (game_of g) ≡ true) (sym same) on,
      subst
          (λ q.
            any (λ position. any (λ a. a == pp.prop_type) (default_prop_rules g.league_id position))
              q.positions
            ≡ true)
          (sym same)
          (subst
            (λ rules.
              any (λ position. any (λ a. a == pp.prop_type) (rules g.league_id position))
                player.positions
              ≡ true)
            rules allowed),
    )
backs rs at_players at_games game_id g Predicate.no_predicate ids rosters rules h = tt

pub leg-IsBacked :
    (rs : RefStore) (at_players at_games : Tables) (leg : Leg) (game : Game)
    → ((id : String)
        → get_player rs id
          ≡ map_option player_of (select_row (λ r. str_eq r.id id) at_players.players))
    → ((id : String)
        → get_game rs id ≡ map_option game_of (select_row (λ r. str_eq r.id id) at_games.games))
    → ((player_id game_id : String)
        → player_in_game rs player_id game_id
          ≡ on_roster (get_player rs player_id) (get_game rs game_id))
    → rs.prop_rules ≡ default_prop_rules
    → get_game rs leg.game_id ≡ some game
    → FitsGame rs leg.game_id game leg.predicate
    → IsBacked at_players.players at_games.games leg
leg-IsBacked rs at_players at_games leg game ids_p ids_g rosters rules there fits =
    let (g, row, same) = map_option-some game_of _ game (sym (ids_g leg.game_id) ∙ there) in
    (
      g,
      row,
      backs rs at_players at_games leg.game_id g leg.predicate ids_p
          (λ player_id.
            rosters player_id leg.game_id
            ∙ ap (on_roster (get_player rs player_id)) (there ∙ ap some (sym same)))
          rules (subst (λ h. FitsGame rs leg.game_id h leg.predicate) (sym same) fits),
    )
