-- ===== src/Registry/Backing.antt =====
-- What stands in the tables of vendor_refdata for an instrument that registry/internal/service.go has
-- created on a snapshot of registry/internal/refcache.go.
use secwager.VendorRefdata.Reaching.{steps_run-IsIntact}
use secwager.VendorRefdata.Integrity.{IsIntact}
use secwager.VendorRefdata.Mapping.{GoText, MapOrder}
use secwager.VendorRefdata.Settling.{steps_run, VendorStep}
use secwager.Registry.Accepting.{FitsGame, validate_entities_lem}
use secwager.Registry.Snapshots.{IsSnapshot, IsBacked, cached-IsLoaded, leg-IsBacked}
use secwager.Prelude.Int.{ℤ}
use secwager.Registry.Refdata.{RefStore, get_game, lookup, Game}
use secwager.Registry.Loading.{cached}
use secwager.Registry.Validate.{validate_structural, validate_entities, validate_cross_leg}
use secwager.VendorRefdata.Tables.{Tables}
use secwager.Registry.Instruments.{CreateFaults, InstrumentTables}
use mathlib.Core.Path.{subst}
use secwager.Registry.Legs.{Leg}
use secwager.Registry.Service.{created, create_instrument}
use secwager.Prelude.{
  inl, none, ◌∷◌, some, ap, [], String, ◌≡◌, Bool, Option-cases, Option, inr, arith, All, List,
  All-map,
}

-- The tables that some runs of vendor_refdata lead to.
abbrev pub IsReached : GoText → MapOrder → Tables → Tables → Type 0
IsReached go order origin t = (steps : List VendorStep) × (steps_run go order steps origin ≡ t)

reached-IsIntact :
    (go : GoText) (order : MapOrder) (origin : Tables)
    → IsIntact origin
    → (t : Tables) → IsReached go order origin t
    → IsIntact t
reached-IsIntact go order origin intact t (steps, led) =
    subst IsIntact led (steps_run-IsIntact go order steps origin intact)

module _ (leg_hash : Leg → Option String) (digest : String → String) (faults : CreateFaults) where
  -- An answer with an id is given to legs that have passed the first and the third phase.
  created_valid :
      (rs : RefStore) (legs : List Leg) (t u : InstrumentTables) (id : String) (expiry : ℤ)
      (existed : Bool)
      → create_instrument leg_hash digest faults rs legs t ≡ (created id expiry existed, u)
      → (validate_structural legs ≡ none) × (validate_entities rs legs ≡ none)
  unfolding create_instrument
  created_valid rs legs t u id expiry existed answer =
      elim (Option-cases (validate_structural legs)) [
        | inr (e, malformed) ↦
            ground (arith, ap (λ a. a.0) (rw (create_instrument, malformed) at answer))
        | inl formed ↦ elim (Option-cases (validate_cross_leg leg_hash legs)) [
          | inr (e, contradicting) ↦
              ground
                (arith, ap (λ a. a.0) (rw (create_instrument, formed, contradicting) at answer))
          | inl consistent ↦ elim (Option-cases (validate_entities rs legs)) [
            | inr (e, unknown) ↦ ground (
              arith,
              ap (λ a. a.0) (rw (create_instrument, formed, consistent, unknown) at answer),
            )
            | inl known ↦ (formed, known)
          ]
        ]
      ]

  no_empty_ref :
      (legs : List Leg)
      → validate_structural legs ≡ none
      → ¬ All
          (λ leg.
            (game : Game) × (get_game (cached none) leg.game_id ≡ some game)
            × FitsGame (cached none) leg.game_id game leg.predicate)
          legs
  unfolding validate_structural cached get_game lookup
  no_empty_ref [] formed h = ground (arith, formed)
  no_empty_ref (leg ∷ legs) formed h = ground (arith, h.0.1)

  -- Let each query of each refresh of the cache find the tables as some runs of vendor_refdata have left
  -- them, from tables whose keys hold. For an instrument that is created, or found to exist, on what the
  -- cache gives, there are two such states of the tables, one with a row for each leg's game, and one
  -- with a row for each prop's player, who is of the home or the away team and has a position for which
  -- the fixed rules allow the prop; a draw is on soccer.
  pub create_instrument-AreBacked :
      (go : GoText) (order : MapOrder) (origin : Tables) (snapshot : Option RefStore)
      (legs : List Leg) (t u : InstrumentTables) (id : String) (expiry : ℤ) (existed : Bool)
      → IsIntact origin
      → IsSnapshot (IsReached go order origin) snapshot
      → create_instrument leg_hash digest faults (cached snapshot) legs t
        ≡ (created id expiry existed, u)
      → (at_players : Tables) × (at_games : Tables) × IsReached go order origin at_players
        × IsReached go order origin at_games
        × All (IsBacked at_players.players at_games.games) legs
  create_instrument-AreBacked go order origin snapshot legs t u id expiry existed intact history
        answer =
      let (formed, known) = created_valid (cached snapshot) legs t u id expiry existed answer in
      let fits = validate_entities_lem (cached snapshot) legs known in
      let P = IsReached go order origin in
      let keyed = reached-IsIntact go order origin intact in
      elim (cached-IsLoaded P keyed snapshot history) [
        | inr empty ↦ absurd (
            no_empty_ref legs formed (
              subst
                (λ s.
                  All
                    (λ leg.
                      (game : Game) × (get_game (cached s) leg.game_id ≡ some game)
                      × FitsGame (cached s) leg.game_id game leg.predicate)
                    legs)
                empty fits))
        | inl (at_players, at_games, p, q, ids_p, ids_g, rosters, rules) ↦ (
          at_players,
          at_games,
          p,
          q,
          All-map
              (λ leg (game, there, fit).
                leg-IsBacked (cached snapshot) at_players at_games leg game ids_p ids_g rosters
                  rules there fit)
              legs fits,
        )
      ]
