-- ===== src/Registry/Accepting.antt =====
-- What holds of the legs that registry/internal/validate.go lets through.
use secwager.Prelude.Int.{ℤ, ◌≤ℤ◌}
use secwager.Registry.Refdata.{
  RefStore, Game, Player, player_in_game, prop_allowed_for_player, get_game, get_player,
}
use secwager.Registry.Validate.{
  max_expiry, first_refusal, validate_structural, leg_refusal, game_expiry, entity_refusal,
  validate_entities, later,
}
use secwager.Registry.Contradictions.{IsContingent, prop_refusal-IsContingent}
use secwager.Prelude.{
  ℕ, All, ◌+◌, ◌∷◌, false, ◌≢◌, true, arith, [], List, str_eq, ◌≤◌, none, ◌≡◌, Option, refl, some,
  String, inr, inl, Option-cases,
}
use secwager.Registry.Legs.{Predicate, Leg, Refusal, draw, is_soccer}

-- What the first phase asks of a predicate: an outcome that is given, or a prop on a player that is
-- given, which no comparator of the list makes always true or always false.
abbrev pub IsMeaningful : Predicate → Type 0
IsMeaningful (Predicate.game_outcome outcome) = outcome ≢ 0
IsMeaningful (Predicate.player_prop pp) =
    (str_eq pp.player_id "" ≡ false) × (pp.comparator ≤ 5 → IsContingent pp)
IsMeaningful Predicate.no_predicate = true ≡ false

leg_refusal-IsMeaningful :
    (i : ℕ) (leg : Leg) (p : Predicate)
    → leg.predicate ≡ p
    → leg_refusal i leg ≡ none
    → (str_eq leg.game_id "" ≡ false) × IsMeaningful p
leg_refusal-IsMeaningful i leg (Predicate.game_outcome outcome) is e =
    (ground (arith, is, e), ground (arith, is, e))
leg_refusal-IsMeaningful i leg (Predicate.player_prop pp) is e = (
  ground (arith, is, e),
  (ground (arith, is, e), prop_refusal-IsContingent i pp (ground (arith, is, e))),
)
leg_refusal-IsMeaningful i leg Predicate.no_predicate is e =
    (ground (arith, is, e), ground (arith, is, e))

first_refusal-All {κ} :
    (P : Leg → Type κ) (check : ℕ → Leg → Option Refusal)
    → ((i : ℕ) (leg : Leg) → check i leg ≡ none → P leg)
    → (i : ℕ) (legs : List Leg) → first_refusal check i legs ≡ none
    → All P legs
unfolding first_refusal
first_refusal-All P check each i [] e = tt
first_refusal-All P check each i (leg ∷ legs) e =
    (each i leg (ground arith), first_refusal-All P check each (i + 1) legs (ground arith))

-- Legs that pass the first phase are at least one; each names a game, and either a given outcome or a
-- prop on a named player that, under any comparator of the list, is true at some count and false at
-- some other.
pub validate_structural_lem :
    (legs : List Leg)
    → validate_structural legs ≡ none
    → (legs ≢ []) × All (λ leg. (str_eq leg.game_id "" ≡ false) × IsMeaningful leg.predicate) legs
unfolding validate_structural
validate_structural_lem [] e = ground arith
validate_structural_lem (leg ∷ legs) e = (
  ground arith,
  first_refusal-All _ leg_refusal (λ i l q. leg_refusal-IsMeaningful i l l.predicate refl q) 0
      (leg ∷ legs) e,
)

later_lem : (m e : ℤ) → (m ≤ℤ later m e) × (e ≤ℤ later m e)
unfolding later
later_lem m e = (ground arith, ground arith)

max_expiry_up : (rs : RefStore) (legs : List Leg) (m : ℤ) → m ≤ℤ max_expiry rs legs m
unfolding max_expiry
max_expiry_up rs [] m = omega arith
max_expiry_up rs (leg ∷ legs) m =
    let next = later m (game_expiry rs leg) in
    omega (arith, max_expiry_up rs legs next, later_lem m (game_expiry rs leg))

-- The expiry of an instrument is no earlier than that of the game of any of its legs.
pub max_expiry_lem :
    (rs : RefStore) (legs : List Leg) (m : ℤ)
    → All (λ leg. game_expiry rs leg ≤ℤ max_expiry rs legs m) legs
unfolding max_expiry
max_expiry_lem rs [] m = tt
max_expiry_lem rs (leg ∷ legs) m =
    let next = later m (game_expiry rs leg) in
    (
      omega (arith, max_expiry_up rs legs next, later_lem m (game_expiry rs leg)),
      max_expiry_lem rs legs next,
    )

-- What the third phase asks of a predicate on a leg of the game.
abbrev pub FitsGame : RefStore → String → Game → Predicate → Type 0
FitsGame rs game_id game (Predicate.game_outcome outcome) =
    outcome ≡ draw → is_soccer game.league ≡ true
FitsGame rs game_id game (Predicate.player_prop pp) =
    (player : Player) × (get_player rs pp.player_id ≡ some player)
    × (player_in_game rs pp.player_id game_id ≡ true)
    × (prop_allowed_for_player pp.prop_type player game.league rs ≡ true)
FitsGame rs game_id game Predicate.no_predicate = Unit

entity_refusal-FitsGame :
    (rs : RefStore) (i : ℕ) (leg : Leg) (p : Predicate)
    → leg.predicate ≡ p
    → entity_refusal rs i leg ≡ none
    → (game : Game) × (get_game rs leg.game_id ≡ some game) × FitsGame rs leg.game_id game p
unfolding entity_refusal
entity_refusal-FitsGame rs i leg p is e = elim (Option-cases (get_game rs leg.game_id)) [
  | inl g ↦ ground (arith, g, e)
  | inr (game, g) ↦ (game, g, fits p is game g)
]
  where
    fits :
        (p : Predicate)
        → leg.predicate ≡ p
        → (game : Game) → get_game rs leg.game_id ≡ some game
        → FitsGame rs leg.game_id game p
    fits (Predicate.game_outcome outcome) is game g = λ d. ground (arith, is, e, g, d)
    fits (Predicate.player_prop pp) is game g = elim (Option-cases (get_player rs pp.player_id)) [
      | inl q ↦ ground (arith, q, e, is, g)
      | inr (player, q) ↦ (player, q, ground (arith, q, e, is, g), ground (arith, q, e, is, g))
    ]
    fits Predicate.no_predicate is game g = tt

-- Legs that pass the third phase are on games that are there; a draw is only on soccer, and a prop is
-- on a player that is there, is in the game, and has a position for which the league allows it.
pub validate_entities_lem :
    (rs : RefStore) (legs : List Leg)
    → validate_entities rs legs ≡ none
    → All
        (λ leg.
          (game : Game) × (get_game rs leg.game_id ≡ some game)
          × FitsGame rs leg.game_id game leg.predicate)
        legs
unfolding validate_entities
validate_entities_lem rs legs e =
    first_refusal-All _ (entity_refusal rs)
      (λ i l q. entity_refusal-FitsGame rs i l l.predicate refl q) 0 legs e
