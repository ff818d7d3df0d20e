-- ===== src/Registry/Validate.antt =====
-- The three phases of registry/internal/validate.go, and `CreateInstrument`'s use of them. The hash of a
-- leg is the protobuf library's and sha256: a parameter, `none` where it fails.
use secwager.Prelude.Int.{ltb_ℤ, leb_ℤ, ℤ, pos}
use secwager.Registry.Refdata.{
  RefStore, player_in_game, prop_allowed_for_player, get_game, get_player,
}
use secwager.Prelude.{
  ℕ, ◌⊎◌, str_eq, some, any, Option, List, not, ◌∷◌, if◌then◌else◌, ◌==◌, inr, [], ◌+◌, Bool, ◌||◌,
  false, none, inl, ◌&&◌, ◌++◌, String,
}
use secwager.Registry.Legs.{
  Predicate, Refusal, Leg, PlayerProp, gt, draw, is_soccer, lte, gte, lt, eq,
}

abbrev pub prop_refusal : ℕ → PlayerProp → Option Refusal
prop_refusal i pp =
    if str_eq pp.player_id ""
    then some (Refusal.player_id_required i)
    else if pp.prop_type == 0
    then some (Refusal.prop_type_required i)
    else if pp.comparator == 0
    then some (Refusal.comparator_required i)
    else if ltb_ℤ pp.threshold (pos 0)
    then some (Refusal.negative_threshold i)
    else if pp.comparator == gte && leb_ℤ pp.threshold (pos 0)
    then some (Refusal.trivially_true i)
    else if pp.comparator == lt && leb_ℤ pp.threshold (pos 0)
    then some (Refusal.trivially_false i)
    else none

abbrev pub leg_refusal : ℕ → Leg → Option Refusal
leg_refusal i leg =
    if str_eq leg.game_id "" then some (Refusal.game_id_required i) else elim leg.predicate [
      | Predicate.game_outcome outcome ↦
          if outcome == 0 then some (Refusal.outcome_required i) else none
      | Predicate.player_prop pp ↦ prop_refusal i pp
      | Predicate.no_predicate ↦ some (Refusal.predicate_required i)
    ]

-- The loop over the legs, from the number `i` on: the first refusal.
unfoldable pub first_refusal : (ℕ → Leg → Option Refusal) → ℕ → List Leg → Option Refusal
first_refusal check i [] = none
first_refusal check i (leg ∷ legs) = elim (check i leg) [
  | some e ↦ some e
  | none ↦ first_refusal check (i + 1) legs
]

unfoldable pub validate_structural : List Leg → Option Refusal
unfolding first_refusal
validate_structural [] = some Refusal.no_legs
validate_structural (leg ∷ legs) = first_refusal leg_refusal 0 (leg ∷ legs)

abbrev pub same_threshold : PlayerProp → PlayerProp → Bool
same_threshold a b = leb_ℤ a.threshold b.threshold && leb_ℤ b.threshold a.threshold

-- Two props that the source takes to contradict each other.
unfoldable pub contradicts : PlayerProp → PlayerProp → Bool
contradicts a b =
    (same_threshold a b
      && ((a.comparator == gt && b.comparator == lte)
          || (a.comparator == lte && b.comparator == gt)
          || (a.comparator == gte && b.comparator == lt)
          || (a.comparator == lt && b.comparator == gte)))
    || (a.comparator == eq && b.comparator == eq && not (same_threshold a b))

-- The loops over `i < j`.
unfoldable pub check_prop_contradiction : List PlayerProp → Bool
unfolding contradicts
check_prop_contradiction [] = false
check_prop_contradiction (a ∷ rest) = any (contradicts a) rest || check_prop_contradiction rest

pub record PropKey : Type 0 where
  pub game_id : String
  pub player_id : String
  pub prop_type : ℕ

abbrev pub same_key : PropKey → PropKey → Bool
same_key k l =
    str_eq k.game_id l.game_id && str_eq k.player_id l.player_id && k.prop_type == l.prop_type

abbrev pub PropLegs : Type 0
PropLegs = List (PropKey × List PlayerProp)

unfoldable pub add_prop : PropKey → PlayerProp → PropLegs → PropLegs
add_prop key pp [] = (key, pp ∷ []) ∷ []
add_prop key pp ((k, pps) ∷ rest) =
    if same_key k key then (k, pps ++ pp ∷ []) ∷ rest else (k, pps) ∷ add_prop key pp rest

-- What the loop over the legs has seen: the hashes, the games with an outcome, and the props.
pub record Seen : Type 0 where
  pub leg_hashes : List String
  pub outcome_games : List String
  pub prop_legs : PropLegs

abbrev pub has_str : String → List String → Bool
has_str s = any (λ t. str_eq t s)

module _ (leg_hash : Leg → Option String) where
  -- One leg whose hash is new.
  unfoldable pub see_predicate : ℕ → Leg → Seen → Refusal ⊎ Seen
  unfolding add_prop
  see_predicate i leg seen = elim leg.predicate [
    | Predicate.game_outcome outcome ↦
        if has_str leg.game_id seen.outcome_games
        then inl (Refusal.contradicting_outcomes i)
        else inr (record seen { outcome_games = leg.game_id ∷ seen.outcome_games })
    | Predicate.player_prop pp ↦
        let key : PropKey = record {
          game_id = leg.game_id;
          player_id = pp.player_id;
          prop_type = pp.prop_type;
        } in
        inr (record seen { prop_legs = add_prop key pp seen.prop_legs })
    | Predicate.no_predicate ↦ inr seen
  ]

  unfoldable pub see_leg : ℕ → Leg → Seen → Refusal ⊎ Seen
  unfolding see_predicate
  see_leg i leg seen = elim (leg_hash leg) [
    | none ↦ inl Refusal.hash_failed
    | some h ↦
        if has_str h seen.leg_hashes
        then inl (Refusal.duplicate_leg i)
        else see_predicate i leg (record seen { leg_hashes = h ∷ seen.leg_hashes })
  ]

  unfoldable pub see_legs : ℕ → List Leg → Seen → Refusal ⊎ Seen
  unfolding see_leg
  see_legs i [] seen = inr seen
  see_legs i (leg ∷ legs) seen = elim (see_leg i leg seen) [
    | inl e ↦ inl e
    | inr seen' ↦ see_legs (i + 1) legs seen'
  ]

  unfoldable pub validate_cross_leg : List Leg → Option Refusal
  unfolding see_legs check_prop_contradiction
  validate_cross_leg legs =
      elim (see_legs 0 legs (record { leg_hashes = []; outcome_games = []; prop_legs = [] })) [
        | inl e ↦ some e
        | inr seen ↦
            if any (λ g. check_prop_contradiction g.1) seen.prop_legs
            then some Refusal.contradicting_props
            else none
      ]

unfoldable pub entity_refusal : RefStore → ℕ → Leg → Option Refusal
entity_refusal rs i leg = elim (get_game rs leg.game_id) [
  | none ↦ some (Refusal.game_not_found i)
  | some game ↦ elim leg.predicate [
    | Predicate.game_outcome outcome ↦
        if outcome == draw && not (is_soccer game.league)
        then some (Refusal.draw_not_soccer i)
        else none
    | Predicate.player_prop pp ↦ elim (get_player rs pp.player_id) [
      | none ↦ some (Refusal.player_not_found i)
      | some player ↦
          if not (player_in_game rs pp.player_id leg.game_id)
          then some (Refusal.player_not_in_game i)
          else if not (prop_allowed_for_player pp.prop_type player game.league rs)
          then some (Refusal.prop_not_allowed i)
          else none
    ]
    | Predicate.no_predicate ↦ none
  ]
]

-- `validateEntities`; the expiries that it collects are those of the legs' games.
unfoldable pub validate_entities : RefStore → List Leg → Option Refusal
unfolding first_refusal entity_refusal
validate_entities rs legs = first_refusal (entity_refusal rs) 0 legs

abbrev pub game_expiry : RefStore → Leg → ℤ
game_expiry rs leg = elim (get_game rs leg.game_id) [ none ↦ pos 0 | some game ↦ game.expiry_unix ]

-- The later of two times.
unfoldable pub later : ℤ → ℤ → ℤ
later m e = if ltb_ℤ m e then e else m

-- `MaxExpiry` on the expiries collected, from `m` on.
unfoldable pub max_expiry : RefStore → List Leg → ℤ → ℤ
unfolding later
max_expiry rs [] m = m
max_expiry rs (leg ∷ legs) m = max_expiry rs legs (later m (game_expiry rs leg))
