-- ===== src/Registry/Legs.antt =====
-- The messages of proto/registry that the registry checks. An enum of proto3 is open: a value is its
-- number, and the constants name those that the source names.
use secwager.Prelude.Int.{ℤ}
use secwager.Prelude.{ℕ, ◌==◌, Bool, String, ◌||◌}

abbrev pub gt : ℕ
gt = 1

abbrev pub gte : ℕ
gte = 2

abbrev pub lt : ℕ
lt = 3

abbrev pub lte : ℕ
lte = 4

abbrev pub eq : ℕ
eq = 5

-- `League_EPL`, `League_LA_LIGA` and `League_MLS`
abbrev pub is_soccer : ℕ → Bool
is_soccer league = league == 3 || league == 4 || league == 5

-- `Outcome_DRAW`
abbrev pub draw : ℕ
draw = 3

pub record PlayerProp : Type 0 where
  pub player_id : String
  pub prop_type : ℕ
  pub comparator : ℕ
  pub threshold : ℤ

pub data Predicate : Type 0 where
  game_outcome : ℕ → Predicate
  player_prop : PlayerProp → Predicate
  no_predicate : Predicate

pub record Leg : Type 0 where
  pub game_id : String
  pub predicate : Predicate

-- The refusals of the three phases; the number is the leg's.
pub data Refusal : Type 0 where
  no_legs contradicting_props hash_failed : Refusal
  game_id_required outcome_required player_id_required prop_type_required : ℕ → Refusal
  comparator_required negative_threshold trivially_true trivially_false : ℕ → Refusal
  predicate_required duplicate_leg contradicting_outcomes : ℕ → Refusal
  game_not_found draw_not_soccer player_not_found player_not_in_game : ℕ → Refusal
  prop_not_allowed : ℕ → Refusal
