-- ===== src/Registry/Tests.antt =====
-- The validation of registry/internal/validate.go at work, on two games and two players.
use secwager.Registry.Distinct.{AreDistinct, validate_cross_leg-AreDistinct}
use secwager.Prelude.Int.{◌≤ℤ◌, pos}
use secwager.Registry.Contradictions.{holds, check_prop_contradiction_lem}
use secwager.Registry.Accepting.{IsMeaningful, validate_structural_lem, max_expiry_lem}
use secwager.Registry.Refdata.{RefStore, get_game, get_player, lookup}
use secwager.Registry.Validate.{
  check_prop_contradiction, validate_structural, game_expiry, validate_cross_leg, contradicts,
  max_expiry, validate_entities, first_refusal, see_legs, see_leg, see_predicate, add_prop,
  entity_refusal, later,
}
use secwager.Prelude.{
  ◌≡◌, some, refl, All, ◌∷◌, [], String, true, any, Option, str_eq, if◌then◌else◌, false, none,
  ◌&&◌, ◌==◌, not, ◌≢◌,
}
use secwager.Registry.Legs.{Predicate, Refusal, Leg, PlayerProp, lt, gte, draw}

abbrev prop : PlayerProp
prop = record { player_id = "p1"; prop_type = 1; comparator = gte; threshold = pos 2 }

abbrev under : PlayerProp
under = record prop { comparator = lt }

abbrev prop_leg : Leg
prop_leg = record { game_id = "g1"; predicate = Predicate.player_prop prop }

abbrev draw_leg : Leg
draw_leg = record { game_id = "g2"; predicate = Predicate.game_outcome draw }

abbrev refdata : RefStore
refdata = record {
  teams = [];
  players = ("p1", record { id = "p1"; name = "Poe"; team_id = "t1"; positions = 2 ∷ [] }) ∷ [];
  games =
      (
        "g1",
        record {
          id = "g1";
          league = 1;
          home_team_id = "t1";
          away_team_id = "t2";
          scheduled_unix = pos 50;
          expiry_unix = pos 90;
        },
      )
      ∷ (
        "g2",
        record {
          id = "g2";
          league = 3;
          home_team_id = "t3";
          away_team_id = "t4";
          scheduled_unix = pos 40;
          expiry_unix = pos 70;
        },
      )
      ∷ [];
  game_roster = λ id. if str_eq id "g1" then "p1" ∷ [] else [];
  prop_rules = λ league position. if league == 1 && position == 2 then 1 ∷ 3 ∷ [] else [];
}

-- The hash of a leg on this test's legs.
abbrev game_hash : Leg → Option String
game_hash leg = some leg.game_id

accepts :
    (validate_structural (prop_leg ∷ draw_leg ∷ []) ≡ none)
    × (validate_cross_leg game_hash (prop_leg ∷ draw_leg ∷ []) ≡ none)
    × (validate_cross_leg game_hash (prop_leg ∷ prop_leg ∷ []) ≡ some (Refusal.duplicate_leg 1))
    × (validate_entities refdata (prop_leg ∷ draw_leg ∷ []) ≡ none)
    × (max_expiry refdata (prop_leg ∷ draw_leg ∷ []) (pos 0) ≡ pos 90)
unfolding validate_structural validate_cross_leg validate_entities max_expiry first_refusal see_legs
    see_leg see_predicate add_prop check_prop_contradiction contradicts entity_refusal later
    get_game get_player lookup
accepts = (refl, refl, refl, refl, refl)

refused : check_prop_contradiction (prop ∷ under ∷ []) ≡ true
unfolding check_prop_contradiction contradicts
refused = refl

check_prop_contradiction_lem_example : any (λ pp. not (holds pp (pos 7))) (prop ∷ under ∷ []) ≡ true
check_prop_contradiction_lem_example =
    check_prop_contradiction_lem (prop ∷ under ∷ []) (pos 7) refused

validate_structural_lem_example :
    (prop_leg ∷ draw_leg ∷ [] ≢ [])
    × All
        (λ leg. (str_eq leg.game_id "" ≡ false) × IsMeaningful leg.predicate)
        (prop_leg ∷ draw_leg ∷ [])
validate_structural_lem_example = validate_structural_lem (prop_leg ∷ draw_leg ∷ []) accepts.0

max_expiry_lem_example :
    All
      (λ leg. game_expiry refdata leg ≤ℤ max_expiry refdata (prop_leg ∷ draw_leg ∷ []) (pos 0))
      (prop_leg ∷ draw_leg ∷ [])
max_expiry_lem_example = max_expiry_lem refdata (prop_leg ∷ draw_leg ∷ []) (pos 0)

validate_cross_leg-AreDistinct_example : AreDistinct game_hash (prop_leg ∷ draw_leg ∷ [])
validate_cross_leg-AreDistinct_example =
    validate_cross_leg-AreDistinct game_hash (prop_leg ∷ draw_leg ∷ []) accepts.1
