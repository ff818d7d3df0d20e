-- ===== src/Registry/Rules.antt =====
-- `defaultPropRules` of registry/internal/proprules.go: the props that a league allows for a position, by
-- the numbers of proto/registry. Keys that it does not set have none.
use secwager.Registry.Legs.{is_soccer}
use secwager.Prelude.{ℕ, ◌∷◌, List, ◌==◌, if◌then◌else◌, [], ◌||◌}

abbrev mlb_rules : ℕ → List ℕ
mlb_rules position =
    if position == 2 then 1 ∷ 3 ∷ 4 ∷ 5 ∷ [] else if position == 1 then 2 ∷ 6 ∷ 5 ∷ [] else []

abbrev soccer_outfield : List ℕ
soccer_outfield = 20 ∷ 21 ∷ 23 ∷ []

abbrev soccer_gk : List ℕ
soccer_gk = 20 ∷ 21 ∷ 22 ∷ 23 ∷ []

abbrev soccer_rules : ℕ → List ℕ
soccer_rules position =
    if position == 13 || position == 12 || position == 11
    then soccer_outfield
    else if position == 10
    then soccer_gk
    else []

abbrev nfl_rules : ℕ → List ℕ
nfl_rules position =
    if position == 20
    then 40 ∷ 43 ∷ 44 ∷ []
    else if position == 21
    then 41 ∷ 43 ∷ 42 ∷ []
    else if position == 22
    then 42 ∷ 43 ∷ []
    else if position == 23
    then 42 ∷ 43 ∷ []
    else []

unfoldable pub default_prop_rules : (league position : ℕ) → List ℕ
default_prop_rules league position =
    if league == 1
    then mlb_rules position
    else if is_soccer league
    then soccer_rules position
    else if league == 2
    then nfl_rules position
    else []
