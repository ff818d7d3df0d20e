-- ===== src/Registry/Contradictions.antt =====
-- What the checks of player props in registry/internal/validate.go mean for the value of the statistic.
use secwager.Prelude.Int.{ℤ, pos, ltb_ℤ, leb_ℤ, negsuc}
use secwager.Registry.Validate.{contradicts, check_prop_contradiction, prop_refusal}
use secwager.Prelude.{
  ℕ, List, true, inl, ◌==◌, arith, inr, ◌≤◌, if◌then◌else◌, ◌≡◌, not, false, Bool, ◌&&◌, Bool-cases,
  ◌∷◌, any, refl, [], ◌+◌, none, ◌||◌,
}
use secwager.Registry.Legs.{PlayerProp, gt, gte, lt, lte, eq}

-- Whether the prop is true at the value `v` of its statistic.
abbrev pub holds : PlayerProp → ℤ → Bool
holds pp v =
    if pp.comparator == gt
    then ltb_ℤ pp.threshold v
    else if pp.comparator == gte
    then leb_ℤ pp.threshold v
    else if pp.comparator == lt
    then ltb_ℤ v pp.threshold
    else if pp.comparator == lte
    then leb_ℤ v pp.threshold
    else pp.comparator == eq && leb_ℤ v pp.threshold && leb_ℤ pp.threshold v

contradicts_lem :
    (a b : PlayerProp) (v : ℤ) → contradicts a b ≡ true → holds a v ≡ true → holds b v ≡ false
unfolding contradicts
contradicts_lem a b v = ground arith

any-contradicts :
    (a : PlayerProp) (v : ℤ) (pps : List PlayerProp)
    → holds a v ≡ true
    → any (contradicts a) pps ≡ true
    → any (λ pp. not (holds pp v)) pps ≡ true
any-contradicts a v [] h e = ground arith
any-contradicts a v (b ∷ pps) h e = elim (Bool-cases (contradicts a b)) [
  | inl c ↦ let fails = contradicts_lem a b v c h in rw fails refl
  | inr c ↦ elim (Bool-cases (holds b v)) [
    | inl t ↦ rw t (any-contradicts a v pps h (ground (arith, e, c)))
    | inr f ↦ rw f refl
  ]
]

-- Props that are refused as contradicting cannot all be true: at every value of the statistic one of
-- them is false.
pub check_prop_contradiction_lem :
    (pps : List PlayerProp) (v : ℤ)
    → check_prop_contradiction pps ≡ true
    → any (λ pp. not (holds pp v)) pps ≡ true
unfolding check_prop_contradiction
check_prop_contradiction_lem [] v e = ground arith
check_prop_contradiction_lem (a ∷ rest) v e = elim (Bool-cases (holds a v)) [
  | inr f ↦ rw f refl
  | inl t ↦ elim (Bool-cases (any (contradicts a) rest)) [
    | inl c ↦ let found = any-contradicts a v rest t c in ground (arith, found)
    | inr c ↦
        let found = check_prop_contradiction_lem rest v (ground (arith, e, c)) in
        ground (arith, found)
  ]
]

-- A prop that is true at some count and false at some other.
abbrev pub IsContingent : PlayerProp → Type 0
IsContingent pp = ((n : ℕ) × (holds pp (pos n) ≡ true)) × ((n : ℕ) × (holds pp (pos n) ≡ false))

-- Counts at which a prop on the threshold `t` is true, and false.
abbrev true_at : ℕ → ℕ → ℕ
true_at c t = if c == gt then t + 1 else if c == gte || c == eq then t else 0

abbrev false_at : ℕ → ℕ → ℕ
false_at c t = if c == gt || c == gte then 0 else if c == lt then t else t + 1

prop_at_threshold :
    (i : ℕ) (pp : PlayerProp) (t : ℤ)
    → pp.threshold ≡ t
    → prop_refusal i pp ≡ none
    → pp.comparator ≤ 5
    → IsContingent pp
prop_at_threshold i pp (pos t) is e known =
    ((true_at pp.comparator t, ground arith), (false_at pp.comparator t, ground arith))
prop_at_threshold i pp (negsuc t) is e known = ground arith

pub prop_refusal-IsContingent :
    (i : ℕ) (pp : PlayerProp) → prop_refusal i pp ≡ none → pp.comparator ≤ 5 → IsContingent pp
prop_refusal-IsContingent i pp e known = prop_at_threshold i pp pp.threshold refl e known
