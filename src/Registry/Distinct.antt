-- ===== src/Registry/Distinct.antt =====
-- No leg twice: the duplicate check of `validateCrossLeg` in registry/internal/validate.go.
use secwager.Registry.Validate.{
  has_str, validate_cross_leg, see_leg, see_legs, see_predicate, Seen, check_prop_contradiction,
}
use mathlib.Core.Path.{subst, sym}
use mathlib.Core.Option.{some-injective}
use secwager.Prelude.{
  ℕ, All, inl, [], ◌≢◌, none, String, ◌+◌, List, ◌⊎◌, ◌∷◌, inr, Option, ◌∙◌, some, str_eq_refl,
  false, refl, any, Option-cases, arith, ◌≡◌, if◌then◌else◌,
}
use secwager.Registry.Legs.{Refusal, Leg}

module _ (leg_hash : Leg → Option String) where
  -- The leg has a hash that is not among those seen.
  abbrev IsNew : List String → Leg → Type 0
  IsNew hashes leg = (h : String) × (leg_hash leg ≡ some h) × (has_str h hashes ≡ false)

  -- No two of the legs have the same hash.
  abbrev pub AreDistinct : List Leg → Type 0
  AreDistinct [] = Unit
  AreDistinct (leg ∷ legs) = All (λ k. leg_hash k ≢ leg_hash leg) legs × AreDistinct legs

  see_leg-IsNew :
      (i : ℕ) (leg : Leg) (seen seen' : Seen)
      → see_leg leg_hash i leg seen ≡ inr seen'
      → (h : String) × (leg_hash leg ≡ some h)
        × (has_str h seen.leg_hashes ≡ false)
        × (seen'.leg_hashes ≡ h ∷ seen.leg_hashes)
  unfolding see_leg see_predicate
  see_leg-IsNew i leg seen seen' e = elim (Option-cases (leg_hash leg)) [
    | inl q ↦ ground (arith, q, e)
    | inr (h, q) ↦ (h, q, ground (arith, q, e), ground (arith, q, e))
  ]

  IsNew-shrink :
      (h : String) (hashes : List String) (leg : Leg) (first : Leg)
      → leg_hash first ≡ some h
      → IsNew (h ∷ hashes) leg
      → IsNew hashes leg × (leg_hash leg ≢ leg_hash first)
  IsNew-shrink h hashes leg first is (k, q, new) = (
    (k, q, ground (arith, new)),
    λ same. ground (arith, new, str_eq_refl h, some-injective _ _ (sym q ∙ (same ∙ is))),
  )

  fewer_seen :
      (h : String) (hashes : List String) (first : Leg) (legs : List Leg)
      → leg_hash first ≡ some h
      → All (IsNew (h ∷ hashes)) legs
      → All (IsNew hashes) legs × All (λ k. leg_hash k ≢ leg_hash first) legs
  fewer_seen h hashes first [] is all = (tt, tt)
  fewer_seen h hashes first (leg ∷ legs) is (new, all) =
      let one = IsNew-shrink h hashes leg first is new in
      let rest = fewer_seen h hashes first legs is all in ((one.0, rest.0), (one.1, rest.1))

  see_legs-AreDistinct :
      (i : ℕ) (legs : List Leg) (seen seen' : Seen)
      → see_legs leg_hash i legs seen ≡ inr seen'
      → All (IsNew seen.leg_hashes) legs × AreDistinct legs
  unfolding see_legs
  see_legs-AreDistinct i [] seen seen' e = (tt, tt)
  see_legs-AreDistinct i (leg ∷ legs) seen seen' e =
      go (see_leg leg_hash i leg seen) refl e (λ s q. see_legs-AreDistinct (i + 1) legs s seen' q)
    where
      go :
          (r : Refusal ⊎ Seen)
          → see_leg leg_hash i leg seen ≡ r
          → (elim r [ inl x ↦ inl x | inr s ↦ see_legs leg_hash (i + 1) legs s ]) ≡ inr seen'
          → ((s : Seen)
              → see_legs leg_hash (i + 1) legs s ≡ inr seen'
              → All (IsNew s.leg_hashes) legs × AreDistinct legs)
          → All (IsNew seen.leg_hashes) (leg ∷ legs) × AreDistinct (leg ∷ legs)
      go (inl x) is e later = cc
      go (inr s) is e later =
          let (h, q, new, grown) = see_leg-IsNew i leg seen s is in
          let (all, distinct) = later s e in
          let both =
            fewer_seen h seen.leg_hashes leg legs q (subst (λ hs. All (IsNew hs) legs) grown all) in
          (((h, q, new), both.0), (both.1, distinct))

  -- Legs that pass the second phase all have different hashes.
  pub validate_cross_leg-AreDistinct :
      (legs : List Leg) → validate_cross_leg leg_hash legs ≡ none → AreDistinct legs
  unfolding validate_cross_leg
  validate_cross_leg-AreDistinct legs e = go _ refl e
    where
      go :
          (r : Refusal ⊎ Seen)
          → see_legs leg_hash 0 legs
              (record { leg_hashes = []; outcome_games = []; prop_legs = [] })
            ≡ r
          → (elim r [
            | inl x ↦ some x
            | inr seen ↦
                if any (λ g. check_prop_contradiction g.1) seen.prop_legs
                then some Refusal.contradicting_props
                else none
          ])
            ≡ none
          → AreDistinct legs
      go (inl x) is e = cc
      go (inr s) is e = (see_legs-AreDistinct 0 legs _ s is).1
