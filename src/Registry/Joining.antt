-- ===== src/Registry/Joining.antt =====
-- The join in the query of `List` of registry/internal/postgres.go: what the token does to it, what it
-- holds, and that `Get` finds each of its rows.
use secwager.Prelude.Int.{ℤ}
use secwager.Registry.Instruments.{InstrumentRow, StoredLeg, InstrumentTables, EntityRow}
use secwager.Registry.Listing.{
  PageToken, join_entities, is_after, row_fits, no_token, join_legs, join_instruments, ListArgs,
}
use secwager.Prelude.{
  Bool, str_eq, arith, any, refl, inr, inl, ◌&&◌, filter, ◌≡◌, List, ◌∷◌, ◌==◌, ◌++◌, String, ◌||◌,
  Bool-cases, [], ◌∙◌, true, All, All-append,
}

module _ (p : InstrumentRow → Bool) where
  filter-append : (xs ys : List InstrumentRow) → filter p (xs ++ ys) ≡ filter p xs ++ filter p ys
  filter-append [] ys = refl
  filter-append (x ∷ xs) ys = elim (Bool-cases (p x)) [
    | inl passes ↦ rw (passes, filter-append xs ys) refl
    | inr fails ↦ rw (fails, filter-append xs ys) refl
  ]

  any-append : (xs ys : List InstrumentRow) → any p (xs ++ ys) ≡ (any p xs || any p ys)
  any-append [] ys = refl
  any-append (x ∷ xs) ys = rw (any-append xs ys) (ground arith)

module _ (collate : String → String → Bool) (f : ListArgs) (now : ℤ) where
  -- Some leg of the instrument, with some entity of the leg, fits the filter.
  abbrev pub fits_leg : InstrumentRow → StoredLeg → List EntityRow → Bool
  fits_leg i l entities = any (λ e. e.leg_id == l.leg_id && row_fits collate f now i l e) entities

  abbrev pub fits : InstrumentTables → InstrumentRow → Bool
  fits t i = any (λ l. str_eq l.instrument_id i.id && fits_leg i l t.entities) t.legs

  no_token_lem : (i : InstrumentRow) → is_after collate no_token i ≡ true
  unfolding is_after
  no_token_lem i = refl

  -- The token takes away the rows up to its own.
  module _ (token : PageToken) where
    filter-join_entities :
        (i : InstrumentRow) (l : StoredLeg) (entities : List EntityRow)
        → filter (is_after collate token) (join_entities collate f now no_token i l entities)
          ≡ join_entities collate f now token i l entities
    unfolding join_entities
    filter-join_entities i l [] = refl
    filter-join_entities i l (e ∷ entities) =
        let rest = filter-join_entities i l entities in
        elim (Bool-cases (e.leg_id == l.leg_id && row_fits collate f now i l e)) [
          | inr apart ↦ rw (apart, join_entities) rest
          | inl joined ↦ elim (Bool-cases (is_after collate token i)) [
            | inl after ↦ rw (joined, is_after, after, join_entities, rest) refl
            | inr before ↦ rw (joined, is_after, before, join_entities, rest) refl
          ]
        ]

    filter-join_legs :
        (i : InstrumentRow) (legs : List StoredLeg) (entities : List EntityRow)
        → filter (is_after collate token) (join_legs collate f now no_token i legs entities)
          ≡ join_legs collate f now token i legs entities
    unfolding join_legs
    filter-join_legs i [] entities = refl
    filter-join_legs i (l ∷ legs) entities =
        let rest = filter-join_legs i legs entities in
        elim (Bool-cases (str_eq l.instrument_id i.id)) [
          | inr other ↦ rw (other, join_legs) rest
          | inl its ↦
              rw
                (
                  its,
                  join_legs,
                  filter-append (is_after collate token),
                  filter-join_entities i l entities,
                  rest,
                )
                refl
        ]

    pub filter-join_instruments :
        (instruments : List InstrumentRow) (legs : List StoredLeg) (entities : List EntityRow)
        → filter
            (is_after collate token)
            (join_instruments collate f now no_token instruments legs entities)
          ≡ join_instruments collate f now token instruments legs entities
    unfolding join_instruments
    filter-join_instruments [] legs entities = refl
    filter-join_instruments (i ∷ instruments) legs entities =
        filter-append (is_after collate token) (join_legs collate f now no_token i legs entities)
          (join_instruments collate f now no_token instruments legs entities)
        ∙ rw (filter-join_legs i legs entities, filter-join_instruments instruments legs entities)
            refl

  -- What the join holds, for a test.
  module _ (p : InstrumentRow → Bool) where
    any-join_entities :
        (i : InstrumentRow) (l : StoredLeg) (entities : List EntityRow)
        → any p (join_entities collate f now no_token i l entities) ≡ (p i && fits_leg i l entities)
    unfolding join_entities
    any-join_entities i l [] = ground arith
    any-join_entities i l (e ∷ entities) =
        let rest = any-join_entities i l entities in
        elim (Bool-cases (e.leg_id == l.leg_id && row_fits collate f now i l e)) [
          | inr apart ↦ rw (apart, join_entities) rest
          | inl joined ↦ rw (joined, no_token_lem i, join_entities, rest) (ground arith)
        ]

    any-join_legs :
        (t : InstrumentTables) (i : InstrumentRow) (legs : List StoredLeg)
        → any p (join_legs collate f now no_token i legs t.entities)
          ≡ (p i && any (λ l. str_eq l.instrument_id i.id && fits_leg i l t.entities) legs)
    unfolding join_legs
    any-join_legs t i [] = ground arith
    any-join_legs t i (l ∷ legs) =
        let rest = any-join_legs t i legs in
        elim (Bool-cases (str_eq l.instrument_id i.id)) [
          | inr other ↦ rw (other, join_legs) rest
          | inl its ↦
              rw (its, join_legs, any-append p, any-join_entities i l t.entities, rest)
                (ground arith)
        ]

    pub any-join_instruments :
        (t : InstrumentTables) (instruments : List InstrumentRow)
        → any p (join_instruments collate f now no_token instruments t.legs t.entities)
          ≡ any (λ i. p i && fits t i) instruments
    unfolding join_instruments
    any-join_instruments t [] = refl
    any-join_instruments t (i ∷ instruments) =
        any-append p (join_legs collate f now no_token i t.legs t.entities)
          (join_instruments collate f now no_token instruments t.legs t.entities)
        ∙ rw (any-join_legs t i t.legs, any-join_instruments t instruments) refl

  -- What holds at every instrument holds at every row of the join.
  module _ (P : InstrumentRow → Type 0) where
    join_entities-All :
        (i : InstrumentRow) (l : StoredLeg) (entities : List EntityRow)
        → P i
        → All P (join_entities collate f now no_token i l entities)
    unfolding join_entities
    join_entities-All i l [] h = tt
    join_entities-All i l (e ∷ entities) h =
        let rest = join_entities-All i l entities h in
        elim (Bool-cases (e.leg_id == l.leg_id && row_fits collate f now i l e)) [
          | inr apart ↦ rw (apart, join_entities) rest
          | inl joined ↦ rw (joined, join_entities) (h, rest)
        ]

    join_legs-All :
        (i : InstrumentRow) (legs : List StoredLeg) (entities : List EntityRow)
        → P i
        → All P (join_legs collate f now no_token i legs entities)
    unfolding join_legs
    join_legs-All i [] entities h = tt
    join_legs-All i (l ∷ legs) entities h =
        let rest = join_legs-All i legs entities h in
        elim (Bool-cases (str_eq l.instrument_id i.id)) [
          | inr other ↦ rw (other, join_legs) rest
          | inl its ↦ rw (its, join_legs) (All-append P _ _ (join_entities-All i l entities h) rest)
        ]

    pub join_instruments-All :
        (instruments : List InstrumentRow) (legs : List StoredLeg) (entities : List EntityRow)
        → All P instruments
        → All P (join_instruments collate f now no_token instruments legs entities)
    unfolding join_instruments
    join_instruments-All [] legs entities h = tt
    join_instruments-All (i ∷ instruments) legs entities h =
        All-append P _ _ (join_legs-All i legs entities h.0)
          (join_instruments-All instruments legs entities h.1)
