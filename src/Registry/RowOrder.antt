-- ===== src/Registry/RowOrder.antt =====
-- The order in which `List` of registry/internal/postgres.go gives the rows, and what sorting does.
use secwager.Prelude.Int.{eq_of_parts}
use secwager.Registry.Listing.{row_below, listed_before, sort_rows, insert_row}
use secwager.Registry.Instruments.{InstrumentRow}
use secwager.Prelude.{
  Bool, String, inr, true, Bool-cases, ◌≡◌, false, arith, inl, sym, ◌||◌, if◌then◌else◌, filter, [],
  All, any, ◌∙◌, List, refl, ◌∷◌,
}

-- A collation of the database.
pub record IsOrder (collate : String → String → Bool) : Type 0 where
  pub total : (s t : String) → collate s t ≡ false → collate t s ≡ true
  pub antisym : (s t : String) → collate s t ≡ true → collate t s ≡ true → s ≡ t
  pub trans : (s t u : String) → collate s t ≡ true → collate t u ≡ true → collate s u ≡ true

module _ (collate : String → String → Bool) (order : IsOrder collate) where
  abbrev before : InstrumentRow → InstrumentRow → Bool
  before r s = listed_before collate r s

  collate_refl : (s : String) → collate s s ≡ true
  collate_refl s = elim (Bool-cases (collate s s)) [
    | inl holds ↦ holds
    | inr fails ↦ order.total s s fails
  ]

  collate_trans : (s t u : String) → collate s t ≡ false → collate t u ≡ false → collate s u ≡ false
  collate_trans s t u e d = elim (Bool-cases (collate s u)) [
    | inl holds ↦ ground (arith, e, order.trans s u t holds (order.total t u d))
    | inr fails ↦ fails
  ]

  before_trans : (r s u : InstrumentRow) → before r s ≡ true → before s u ≡ true → before r u ≡ true
  unfolding row_below
  before_trans r s u e d = ground (arith, e, d, collate_trans r.id s.id u.id)

  pub before_irrefl : (r : InstrumentRow) → before r r ≡ false
  unfolding row_below
  before_irrefl r = ground (arith, collate_refl r.id)

  pub before_asym : (r s : InstrumentRow) → before r s ≡ true → before s r ≡ false
  unfolding row_below
  before_asym r s e = ground (arith, e, order.total r.id s.id)

  -- Rows of which none is before the other are at the same place.
  pub before_tie :
      (r s : InstrumentRow)
      → before r s ≡ false
      → before s r ≡ false
      → (r.created_at ≡ s.created_at) × (r.id ≡ s.id)
  unfolding row_below
  before_tie r s e d = (
    eq_of_parts r.created_at s.created_at (ground (arith, e, d)),
    order.antisym r.id s.id (ground (arith, e, d)) (ground (arith, e, d)),
  )

  -- Each row is before those after it.
  abbrev pub IsSorted : List InstrumentRow → Type 0
  IsSorted [] = Unit
  IsSorted (r ∷ rows) = All (λ s. before r s ≡ true) rows × IsSorted rows

  before-All :
      (r s : InstrumentRow) (rows : List InstrumentRow)
      → before r s ≡ true
      → All (λ u. before s u ≡ true) rows
      → All (λ u. before r u ≡ true) rows
  before-All r s [] e h = tt
  before-All r s (u ∷ rows) e h = (before_trans r s u e h.0, before-All r s rows e h.1)

  insert_row-All :
      (P : InstrumentRow → Type 0) (r : InstrumentRow) (rows : List InstrumentRow)
      → P r
      → All P rows
      → All P (insert_row collate r rows)
  unfolding insert_row
  insert_row-All P r [] p h = (p, tt)
  insert_row-All P r (s ∷ rows) p h = elim (Bool-cases (before r s)) [
    | inl first ↦ rw first (p, h)
    | inr later ↦ elim (Bool-cases (before s r)) [
      | inl after ↦ rw (later, after) (h.0, insert_row-All P r rows p h.1)
      | inr tie ↦ rw (later, tie) h
    ]
  ]

  insert_row-IsSorted :
      (r : InstrumentRow) (rows : List InstrumentRow)
      → IsSorted rows
      → IsSorted (insert_row collate r rows)
  unfolding insert_row
  insert_row-IsSorted r [] h = (tt, tt)
  insert_row-IsSorted r (s ∷ rows) h = elim (Bool-cases (before r s)) [
    | inl first ↦ rw first ((first, before-All r s rows first h.0), h)
    | inr later ↦ elim (Bool-cases (before s r)) [
      | inl after ↦
          rw (later, after)
            (
              insert_row-All (λ u. before s u ≡ true) r rows after h.0,
              insert_row-IsSorted r rows h.1,
            )
      | inr tie ↦ rw (later, tie) h
    ]
  ]

  pub sort_rows-IsSorted : (rows : List InstrumentRow) → IsSorted (sort_rows collate rows)
  unfolding sort_rows
  sort_rows-IsSorted [] = tt
  sort_rows-IsSorted (r ∷ rows) =
      insert_row-IsSorted r (sort_rows collate rows) (sort_rows-IsSorted rows)

  pub sort_rows-All :
      (P : InstrumentRow → Type 0) (rows : List InstrumentRow)
      → All P rows
      → All P (sort_rows collate rows)
  unfolding sort_rows
  sort_rows-All P [] h = tt
  sort_rows-All P (r ∷ rows) h =
      insert_row-All P r (sort_rows collate rows) h.0 (sort_rows-All P rows h.1)

  -- A test that cannot tell rows at the same place apart.
  module _ (p : InstrumentRow → Bool)
      (same : (r s : InstrumentRow) → r.created_at ≡ s.created_at → r.id ≡ s.id → p r ≡ p s) where
    insert_row_first :
        (r : InstrumentRow) (rows : List InstrumentRow)
        → All (λ s. before r s ≡ true) rows
        → insert_row collate r rows ≡ r ∷ rows
    unfolding insert_row
    insert_row_first r [] h = refl
    insert_row_first r (s ∷ rows) h = rw h.0 refl

    filter-All :
        (P : InstrumentRow → Type 0) (rows : List InstrumentRow)
        → All P rows
        → All P (filter p rows)
    filter-All P [] h = tt
    filter-All P (s ∷ rows) h = elim (Bool-cases (p s)) [
      | inl passes ↦ rw passes (h.0, filter-All P rows h.1)
      | inr fails ↦ rw fails (filter-All P rows h.1)
    ]

    filter-insert_row :
        (r : InstrumentRow) (rows : List InstrumentRow)
        → IsSorted rows
        → filter p (insert_row collate r rows)
          ≡ (if p r then insert_row collate r (filter p rows) else filter p rows)
    unfolding insert_row
    filter-insert_row r [] h = elim (Bool-cases (p r)) [
      | inl passes ↦ rw passes refl
      | inr fails ↦ rw fails refl
    ]
    filter-insert_row r (s ∷ rows) h = elim (Bool-cases (before r s)) [
      | inl first ↦
          let all_after = before-All r s rows first h.0 in
          elim (Bool-cases (p r)) [
            | inr fails ↦ rw (first, fails) refl
            | inl passes ↦
                rw (first, passes)
                  (sym (
                    insert_row_first r (filter p (s ∷ rows))
                      (filter-All (λ u. before r u ≡ true) (s ∷ rows) (first, all_after))))
          ]
      | inr later ↦ elim (Bool-cases (before s r)) [
        | inl after ↦
            let rest = filter-insert_row r rows h.1 in
            elim (Bool-cases (p s)) [
              | inr skipped ↦ rw (later, after, skipped) rest
              | inl kept ↦ elim (Bool-cases (p r)) [
                | inl passes ↦ rw (kept, passes, later, after, kept, rest, passes) refl
                | inr fails ↦ rw (kept, fails, later, after, kept, rest, fails) refl
              ]
            ]
        | inr tie ↦
            let (time, id) = before_tie r s later tie in
            elim (Bool-cases (p s)) [
              | inl kept ↦ rw (same r s time id, kept, later, tie, kept) refl
              | inr skipped ↦ rw (same r s time id, skipped, later, tie, skipped) refl
            ]
      ]
    ]

    pub filter-sort_rows :
        (rows : List InstrumentRow)
        → filter p (sort_rows collate rows) ≡ sort_rows collate (filter p rows)
    unfolding sort_rows
    filter-sort_rows [] = refl
    filter-sort_rows (r ∷ rows) =
        let first = filter-insert_row r (sort_rows collate rows) (sort_rows-IsSorted rows) in
        let rest = filter-sort_rows rows in
        elim (Bool-cases (p r)) [
          | inl passes ↦ rw (passes, first, rest, passes) refl
          | inr fails ↦ rw (fails, first, rest, fails) refl
        ]

    any-insert_row :
        (r : InstrumentRow) (rows : List InstrumentRow)
        → any p (insert_row collate r rows) ≡ (p r || any p rows)
    unfolding insert_row
    any-insert_row r [] = refl
    any-insert_row r (s ∷ rows) = elim (Bool-cases (before r s)) [
      | inl first ↦ rw first refl
      | inr later ↦ elim (Bool-cases (before s r)) [
        | inl after ↦ rw (later, after, any-insert_row r rows) (ground arith)
        | inr tie ↦
            let (time, id) = before_tie r s later tie in
            rw (later, tie, same r s time id) (ground arith)
      ]
    ]

    pub any-sort_rows : (rows : List InstrumentRow) → any p (sort_rows collate rows) ≡ any p rows
    unfolding sort_rows
    any-sort_rows [] = refl
    any-sort_rows (r ∷ rows) =
        any-insert_row r (sort_rows collate rows) ∙ rw (any-sort_rows rows) refl
