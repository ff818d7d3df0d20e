-- ===== src/Registry/Pages.antt =====
-- One page of `List` of registry/internal/postgres.go: where it splits the rows that are left, and what
-- the query gives for its token.
use secwager.Registry.Joining.{filter-join_instruments}
use secwager.Prelude.Int.{ltb_ℤ, ℤ, leb_ℤ}
use secwager.Registry.Instruments.{InstrumentRow, InstrumentTables}
use secwager.Registry.RowOrder.{IsOrder, IsSorted, before_irrefl, before_asym, filter-sort_rows}
use secwager.Registry.Listing.{
  take, is_after, select_rows, get_elem?, row_below, PageToken, listed_before, same_time, zero_time,
  no_token, last_time, join_instruments, sort_rows, ListArgs, token_at,
}
use secwager.Prelude.{
  ℕ, ◌⊎◌, ap, [], ltb, length, str_eq, ◌∷◌, suc, filter, zero, true, Bool, false, List, String, All,
  ◌++◌, ◌∙◌, ◌≡◌, inr, sym, arith, refl, some, inl,
}

-- Either the rows fit on a page of m + 1, or one more than a page is read.
pub take_page :
    {A : Type 0} (m : ℕ) (rows : List A)
    → ((take (suc (suc m)) rows ≡ rows) × (ltb (suc m) (length rows) ≡ false))
      ⊎ ((front : List A) × (last : A) × (rest : List A) × (rows ≡ front ++ (last ∷ rest))
          × (take (suc m) (take (suc (suc m)) rows) ≡ front ++ (last ∷ []))
          × (get_elem? m (take (suc (suc m)) rows) ≡ some last)
          × (ltb (suc m) (length (take (suc (suc m)) rows)) ≡ true))
unfolding take get_elem?
take_page m [] = inl (refl, ground arith)
take_page m (r ∷ []) = inl (refl, ground arith)
take_page zero (r ∷ s ∷ rows) = inr ([], r, s ∷ rows, refl, refl, refl, ground arith)
take_page (suc m) (r ∷ s ∷ rows) = elim (take_page m (s ∷ rows)) [
  | inl (same, fits) ↦ inl (ap (λ x. r ∷ x) same, ground (arith, fits))
  | inr (front, last, rest, split, page, at_end, more) ↦ inr (
    r ∷ front,
    last,
    rest,
    ap (λ x. r ∷ x) split,
    ap (λ x. r ∷ x) page,
    at_end,
    ground (arith, more),
  )
]

-- A row whose time can be written in a token, and whose id is not empty.
abbrev pub IsDated : InstrumentRow → Type 0
IsDated i =
    (ltb_ℤ zero_time i.created_at ≡ true)
    × (leb_ℤ i.created_at last_time ≡ true)
    × (str_eq i.id "" ≡ false)

module _ (collate : String → String → Bool) (order : IsOrder collate) where
  filter-All :
      (p : InstrumentRow → Bool) (rows : List InstrumentRow)
      → All (λ r. p r ≡ true) rows
      → filter p rows ≡ rows
  filter-All p [] h = refl
  filter-All p (r ∷ rows) h = rw (h.0, filter-All p rows h.1) refl

  pub All_middle :
      (P : InstrumentRow → Type 0) (front : List InstrumentRow) (k : InstrumentRow)
      (rest : List InstrumentRow)
      → All P (front ++ (k ∷ rest))
      → P k
  All_middle P [] k rest h = h.0
  All_middle P (x ∷ front) k rest h = All_middle P front k rest h.1

  -- Of sorted rows, those that come after one of them are the rest.
  filter_rest :
      (front : List InstrumentRow) (k : InstrumentRow) (rest : List InstrumentRow)
      → IsSorted collate order (front ++ (k ∷ rest))
      → filter (λ i. listed_before collate k i) (front ++ (k ∷ rest)) ≡ rest
  filter_rest [] k rest h =
      rw (before_irrefl collate order k) (filter-All (λ i. listed_before collate k i) rest h.0)
  filter_rest (x ∷ front) k rest h =
      rw
        (before_asym collate order x k
          (All_middle (λ s. listed_before collate x s ≡ true) front k rest h.0))
        (filter_rest front k rest h.1)

  is_after_lem :
      (k i : InstrumentRow)
      → IsDated k
      → is_after collate (token_at k) i ≡ listed_before collate k i
  unfolding is_after
  is_after_lem k i (late, early, named) =
      let dated : same_time k.created_at zero_time ≡ false = ground (arith, late) in
      rw (is_after, dated, named) refl

  filter_cong :
      (p q : InstrumentRow → Bool) (rows : List InstrumentRow)
      → ((i : InstrumentRow) → p i ≡ q i)
      → filter p rows ≡ filter q rows
  filter_cong p q [] h = refl
  filter_cong p q (r ∷ rows) h = rw (h r, filter_cong p q rows h) refl

  -- The token of a row gives the rows after it.
  pub filter_after :
      (front : List InstrumentRow) (k : InstrumentRow) (rest : List InstrumentRow)
      → IsDated k
      → IsSorted collate order (front ++ (k ∷ rest))
      → filter (is_after collate (token_at k)) (front ++ (k ∷ rest)) ≡ rest
  filter_after front k rest dated sorted =
      filter_cong (is_after collate (token_at k)) (λ i. listed_before collate k i)
        (front ++ (k ∷ rest)) (λ i. is_after_lem k i dated)
      ∙ filter_rest front k rest sorted

  is_after_same :
      (token : PageToken) (r s : InstrumentRow)
      → r.created_at ≡ s.created_at
      → r.id ≡ s.id
      → is_after collate token r ≡ is_after collate token s
  unfolding is_after row_below
  is_after_same token r s time id = rw (time, id) refl

  -- What the query gives for a token, out of what it gives for none.
  pub select_rows_after :
      (f : ListArgs) (now : ℤ) (token : PageToken) (t : InstrumentTables)
      → select_rows collate f now token t
        ≡ filter (is_after collate token) (select_rows collate f now no_token t)
  unfolding select_rows
  select_rows_after f now token t = sym (
      filter-sort_rows collate order (is_after collate token) (is_after_same token)
        (join_instruments collate f now no_token t.instruments t.legs t.entities)
      ∙ ap (sort_rows collate)
          (filter-join_instruments collate f now token t.instruments t.legs t.entities))
