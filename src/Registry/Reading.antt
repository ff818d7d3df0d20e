-- ===== src/Registry/Reading.antt =====
-- What one call of `List` of registry/internal/postgres.go reads, where the database answers.
use secwager.Registry.Pages.{take_page}
use secwager.Registry.Service.{get, got}
use secwager.Registry.Finding.{IsFound}
use secwager.Registry.Instruments.{InstrumentTables, InstrumentRow, InstrumentRecord}
use secwager.Registry.Listing.{
  listed, PageToken, get_rows, read_page, next_token, ListReply, token_at, take, get_elem?,
}
use mathlib.Core.Path.{subst}
use mathlib.Core.List.{map-append, append_assoc}
use secwager.Prelude.{
  ℕ, refl, ◌∙◌, ◌≡◌, inl, inr, [], String, false, suc, sym, List, ◌++◌, ap, ◌⊎◌, map, All, ◌∷◌,
  some, arith, ◌-◌,
}

module _ (t : InstrumentTables) where
  -- Each row has been read by `Get`.
  abbrev pub AreRead : List InstrumentRow → List InstrumentRecord → Type 0
  AreRead rows recs = map (λ r. get false r.id t) rows ≡ map got recs

  get_rows_found :
      (rows : List InstrumentRow)
      → All (IsFound t) rows
      → (recs : List InstrumentRecord) × (get_rows (λ id. false) t rows ≡ listed recs "")
        × AreRead rows recs
  unfolding get_rows
  get_rows_found [] h = ([], refl, refl)
  get_rows_found (r ∷ rows) ((rec, found), h) =
      let (recs, answer, read) = get_rows_found rows h in
      (rec ∷ recs, rw (get_rows, found, answer) refl, rw (found, read) refl)

  pub All-split :
      (P : InstrumentRow → Type 0) (xs ys : List InstrumentRow)
      → All P (xs ++ ys)
      → All P xs × All P ys
  All-split P [] ys h = (tt, h)
  All-split P (x ∷ xs) ys h = ((h.0, (All-split P xs ys h.1).0), (All-split P xs ys h.1).1)

  pub AreRead-append :
      (xs ys : List InstrumentRow) (recs more : List InstrumentRecord)
      → AreRead xs recs
      → AreRead ys more
      → AreRead (xs ++ ys) (recs ++ more)
  AreRead-append xs ys recs more h k =
      map-append (λ r. get false r.id t) xs ys
      ∙ ap (λ r. r ++ map (λ r. get false r.id t) ys) h
      ∙ ap (λ r. map got recs ++ r) k
      ∙ sym (map-append got recs more)

  module _ (encode : PageToken → String) where
    -- What one call gives of the rows that are left: all of them, or a page and the token of its last row.
    abbrev pub GivesPage : List InstrumentRow → ListReply → Type 0
    GivesPage rows reply =
        ((recs : List InstrumentRecord) × (reply ≡ listed recs "") × AreRead rows recs)
        ⊎ ((front : List InstrumentRow) × (last : InstrumentRow) × (rest : List InstrumentRow)
            × (recs : List InstrumentRecord) × (rows ≡ front ++ (last ∷ rest))
            × (reply ≡ listed recs (encode (token_at last)))
            × AreRead (front ++ (last ∷ [])) recs)

    next_token_lem :
        (m : ℕ) (rows : List InstrumentRow) (last : InstrumentRow)
        → get_elem? m rows ≡ some last
        → next_token encode (suc m) rows ≡ encode (token_at last)
    unfolding next_token
    next_token_lem m rows last at_end =
        let back : suc m - 1 ≡ m = omega arith in rw (next_token, back, at_end) refl

    pub read_page-GivesPage :
        (m : ℕ) (rows : List InstrumentRow)
        → All (IsFound t) rows
        → GivesPage rows (read_page encode (λ id. false) t (suc m) (take (suc (suc m)) rows))
    unfolding read_page
    read_page-GivesPage m rows found = elim (take_page m rows) [
      | inl (all, on_page) ↦
          let (recs, answer, read) = get_rows_found rows found in
          inl (recs, rw (all, on_page) answer, read)
      | inr (front, last, rest, split, page, at_end, more) ↦
          let whole : front ++ (last ∷ rest) ≡ (front ++ (last ∷ [])) ++ rest =
            sym (append_assoc front (last ∷ []) rest) in
          let (recs, answer, read) =
            get_rows_found (front ++ (last ∷ []))
              (All-split (IsFound t) (front ++ (last ∷ [])) rest
                (subst (All (IsFound t)) (split ∙ whole) found)).0 in
          inr (
            front,
            last,
            rest,
            recs,
            split,
            rw (more, page, next_token_lem m _ last at_end, answer) refl,
            read,
          )
    ]
