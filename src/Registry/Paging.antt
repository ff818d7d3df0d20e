-- ===== src/Registry/Paging.antt =====
-- The pages that `List` of registry/internal/postgres.go gives to a caller who follows its tokens.
use secwager.Registry.Reading.{AreRead, GivesPage, read_page-GivesPage, All-split, AreRead-append}
use secwager.Registry.Joining.{fits, join_instruments-All, any-join_instruments}
use secwager.Registry.RowOrder.{IsOrder, IsSorted, sort_rows-IsSorted, sort_rows-All, any-sort_rows}
use secwager.Registry.Pages.{IsDated, select_rows_after, All_middle, filter_after}
use secwager.Registry.Finding.{IsFound, All-any, fits-IsFound}
use secwager.Registry.Instruments.{InstrumentTables, InstrumentRow, InstrumentRecord}
use secwager.Prelude.Int.{leb_ℤ, ℤ, pos, pos_part}
use secwager.Registry.Listing.{
  invalid_page_token, list_failed, row_not_found, PageToken, token_at, ListFilter, is_writable,
  list, ListReply, listed, page_size_of, select_rows, args_of, no_token, token_of, is_after,
  join_instruments,
}
use mathlib.Core.List.{append_assoc}
use mathlib.Core.Path.{subst}
use secwager.Prelude.{
  ℕ, Option, refl, false, zero, suc, str_eq, String, true, [], ◌≡◌, none, List, ◌∷◌, some, All,
  if◌then◌else◌, Bool, ◌++◌, arith, inl, inr, ◌∙◌, Bool-cases, sym, ◌-◌, filter, length, ap, ◌+◌,
  ◌<◌, length-append, ◌&&◌, any, str_eq_iff, ◌≢◌,
}

-- What the code relies on of JSON and base64: a token with a time that JSON takes is not empty, and is
-- decoded as it was.
pub record IsCodec (encode : PageToken → String) (decode : String → Option PageToken) : Type 0 where
  pub decodes :
      (token : PageToken) → is_writable token.created_at ≡ true → decode (encode token) ≡ some token
  pub nonempty : (token : PageToken) → is_writable token.created_at ≡ true → encode token ≢ ""

module _ (collate : String → String → Bool) (encode : PageToken → String)
    (decode : String → Option PageToken) (f : ListFilter) (now : ℤ) (t : InstrumentTables) where
  -- The call for one page, of a database that answers.
  abbrev page_at : String → ListReply
  page_at token =
      list collate encode decode false (λ id. false) now (record f { page_token = token }) t

  abbrev add_page :
      List InstrumentRecord → Option (List InstrumentRecord) → Option (List InstrumentRecord)
  add_page recs none = none
  add_page recs (some more) = some (recs ++ more)

  abbrev follow :
      (String → Option (List InstrumentRecord)) → ListReply → Option (List InstrumentRecord)
  follow next_pages (listed recs next) =
      let more = next_pages next in if str_eq next "" then some recs else add_page recs more
  follow next_pages invalid_page_token = none
  follow next_pages list_failed = none
  follow next_pages row_not_found = none

  -- A caller who asks for the page of a token, and goes on until a page has no next one.
  unfoldable pub walk_pages : ℕ → String → Option (List InstrumentRecord)
  unfolding list
  walk_pages zero token = none
  walk_pages (suc calls) token = follow (walk_pages calls) (page_at token)

  page_size_positive : (m : ℕ) × (page_size_of f ≡ suc m)
  page_size_positive = elim (Bool-cases (leb_ℤ f.page_size (pos 0))) [
    | inl default ↦ (49, rw default refl)
    | inr given ↦ (pos_part f.page_size - 1, rw given (ground (arith, given)))
  ]

  -- The rows of the query without a token.
  abbrev all_rows : List InstrumentRow
  all_rows = select_rows collate (args_of f) now no_token t

  module _ (order : IsOrder collate) (codec : IsCodec encode decode)
      (dated : All IsDated t.instruments) where
    page_at-GivesPage :
        (s : String) (token : PageToken) (rows : List InstrumentRow)
        → token_of collate encode decode s ≡ some token
        → filter (is_after collate token) all_rows ≡ rows
        → All (IsFound t) rows
        → GivesPage t encode rows (page_at s)
    unfolding list
    page_at-GivesPage s token rows decoded left found =
        let (m, size) = page_size_positive in
        let selected : select_rows collate (args_of f) now token t ≡ rows =
          select_rows_after collate order (args_of f) now token t ∙ left in
        let more : suc m + 1 ≡ suc (suc m) = omega arith in
        rw (list, decoded, selected, size, more) (read_page-GivesPage t encode m rows found)

    writable : (r : InstrumentRow) → IsDated r → is_writable r.created_at ≡ true
    writable r (late, early, named) = ground (arith, late, early)

    token_shown :
        (token : PageToken) → is_writable token.created_at ≡ true → str_eq (encode token) "" ≡ false
    token_shown token h = elim (Bool-cases (str_eq (encode token) "")) [
      | inl empty ↦ absurd (codec.nonempty token h ((str_eq_iff (encode token) "").0 empty))
      | inr shown ↦ shown
    ]

    token_of_last :
        (last : InstrumentRow)
        → IsDated last
        → token_of collate encode decode (encode (token_at last)) ≡ some (token_at last)
    token_of_last last h =
        rw (token_shown (token_at last) (writable last h))
          (codec.decodes (token_at last) (writable last h))

    walk_from :
        (calls : ℕ) (s : String) (token : PageToken) (seen rows : List InstrumentRow)
        → token_of collate encode decode s ≡ some token
        → all_rows ≡ seen ++ rows
        → filter (is_after collate token) all_rows ≡ rows
        → length rows < calls
        → All (IsFound t) all_rows
        → All IsDated all_rows
        → IsSorted collate order all_rows
        → (recs : List InstrumentRecord) × (walk_pages calls s ≡ some recs) × AreRead t rows recs
    unfolding walk_pages
    walk_from zero s token seen rows decoded split left enough found days sorted =
        absurd (omega (arith, enough))
    walk_from (suc calls) s token seen rows decoded split left enough found days sorted =
        elim (page_at-GivesPage s token rows decoded left
          (All-split t (IsFound t) seen rows (subst (All (IsFound t)) split found)).1) [
            | inl (recs, answer, read) ↦ (recs, rw (walk_pages, answer) refl, read)
            | inr (front, last, rest, recs, page, answer, read) ↦
                let there : all_rows ≡ (seen ++ front) ++ (last ∷ rest) =
                  split ∙ ap (λ r. seen ++ r) page ∙ sym (append_assoc seen front (last ∷ rest)) in
                let day : IsDated last =
                  All_middle collate order IsDated (seen ++ front) last rest
                    (subst (All IsDated) there days) in
                let rest_left : filter (is_after collate (token_at last)) all_rows ≡ rest =
                  ap (filter (is_after collate (token_at last))) there
                  ∙ filter_after collate order (seen ++ front) last rest day
                      (subst (IsSorted collate order) there sorted) in
                let (more, walked, reads) =
                  walk_from calls (encode (token_at last)) (token_at last)
                    ((seen ++ front) ++ (last ∷ [])) rest (token_of_last last day)
                    (there ∙ sym (append_assoc (seen ++ front) (last ∷ []) rest)) rest_left
                    (omega (arith, enough, ap length page, length-append front (last ∷ rest))) found
                    days sorted in
                (
                  recs ++ more,
                  rw (walk_pages, answer, token_shown (token_at last) (writable last day), walked)
                      refl,
                  subst (λ r. AreRead t r (recs ++ more))
                      (sym (page ∙ sym (append_assoc front (last ∷ []) rest)))
                      (AreRead-append t (front ++ (last ∷ [])) rest recs more read reads),
                )
          ]

    all_rows-any :
        (id : String)
        → any (λ r. str_eq r.id id) all_rows
          ≡ any (λ i. str_eq i.id id && fits collate (args_of f) now t i) t.instruments
    unfolding select_rows
    all_rows-any id =
        any-sort_rows collate order (λ r. str_eq r.id id)
          (λ r s time same. ap (λ i. str_eq i id) same)
          (join_instruments collate (args_of f) now no_token t.instruments t.legs t.entities)
        ∙ any-join_instruments collate (args_of f) now (λ r. str_eq r.id id) t t.instruments

    all_rows-All : (P : InstrumentRow → Type 0) → All P t.instruments → All P all_rows
    unfolding select_rows
    all_rows-All P h =
        sort_rows-All collate order P _
          (join_instruments-All collate (args_of f) now P t.instruments t.legs t.entities h)

    all_rows-IsSorted : IsSorted collate order all_rows
    unfolding select_rows
    all_rows-IsSorted =
        sort_rows-IsSorted collate order
          (join_instruments collate (args_of f) now no_token t.instruments t.legs t.entities)

    -- Where the database answers, the tables and the clock stay as they are from the first call to the
    -- last, the ids of instruments are not empty, their times are after Go's zero time and within the year
    -- 9999, and tokens with times that JSON takes are decoded as they were: a caller who starts without a
    -- token and follows the tokens comes to the end within one call more than there are rows, whatever the
    -- page size. The pages together have each row that the query gives without a token,
    -- once and in order, as `Get` reads it; the rows are sorted strictly, and an id is among them exactly
    -- if an instrument with that id fits the filter.
    pub walk_pages_lem :
        (calls : ℕ)
        → length all_rows < calls
        → (recs : List InstrumentRecord) × (walk_pages calls "" ≡ some recs)
          × AreRead t all_rows recs
          × IsSorted collate order all_rows
          × ((id : String)
              → any (λ r. str_eq r.id id) all_rows
                ≡ any (λ i. str_eq i.id id && fits collate (args_of f) now t i) t.instruments)
    walk_pages_lem calls enough =
        let found : All (IsFound t) all_rows =
          All-any (IsFound t) all_rows (λ r there.
            fits-IsFound collate (args_of f) now t r (sym (all_rows-any r.id) ∙ there)) in
        let whole : filter (is_after collate no_token) all_rows ≡ all_rows =
          sym (select_rows_after collate order (args_of f) now no_token t) in
        let (recs, walked, read) =
          walk_from calls "" no_token [] all_rows refl refl whole enough found
            (all_rows-All IsDated dated) all_rows-IsSorted in
        (recs, walked, read, all_rows-IsSorted, all_rows-any)
