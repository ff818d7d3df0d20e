-- ===== src/Registry/Listing.antt =====
-- `List` of registry/internal/postgres.go with its page tokens, and `ListInstruments` of
-- registry/internal/service.go. The collation of the database, `collate s t` for "s is not after t", and
-- the JSON and base64 of Go, `encode` and `decode`, are parameters.
use secwager.Registry.Instruments.{
  InstrumentTables, InstrumentRow, InstrumentRecord, StoredLeg, EntityRow,
}
use secwager.Registry.Service.{get, got, not_found, get_failed}
use secwager.Prelude.Int.{ℤ, negsuc, ltb_ℤ, leb_ℤ, pos, pos_part}
use secwager.Prelude.{
  ℕ, ◌++◌, ◌&&◌, ◌∷◌, Option, ◌||◌, suc, if◌then◌else◌, length, [], ltb, List, none, true, ◌-◌,
  some, Bool, not, str_eq, String, ◌==◌, ◌+◌, false, zero,
}

-- `ListFilter`, which is the request of `ListInstruments`.
pub record ListFilter : Type 0 where
  pub entity_id : String
  pub league : ℕ
  pub active_only : Bool
  pub page_size : ℤ
  pub page_token : String

-- The first three arguments of the query.
pub record ListArgs : Type 0 where
  pub entity_id : String
  pub league : ℕ
  pub active_only : Bool

abbrev pub args_of : ListFilter → ListArgs
args_of f = record { entity_id = f.entity_id; league = f.league; active_only = f.active_only }

pub record PageToken : Type 0 where
  pub created_at : ℤ
  pub id : String

-- Go's zero time, the first of January of the year 1, in microseconds of Unix time.
abbrev pub zero_time : ℤ
zero_time = negsuc 62135596799999999

-- The times that JSON takes are those of the years 0 to 9999; a token with another is written as the
-- empty text, since `encodePageToken` drops the error.
abbrev pub first_time : ℤ
first_time = negsuc 62167219199999999

abbrev pub last_time : ℤ
last_time = pos 253402300799999999

abbrev pub is_writable : ℤ → Bool
is_writable time = leb_ℤ first_time time && leb_ℤ time last_time

abbrev pub same_time : ℤ → ℤ → Bool
same_time a b = leb_ℤ a b && leb_ℤ b a

abbrev pub nil_if_zero : ℤ → Option ℤ
nil_if_zero time = if same_time time zero_time then none else some time

abbrev pub nil_if_empty : String → Option String
nil_if_empty s = if str_eq s "" then none else some s

-- `var pt pageToken`
abbrev pub no_token : PageToken
no_token = record { created_at = zero_time; id = "" }

abbrev pub page_size_of : ListFilter → ℕ
page_size_of f = if leb_ℤ f.page_size (pos 0) then 50 else pos_part f.page_size

-- `LIMIT`, and a slice up to an index.
unfoldable pub take {ℓ} : {A : Type ℓ} → ℕ → List A → List A
take zero rows = []
take (suc n) [] = []
take (suc n) (r ∷ rows) = r ∷ take n rows

unfoldable pub get_elem? {ℓ} : {A : Type ℓ} → ℕ → List A → Option A
get_elem? n [] = none
get_elem? zero (r ∷ rows) = some r
get_elem? (suc n) (r ∷ rows) = get_elem? n rows

-- An answer, or the status that `List` ends with: that of a bad token, an error of a statement, or what
-- `Get` says of a row that it does not find.
pub data ListReply : Type 0 where
  listed : List InstrumentRecord → (next_page_token : String) → ListReply
  invalid_page_token list_failed row_not_found : ListReply

abbrev pub with_record : InstrumentRecord → ListReply → ListReply
with_record rec (listed recs next) = listed (rec ∷ recs) next
with_record rec invalid_page_token = invalid_page_token
with_record rec list_failed = list_failed
with_record rec row_not_found = row_not_found

-- `Get` on each row, up to the first error.
unfoldable pub get_rows :
    (get_fails : String → Bool) → InstrumentTables → List InstrumentRow → ListReply
unfolding get
get_rows get_fails t [] = listed [] ""
get_rows get_fails t (r ∷ rows) =
    let rest = get_rows get_fails t rows in
    elim (get (get_fails r.id) r.id t) [
      | not_found ↦ row_not_found
      | get_failed ↦ list_failed
      | got rec ↦ with_record rec rest
    ]

abbrev pub with_token : String → ListReply → ListReply
with_token token (listed recs next) = listed recs token
with_token token invalid_page_token = invalid_page_token
with_token token list_failed = list_failed
with_token token row_not_found = row_not_found

abbrev pub token_at : InstrumentRow → PageToken
token_at r = record { created_at = r.created_at; id = r.id }

module _ (encode : PageToken → String) where
  -- The token after a page, the rows of which are one more than its size.
  unfoldable pub next_token : ℕ → List InstrumentRow → String
  unfolding get_elem?
  next_token size rows = elim (get_elem? (size - 1) rows) [
    | none ↦ ""
    | some last ↦ encode (token_at last)
  ]

  unfoldable pub read_page :
      (get_fails : String → Bool) → InstrumentTables → ℕ → List InstrumentRow → ListReply
  unfolding next_token get_rows take
  read_page get_fails t size rows =
      if ltb size (length rows)
      then with_token (next_token size rows) (get_rows get_fails t (take size rows))
      else get_rows get_fails t rows

module _ (collate : String → String → Bool) where
  -- `(i.created_at, i.id) < (time, id)`, where an id of nil makes the comparison of ids not true.
  unfoldable pub row_below : InstrumentRow → ℤ → Option String → Bool
  row_below i time id =
      if ltb_ℤ i.created_at time
      then true
      else if ltb_ℤ time i.created_at
      then false
      else elim id [ none ↦ false | some s ↦ not (collate s i.id) ]

  -- The condition on the token.
  unfoldable pub is_after : PageToken → InstrumentRow → Bool
  unfolding row_below
  is_after token i = elim (nil_if_zero token.created_at) [
    | none ↦ true
    | some time ↦ row_below i time (nil_if_empty token.id)
  ]

  -- The other conditions on a row of the join; `now` is the clock in whole seconds, as an expiry is.
  abbrev pub row_fits : ListArgs → (now : ℤ) → InstrumentRow → StoredLeg → EntityRow → Bool
  row_fits f now i l e =
      (str_eq f.entity_id "" || str_eq e.entity_id f.entity_id)
      && (f.league == 0 || l.row.league == f.league)
      && (not f.active_only || ltb_ℤ now i.expiry)

  module _ (f : ListArgs) (now : ℤ) (token : PageToken) where
    -- The join of one instrument and one leg with the entities, and so on outwards.
    unfoldable pub join_entities : InstrumentRow → StoredLeg → List EntityRow → List InstrumentRow
    unfolding is_after
    join_entities i l [] = []
    join_entities i l (e ∷ entities) =
        if (e.leg_id == l.leg_id && row_fits f now i l e) && is_after token i
        then i ∷ join_entities i l entities
        else join_entities i l entities

    unfoldable pub join_legs : InstrumentRow → List StoredLeg → List EntityRow → List InstrumentRow
    unfolding join_entities
    join_legs i [] entities = []
    join_legs i (l ∷ legs) entities =
        if str_eq l.instrument_id i.id
        then join_entities i l entities ++ join_legs i legs entities
        else join_legs i legs entities

    unfoldable pub join_instruments :
        List InstrumentRow → List StoredLeg → List EntityRow → List InstrumentRow
    unfolding join_legs
    join_instruments [] legs entities = []
    join_instruments (i ∷ instruments) legs entities =
        join_legs i legs entities ++ join_instruments instruments legs entities

  -- In the order of `ORDER BY i.created_at DESC, i.id DESC`.
  abbrev pub listed_before : InstrumentRow → InstrumentRow → Bool
  listed_before r s = row_below s r.created_at (some r.id)

  -- `DISTINCT ON (i.created_at, i.id)`, sorted.
  unfoldable pub insert_row : InstrumentRow → List InstrumentRow → List InstrumentRow
  unfolding row_below
  insert_row r [] = r ∷ []
  insert_row r (s ∷ rows) =
      let rest = insert_row r rows in
      if listed_before r s then r ∷ s ∷ rows else if listed_before s r then s ∷ rest else s ∷ rows

  unfoldable pub sort_rows : List InstrumentRow → List InstrumentRow
  unfolding insert_row
  sort_rows [] = []
  sort_rows (r ∷ rows) = insert_row r (sort_rows rows)

  -- The query but for its limit.
  unfoldable pub select_rows :
      ListArgs → (now : ℤ) → PageToken → InstrumentTables → List InstrumentRow
  unfolding sort_rows join_instruments
  select_rows f now token t =
      sort_rows (join_instruments f now token t.instruments t.legs t.entities)

  module _ (encode : PageToken → String) (decode : String → Option PageToken) where
    abbrev pub token_of : String → Option PageToken
    token_of s = if str_eq s "" then some no_token else decode s

    -- `List`, in tables that stay as they are meanwhile.
    unfoldable pub list :
        (query_fails : Bool) (get_fails : String → Bool) (now : ℤ)
        → ListFilter
        → InstrumentTables
        → ListReply
    unfolding select_rows read_page
    list query_fails get_fails now f t = elim (token_of f.page_token) [
      | none ↦ invalid_page_token
      | some token ↦
          if query_fails
          then list_failed
          else read_page encode get_fails t (page_size_of f)
              (take (page_size_of f + 1) (select_rows (args_of f) now token t))
    ]
