-- ===== src/Registry/ListTests.antt =====
-- The list of registry/internal/postgres.go on three instruments, one to a page.
use secwager.Registry.Joining.{fits}
use secwager.Registry.Reading.{AreRead}
use secwager.Registry.TokenTests.{mark_encode, mark_decode, mark_IsCodec}
use secwager.Registry.TextOrder.{text_leb, text_leb_total, text_leb_antisym, text_leb_trans}
use secwager.Prelude.Int.{pos}
use secwager.Registry.RowOrder.{IsOrder, IsSorted}
use secwager.Registry.Instruments.{
  InstrumentTables, StoredLeg, InstrumentRecord, leg_of_row, InstrumentRow,
}
use secwager.Registry.Pages.{IsDated}
use secwager.Registry.Paging.{walk_pages, walk_pages_lem}
use secwager.Registry.Service.{get, expiry_of, legs_of}
use secwager.Registry.Listing.{
  invalid_page_token, list, ListFilter, select_rows, sort_rows, insert_row, join_instruments,
  join_legs, join_entities, is_after, row_below, read_page, next_token, get_rows, get_elem?, take,
  args_of, no_token,
}
use secwager.Prelude.{
  ℕ, map, All, [], none, true, ◌∷◌, ◌≡◌, List, String, false, some, refl, ◌&&◌, ◌<◌, length, str_eq,
  arith, any,
}

text_IsOrder : IsOrder text_leb
text_IsOrder = record { total = text_leb_total; antisym = text_leb_antisym; trans = text_leb_trans }

abbrev stored : ℕ → String → StoredLeg
stored leg_id id = record {
  leg_id = leg_id;
  instrument_id = id;
  row = record {
    leg_hash = "h";
    game_id = "derby";
    league = 3;
    entities = "derby" ∷ [];
    outcome = some 1;
    player_id = none;
    prop_type = none;
    comparator = none;
    threshold = none;
    expiry_unix = pos 90;
  };
}

abbrev three_instruments : InstrumentTables
three_instruments = record {
  instruments =
      record { id = "a"; expiry = pos 90; created_at = pos 2 }
      ∷ record { id = "b"; expiry = pos 90; created_at = pos 3 }
      ∷ record { id = "c"; expiry = pos 90; created_at = pos 2 }
      ∷ [];
  legs = stored 1 "a" ∷ stored 2 "b" ∷ stored 3 "c" ∷ stored 4 "c" ∷ [];
  entities =
      record { leg_id = 1; instrument_id = "a"; entity_id = "derby" }
      ∷ record { leg_id = 2; instrument_id = "b"; entity_id = "final" }
      ∷ record { leg_id = 3; instrument_id = "c"; entity_id = "derby" }
      ∷ record { leg_id = 4; instrument_id = "c"; entity_id = "derby" }
      ∷ [];
  next_leg_id = 5;
}

abbrev of_derby : ListFilter
of_derby = record {
  entity_id = "derby";
  league = 3;
  active_only = true;
  page_size = pos 1;
  page_token = "";
}

abbrev record_of : String → List StoredLeg → InstrumentRecord
record_of id legs = record {
  id = id;
  legs = map (λ l. leg_of_row l.row) legs;
  expiry_unix = pos 90;
}

-- The later id first, each of them once.
pages_walked :
    walk_pages text_leb mark_encode mark_decode of_derby (pos 50) three_instruments 3 ""
    ≡ some
        (record_of "c" (stored 3 "c" ∷ stored 4 "c" ∷ []) ∷ record_of "a" (stored 1 "a" ∷ []) ∷ [])
unfolding walk_pages list select_rows sort_rows insert_row join_instruments join_legs join_entities
    is_after row_below read_page next_token get_rows get_elem? take get expiry_of legs_of leg_of_row
    text_leb
pages_walked = refl

bad_token :
    list text_leb mark_encode mark_decode false
      (λ id. false)
      (pos 50)
      (record of_derby { page_token = "+x" })
      three_instruments
    ≡ invalid_page_token
unfolding list
bad_token = refl

three-IsDated : All IsDated three_instruments.instruments
three-IsDated = ((refl, refl, refl), ((refl, refl, refl), ((refl, refl, refl), tt)))

two_rows : length (select_rows text_leb (args_of of_derby) (pos 50) no_token three_instruments) < 3
unfolding select_rows sort_rows insert_row join_instruments join_legs join_entities is_after
    row_below text_leb
two_rows = ground arith

abbrev derby_rows : List InstrumentRow
derby_rows = select_rows text_leb (args_of of_derby) (pos 50) no_token three_instruments

walk_pages_lem_example :
    (recs : List InstrumentRecord) × (walk_pages text_leb mark_encode mark_decode of_derby
        (pos 50)
        three_instruments
        3
        ""
      ≡ some recs)
    × AreRead three_instruments derby_rows recs
    × IsSorted text_leb text_IsOrder derby_rows
    × ((id : String)
        → any (λ r. str_eq r.id id) derby_rows
          ≡ any
              (λ i. str_eq i.id id && fits text_leb (args_of of_derby) (pos 50) three_instruments i)
              three_instruments.instruments)
walk_pages_lem_example =
    walk_pages_lem text_leb mark_encode mark_decode of_derby (pos 50) three_instruments text_IsOrder
      mark_IsCodec three-IsDated 3 two_rows
