-- ===== src/Registry/Storing.antt =====
-- What registry/internal/postgres.go stores of an instrument: the rows come back as the legs that were
-- given, and an instrument is stored at most once.
use mathlib.Core.List.{map-append, append_assoc, append-nil}
use mathlib.Core.Path.{sym}
use mathlib.Core.Option.{some-injective}
use secwager.Prelude.{
  String, List, Option, ◌≡◌, ◌++◌, map, inr, ◌∷◌, [], ap, some, Option-cases, arith, inl,
  str_eq_refl, filter, ◌||◌, none, true, Bool-cases, str_eq, ◌∙◌, refl,
}
use secwager.Registry.Legs.{Leg, Predicate}
use secwager.Registry.Refdata.{RefStore, Game, get_player, get_game}
use secwager.Registry.Instruments.{
  collect_failed, collect_panics, InstrumentTables, CreateFaults, LegRow, StoredLeg, Collected,
  insert_legs, leg_row, collect_legs, collected, predicate_row, collect_more, leg_of_row,
  insert_leg, game_row, leg_stored, insert_entities,
}
use secwager.Registry.Service.{legs_of}

-- A leg is read back from its row.
predicate_row_lem :
    (rs : RefStore) (h game_id : String) (game : Game) (p : Predicate) (row : LegRow)
    → predicate_row rs p (game_row h game_id game) ≡ some row
    → leg_of_row row ≡ record { game_id = game_id; predicate = p }
unfolding predicate_row leg_of_row
predicate_row_lem rs h game_id game (Predicate.game_outcome outcome) row e =
    ap leg_of_row (sym (some-injective _ _ e))
predicate_row_lem rs h game_id game (Predicate.player_prop pp) row e =
    elim (Option-cases (get_player rs pp.player_id)) [
      | inl gone ↦ ground (arith, e, gone)
      | inr (player, there) ↦
          ap leg_of_row (sym (some-injective _ _ (rw (there, predicate_row) at e)))
    ]
predicate_row_lem rs h game_id game Predicate.no_predicate row e =
    ap leg_of_row (sym (some-injective _ _ e))

-- The rows, if there are any, are those of the legs.
abbrev pub Reads : List Leg → Collected → Type 0
Reads legs (collected rows) = map leg_of_row rows ≡ legs
Reads legs collect_failed = Unit
Reads legs collect_panics = Unit

module _ (leg_hash : Leg → Option String) (rs : RefStore) where
  leg_row-Reads : (leg : Leg) → Reads (leg ∷ []) (leg_row leg_hash rs leg)
  unfolding leg_row
  leg_row-Reads leg = elim (Option-cases (leg_hash leg)) [
    | inl lost ↦ rw (lost, leg_row) tt
    | inr (h, has) ↦ elim (Option-cases (get_game rs leg.game_id)) [
      | inl gone ↦ rw (has, leg_row, gone) tt
      | inr (game, there) ↦
          elim (Option-cases (predicate_row rs leg.predicate (game_row h leg.game_id game))) [
            | inl nobody ↦ rw (has, leg_row, there, nobody) tt
            | inr (row, made) ↦
                rw (has, leg_row, there, made)
                  (ap (λ l. l ∷ [])
                    (predicate_row_lem rs h leg.game_id game leg.predicate row made))
          ]
    ]
  ]

  collect_more-Reads :
      (leg : Leg) (legs : List Leg) (c d : Collected)
      → Reads (leg ∷ []) c
      → Reads legs d
      → Reads (leg ∷ legs) (collect_more leg_hash c d)
  unfolding collect_more
  collect_more-Reads leg legs (collected rows) (collected more) h k =
      map-append leg_of_row rows more
      ∙ ap (λ front. front ++ map leg_of_row more) h
      ∙ ap (λ back. leg ∷ back) k
  collect_more-Reads leg legs (collected rows) collect_failed h k = tt
  collect_more-Reads leg legs (collected rows) collect_panics h k = tt
  collect_more-Reads leg legs collect_failed d h k = tt
  collect_more-Reads leg legs collect_panics d h k = tt

  pub collect_legs-Reads : (legs : List Leg) → Reads legs (collect_legs leg_hash rs legs)
  unfolding collect_legs
  collect_legs-Reads [] = refl
  collect_legs-Reads (leg ∷ legs) =
      collect_more-Reads leg legs (leg_row leg_hash rs leg) (collect_legs leg_hash rs legs)
        (leg_row-Reads leg) (collect_legs-Reads legs)

filter_added :
    (id : String) (l : StoredLeg) (legs : List StoredLeg)
    → str_eq l.instrument_id id ≡ true
    → map (λ l. leg_of_row l.row) (filter (λ l. str_eq l.instrument_id id) (legs ++ (l ∷ [])))
      ≡ map (λ l. leg_of_row l.row) (filter (λ l. str_eq l.instrument_id id) legs)
        ++ (leg_of_row l.row ∷ [])
filter_added id l [] own = rw own refl
filter_added id l (x ∷ legs) own = elim (Bool-cases (str_eq x.instrument_id id)) [
  | inl its ↦ rw (its, filter_added id l legs own) refl
  | inr other ↦ rw other (filter_added id l legs own)
]

-- The tables, if there are any, have the rows after those that were there.
abbrev pub Stores : String → List LegRow → InstrumentTables → Option InstrumentTables → Type 0
Stores id rows t none = Unit
Stores id rows t (some u) =
    (legs_of id u ≡ legs_of id t ++ map leg_of_row rows) × (u.instruments ≡ t.instruments)

module _ (faults : CreateFaults) (id : String) where
  insert_leg-Stores :
      (row : LegRow) (t : InstrumentTables) → Stores id (row ∷ []) t (insert_leg faults id row t)
  unfolding insert_leg legs_of
  insert_leg-Stores row t = elim (Bool-cases (faults.leg_fails row || leg_stored id row t.legs)) [
    | inl fails ↦ rw fails tt
    | inr fine ↦
        elim (Option-cases (insert_entities faults t.next_leg_id id row.entities t.entities)) [
          | inl lost ↦ rw (fine, lost) tt
          | inr (entities, made) ↦
              rw (fine, made)
                (
                  filter_added id (record { leg_id = t.next_leg_id; instrument_id = id; row = row })
                      t.legs (str_eq_refl id),
                  refl,
                )
        ]
  ]

  pub insert_legs-Stores :
      (rows : List LegRow) (t : InstrumentTables) → Stores id rows t (insert_legs faults id rows t)
  unfolding insert_legs
  insert_legs-Stores [] t = (sym (append-nil (legs_of id t)), refl)
  insert_legs-Stores (row ∷ rows) t = elim (Option-cases (insert_leg faults id row t)) [
    | inl lost ↦ rw (lost, insert_legs) tt
    | inr (u, made) ↦
        let first = insert_leg-Stores row t in
        rw (made, insert_legs)
          (go_on u (insert_legs faults id rows u) (rw made at first) (insert_legs-Stores rows u))
  ]
    where
      go_on :
          (u : InstrumentTables) (v : Option InstrumentTables)
          → Stores id (row ∷ []) t (some u)
          → Stores id rows u v
          → Stores id (row ∷ rows) t v
      go_on u none h k = tt
      go_on u (some v) h k = (
        k.0
            ∙ ap (λ front. front ++ map leg_of_row rows) h.0
            ∙ append_assoc (legs_of id t) (leg_of_row row ∷ []) (map leg_of_row rows),
        k.1 ∙ h.1,
      )
