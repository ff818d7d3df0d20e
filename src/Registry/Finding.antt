-- ===== src/Registry/Finding.antt =====
-- `Get` of registry/internal/postgres.go finds every row that the query of `List` gives.
use mathlib.Core.Path.{subst}
use secwager.Registry.Joining.{fits_leg, fits}
use secwager.Prelude.Int.{ℤ}
use secwager.Registry.Legs.{Leg}
use secwager.Registry.Instruments.{
  InstrumentTables, InstrumentRow, StoredLeg, InstrumentRecord, leg_of_row,
}
use secwager.Registry.Service.{expiry_of, get, legs_of, got}
use secwager.Registry.Listing.{ListArgs}
use secwager.Prelude.{
  map, ◌&&◌, ◌≡◌, Bool-cases, inl, ◌∷◌, some, filter, All, any, [], str_eq, str_eq_refl, Bool, List,
  refl, String, arith, true, str_eq_iff, inr, false,
}

expiry_found :
    (id : String) (rows : List InstrumentRow)
    → any (λ i. str_eq i.id id) rows ≡ true
    → (expiry : ℤ) × (expiry_of id rows ≡ some expiry)
unfolding expiry_of
expiry_found id [] h = ground (arith, h)
expiry_found id (i ∷ rows) h = elim (Bool-cases (str_eq i.id id)) [
  | inl its ↦ rw its (i.expiry, refl)
  | inr other ↦ rw (other, expiry_of) (expiry_found id rows (rw other at h))
]

legs_found :
    (id : String) (legs : List StoredLeg)
    → any (λ l. str_eq l.instrument_id id) legs ≡ true
    → (leg : Leg) × (rest : List Leg) × (map
          (λ l. leg_of_row l.row)
          (filter (λ l. str_eq l.instrument_id id) legs)
        ≡ leg ∷ rest)
legs_found id [] h = ground (arith, h)
legs_found id (l ∷ legs) h = elim (Bool-cases (str_eq l.instrument_id id)) [
  | inl its ↦ rw its (leg_of_row l.row, _, refl)
  | inr other ↦ rw other (legs_found id legs (rw other at h))
]

-- `Get` finds an instrument that has a leg.
abbrev pub IsFound : InstrumentTables → InstrumentRow → Type 0
IsFound t r = (rec : InstrumentRecord) × (get false r.id t ≡ got rec)

get-IsFound :
    (t : InstrumentTables) (r : InstrumentRow)
    → any (λ i. str_eq i.id r.id) t.instruments ≡ true
    → any (λ l. str_eq l.instrument_id r.id) t.legs ≡ true
    → IsFound t r
unfolding get legs_of
get-IsFound t r known legged =
    let (expiry, there) = expiry_found r.id t.instruments known in
    let (leg, rest, read) = legs_found r.id t.legs legged in
    (record { id = r.id; legs = leg ∷ rest; expiry_unix = expiry }, rw (there, read) refl)

module _ (collate : String → String → Bool) (f : ListArgs) (now : ℤ) (t : InstrumentTables) where
  fits_known :
      (id : String) (instruments : List InstrumentRow)
      → any (λ i. str_eq i.id id && fits collate f now t i) instruments ≡ true
      → any (λ i. str_eq i.id id) instruments ≡ true
  fits_known id [] h = h
  fits_known id (i ∷ instruments) h = ground (arith, h, fits_known id instruments)

  legged :
      (i : InstrumentRow) (legs : List StoredLeg)
      → any (λ l. str_eq l.instrument_id i.id && fits_leg collate f now i l t.entities) legs ≡ true
      → any (λ l. str_eq l.instrument_id i.id) legs ≡ true
  legged i [] h = h
  legged i (l ∷ legs) h = ground (arith, h, legged i legs)

  fits_legged :
      (id : String) (instruments : List InstrumentRow)
      → any (λ i. str_eq i.id id && fits collate f now t i) instruments ≡ true
      → any (λ l. str_eq l.instrument_id id) t.legs ≡ true
  fits_legged id [] h = ground (arith, h)
  fits_legged id (i ∷ instruments) h = elim (Bool-cases (str_eq i.id id)) [
    | inr other ↦ fits_legged id instruments (rw other at h)
    | inl its ↦ elim (Bool-cases (fits collate f now t i)) [
      | inr unfit ↦ fits_legged id instruments (rw (its, unfit) at h)
      | inl fit ↦
          subst (λ s. any (λ l. str_eq l.instrument_id s) t.legs ≡ true)
            ((str_eq_iff i.id id).0 its) (legged i t.legs fit)
    ]
  ]

  pub fits-IsFound :
      (r : InstrumentRow)
      → any (λ i. str_eq i.id r.id && fits collate f now t i) t.instruments ≡ true
      → IsFound t r
  fits-IsFound r h =
      get-IsFound t r (fits_known r.id t.instruments h) (fits_legged r.id t.instruments h)

-- What holds of a row whenever its id is among the rows holds of all rows.
pub All-any :
    (P : InstrumentRow → Type 0) (rows : List InstrumentRow)
    → ((r : InstrumentRow) → any (λ j. str_eq j.id r.id) rows ≡ true → P r)
    → All P rows
All-any P [] h = tt
All-any P (r ∷ rows) h =
    (h r (rw (str_eq_refl r.id) refl), All-any P rows (λ s found. h s (ground (arith, found))))
