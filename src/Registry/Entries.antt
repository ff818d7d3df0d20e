-- ===== src/Registry/Entries.antt =====
-- The laws of the maps of registry/internal/refstore.go, as they are filled from rows.
use mathlib.Core.Option.{some-injective, map as map_option}
use secwager.VendorRefdata.Tables.{select_row}
use secwager.Registry.Refdata.{put_entry, lookup}
use secwager.Registry.Loading.{load_rows}
use mathlib.Core.Path.{subst}
use secwager.Prelude.{
  ◌&&◌, ◌∷◌, String, Bool-cases, Option, Bool, ◌≡◌, refl, str_eq, any, arith, false, ◌∙◌, List,
  some, none, str_eq_refl, inl, str_eq_iff, inr, [], sym, ap,
}

str_eq_sym : (s t : String) → str_eq s t ≡ false → str_eq t s ≡ false
str_eq_sym s t e = elim (Bool-cases (str_eq t s)) [
  | inr other ↦ other
  | inl same ↦ ground (arith, e, (str_eq_iff s t).1 (sym ((str_eq_iff t s).0 same)))
]

pub str_eq_comm : (s t : String) → str_eq s t ≡ str_eq t s
str_eq_comm s t = elim (Bool-cases (str_eq s t)) [
  | inl same ↦ same ∙ sym ((str_eq_iff t s).1 (sym ((str_eq_iff s t).0 same)))
  | inr other ↦ other ∙ sym (str_eq_sym s t other)
]

-- Rows of which each has an id of its own.
module _ {A : Type 0} (key : A → String) where
  abbrev pub HaveKeys : List A → Type 0
  HaveKeys [] = Unit
  HaveKeys (r ∷ rows) = (any (λ s. str_eq (key s) (key r)) rows ≡ false) × HaveKeys rows

module _ {B : Type 0} where
  lookup-put_entry_self :
      (k : String) (v : B) (m : List (String × B)) → lookup k (put_entry k v m) ≡ some v
  unfolding lookup put_entry
  lookup-put_entry_self k v [] = rw (str_eq_refl k) refl
  lookup-put_entry_self k v ((j, w) ∷ m) = elim (Bool-cases (str_eq j k)) [
    | inl same ↦ rw (same, str_eq_refl k) refl
    | inr other ↦ rw (other, lookup, other) (lookup-put_entry_self k v m)
  ]

  lookup-put_entry-other :
      (k j : String) (v : B) (m : List (String × B))
      → str_eq k j ≡ false
      → lookup j (put_entry k v m) ≡ lookup j m
  unfolding lookup put_entry
  lookup-put_entry-other k j v [] e = rw e refl
  lookup-put_entry-other k j v ((i, w) ∷ m) e = elim (Bool-cases (str_eq i k)) [
    | inl same ↦
        let i_is_k : i ≡ k = (str_eq_iff i k).0 same in rw (same, lookup, e, i_is_k, e) refl
    | inr other ↦ elim (Bool-cases (str_eq i j)) [
      | inl found ↦ rw (other, lookup, found) refl
      | inr missed ↦ rw (other, lookup, missed) (lookup-put_entry-other k j v m e)
    ]
  ]

  -- Each entry stands under the id of its value, once.
  module _ (ident : B → String) where
    abbrev pub IsKeyed : List (String × B) → Type 0
    IsKeyed [] = Unit
    IsKeyed ((k, v) ∷ m) = (ident v ≡ k) × (lookup k m ≡ none) × IsKeyed m

    pub put_entry-IsKeyed :
        (k : String) (v : B) (m : List (String × B))
        → ident v ≡ k
        → IsKeyed m
        → IsKeyed (put_entry k v m)
    unfolding put_entry lookup
    put_entry-IsKeyed k v [] e h = (e, refl, tt)
    put_entry-IsKeyed k v ((j, w) ∷ m) e (named, once, h) = elim (Bool-cases (str_eq j k)) [
      | inl same ↦ rw same (e, subst (λ i. lookup i m ≡ none) ((str_eq_iff j k).0 same) once, h)
      | inr other ↦ rw other (
        named,
        lookup-put_entry-other k j v m (str_eq_sym j k other) ∙ once,
        put_entry-IsKeyed k v m e h,
      )
    ]

    pub load_rows-IsKeyed :
        {A : Type 0} (key : A → String) (value : A → B)
        → ((r : A) → ident (value r) ≡ key r)
        → (rows : List A) (m : List (String × B)) → IsKeyed m
        → IsKeyed (load_rows key value rows m)
    unfolding load_rows
    load_rows-IsKeyed key value same [] m h = h
    load_rows-IsKeyed key value same (r ∷ rows) m h =
        load_rows-IsKeyed key value same rows (put_entry (key r) (value r) m)
          (put_entry-IsKeyed (key r) (value r) m (same r) h)

    pub lookup-IsKeyed :
        (id : String) (v : B) (m : List (String × B))
        → IsKeyed m
        → lookup id m ≡ some v
        → ident v ≡ id
    unfolding lookup
    lookup-IsKeyed id v [] h e = ground (arith, e)
    lookup-IsKeyed id v ((k, w) ∷ m) (named, once, h) e = elim (Bool-cases (str_eq k id)) [
      | inl same ↦
          ap ident (sym (some-injective _ _ (rw (lookup, same) at e)))
          ∙ named
          ∙ (str_eq_iff k id).0 same
      | inr other ↦ lookup-IsKeyed id v m h (rw (lookup, other) at e)
    ]

    abbrev pub holds_of : (B → Bool) → Option B → Bool
    holds_of q none = false
    holds_of q (some v) = q v

    -- A test of the values under an id is the test of what the map gives for it.
    pub any-lookup :
        (q : B → Bool) (id : String) (m : List (String × B))
        → IsKeyed m
        → any (λ e. str_eq (ident e.1) id && q e.1) m ≡ holds_of q (lookup id m)
    unfolding lookup
    any-lookup q id [] h = refl
    any-lookup q id ((k, v) ∷ m) (named, once, h) = elim (Bool-cases (str_eq k id)) [
      | inl same ↦
          let none_after : lookup id m ≡ none =
            subst (λ i. lookup i m ≡ none) ((str_eq_iff k id).0 same) once in
          rw (any-lookup q id m h, named, same, none_after) (ground arith)
      | inr other ↦ rw (any-lookup q id m h, named, other) refl
    ]

  module _ {A : Type 0} (key : A → String) where
    lookup-load_rows-absent :
        (value : A → B) (id : String) (rows : List A) (m : List (String × B))
        → any (λ s. str_eq (key s) id) rows ≡ false
        → lookup id (load_rows key value rows m) ≡ lookup id m
    unfolding load_rows
    lookup-load_rows-absent value id [] m e = refl
    lookup-load_rows-absent value id (r ∷ rows) m e =
        lookup-load_rows-absent value id rows (put_entry (key r) (value r) m) (ground (arith, e))
        ∙ lookup-put_entry-other (key r) id (value r) m (ground (arith, e))

    -- The map gives the value of the row with the id.
    pub lookup-load_rows :
        (value : A → B) (id : String) (rows : List A) (m : List (String × B))
        → HaveKeys key rows
        → lookup id m ≡ none
        → lookup id (load_rows key value rows m)
          ≡ map_option value (select_row (λ r. str_eq (key r) id) rows)
    unfolding load_rows select_row
    lookup-load_rows value id [] m h e = e
    lookup-load_rows value id (r ∷ rows) m (own, h) e = elim (Bool-cases (str_eq (key r) id)) [
      | inl same ↦
          let is_id : key r ≡ id = (str_eq_iff (key r) id).0 same in
          let absent : any (λ s. str_eq (key s) id) rows ≡ false =
            subst (λ i. any (λ s. str_eq (key s) i) rows ≡ false) is_id own in
          lookup-load_rows-absent value id rows (put_entry (key r) (value r) m) absent
          ∙ subst (λ i. lookup i (put_entry (key r) (value r) m) ≡ some (value r)) is_id
              (lookup-put_entry_self (key r) (value r) m)
          ∙ rw same refl
      | inr other ↦
          lookup-load_rows value id rows (put_entry (key r) (value r) m) h
            (lookup-put_entry-other (key r) id (value r) m other ∙ e)
          ∙ rw (other, select_row) refl
    ]
