-- ===== src/VendorRefdata/Rows.antt =====
-- `UPDATE` statements of vendor_refdata/internal/store.go on lists of rows, and lists that only grow.
use secwager.VendorRefdata.Tables.{update_rows}
use mathlib.Core.List.{append_assoc}
use mathlib.Core.Path.{sym}
use secwager.Prelude.{
  List, ◌≡◌, ◌++◌, All, filter, ◌∷◌, refl, All-append, [], inl, true, ◌∙◌, Bool-cases, inr, map,
  false, any, Bool, ap,
}

module _ {A : Type 0} (p q : A → Bool) (f : A → A) where
  pub any-update_rows :
      ((r : A) → p r ≡ true → q (f r) ≡ q r)
      → (rows : List A) → any q (update_rows p f rows) ≡ any q rows
  unfolding update_rows
  any-update_rows keep [] = refl
  any-update_rows keep (r ∷ rows) = elim (Bool-cases (p r)) [
    | inl yes_p ↦ rw (yes_p, keep r yes_p, any-update_rows keep rows) refl
    | inr no_p ↦ rw (no_p, any-update_rows keep rows) refl
  ]

  pub map-filter-update_rows :
      {B : Type 0} (proj : A → B)
      → ((r : A) → p r ≡ true → q (f r) ≡ q r)
      → ((r : A) → p r ≡ true → q r ≡ true → proj (f r) ≡ proj r)
      → (rows : List A) → map proj (filter q (update_rows p f rows)) ≡ map proj (filter q rows)
  unfolding update_rows
  map-filter-update_rows proj keep same [] = refl
  map-filter-update_rows proj keep same (r ∷ rows) =
      let rest = map-filter-update_rows proj keep same rows in
      elim (Bool-cases (p r)) [
        | inl yes_p ↦ elim (Bool-cases (q r)) [
          | inl yes_q ↦ rw (yes_p, keep r yes_p, yes_q, same r yes_p yes_q, rest) refl
          | inr no_q ↦ rw (yes_p, keep r yes_p, no_q) rest
        ]
        | inr no_p ↦ elim (Bool-cases (q r)) [
          | inl yes_q ↦ rw (no_p, yes_q, rest) refl
          | inr no_q ↦ rw (no_p, no_q) rest
        ]
      ]

  pub filter-update_rows :
      ((r : A) → p r ≡ true → q (f r) ≡ false)
      → ((r : A) → p r ≡ true → q r ≡ false)
      → (rows : List A) → filter q (update_rows p f rows) ≡ filter q rows
  unfolding update_rows
  filter-update_rows after before [] = refl
  filter-update_rows after before (r ∷ rows) =
      let rest = filter-update_rows after before rows in
      elim (Bool-cases (p r)) [
        | inl yes_p ↦ rw (yes_p, after r yes_p, before r yes_p) rest
        | inr no_p ↦ elim (Bool-cases (q r)) [
          | inl yes_q ↦ rw (no_p, yes_q, rest) refl
          | inr no_q ↦ rw (no_p, no_q) rest
        ]
      ]

pub map-update_rows :
    {A B : Type 0} (p : A → Bool) (f : A → A) (proj : A → B)
    → ((r : A) → proj (f r) ≡ proj r)
    → (rows : List A) → map proj (update_rows p f rows) ≡ map proj rows
unfolding update_rows
map-update_rows p f proj keep [] = refl
map-update_rows p f proj keep (r ∷ rows) =
    let rest = map-update_rows p f proj keep rows in
    elim (Bool-cases (p r)) [
      | inl hit ↦ rw (hit, keep r, rest) refl
      | inr miss ↦ rw (miss, rest) refl
    ]

-- Rows may be added in front; the old ones keep what `proj` shows of them, and their order.
abbrev pub Grown : {A B : Type 0} → (A → B) → (B → Type 0) → List A → List A → Type 0
Grown proj P xs ys = (new : List _) × ((map proj ys ≡ new ++ map proj xs) × All P new)

pub Grown-refl : {A B : Type 0} (proj : A → B) (P : B → Type 0) (xs : List A) → Grown proj P xs xs
Grown-refl proj P xs = ([], (refl, tt))

pub Grown-trans :
    {A B : Type 0} (proj : A → B) (P : B → Type 0) (xs ys zs : List A)
    → Grown proj P xs ys
    → Grown proj P ys zs
    → Grown proj P xs zs
Grown-trans proj P xs ys zs (new, (e, hs)) (more, (d, ks)) = (
  more ++ new,
  (
    d ∙ ap (λ tail. more ++ tail) e ∙ sym (append_assoc more new (map proj xs)),
    All-append P more new ks hs,
  ),
)

pub Grown-update :
    {A B : Type 0} (proj : A → B) (P : B → Type 0) (p : A → Bool) (f : A → A)
    → ((r : A) → proj (f r) ≡ proj r)
    → (rows : List A) → Grown proj P rows (update_rows p f rows)
Grown-update proj P p f keep rows = ([], (map-update_rows p f proj keep rows, tt))
