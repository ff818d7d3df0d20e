-- ===== src/Registry/Hashing.antt =====
-- `HashLegs` of registry/internal/hash.go, which the comment there promises not to depend on the order
-- of the legs. The hash of a leg, protobuf's and sha256's, and the hash of a text are parameters.
use secwager.Registry.TextOrder.{text_leb, text_leb_antisym, text_leb_trans, text_leb_total}
use mathlib.Core.List.{Permᴰ}
use mathlib.Core.Path.{sym}
use secwager.Prelude.{
  String, List, Option, ◌≡◌, if◌then◌else◌, ◌∷◌, some, ◌<>◌, [], true, inr, refl, inl, false, ap,
  none, ◌∙◌, Option-cases, Bool-cases,
}
use secwager.Registry.Legs.{Leg}

unfoldable pub insert_text : String → List String → List String
insert_text x [] = x ∷ []
insert_text x (y ∷ ys) =
    let rest = insert_text x ys in if text_leb x y then x ∷ y ∷ ys else y ∷ rest

-- `sort.Strings`
unfoldable pub sort_texts : List String → List String
unfolding insert_text
sort_texts [] = []
sort_texts (x ∷ xs) = insert_text x (sort_texts xs)

unfoldable pub concat_texts : List String → String
concat_texts [] = ""
concat_texts (x ∷ xs) = x <> concat_texts xs

module _ (leg_hash : Leg → Option String) where
  unfoldable pub hash_each : List Leg → Option (List String)
  hash_each [] = some []
  hash_each (leg ∷ legs) = elim (leg_hash leg) [
    | none ↦ none
    | some h ↦ elim (hash_each legs) [ none ↦ none | some hs ↦ some (h ∷ hs) ]
  ]

module _ (leg_hash : Leg → Option String) (digest : String → String) where
  unfoldable pub hash_legs : List Leg → Option String
  unfolding hash_each sort_texts concat_texts
  hash_legs legs = elim (hash_each leg_hash legs) [
    | none ↦ none
    | some hs ↦ some (digest (concat_texts (sort_texts hs)))
  ]

-- Where `x` comes strictly before `y`.
insert_text_before :
    (x y : String) (zs : List String)
    → text_leb x y ≡ true
    → text_leb y x ≡ false
    → insert_text x (insert_text y zs) ≡ insert_text y (insert_text x zs)
unfolding insert_text
insert_text_before x y [] le not_ge = rw (le, not_ge) refl
insert_text_before x y (z ∷ zs) le not_ge = elim (Bool-cases (text_leb y z)) [
  | inl above ↦ rw (above, le, text_leb_trans x y z le above, not_ge, above) refl
  | inr below ↦ elim (Bool-cases (text_leb x z)) [
    | inl first ↦ rw (below, first, not_ge, below) refl
    | inr last ↦
        rw (below, last, below) (ap (λ rest. z ∷ rest) (insert_text_before x y zs le not_ge))
  ]
]

insert_text_comm :
    (x y : String) (zs : List String)
    → insert_text x (insert_text y zs) ≡ insert_text y (insert_text x zs)
insert_text_comm x y zs = elim (Bool-cases (text_leb x y)) [
  | inl le ↦ elim (Bool-cases (text_leb y x)) [
    | inl ge ↦ rw (text_leb_antisym x y le ge) refl
    | inr not_ge ↦ insert_text_before x y zs le not_ge
  ]
  | inr not_le ↦ sym (insert_text_before y x zs (text_leb_total x y not_le) not_le)
]

-- A hash into sorted hashes, where both are there.
push : Option String → Option (List String) → Option (List String)
push none hs = none
push (some h) none = none
push (some h) (some hs) = some (insert_text h hs)

push_comm : (a b : Option String) (r : Option (List String)) → push a (push b r) ≡ push b (push a r)
unfolding push
push_comm none none r = refl
push_comm none (some b) none = refl
push_comm none (some b) (some r) = refl
push_comm (some a) none none = refl
push_comm (some a) none (some r) = refl
push_comm (some a) (some b) none = refl
push_comm (some a) (some b) (some r) = ap some (insert_text_comm a b r)

module _ (leg_hash : Leg → Option String) where
  sorted_hashes : List Leg → Option (List String)
  sorted_hashes [] = some []
  sorted_hashes (leg ∷ legs) = push (leg_hash leg) (sorted_hashes legs)

  sorted_hashes_lem :
      (legs : List Leg)
      → sorted_hashes legs
        ≡ elim (hash_each leg_hash legs) [ none ↦ none | some hs ↦ some (sort_texts hs) ]
  unfolding sorted_hashes hash_each push sort_texts
  sorted_hashes_lem [] = refl
  sorted_hashes_lem (leg ∷ legs) = elim (Option-cases (leg_hash leg)) [
    | inl lost ↦ rw (lost, push) refl
    | inr (h, has) ↦ elim (Option-cases (hash_each leg_hash legs)) [
      | inl lost ↦ rw (sorted_hashes_lem legs, has, lost) refl
      | inr (hs, have) ↦ rw (sorted_hashes_lem legs, has, have) refl
    ]
  ]

  sorted_hashes_reordered :
      (legs legs' : List Leg) → Permᴰ legs legs' → sorted_hashes legs ≡ sorted_hashes legs'
  unfolding sorted_hashes
  sorted_hashes_reordered _ _ Permᴰ.nil = refl
  sorted_hashes_reordered _ _ (Permᴰ.cons {l₁ = l₁} {l₂ = l₂} e p) =
      rw (e, sorted_hashes_reordered l₁ l₂ p) refl
  sorted_hashes_reordered _ _ (Permᴰ.swap {a = a} {b = b} {l = l} e d) =
      rw (← e, ← d) (push_comm (leg_hash a) (leg_hash b) (sorted_hashes l))
  sorted_hashes_reordered _ _ (Permᴰ.trans {l₁ = l₁} {l₂ = l₂} {l₃ = l₃} p q) =
      sorted_hashes_reordered l₁ l₂ p ∙ sorted_hashes_reordered l₂ l₃ q

-- The digest of sorted hashes.
digest_sorted : (String → String) → Option (List String) → Option String
digest_sorted digest none = none
digest_sorted digest (some hs) = some (digest (concat_texts hs))

hash_legs_lem :
    (leg_hash : Leg → Option String) (digest : String → String) (legs : List Leg)
    → hash_legs leg_hash digest legs ≡ digest_sorted digest (sorted_hashes leg_hash legs)
unfolding hash_legs digest_sorted
hash_legs_lem leg_hash digest legs = elim (Option-cases (hash_each leg_hash legs)) [
  | inl lost ↦ rw (sorted_hashes_lem leg_hash legs, hash_legs, lost) refl
  | inr (hs, have) ↦ rw (sorted_hashes_lem leg_hash legs, hash_legs, have) refl
]

-- Legs in another order have the same id, and if the hash of a leg fails, it fails in any order.
pub hash_legs_reordered :
    (leg_hash : Leg → Option String) (digest : String → String) (legs legs' : List Leg)
    → Permᴰ legs legs'
    → hash_legs leg_hash digest legs ≡ hash_legs leg_hash digest legs'
hash_legs_reordered leg_hash digest legs legs' p =
    hash_legs_lem leg_hash digest legs
    ∙ ap (digest_sorted digest) (sorted_hashes_reordered leg_hash legs legs' p)
    ∙ sym (hash_legs_lem leg_hash digest legs')
