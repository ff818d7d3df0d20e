-- ===== src/Registry/TokenTests.antt =====
-- A page token of registry/internal/postgres.go as a text, in place of JSON and base64.
use secwager.Prelude.Int.{ℤ, pos, negsuc}
use secwager.Registry.Paging.{IsCodec}
use secwager.Registry.Listing.{PageToken, is_writable}
use Prim.Native.Char.{code}
use Prim.Native.String.{String, [], ◌∷◌}
use secwager.Prelude.{
  ℕ, false, Option, Bool, zero, none, ◌≡◌, true, if◌then◌else◌, ap, arith, refl, ◌≢◌, ◌==◌, suc,
  some,
}

-- A codec that writes a time as so many marks.
abbrev pub marks : ℕ → String → String
marks zero s = "." ∷ s
marks (suc n) s = "x" ∷ marks n s

abbrev pub count_marks : String → Option (ℕ × String)
count_marks [] = none
count_marks (c ∷ s) =
    let rest = count_marks s in
    if code c == 120
    then elim rest [ none ↦ none | some (n, id) ↦ some (suc n, id) ]
    else some (0, s)

count_marks-marks : (n : ℕ) (s : String) → count_marks (marks n s) ≡ some (n, s)
count_marks-marks zero s = refl
count_marks-marks (suc n) s = rw (count_marks-marks n s) refl

abbrev pub mark_time : ℤ → String → String
mark_time (pos n) id = "+" ∷ marks n id
mark_time (negsuc n) id = "-" ∷ marks n id

-- A time that JSON does not take gives the empty text.
abbrev pub mark_encode : PageToken → String
mark_encode token = if is_writable token.created_at then mark_time token.created_at token.id else ""

abbrev pub mark_decode : String → Option PageToken
mark_decode [] = none
mark_decode (c ∷ s) = elim (count_marks s) [
  | none ↦ none
  | some (n, id) ↦
      if code c == 43
      then some (record { created_at = pos n; id = id })
      else some (record { created_at = negsuc n; id = id })
]

mark_decodes :
    (token : PageToken)
    → is_writable token.created_at ≡ true
    → mark_decode (mark_encode token) ≡ some token
mark_decodes token taken = rw taken (rw (go token.created_at token.id) refl)
  where
    go :
        (time : ℤ) (id : String)
        → mark_decode (mark_time time id) ≡ some (record { created_at = time; id = id })
    go (pos n) id = rw (mark_decode, count_marks-marks n id) refl
    go (negsuc n) id = rw (mark_decode, count_marks-marks n id) refl

abbrev is_empty : String → Bool
is_empty [] = true
is_empty (c ∷ s) = false

mark_nonempty : (token : PageToken) → is_writable token.created_at ≡ true → mark_encode token ≢ ""
mark_nonempty token taken = rw taken (go token.created_at token.id)
  where
    go : (time : ℤ) (id : String) → mark_time time id ≢ ""
    go (pos n) id e = ground (arith, ap is_empty e)
    go (negsuc n) id e = ground (arith, ap is_empty e)

pub mark_IsCodec : IsCodec mark_encode mark_decode
mark_IsCodec = record { decodes = mark_decodes; nonempty = mark_nonempty }
