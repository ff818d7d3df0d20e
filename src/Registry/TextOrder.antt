-- ===== src/Registry/TextOrder.antt =====
-- The order of texts by which `HashLegs` of registry/internal/hash.go sorts: that of `sort.Strings`, by
-- the code points.
use Prim.Native.Char.{code}
use Prim.Native.String.{String, [], ◌∷◌}
use text.Mathlib.TextEquality.{Char-path}
use secwager.Prelude.{◌≡◌, true, false, Bool, arith, refl, ltb, ap, if◌then◌else◌, ◌==◌, ◌∙◌}

-- The order of texts.
unfoldable pub text_leb : String → String → Bool
text_leb [] t = true
text_leb (c ∷ s) [] = false
text_leb (c ∷ s) (d ∷ t) =
    let rest = text_leb s t in
    if ltb (code c) (code d) then true else if code c == code d then rest else false

pub text_leb_total : (s t : String) → text_leb s t ≡ false → text_leb t s ≡ true
unfolding text_leb
text_leb_total [] t e = ground (arith, e)
text_leb_total (c ∷ s) [] e = refl
text_leb_total (c ∷ s) (d ∷ t) e = ground (arith, text_leb_total s t, e)

pub text_leb_antisym : (s t : String) → text_leb s t ≡ true → text_leb t s ≡ true → s ≡ t
unfolding text_leb
text_leb_antisym [] [] e d = refl
text_leb_antisym [] (c ∷ t) e d = ground (arith, d)
text_leb_antisym (c ∷ s) [] e d = ground (arith, e)
text_leb_antisym (c ∷ s) (d ∷ t) e h =
    let same : code c ≡ code d = ground (arith, e, h) in
    let rest : s ≡ t = text_leb_antisym s t (ground (arith, e, h)) (ground (arith, e, h)) in
    ap (λ x. x ∷ s) (Char-path c d same) ∙ ap (λ r. d ∷ r) rest

pub text_leb_trans :
    (s t u : String) → text_leb s t ≡ true → text_leb t u ≡ true → text_leb s u ≡ true
unfolding text_leb
text_leb_trans [] t u e d = refl
text_leb_trans (c ∷ s) [] u e d = ground (arith, e)
text_leb_trans (c ∷ s) (b ∷ t) [] e d = ground (arith, d)
text_leb_trans (c ∷ s) (b ∷ t) (a ∷ u) e d = ground (arith, text_leb_trans s t u, e, d)
