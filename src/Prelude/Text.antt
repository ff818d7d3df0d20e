-- ===== src/Prelude/Text.antt =====
-- Texts, and maps with texts for keys.
pub use Prim.Native.String.{String, ◌++◌ as ◌<>◌}
use mathlib.Core.Path.{◌≡◌, sym, ap, ◌∙◌}
use mathlib.Core.Bool.{Bool, true}
use text.Mathlib.Text.{◌==◌ as same_text}
use text.Mathlib.TextPositions.{eq_refl, len-append}
use Prim.Native.String.{len}
use native.Mathlib.Omega.{arith}
use Prim.Native.Nat.{ℕ, zero, suc, ◌+◌, ◌<◌, ◌/◌, ◌%◌}
use text.Mathlib.TextEquality.{eq_iff}
use mathlib.Core.Logic.{◌↔◌, ◌≢◌, inl, inr}
use secwager.Prelude.Tests.{if◌then◌else◌, Bool-cases, ltb, ◌==◌}

abbrev pub str_eq : String → String → Bool
str_eq s t = same_text s t

pub str_eq_refl : (s : String) → str_eq s s ≡ true
str_eq_refl s = eq_refl s

pub str_eq_iff : (s t : String) → (str_eq s t ≡ true) ↔ (s ≡ t)
str_eq_iff s t = eq_iff s t

-- `m[k] = v`
abbrev pub put {ℓ} : {A : Type ℓ} → (String → A) → String → A → String → A
put m k v j = if str_eq j k then v else m j

module _ {ℓ} {A : Type ℓ} (m : String → A) (k : String) where
  pub put_self : (v : A) → put m k v k ≡ v
  put_self v = rw (str_eq_refl k)

  pub put_ne : (j : String) (v : A) → j ≢ k → put m k v j ≡ m j
  put_ne j v ne = elim (Bool-cases (str_eq j k)) [
    | inl e ↦ absurd (ne ((str_eq_iff j k).0 e))
    | inr e ↦ rw e
  ]

-- A text is not itself with something in front.
pub prefix_longer : (p s : String) → 0 < len p → p <> s ≢ s
prefix_longer p s pos e =
    let shorter : len p + len s ≡ len s = sym (len-append p s) ∙ ap len e in omega arith

-- `strconv.Itoa`. The digits are fewer than the fuel.
abbrev digit : ℕ → String
digit n =
    if n == 0
    then "0"
    else if n == 1
    then "1"
    else if n == 2
    then "2"
    else if n == 3
    then "3"
    else if n == 4
    then "4"
    else if n == 5
    then "5"
    else if n == 6
    then "6"
    else if n == 7
    then "7"
    else if n == 8
    then "8"
    else "9"

itoa_from : ℕ → ℕ → String
itoa_from zero n = ""
itoa_from (suc f) n =
    let front = itoa_from f (n / 10) in if ltb n 10 then digit n else front <> digit (n % 10)

unfoldable pub itoa : ℕ → String
unfolding itoa_from
itoa n = itoa_from (n + 1) n
