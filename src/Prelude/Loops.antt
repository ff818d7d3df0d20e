-- ===== src/Prelude/Loops.antt =====
-- `while` on fuel, with the rule for an invariant and the rule that the loop ends by its test.
use Prim.Native.Nat.{ℕ, zero, suc, ◌<◌}
use mathlib.Core.Path.{◌≡◌, refl}
use mathlib.Core.Bool.{Bool, true, false}
use native.Mathlib.Omega.{arith}

unfoldable pub while {ℓ} : {S : Type ℓ} → ℕ → (S → Bool) → (S → S) → S → S
while zero more step s = s
while (suc rounds) more step s = elim (more s) [
  | false ↦ s
  | true ↦ while rounds more step (step s)
]

module _ {ℓ κ} {S : Type ℓ} (P : S → Type κ) (more : S → Bool) (step : S → S) where
  -- What each round keeps is kept by the loop, however much fuel it has.
  pub while-keeps :
      ((s : S) → P s → more s ≡ true → P (step s))
      → (rounds : ℕ) (s : S) → P s
      → P (while rounds more step s)
  unfolding while
  while-keeps keep zero s h = h
  while-keeps keep (suc rounds) s h =
      go (more s) refl (λ e. while-keeps keep rounds (step s) (keep s h e))
    where
      go :
          (b : Bool)
          → more s ≡ b
          → (more s ≡ true → P (while rounds more step (step s)))
          → P (elim b [ false ↦ s | true ↦ while rounds more step (step s) ])
      go false e rest = h
      go true e rest = rest e

  -- With a measure below the fuel the loop ends by its test.
  pub while_ends :
      (size : S → ℕ)
      → ((t : S) → P t → more t ≡ true → P (step t) × (size (step t) < size t))
      → (rounds : ℕ) (s : S) → size s < rounds
      → P s
      → more (while rounds more step s) ≡ false
  unfolding while
  while_ends size shrinks zero s enough h = absurd (omega arith)
  while_ends size shrinks (suc rounds) s enough h =
      ground (arith, while_ends size shrinks rounds (step s), shrinks s h)
