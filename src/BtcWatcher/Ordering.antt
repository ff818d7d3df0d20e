-- ===== src/BtcWatcher/Ordering.antt =====
-- The rows of btcwatcher/internal/txstore.go against the calls on the cashier: what updates and
-- deletions keep.
use secwager.BtcWatcher.TxStore.{Row, Table, has_key, update_where}
use secwager.BtcWatcher.Calls.{CashierCall, CallLog, HaveKeys, IsCovered, AreOrdered}
use secwager.BtcWatcher.Watcher.{Watched}
use mathlib.Core.List.{Memᴰ}
use secwager.Prelude.{
  ℕ, false, [], true, inl, inr, ◌∷◌, String, All-map, refl, any, filter, if◌then◌else◌, All, ◌≡◌,
  Bool, ◌∙◌, arith, Bool-cases,
}

-- Keys are unique, rows in escrow are agreed to, and the calls are in order.
abbrev pub IsInOrder : Watched CallLog → Type 0
IsInOrder (t, log) = HaveKeys t × All (IsCovered log) t × AreOrdered log

pub if-either :
    {A : Type 0} (P : A → Type 0) (b : Bool) (x y : A)
    → (b ≡ true → P x)
    → P y
    → P (if b then x else y)
if-either P true x y h k = h refl
if-either P false x y h k = k

-- A change of rows that keeps their keys, users and amounts, and puts none in escrow.
abbrev pub Keeps : (Row → Row) → Type 0
Keeps f =
    (r : Row)
    → ((f r).txid ≡ r.txid)
      × ((f r).vout ≡ r.vout)
      × ((f r).user_id ≡ r.user_id)
      × ((f r).satoshis ≡ r.satoshis)

module _ (p : Row → Bool) (f : Row → Row) (keeps : Keeps f) where
  any-update_where :
      (txid : String) (vout : ℕ) (t : Table)
      → any (has_key txid vout) (update_where p f t) ≡ any (has_key txid vout) t
  any-update_where txid vout [] = refl
  any-update_where txid vout (r ∷ t) = elim (Bool-cases (p r)) [
    | inr miss ↦ rw (miss, any-update_where txid vout t) refl
    | inl hit ↦
        let (same_txid, same_vout, user, amount) = keeps r in
        rw (hit, any-update_where txid vout t, same_txid, same_vout) refl
  ]

  pub update_where-HaveKeys : (t : Table) → HaveKeys t → HaveKeys (update_where p f t)
  update_where-HaveKeys [] h = tt
  update_where-HaveKeys (r ∷ t) (alone, h) =
      let rest = update_where-HaveKeys t h in
      let still : any (has_key r.txid r.vout) (update_where p f t) ≡ false =
        any-update_where r.txid r.vout t ∙ alone in
      elim (Bool-cases (p r)) [
        | inr miss ↦ rw miss (still, rest)
        | inl hit ↦
            let (same_txid, same_vout, user, amount) = keeps r in
            rw (hit, same_txid, same_vout) (still, rest)
      ]

  pub update_where-All :
      (P : Row → Type 0) (t : Table)
      → ((r : Row) → p r ≡ true → P r → P (f r))
      → All P t
      → All P (update_where p f t)
  update_where-All P [] keep h = tt
  update_where-All P (r ∷ t) keep h =
      let rest = update_where-All P t keep h.1 in
      elim (Bool-cases (p r)) [
        | inr miss ↦ rw miss (h.0, rest)
        | inl hit ↦ rw hit (keep r hit h.0, rest)
      ]

any-filter : (p q : Row → Bool) (t : Table) → any q t ≡ false → any q (filter p t) ≡ false
any-filter p q [] h = refl
any-filter p q (r ∷ t) h =
    let rest = any-filter p q t (ground (arith, h)) in
    elim (Bool-cases (p r)) [
      | inl kept ↦ rw (kept, rest) (ground (arith, h))
      | inr dropped ↦ rw dropped rest
    ]

pub filter-HaveKeys : (p : Row → Bool) (t : Table) → HaveKeys t → HaveKeys (filter p t)
filter-HaveKeys p [] h = tt
filter-HaveKeys p (r ∷ t) (alone, h) =
    let rest = filter-HaveKeys p t h in
    elim (Bool-cases (p r)) [
      | inl kept ↦ rw kept (any-filter p (has_key r.txid r.vout) t alone, rest)
      | inr dropped ↦ rw dropped rest
    ]

-- What holds of the calls so far holds after one more.
pub IsCovered-more :
    (c : CashierCall × Bool) (log : CallLog) (t : Table)
    → All (IsCovered log) t
    → All (IsCovered (c ∷ log)) t
IsCovered-more c log t h = All-map (λ r k e. Memᴰ.tail (k e)) t h
