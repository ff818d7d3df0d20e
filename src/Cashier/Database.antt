-- ===== src/Cashier/Database.antt =====
-- The SQL of cashier/internal/postgres_cashier.go, statement by statement, under the constraints of
-- cashier/db/migrations. `none` is a statement that Postgres refuses; a request runs in one
-- transaction, and requests that touch a row run one after another, so the state is the tables. Texts
-- have no character NUL, which Postgres stores in none.
use Prim.Native.Char.{code}
use Prim.Native.String.{[], ◌∷◌}
use secwager.Prelude.{
  Option-cases, inl, inr, arith, ◌≡◌, ◌∙◌, ap, str_eq, str_eq_iff, zero, suc, false, ℕ, ◌+◌, Bool,
  true, some, none, ◌==◌, ◌&&◌, ◌^◌, Option, if◌then◌else◌, String, put,
}
use secwager.Prelude.Int.{ℤ, pos, ◌+ℤ◌, ◌-ℤ◌, ltb_ℤ, leb_ℤ}
use secwager.Cashier.Types.{Account, Database}

-- The checks `gross_balance >= 0`, `escrowed >= 0` and `coverage`, and the range of BIGINT.
abbrev pub row_ok : Account → Bool
row_ok a =
    leb_ℤ (pos 0) a.gross_balance
    && leb_ℤ (pos 0) a.escrowed
    && leb_ℤ a.escrowed a.gross_balance
    && ltb_ℤ a.gross_balance (pos (2 ^ 63))

-- Writes the row of an id that fits its column.
abbrev pub set_account : String → Account → Database → Option Database
set_account user a db =
    if row_ok a then some (record db { accounts = put db.accounts user (some a) }) else none

unfoldable pub is_blank : String → Bool
is_blank [] = true
is_blank (c ∷ s) = let rest = is_blank s in code c == 32 && rest

-- A text that is stored in a VARCHAR of `n` characters: what is over its length is cut off if it is all
-- spaces, and refused otherwise.
unfoldable pub varchar : ℕ → String → Option String
unfolding is_blank
varchar n [] = some []
varchar zero (c ∷ s) = if is_blank (c ∷ s) then some [] else none
varchar (suc n) (c ∷ s) = elim (varchar n s) [ none ↦ none | some t ↦ some (c ∷ t) ]

-- The id is stored as it is: it has at most 64 characters.
abbrev pub fits : String → Bool
fits user = elim (varchar 64 user) [ none ↦ false | some stored ↦ str_eq stored user ]

-- The row of a user, with the amounts added to its two balances.
abbrev pub upsert_row : String → (gross escrowed : ℤ) → Database → Option Database
upsert_row user gross escrowed db = elim (db.accounts user) [
  | none ↦ set_account user (record { gross_balance = gross; escrowed = escrowed; version = 0 }) db
  | some a ↦
      set_account user
        (record {
          gross_balance = a.gross_balance +ℤ gross;
          escrowed = a.escrowed +ℤ escrowed;
          version = a.version + 1;
        })
        db
]

-- `INSERT ... ON CONFLICT (user_id) DO UPDATE`; `accounts.user_id` is a VARCHAR(64).
unfoldable pub upsert_account : String → (gross escrowed : ℤ) → Database → Option Database
unfolding varchar
upsert_account user gross escrowed db = elim (varchar 64 user) [
  | none ↦ none
  | some stored ↦ upsert_row stored gross escrowed db
]

pub fits_lem : (user : String) → fits user ≡ true → varchar 64 user ≡ some user
fits_lem user h = elim (Option-cases (varchar 64 user)) [
  | inl long ↦ ground (arith, h, long)
  | inr (stored, e) ↦
      let same : str_eq stored user ≡ true = ground (arith, h, e) in
      e ∙ ap some ((str_eq_iff stored user).0 same)
]

-- One row affected.
abbrev pub affected : Option Database → Option (Database × ℕ)
affected none = none
affected (some db) = some (db, 1)

-- `UPDATE accounts SET ... WHERE user_id = $2 AND version = $3`: the tables and the rows affected.
unfoldable pub update_versioned :
    String → ℕ → (gross escrowed : ℤ) → Database → Option (Database × ℕ)
update_versioned user version gross escrowed db = elim (db.accounts user) [
  | none ↦ some (db, 0)
  | some a ↦
      if a.version == version
      then affected (
          set_account user
            (record { gross_balance = gross; escrowed = escrowed; version = a.version + 1 }) db)
      else some (db, 0)
]

-- `UPDATE accounts SET gross_balance - $g, escrowed - $e WHERE user_id = $1 AND escrowed >= $least`.
unfoldable pub subtract :
    String → (gross escrowed : ℤ) → Option ℤ → Database → Option (Database × ℕ)
subtract user gross escrowed least db = elim (db.accounts user) [
  | none ↦ some (db, 0)
  | some a ↦
      if elim least [ none ↦ true | some l ↦ leb_ℤ l a.escrowed ]
      then affected (
          set_account user
            (record {
              gross_balance = a.gross_balance -ℤ gross;
              escrowed = a.escrowed -ℤ escrowed;
              version = a.version + 1;
            })
            db)
      else some (db, 0)
]
