-- ===== src/BtcWatcher/TxStore.antt =====
-- The table `btc_deposits` of btcwatcher/db/migrations, and the statements on it in
-- btcwatcher/internal/txstore.go. The table is the list of its rows; a row's key is (txid, vout).
-- Heights are at least 0, times are milliseconds.
use secwager.Prelude.{
  ℕ, str_eq, true, ◌+◌, none, ◌∷◌, ◌&&◌, [], ◌==◌, some, false, not, leb, if◌then◌else◌, String,
  Bool, filter, Option, map, ltb, List,
}
use secwager.Prelude.Int.{ℤ, pos, leb_ℤ}

pub record Row : Type 0 where
  pub txid : String
  pub vout : ℕ
  pub user_id : String
  pub satoshis : ℤ
  pub seen_at_height : ℕ
  pub escrowed : Bool
  pub confirmed : Bool
  pub reorged_at : Option ℕ

abbrev pub Table : Type 0
Table = List Row

-- The fields that `Insert` writes, and that the lists give back.
pub record Deposit : Type 0 where
  pub txid : String
  pub vout : ℕ
  pub user_id : String
  pub satoshis : ℤ
  pub seen_at_height : ℕ

abbrev pub deposit_of : Row → Deposit
deposit_of r = record {
  txid = r.txid;
  vout = r.vout;
  user_id = r.user_id;
  satoshis = r.satoshis;
  seen_at_height = r.seen_at_height;
}

abbrev pub new_row : Deposit → Row
new_row d = record {
  txid = d.txid;
  vout = d.vout;
  user_id = d.user_id;
  satoshis = d.satoshis;
  seen_at_height = d.seen_at_height;
  escrowed = false;
  confirmed = false;
  reorged_at = none;
}

abbrev pub is_none : Option ℕ → Bool
is_none none = true
is_none (some _) = false

abbrev pub has_key : String → ℕ → Row → Bool
has_key txid vout r = str_eq r.txid txid && r.vout == vout

-- `ON CONFLICT ... DO UPDATE ... WHERE reorged_at IS NOT NULL`
abbrev pub revive : ℕ → Row → Row
revive height r =
    if is_none r.reorged_at then r else record r { seen_at_height = height; reorged_at = none }

unfoldable pub upsert : Deposit → Table → Table
upsert d [] = new_row d ∷ []
upsert d (r ∷ t) = if has_key d.txid d.vout r then revive d.seen_at_height r ∷ t else r ∷ upsert d t

-- `Insert`; the check `satoshis > 0` refuses a row, and the caller drops the error.
unfoldable pub insert_deposit : Deposit → Table → Table
unfolding upsert
insert_deposit d t = if leb_ℤ d.satoshis (pos 0) then t else upsert d t

abbrev pub select_deposits : (Row → Bool) → Table → List Deposit
select_deposits p t = map deposit_of (filter p t)

unfoldable pub list_not_escrowed : Table → List Deposit
list_not_escrowed = select_deposits (λ r. not r.escrowed && is_none r.reorged_at)

-- `$1 - seen_at_height >= $2`, with nothing below 0 to subtract from.
unfoldable pub list_ready_to_confirm : (min_depth current_height : ℕ) → Table → List Deposit
list_ready_to_confirm min_depth current_height = select_deposits (λ r.
    r.escrowed
    && not r.confirmed
    && is_none r.reorged_at
    && leb (r.seen_at_height + min_depth) current_height)

-- `reorged_at < NOW() - minAge`
unfoldable pub list_reorged_escrowed : (min_age now : ℕ) → Table → List Deposit
list_reorged_escrowed min_age now = select_deposits (λ r.
    r.escrowed
    && not r.confirmed
    && (elim r.reorged_at [ none ↦ false | some at ↦ ltb (at + min_age) now ]))

-- `UPDATE ... WHERE`
abbrev pub update_where : (Row → Bool) → (Row → Row) → Table → Table
update_where p f [] = []
update_where p f (r ∷ t) = (if p r then f r else r) ∷ update_where p f t

unfoldable pub mark_escrowed : String → ℕ → Table → Table
mark_escrowed txid vout = update_where (has_key txid vout) (λ r. record r { escrowed = true })

unfoldable pub mark_confirmed : String → ℕ → Table → Table
mark_confirmed txid vout = update_where (has_key txid vout) (λ r. record r { confirmed = true })

unfoldable pub mark_cancelled : String → ℕ → Table → Table
mark_cancelled txid vout = filter (λ r. not (has_key txid vout r))

-- The two statements of `DeleteFromHeight`, each of which may fail: the second is not reached when the
-- first fails.
abbrev pub in_reorg : ℕ → Row → Bool
in_reorg height r = leb height r.seen_at_height && not r.confirmed

unfoldable pub soft_delete : (height now : ℕ) → Table → Table
soft_delete height now =
    update_where (λ r. in_reorg height r && r.escrowed) (λ r. record r { reorged_at = some now })

unfoldable pub hard_delete : ℕ → Table → Table
hard_delete height = filter (λ r. not (in_reorg height r && not r.escrowed))

unfoldable pub delete_from_height :
    (fails_soft fails_hard : Bool) → (height now : ℕ) → Table → Table
delete_from_height fails_soft fails_hard height now t =
    if fails_soft
    then t
    else if fails_hard
    then soft_delete height now t
    else hard_delete height (soft_delete height now t)
