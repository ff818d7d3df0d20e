-- ===== src/BtcWatcher/Chain.antt =====
-- What btcwatcher/internal/watcher.go reads off the chain and the list of users. The script of an output,
-- its address and the decoding of addresses are the Bitcoin library's, so they are part of the data.
use secwager.Prelude.Int.{ℤ}
use secwager.BtcWatcher.TxStore.{Deposit}
use secwager.Prelude.{
  ℕ, ◌++◌, not, Option, ◌∷◌, some, put, none, Bool, if◌then◌else◌, List, [], String,
}

-- An output of a transaction: the address that its script pays, if it pays just one.
pub record Output : Type 0 where
  pub vout : ℕ
  pub address : Option String
  pub value : ℤ

pub record Tx : Type 0 where
  pub txid : String
  pub outputs : List Output

abbrev pub AddrIndex : Type 0
AddrIndex = String → Option String

output_deposit : AddrIndex → ℕ → String → Output → List Deposit
output_deposit index height txid out = elim out.address [
  | none ↦ []
  | some addr ↦ elim (index addr) [
    | none ↦ []
    | some user ↦
        record {
          txid = txid;
          vout = out.vout;
          user_id = user;
          satoshis = out.value;
          seen_at_height = height;
        }
        ∷ []
  ]
]

outputs_deposits : AddrIndex → ℕ → String → List Output → List Deposit
unfolding output_deposit
outputs_deposits index height txid [] = []
outputs_deposits index height txid (o ∷ os) =
    output_deposit index height txid o ++ outputs_deposits index height txid os

unfoldable pub relevant_deposits : AddrIndex → ℕ → List Tx → List Deposit
unfolding outputs_deposits
relevant_deposits index height [] = []
relevant_deposits index height (tx ∷ txs) =
    outputs_deposits index height tx.txid tx.outputs ++ relevant_deposits index height txs

-- A user record, and whether its address decodes.
pub record UserRecord : Type 0 where
  pub user_id : String
  pub btc_addr : String
  pub decodes : Bool

-- `pollNewUsers` where the list of users is read: the index, and the addresses to watch.
unfoldable pub poll_new_users : List UserRecord → AddrIndex → AddrIndex × List String
poll_new_users [] index = (index, [])
poll_new_users (r ∷ rs) index = elim (index r.btc_addr) [
  | some _ ↦ poll_new_users rs index
  | none ↦
      if not r.decodes
      then poll_new_users rs index
      else let (index', addrs) = poll_new_users rs (put index r.btc_addr (some r.user_id)) in
        (index', r.btc_addr ∷ addrs)
]

-- `loadUsers` where the list is read: the first index, and the addresses to watch.
unfoldable pub load_users : List UserRecord → AddrIndex → AddrIndex × List String
load_users [] index = (index, [])
load_users (r ∷ rs) index =
    if not r.decodes
    then load_users rs index
    else let (index', addrs) = load_users rs (put index r.btc_addr (some r.user_id)) in
      (index', r.btc_addr ∷ addrs)
