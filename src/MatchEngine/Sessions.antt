-- ===== src/MatchEngine/Sessions.antt =====
-- Books as they come about: a new book of matchengine/book.go, and any sequence of `Limit` and
-- `Cancel` calls on it.
use secwager.Prelude.{ℕ, arith, ◌<◌, ◌≡◌, ◌⊎◌}
use secwager.MatchEngine.Types.{Order, OrderBook}
use secwager.MatchEngine.Book.{new_book, best_ask, best_bid}
use secwager.MatchEngine.Limit.{limit}
use secwager.MatchEngine.Cancel.{cancel}
use secwager.MatchEngine.Validity.{IsOrder, IsValid}
use secwager.MatchEngine.Limiting.{limit-IsValid}
use secwager.MatchEngine.Cancelling.{cancel-IsValid}
use secwager.MatchEngine.Best.{best_uncrossed}

pub new_book-IsValid : IsValid new_book
unfolding new_book
new_book-IsValid = record {
  top_pos = omega arith;
  top_le = omega arith;
  links = record {
    buy_head = λ p. ground arith;
    buy_tail = λ p. ground arith;
    sell_head = λ p. ground arith;
    sell_tail = λ p. ground arith;
    onward = λ i. ground arith;
  };
  accounts = λ i. ground arith;
  uncrossed = omega arith;
}

-- One call on the book.
pub data Step : OrderBook → OrderBook → Type 0 where
  limited : (o : Order) (b : OrderBook) → IsOrder o → Step b (limit o b).1
  cancelled : (id : ℕ) (b : OrderBook) → Step b (cancel id b).0

-- The books that calls lead to from a new one.
pub data Reach : OrderBook → Type 0 where
  start : Reach new_book
  next : {b c : OrderBook} → Reach b → Step b c → Reach c

Step-IsValid : {b c : OrderBook} → Step b c → IsValid b → IsValid c
Step-IsValid (limited o b order) valid = limit-IsValid o b order valid
Step-IsValid (cancelled id b) valid = cancel-IsValid id b valid

pub Reach-IsValid : {b : OrderBook} → Reach b → IsValid b
Reach-IsValid start = new_book-IsValid
Reach-IsValid (next r step) = Step-IsValid step (Reach-IsValid r)

-- However orders are entered and cancelled, the book is valid, and its best bid stands below its best
-- ask where there is one.
pub Reach-uncrossed :
    {b : OrderBook} → Reach b → IsValid b × ((best_ask b ≡ 0) ⊎ (best_bid b < best_ask b))
Reach-uncrossed {b} r = let valid = Reach-IsValid r in (valid, best_uncrossed b valid)
