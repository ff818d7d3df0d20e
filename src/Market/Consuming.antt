-- ===== src/Market/Consuming.antt =====
-- What the messages do to the books of market/internal/service/service.go.
use secwager.MatchEngine.Cancelling.{cancel-IsValid}
use secwager.MatchEngine.Sessions.{new_book-IsValid}
use secwager.MatchEngine.Limiting.{limit-IsValid}
use secwager.MatchEngine.Validity.{IsValid}
use secwager.Market.Service.{
  dispatch_message, store_book, lookup_book, apply_command, live_loop, process_command,
  MarketService, Message, book_for, to_order,
}
use secwager.Market.Snapshot.{Engines}
use secwager.Prelude.{
  ℕ, inr, String, Option, some, ◌≢◌, ◌≡◌, arith, str_eq_refl, ◌^◌, ◌∷◌, Bool-cases, Bool, inl, [],
  str_eq_iff, List, ◌<◌, false, All, refl, if◌then◌else◌, str_eq, Option-cases, ap, ◌∙◌,
}
use secwager.MatchEngine.Types.{OrderBook}
use secwager.Market.Messages.{MarketCommand, MarketSnapshot}

-- A command with fields of their wire types.
abbrev pub IsCommand : MarketCommand → Type 0
IsCommand (MarketCommand.new_order o) = o.size < 2 ^ 32
IsCommand (MarketCommand.cancel_order id) = Unit
IsCommand MarketCommand.absent = Unit

abbrev pub AreValid : Engines → Type 0
AreValid engines = All (λ e. IsValid e.1) engines

apply_command-IsValid :
    (cmd : MarketCommand) (b : OrderBook)
    → IsCommand cmd
    → IsValid b
    → IsValid (apply_command cmd b).0
unfolding apply_command
apply_command-IsValid (MarketCommand.new_order o) b size valid =
    limit-IsValid (to_order o) b (record { price = omega arith; size = size }) valid
apply_command-IsValid (MarketCommand.cancel_order id) b wire valid = cancel-IsValid id b valid
apply_command-IsValid MarketCommand.absent b wire valid = valid

lookup_store :
    (symbol other : String) (b : OrderBook) (engines : Engines)
    → lookup_book other (store_book symbol b engines)
      ≡ (if str_eq symbol other then some b else lookup_book other engines)
unfolding lookup_book store_book
lookup_store symbol other b [] = refl
lookup_store symbol other b ((s, eng) ∷ rest) = elim (Bool-cases (str_eq s symbol)) [
  | inl e ↦
      let same : str_eq s other ≡ str_eq symbol other =
        ap (λ t. str_eq t other) ((str_eq_iff s symbol).0 e) in
      elim (Bool-cases (str_eq symbol other)) [
        | inl f ↦ rw (e, f) (rw (same ∙ f) refl)
        | inr f ↦ rw (e, f) (rw (same ∙ f) refl)
      ]
  | inr e ↦ rw e (
      ground (
        arith,
        lookup_store symbol other b rest,
        str_eq_iff s other,
        str_eq_iff symbol other,
        str_eq_refl symbol,
        str_eq_iff s symbol,
      ))
]

store_book-AreValid :
    (symbol : String) (b : OrderBook) (engines : Engines)
    → IsValid b
    → AreValid engines
    → AreValid (store_book symbol b engines)
unfolding store_book
store_book-AreValid symbol b [] valid all = (valid, tt)
store_book-AreValid symbol b ((s, eng) ∷ rest) valid all =
    ground (arith, store_book-AreValid symbol b rest valid all.1, valid, all)

book_for-IsValid :
    (symbol : String) (engines : Engines) → AreValid engines → IsValid (book_for symbol engines)
unfolding lookup_book
book_for-IsValid symbol [] all = new_book-IsValid
book_for-IsValid symbol ((s, eng) ∷ rest) all = elim (Bool-cases (str_eq s symbol)) [
  | inl e ↦ rw (e, book_for) all.0
  | inr e ↦ rw (e, book_for) (book_for-IsValid symbol rest all.1)
]

-- A command changes the book of its own symbol as the engine does, on a new book if the symbol has
-- none yet, and no other symbol's; a service that is not live publishes nothing.
process_command_lem :
    (symbol : String) (cmd : MarketCommand) (s : MarketService)
    → let (s', out) = process_command symbol cmd s in
      (lookup_book symbol s'.engines ≡ some (apply_command cmd (book_for symbol s.engines)).0)
      × ((other : String)
          → symbol ≢ other
          → lookup_book other s'.engines ≡ lookup_book other s.engines)
      × (s.live ≡ false → out ≡ [])
unfolding process_command
process_command_lem symbol cmd s =
    let b = (apply_command cmd (book_for symbol s.engines)).0 in
    (
      ground (arith, lookup_store symbol symbol b s.engines, str_eq_refl symbol),
      λ other ne.
          ground (arith, lookup_store symbol other b s.engines, (str_eq_iff symbol other).0, ne),
      λ quiet. rw quiet refl,
    )

module _ {V : Type 0} (decode : V → Option MarketCommand)
    (wire : (v : V) (cmd : MarketCommand) → decode v ≡ some cmd → IsCommand cmd) where
  dispatch-AreValid :
      (msg : Message V) (s : MarketService)
      → AreValid s.engines
      → AreValid (dispatch_message decode msg s).0.engines
  unfolding dispatch_message process_command
  dispatch-AreValid msg s all = elim (Option-cases (decode msg.value)) [
    | inl e ↦ rw (e, dispatch_message) all
    | inr (cmd, e) ↦
        rw (e, dispatch_message)
          (store_book-AreValid msg.key _ s.engines
            (apply_command-IsValid cmd (book_for msg.key s.engines) (wire msg.value cmd e)
              (book_for-IsValid msg.key s.engines all))
            all)
  ]

  -- If the book of every symbol that has one is valid beforehand, as in a service that starts without a
  -- snapshot, and the sizes that the decoder gives are of 32 bits, then the book of every symbol that has
  -- one is valid after the live loop, whatever messages it takes.
  pub live_loop-AreValid :
      (flush_every : ℕ) (last_fails : Bool) (msgs : List (Message V × Bool)) (count : ℕ)
      (s : MarketService) (disk : Option MarketSnapshot)
      → AreValid s.engines
      → AreValid (live_loop decode flush_every last_fails msgs count s disk).0.engines
  unfolding live_loop
  live_loop-AreValid flush_every last_fails [] count s disk all = all
  live_loop-AreValid flush_every last_fails ((msg, fails) ∷ msgs) count s disk all =
      live_loop-AreValid flush_every last_fails msgs _ _ _ (dispatch-AreValid msg s all)
