-- ===== src/Market/Replaying.antt =====
-- Replay and the live loop of `Run` in market/internal/service/service.go, against the books that the
-- messages alone determine.
use secwager.Market.Snapshot.{Engines}
use secwager.Prelude.Int.{ℤ, ltb_ℤ, ◌+ℤ◌, pos}
use secwager.Market.Service.{
  dispatch_message, replay, Message, live_loop, MarketService, process_command, store_book,
  apply_command, book_for,
}
use secwager.Market.Messages.{MarketCommand, MarketSnapshot}
use secwager.Prelude.{
  ℕ, none, true, ◌∷◌, List, Bool, inl, ◌∙◌, inr, refl, Bool-cases, some, Option, ◌≡◌, Option-cases,
  ap, [],
}
use mathlib.Core.List.{map}

module _ {V : Type 0} (decode : V → Option MarketCommand) where
  -- The books after the messages, each applied once, in their order, to the book of its key.
  unfoldable pub books_after : List (Message V) → Engines → Engines
  books_after [] engines = engines
  books_after (msg ∷ msgs) engines = books_after msgs (elim (decode msg.value) [
    | none ↦ engines
    | some cmd ↦ store_book msg.key (apply_command cmd (book_for msg.key engines)).0 engines
  ])

  dispatch_books :
      (msg : Message V) (s : MarketService)
      → (dispatch_message decode msg s).0.engines ≡ (elim (decode msg.value) [
        | none ↦ s.engines
        | some cmd ↦ store_book msg.key (apply_command cmd (book_for msg.key s.engines)).0 s.engines
      ])
  unfolding dispatch_message process_command
  dispatch_books msg s = elim (Option-cases (decode msg.value)) [
    | inl e ↦ rw (e, dispatch_message) refl
    | inr (cmd, e) ↦ rw (e, dispatch_message) refl
  ]

  -- The messages, with whether a flush after each would fail.
  abbrev pub tagged : (Message V → Bool) → List (Message V) → List (Message V × Bool)
  tagged fails = map (λ msg. (msg, fails msg))

  live_loop_books :
      (flush_every : ℕ) (last_fails : Bool) (fails : Message V → Bool) (msgs : List (Message V))
      (count : ℕ) (s : MarketService) (disk : Option MarketSnapshot)
      → (live_loop decode flush_every last_fails (tagged fails msgs) count s disk).0.engines
        ≡ books_after msgs s.engines
  unfolding live_loop books_after
  live_loop_books flush_every last_fails fails [] count s disk = refl
  live_loop_books flush_every last_fails fails (msg ∷ msgs) count s disk =
      live_loop_books flush_every last_fails fails msgs _ _ _
      ∙ ap (λ e. books_after msgs e) (dispatch_books msg s)

  replay_books :
      (hwm : ℤ) (msgs : List (Message V)) (s : MarketService)
      → let (s', rest) = replay decode hwm msgs s in
        books_after rest s'.engines ≡ books_after msgs s.engines
  unfolding replay books_after
  replay_books hwm [] s = refl
  replay_books hwm (msg ∷ msgs) s = elim (Bool-cases (ltb_ℤ (s.offset +ℤ pos 1) hwm)) [
    | inl e ↦ rw e (replay_books hwm msgs _ ∙ ap (λ x. books_after msgs x) (dispatch_books msg s))
    | inr e ↦ rw e refl
  ]

  -- Replay up to a high-water mark and the live loop on what is left bring the books where the
  -- messages, each applied once and in their order, bring them: whatever the mark is, however often
  -- the snapshot is flushed, and whichever of the flushes fail.
  pub run_books :
      (hwm : ℤ) (flush_every : ℕ) (last_fails : Bool) (fails : Message V → Bool)
      (msgs : List (Message V)) (s : MarketService) (disk : Option MarketSnapshot)
      → let (s', rest) = replay decode hwm msgs s in
        (live_loop decode flush_every last_fails
          (tagged fails rest)
          0
          (record s' { live = true })
          disk).0.engines
        ≡ books_after msgs s.engines
  run_books hwm flush_every last_fails fails msgs s disk =
      live_loop_books flush_every last_fails fails _ 0 _ disk ∙ replay_books hwm msgs s
