-- ===== src/LocalLiveAll/Counters.antt =====
-- That the counters of the last report add up.
use arbitrage_engine.Base.{
  ℕ, zero, suc, ◌+◌, ◌%◌, ◌≡◌, refl, inl, inr, Bool, true, false, Option, none, some, List, [], ◌∷◌,
  arith, Text, All, Option-cases, Bool-cases, Result-cases, u64_mod, ok, text_eq_refl,
}
use arbitrage_engine.Double.{Double}
use arbitrage_engine.Core.{Exchange, exchange_eq, BookUpdate}
use arbitrage_engine.Config.{Config}
use arbitrage_engine.Endpoint.{Endpoint}
use arbitrage_engine.Planner.{Group}
use arbitrage_engine.Dict.{lookup}
use arbitrage_engine.OrderBook
use arbitrage_engine.LocalBook.{
  LocalBook, UpdateResult, update_belongs, on_update, push_buffer, apply_update_to_ready_book,
  settle,
}
use arbitrage_engine.LocalBook.Invariant.{IsConsistent}
use arbitrage_engine.Live.Entries.{lookup-AllEntries}
use arbitrage_engine.Live.Invariant.{IsKept, on_update-IsKept}
use arbitrage_engine.LocalLive.{Messages, Poll}
use arbitrage_engine.LocalLiveAll.{
  Attempt, Inputs, Synced, Report, report, count_synced, endpoints, wait_for_symbol_buffer,
  apply_or_reset, try_snapshot, sync_loop, sync_symbol, sync_symbols, run_local_live_all,
}
use arbitrage_engine.LocalLiveAll.State.{
  Books, new_books, tally, has_buffer, take_update, on_message, on_messages,
}
use arbitrage_engine.LocalLiveAll.Status.{AreKept, insert-AreKept}
use arbitrage_engine.LocalLiveAll.Steps.{new_books-AreKept, tally_managers, apply_or_reset_lem}

-- The results that the handler counts.
abbrev is_counted : UpdateResult → Bool
is_counted UpdateResult.buffered = true
is_counted UpdateResult.applied = true
is_counted UpdateResult.ignored_stale = true
is_counted UpdateResult.gap_detected = true
is_counted _ = false

module _ {W : Type 0} where
  -- Each parsed update is counted once by what became of it, in 64 bits.
  abbrev pub IsBalanced : Books W → Type 0
  IsBalanced b =
      b.parsed_updates
      ≡ (b.buffered_updates + b.applied_updates + b.ignored_updates + b.gaps) % u64_mod

  tally-IsBalanced :
      (result : UpdateResult) (k : Text) (m : LocalBook W) (b : Books W)
      → is_counted result ≡ true
      → IsBalanced b
      → IsBalanced (tally result (take_update k m b))
  unfolding tally
  tally-IsBalanced UpdateResult.buffered k m b c h = omega (arith, h)
  tally-IsBalanced UpdateResult.applied k m b c h = omega (arith, h)
  tally-IsBalanced UpdateResult.ignored_stale k m b c h = omega (arith, h)
  tally-IsBalanced UpdateResult.gap_detected k m b c h = omega (arith, h)
  tally-IsBalanced UpdateResult.snapshot_applied k m b c h = absurd (cc)
  tally-IsBalanced UpdateResult.snapshot_rejected k m b c h = absurd (cc)
  tally-IsBalanced UpdateResult.not_for_symbol k m b c h = absurd (cc)

module _ {W : Type 0} ⦃d : Double W⦄ (e : Exchange) where
  on_update-is_counted :
      (m : LocalBook W) (u : BookUpdate W)
      → IsConsistent m
      → update_belongs e m u ≡ true
      → is_counted (on_update e m u).1 ≡ true
  unfolding on_update push_buffer apply_update_to_ready_book settle OrderBook.apply_update
  on_update-is_counted m u c h = ground (arith, c.loaded, h)

  -- A message that parses is an update of the exchange.
  abbrev pub IsOwn : Option (BookUpdate W) → Type 0
  IsOwn none = Unit
  IsOwn (some u) = exchange_eq u.exchange e ≡ true

  abbrev pub IsGood : Books W → Type 0
  IsGood b = AreKept b.managers × IsBalanced b

  message-IsGood :
      (b : Books W) (u : Option (BookUpdate W)) → IsOwn u → IsGood b → IsGood (on_message e b u)
  unfolding on_message
  message-IsGood b none o h = h
  message-IsGood b (some u) o (h, c) = elim (Option-cases (lookup u.symbol b.managers)) [
    | inl q ↦ rw (on_message, q) (h, omega (arith, c))
    | inr (m, q) ↦
        let own : IsKept u.symbol m = lookup-AllEntries IsKept u.symbol b.managers h.0 q in
        let belongs : update_belongs e m u ≡ true = rw (o, own.0) (text_eq_refl u.symbol) in
        let m' = (on_update e m u).0 in
        rw (on_message, q)
          (
            rw (tally_managers e (on_update e m u).1 (take_update u.symbol m' b))
                (insert-AreKept u.symbol m' b.managers (on_update-IsKept e u.symbol m u own) h),
            tally-IsBalanced (on_update e m u).1 u.symbol m' b
                (on_update-is_counted m u own.1 belongs) c,
          )
  ]

  messages-IsGood :
      (us : Messages W) (b : Books W) → All IsOwn us → IsGood b → IsGood (on_messages e b us)
  unfolding on_messages
  messages-IsGood [] b o h = h
  messages-IsGood (u ∷ us) b (o, os) h =
      messages-IsGood us (on_message e b u) os (message-IsGood b u o h)

  abbrev pub PollsOwn : List (Poll W) → Type 0
  PollsOwn = All λ p. All IsOwn p.messages

  wait-IsGood :
      (symbol : Text) (polls : List (Poll W)) (b : Books W)
      → PollsOwn polls
      → IsGood b
      → IsGood (wait_for_symbol_buffer e symbol polls b).0
  unfolding wait_for_symbol_buffer
  wait-IsGood symbol [] b o h = h
  wait-IsGood symbol (p ∷ polls) b (o, os) h =
      let b' = on_messages e b p.messages in
      let k = messages-IsGood p.messages b o h in
      let rest = wait-IsGood symbol polls b' os k in
      elim (Bool-cases (has_buffer symbol b')) [
        | inl q ↦ rw (wait_for_symbol_buffer, q) k
        | inr q ↦ elim (Bool-cases p.finished) [
          | inl f ↦ rw (wait_for_symbol_buffer, q, f) k
          | inr f ↦ rw (wait_for_symbol_buffer, q, f) rest
        ]
      ]

  abbrev pub AttemptOwn : Attempt W → Type 0
  AttemptOwn a = All IsOwn a.fetching × All IsOwn a.ending

  try-IsGood :
      (symbol : Text) (a : Attempt W) (b : Books W)
      → AttemptOwn a
      → IsGood b
      → IsGood (try_snapshot e symbol a b).0
  unfolding try_snapshot
  try-IsGood symbol a b o h =
      let b' = on_messages e b a.fetching in
      let (kept, c) = messages-IsGood a.fetching b o.0 h in
      elim (Result-cases a.snapshot) [
        | inr (t, k) ↦ rw (try_snapshot, k) (kept, c)
        | inl (s, k) ↦ elim (Option-cases (lookup symbol b'.managers)) [
          | inl n ↦ rw (try_snapshot, k, n) (kept, c)
          | inr (m, n) ↦
              let (own, _) =
                apply_or_reset_lem e symbol m s
                  (lookup-AllEntries IsKept symbol b'.managers kept.0 n) in
              rw (try_snapshot, k, n)
                (insert-AreKept symbol (apply_or_reset e m s).0 b'.managers own kept, c)
        ]
      ]

  loop-IsGood :
      (left k : ℕ) (symbol : Text) (attempt : ℕ → Attempt W) (b : Books W)
      → ((i : ℕ) → AttemptOwn (attempt i))
      → IsGood b
      → IsGood (sync_loop e left k symbol attempt b).0
  unfolding sync_loop
  loop-IsGood zero k symbol attempt b o h = h
  loop-IsGood (suc left) k symbol attempt b o h =
      let tried = try_snapshot e symbol (attempt k) b in
      let good = try-IsGood symbol (attempt k) b (o k) h in
      let rest =
        loop-IsGood left (k + 1) symbol attempt (on_messages e tried.0 (attempt k).ending) o
          (messages-IsGood (attempt k).ending tried.0 (o k).1 good) in
      elim (Bool-cases tried.1) [ inl t ↦ rw (sync_loop, t) good | inr t ↦ rw (sync_loop, t) rest ]

  -- Whatever a symbol meets comes from the exchange.
  abbrev pub InputsOwn : Inputs W → Type 0
  InputsOwn i = PollsOwn i.polls × ((k : ℕ) → AttemptOwn (i.attempt k))

  symbol-IsGood :
      (symbol : Text) (i : Inputs W) (b : Books W)
      → InputsOwn i
      → IsGood b
      → IsGood (sync_symbol e symbol i b).0
  unfolding sync_symbol
  symbol-IsGood symbol i b o h =
      let waited = wait_for_symbol_buffer e symbol i.polls b in
      let good = wait-IsGood symbol i.polls b o.0 h in
      let rest = loop-IsGood 3 1 symbol i.attempt waited.0 o.1 good in
      elim (Bool-cases waited.1) [
        | inl t ↦ rw (sync_symbol, t) rest
        | inr t ↦ rw (sync_symbol, t) good
      ]

  symbols-IsGood :
      (symbols : List Text) (inputs : ℕ → Inputs W) (i : ℕ) (b : Books W) (s : Synced)
      → ((k : ℕ) → InputsOwn (inputs k))
      → IsGood b
      → IsGood (sync_symbols e symbols inputs i (b, s)).0
  unfolding sync_symbols
  symbols-IsGood [] inputs i b s o h = h
  symbols-IsGood (symbol ∷ symbols) inputs i b s o h =
      let done = sync_symbol e symbol (inputs i) b in
      symbols-IsGood symbols inputs (i + 1) done.0 (count_synced done.1 s) o
        (symbol-IsGood symbol (inputs i) b (o i) h)

new_books-IsBalanced :
    (W : Type 0) (e : Exchange) (symbols : List Text) → IsBalanced (new_books {W = W} e symbols)
unfolding new_books
new_books-IsBalanced W e symbols = omega arith

module _ {W : Type 0} ⦃d : Double W⦄ (e : Exchange) where
  -- With a group to run, an endpoint for each group, no exception of a thread, and only messages of the
  -- exchange, the last report counts each parsed update once, as buffered, applied, ignored or a gap, in 64
  -- bits, whatever the symbols and however the synchronisations went.
  pub run_local_live_all-IsBalanced :
      (config : Config W) (group : Group) (groups : List Group) (inputs : ℕ → Inputs W)
      (closing : Messages W) (started : List Endpoint)
      → endpoints e config (group ∷ groups) ≡ ok started
      → ((k : ℕ) → InputsOwn e (inputs k))
      → All (IsOwn e) closing
      → (r : Report W) × ((run_local_live_all e config (group ∷ groups) inputs closing none
            ≡ ok (some r))
          × IsBalanced r.books)
  unfolding run_local_live_all
  run_local_live_all-IsBalanced config group groups inputs closing started h o c =
      let zero_counts : Synced = record { synced_books = 0; failed_books = 0 } in
      let start = new_books {W = W} e config.symbols in
      let out = sync_symbols e config.symbols inputs 0 (start, zero_counts) in
      let good =
        symbols-IsGood e config.symbols inputs 0 start zero_counts o
          (new_books-AreKept W e config.symbols, new_books-IsBalanced W e config.symbols) in
      (report e out closing, (rw h refl, (messages-IsGood e closing out.0 c good).1))
