-- ===== src/LocalLiveAll/Accounts.antt =====
-- What the counts that are reported at the end say of the local books.
use arbitrage_engine.Base.{
  ℕ, zero, suc, ◌+◌, ◌<◌, ◌≡◌, refl, ap, ◌∙◌, inl, inr, Bool, true, false, none, some, List, [],
  ◌∷◌, arith, Text, Option-cases, Bool-cases, Result-cases, length, text_eq_iff, u64_mod, ok,
}
use arbitrage_engine.Double.{Double}
use arbitrage_engine.Core.{Exchange}
use arbitrage_engine.Config.{Config}
use arbitrage_engine.Endpoint.{Endpoint}
use arbitrage_engine.Planner.{Group}
use arbitrage_engine.Dict.{lookup}
use arbitrage_engine.Dict.Laws.{lookup-insert}
use arbitrage_engine.LocalBook.{is_waiting}
use arbitrage_engine.Live.{Managers}
use arbitrage_engine.Live.Entries.{lookup-AllEntries}
use arbitrage_engine.Live.Invariant.{IsKept}
use arbitrage_engine.Live.Export.{ready_or, get_book-export_ready, get_book-empty}
use arbitrage_engine.Live.{build_store_from_binance_managers, build_store_from_mexc_managers}
use arbitrage_engine.MarketData.{empty_store, get_book}
use arbitrage_engine.LocalLive.{Messages}
use arbitrage_engine.LocalLiveAll.{
  Attempt, Inputs, build_store, report, Synced, Report, count_synced, endpoints,
  wait_for_symbol_buffer, apply_or_reset, try_snapshot, sync_loop, sync_symbol, sync_symbols,
  run_local_live_all,
}
use arbitrage_engine.LocalLiveAll.State.{Books, new_books, on_messages}
use arbitrage_engine.LocalLiveAll.Status.{
  settled, count_settled, count_ready-count_need_resync, count_settled-insert, AreKept,
  insert-AreKept, waits_at,
}
use arbitrage_engine.LocalLiveAll.Steps.{
  bit, new_books-AreKept, new_books_waiting, on_messages-IsQuiet, wait-IsQuiet, has_buffer_waits,
  apply_or_reset_lem,
}

count_synced_lem :
    (done : Bool) (s : Synced)
    → s.synced_books + s.failed_books + 1 < u64_mod
    → let s' = count_synced done s in
      (s'.synced_books ≡ s.synced_books + bit done)
      × (s'.synced_books + s'.failed_books ≡ s.synced_books + s.failed_books + 1)
count_synced_lem true s l = (omega (arith, l), omega (arith, l))
count_synced_lem false s l = (omega (arith, l), omega (arith, l))

get_book-build_store :
    (W : Type 0) (e : Exchange) (ms : Managers W) (symbol : Text)
    → AreKept ms
    → get_book (build_store e ms) e symbol ≡ ready_or (lookup symbol ms) none
unfolding build_store_from_binance_managers build_store_from_mexc_managers
get_book-build_store W Exchange.binance ms symbol h =
    get_book-export_ready Exchange.binance Exchange.binance ms empty_store symbol h.1
    ∙ ap (ready_or (lookup symbol ms)) (get_book-empty W Exchange.binance symbol)
get_book-build_store W Exchange.mexc ms symbol h =
    get_book-export_ready Exchange.mexc Exchange.mexc ms empty_store symbol h.1
    ∙ ap (ready_or (lookup symbol ms)) (get_book-empty W Exchange.mexc symbol)

module _ {W : Type 0} ⦃d : Double W⦄ (e : Exchange) where
  -- The books are kept, one more is loaded if it says so, and else the symbol's book still waits.
  abbrev Loads : Text → Books W → Books W × Bool → Type 0
  Loads symbol b out =
      AreKept out.0.managers
      × (count_settled out.0.managers ≡ count_settled b.managers + bit out.1)
      × (out.1 ≡ false → waits_at symbol out.0.managers ≡ some true)

  try-Loads :
      (symbol : Text) (a : Attempt W) (b : Books W)
      → AreKept b.managers
      → waits_at symbol b.managers ≡ some true
      → Loads symbol b (try_snapshot e symbol a b)
  unfolding try_snapshot
  try-Loads symbol a b h w =
      let b' = on_messages e b a.fetching in
      let q = on_messages-IsQuiet e a.fetching b h in
      elim (Result-cases a.snapshot) [
        | inr (t, k) ↦ rw (try_snapshot, k) (q.kept, q.count ∙ omega arith, λ z. q.waits symbol ∙ w)
        | inl (s, k) ↦ elim (Option-cases (lookup symbol b'.managers)) [
          | inl n ↦ absurd (ground (arith, n, q.waits symbol, w))
          | inr (m, n) ↦
              let (own, count) =
                apply_or_reset_lem e symbol m s
                  (lookup-AllEntries IsKept symbol b'.managers q.kept.0 n) in
              let waiting : is_waiting m.status ≡ true = ground (arith, n, q.waits symbol, w) in
              let none_left : settled m ≡ 0 = rw waiting refl in
              let m' = (apply_or_reset e m s).0 in
              rw (try_snapshot, k, n)
                (
                  insert-AreKept symbol m' b'.managers own q.kept,
                  omega (
                    arith,
                    count_settled-insert symbol m m' b'.managers n,
                    none_left,
                    count,
                    q.count,
                  ),
                  λ z. ground (
                    arith,
                    lookup-insert symbol symbol m' b'.managers,
                    text_eq_iff symbol symbol,
                    count,
                    z,
                  ),
                )
        ]
      ]

  loop-Loads :
      (left k : ℕ) (symbol : Text) (attempt : ℕ → Attempt W) (b : Books W)
      → AreKept b.managers
      → waits_at symbol b.managers ≡ some true
      → Loads symbol b (sync_loop e left k symbol attempt b)
  unfolding sync_loop
  loop-Loads zero k symbol attempt b h w = (h, omega arith, λ z. w)
  loop-Loads (suc left) k symbol attempt b h w =
      let tried = try_snapshot e symbol (attempt k) b in
      let (kept, count, waits) = try-Loads symbol (attempt k) b h w in
      let b' = on_messages e tried.0 (attempt k).ending in
      let q = on_messages-IsQuiet e (attempt k).ending tried.0 kept in
      elim (Bool-cases tried.1) [
        | inl t ↦ rw (sync_loop, t) (kept, rw t at count, λ z. absurd (cc))
        | inr t ↦
            let (kept', count', waits') =
              loop-Loads left (k + 1) symbol attempt b' q.kept (q.waits symbol ∙ waits t) in
            rw (sync_loop, t) (kept', omega (arith, count', q.count, rw t at count), waits')
      ]

  sync_symbol_lem :
      (symbol : Text) (inputs : Inputs W) (b : Books W)
      → AreKept b.managers
      → let out = sync_symbol e symbol inputs b in
        AreKept out.0.managers
        × (count_settled out.0.managers ≡ count_settled b.managers + bit out.1)
  unfolding sync_symbol
  sync_symbol_lem symbol inputs b h =
      let waited = wait_for_symbol_buffer e symbol inputs.polls b in
      let (q, full) = wait-IsQuiet e symbol inputs.polls b h in
      elim (Bool-cases waited.1) [
        | inr t ↦ rw (sync_symbol, t) (q.kept, q.count ∙ omega arith)
        | inl t ↦
            let w = has_buffer_waits e symbol waited.0 q.kept (full t) in
            let (kept, count, _) = loop-Loads 3 1 symbol inputs.attempt waited.0 q.kept w in
            rw (sync_symbol, t) (kept, omega (arith, count, q.count))
      ]

  sync_symbols_lem :
      (symbols : List Text) (inputs : ℕ → Inputs W) (i : ℕ) (b : Books W) (s : Synced)
      → AreKept b.managers
      → s.synced_books + s.failed_books + length symbols < u64_mod
      → let out = sync_symbols e symbols inputs i (b, s) in
        AreKept out.0.managers
        × (count_settled out.0.managers + s.synced_books
            ≡ count_settled b.managers + out.1.synced_books)
        × (out.1.synced_books + out.1.failed_books
            ≡ s.synced_books + s.failed_books + length symbols)
  unfolding sync_symbols
  sync_symbols_lem [] inputs i b s h l = (h, refl, omega arith)
  sync_symbols_lem (symbol ∷ symbols) inputs i b s h l =
      let done = sync_symbol e symbol (inputs i) b in
      let (kept, count) = sync_symbol_lem symbol (inputs i) b h in
      let step = count_synced_lem done.1 s (omega (arith, l)) in
      let (kept', count', all) =
        sync_symbols_lem symbols inputs (i + 1) done.0 (count_synced done.1 s) kept
          (omega (arith, l, step)) in
      (kept', omega (arith, count, count', step), omega (arith, all, step))

  -- Every symbol is counted once, as synced or failed; the books that are reported as ready or in need of a
  -- new synchronisation are as many as the synced ones; and the store has the ready books.
  pub record IsAccounted (symbols : List Text) (r : Report W) : Type 0 where
    pub tried : r.synced.synced_books + r.synced.failed_books ≡ length symbols
    pub shown : r.ready_books + r.need_resync_books ≡ r.synced.synced_books
    pub kept : AreKept r.books.managers
    pub stored :
        (symbol : Text) → get_book r.store e symbol ≡ ready_or (lookup symbol r.books.managers) none

  -- With a group to run, an endpoint for each group, and no exception of a thread, the run ends with a report,
  -- whatever messages come and whatever the requests give. The symbols are fewer than 2^64. Every
  -- symbol is counted once, as synced or failed; the books that are reported as ready or in need
  -- of a new synchronisation are as many as the synced ones; each symbol's book is its own and
  -- consistent; and the store that is built has the ready books and no other.
  pub run_local_live_all-IsAccounted :
      (config : Config W) (group : Group) (groups : List Group) (inputs : ℕ → Inputs W)
      (closing : Messages W) (started : List Endpoint)
      → endpoints e config (group ∷ groups) ≡ ok started
      → length config.symbols < u64_mod
      → (r : Report W) × ((run_local_live_all e config (group ∷ groups) inputs closing none
            ≡ ok (some r))
          × IsAccounted config.symbols r)
  unfolding run_local_live_all
  run_local_live_all-IsAccounted config group groups inputs closing started h l =
      let start = new_books {W = W} e config.symbols in
      let zero_counts : Synced = record { synced_books = 0; failed_books = 0 } in
      let out = sync_symbols e config.symbols inputs 0 (start, zero_counts) in
      let (kept, count, all) =
        sync_symbols_lem config.symbols inputs 0 start zero_counts
          (new_books-AreKept W e config.symbols) (omega (arith, l)) in
      let q = on_messages-IsQuiet e closing out.0 kept in
      let b = on_messages e out.0 closing in
      (
        report e out closing,
        (
          rw h refl,
          record {
            tried = omega (arith, all);
            shown = omega (
              arith,
              count_ready-count_need_resync b.managers,
              q.count,
              count,
              new_books_waiting W e config.symbols,
            );
            kept = q.kept;
            stored = λ symbol. get_book-build_store W e b.managers symbol q.kept;
          },
        ),
      )
