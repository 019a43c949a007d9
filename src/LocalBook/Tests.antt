-- ===== src/LocalBook/Tests.antt =====
-- A local book on a concrete stream, with whole numbers for prices and quantities.
use arbitrage_engine.Base.{pos, ℕ, ◌≡◌, refl, List, [], ◌∷◌, ◌++◌, arith, codes, Text, text_eq}
use arbitrage_engine.Double.{nat_double, nat-IsOrdered}
use arbitrage_engine.OrderedMap.{assign, erase}
use arbitrage_engine.Core.{Exchange, PriceLevel, BookUpdate, BookSnapshot}
use arbitrage_engine.OrderBook
use arbitrage_engine.OrderBook.{empty_book, apply_levels}
use arbitrage_engine.OrderBook.Replay.{apply_updates}
use arbitrage_engine.LocalBook.{
  LocalBook, Status, make, on_update, apply_snapshot, load_snapshot, push_buffer, drop_stale,
  bridge, replay_buffer, apply_update_to_ready_book,
}
use arbitrage_engine.LocalBook.Replay.{fresh}
use arbitrage_engine.LocalBook.Snapshot.{Loaded, snapshot_book, load_snapshot-Loaded}
use arbitrage_engine.LocalBook.Invariant.{
  IsConsistent, update, snapshot, restart, run, run-make-IsConsistent,
}
use arbitrage_engine.LocalBook.Feed.{feed}
use arbitrage_engine.LocalBook.Stream.{
  synchronise, loaded_book, synchronise_lem, synchronise-ReadsAs,
}

abbrev symbol : Text
symbol = codes "BTCUSDT"

abbrev level : ℕ → ℕ → PriceLevel ℕ
level p q = record { price = p; quantity = q }

-- An update of one bid.
abbrev bid : ℕ → ℕ → ℕ → ℕ → BookUpdate ℕ
bid first final p q = record {
  exchange = Exchange.mexc;
  symbol = symbol;
  bids = level p q ∷ [];
  asks = [];
  first_update_id = first;
  final_update_id = final;
  exchange_event_time_ms = pos 0;
  local_receive_time_ms = pos 0;
}

abbrev before : List (BookUpdate ℕ)
before = bid 5 7 90 1 ∷ bid 8 11 91 1 ∷ bid 12 12 92 4 ∷ []

abbrev after : List (BookUpdate ℕ)
after = bid 13 15 92 0 ∷ bid 16 16 95 2 ∷ []

abbrev shot : BookSnapshot ℕ
shot = record {
  exchange = Exchange.mexc;
  symbol = symbol;
  bids = level 90 3 ∷ level 89 1 ∷ [];
  asks = level 99 1 ∷ [];
  last_update_id = 9;
  local_receive_time_ms = pos 0;
}

abbrev final_book : LocalBook ℕ
final_book = synchronise Exchange.mexc symbol 4 before shot after

synchronised :
    (final_book.status ≡ Status.ready)
    × (final_book.book.bids ≡ (95, 2) ∷ (91, 1) ∷ (90, 3) ∷ (89, 1) ∷ [])
unfolding synchronise feed on_update make apply_snapshot load_snapshot push_buffer drop_stale bridge
    replay_buffer apply_update_to_ready_book OrderBook.apply_update OrderBook.apply_snapshot
    apply_levels assign erase text_eq
synchronised = (refl, refl)

synchronise_lem_example :
    (final_book.status ≡ Status.ready)
    × (final_book.book ≡ apply_updates (loaded_book Exchange.mexc shot) (fresh 9 (before ++ after)))
unfolding text_eq
synchronise_lem_example =
    synchronise_lem Exchange.mexc symbol 4 4 before after shot (ground arith) (ground arith) refl
      (ground arith) (ground arith) (ground arith) (ground arith) (ground arith)

synchronise-ReadsAs_example : final_book.book.last_update_id ≡ 16
unfolding text_eq
synchronise-ReadsAs_example =
    (synchronise-ReadsAs Exchange.mexc nat-IsOrdered symbol 4 4 before after shot (ground arith)
      (ground arith) refl (ground arith) (ground arith) (ground arith) (ground arith) (ground arith)
      (ground arith) (ground arith) (ground arith) (ground arith)).1

abbrev waiting : LocalBook ℕ
waiting = record (make symbol 4) { buffer = before }

load_snapshot-Loaded_example :
    Loaded 9 (snapshot_book waiting shot) (fresh 9 before) (load_snapshot waiting shot)
load_snapshot-Loaded_example = load_snapshot-Loaded waiting shot (ground arith)

run-make-IsConsistent_example : IsConsistent (
    run Exchange.mexc
      (make symbol 2)
      (update (bid 5 7 90 1) ∷ snapshot shot ∷ restart ∷ update (bid 9 9 90 1) ∷ []))
run-make-IsConsistent_example =
    run-make-IsConsistent Exchange.mexc symbol 2
      (update (bid 5 7 90 1) ∷ snapshot shot ∷ restart ∷ update (bid 9 9 90 1) ∷ [])
