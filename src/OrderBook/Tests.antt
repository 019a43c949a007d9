-- ===== src/OrderBook/Tests.antt =====
-- `OrderBook` on concrete books, with whole numbers for prices and quantities.
use arbitrage_engine.Base.{
  pos, ℕ, ◌≡◌, ◌≢◌, ◌↔◌, refl, true, some, List, [], ◌∷◌, arith, codes, length,
}
use arbitrage_engine.Double.{nat_double, nat-IsOrdered}
use arbitrage_engine.OrderedMap.{assign, erase, find}
use arbitrage_engine.Core.{Exchange, PriceLevel, BookUpdate}
use arbitrage_engine.OrderBook.{
  OrderBook, ApplyUpdateResult, empty_book, higher, apply_levels, apply_snapshot, apply_update,
  top_bids,
}
use arbitrage_engine.OrderBook.Invariant.{
  IsWellFormed, apply_snapshot-IsWellFormed, apply_update-IsWellFormed,
}
use arbitrage_engine.OrderBook.Update.{Extends, apply_update_iff}
use arbitrage_engine.OrderBook.Replay.{apply_snapshot-ReadsAs, apply_updates, apply_updates-ReadsAs}
use arbitrage_engine.OrderBook.Best.{top_bids_lem}

abbrev level : ℕ → ℕ → PriceLevel ℕ
level p q = record { price = p; quantity = q }

abbrev bids : List (PriceLevel ℕ)
bids = level 99 5 ∷ level 100 2 ∷ level 97 0 ∷ []

abbrev asks : List (PriceLevel ℕ)
asks = level 103 4 ∷ level 101 1 ∷ []

abbrev loaded : OrderBook ℕ
loaded = apply_snapshot empty_book bids asks 10

-- Removes the best bid, adds a bid, and changes the best ask.
abbrev next : BookUpdate ℕ
next = record {
  exchange = Exchange.binance;
  symbol = codes "BTCUSDT";
  bids = level 100 0 ∷ level 98 7 ∷ [];
  asks = level 101 3 ∷ [];
  first_update_id = 11;
  final_update_id = 12;
  exchange_event_time_ms = pos 0;
  local_receive_time_ms = pos 0;
}

abbrev later : BookUpdate ℕ
later = record next { first_update_id = 14; final_update_id = 15 }

loaded_bids : loaded.bids ≡ (100, 2) ∷ (99, 5) ∷ []
unfolding apply_snapshot apply_levels assign erase
loaded_bids = refl

after_next : (apply_update loaded next).0.bids ≡ (99, 5) ∷ (98, 7) ∷ []
unfolding apply_update apply_snapshot apply_levels assign erase
after_next = refl

loaded-IsWellFormed : IsWellFormed loaded
loaded-IsWellFormed =
    apply_snapshot-IsWellFormed nat-IsOrdered empty_book bids asks 10 (ground arith) (ground arith)

apply_update-IsWellFormed_example : IsWellFormed (apply_update loaded next).0
apply_update-IsWellFormed_example =
    apply_update-IsWellFormed nat-IsOrdered loaded next (ground arith) loaded-IsWellFormed

apply_update_iff_example :
    (((apply_update loaded next).1 ≡ ApplyUpdateResult.applied)
      ↔ ((loaded.initialized ≡ true) × Extends loaded.last_update_id next))
    × ((apply_update loaded next).1 ≢ ApplyUpdateResult.applied
        → (apply_update loaded next).0 ≡ loaded)
apply_update_iff_example = apply_update_iff loaded next (ground arith)

apply_snapshot-ReadsAs_example : find higher 99 loaded.bids ≡ some 5
apply_snapshot-ReadsAs_example =
    (apply_snapshot-ReadsAs nat-IsOrdered empty_book bids asks 10 (ground arith)
        (ground arith)).reads_bids
      99 refl

apply_updates-ReadsAs_example : (apply_updates loaded (next ∷ [])).last_update_id ≡ 12
unfolding apply_snapshot
apply_updates-ReadsAs_example =
    (apply_updates-ReadsAs nat-IsOrdered loaded (next ∷ []) loaded-IsWellFormed refl (ground arith)
      (ground arith) (ground arith)).1

top_bids_lem_example : length (top_bids loaded 1) ≡ 1
unfolding apply_snapshot apply_levels assign erase
top_bids_lem_example = (top_bids_lem loaded 1 loaded-IsWellFormed).0
