-- ===== src/OrderBook.antt =====
-- src/core/OrderBook.hpp and OrderBook.cpp: `class OrderBook`. The two maps are lists of entries in
-- iteration order, bids from the highest price and asks from the lowest.
pub mod Levels
pub mod Invariant
pub mod Replay
pub mod Best
pub mod Update
mod Tests
use arbitrage_engine.Base.{
  ℕ, zero, suc, Bool, true, false, Option, none, some, List, [], ◌∷◌, ltb, leb, inc64,
  if◌then◌else◌, length, not,
}
use arbitrage_engine.Double.{Double}
use arbitrage_engine.OrderedMap.{assign, erase}
use arbitrage_engine.Core.{PriceLevel, BookUpdate}

pub data ApplyUpdateResult : Type 0 where
  applied ignored_stale gap_detected not_initialized : ApplyUpdateResult

pub record OrderBook (W : Type 0) : Type 0 where
  pub bids : List (W × W)
  pub asks : List (W × W)
  pub last_update_id : ℕ
  pub initialized : Bool

-- A default-constructed book.
abbrev pub empty_book : {W : Type 0} → OrderBook W
empty_book = record { bids = []; asks = []; last_update_id = 0; initialized = false }

module _ {W : Type 0} ⦃d : Double W⦄ where
  -- `std::greater<>` and `std::less<double>`
  abbrev pub higher : W → W → Bool
  higher a b = d.lt b a

  abbrev pub lower : W → W → Bool
  lower a b = d.lt a b

  -- The body of the two `apply_levels` loops, over the comparator of the map.
  abbrev pub apply_level : (W → W → Bool) → List (W × W) → PriceLevel W → List (W × W)
  apply_level before m l =
      if d.le l.quantity d.nought
      then erase before l.price m
      else assign before l.price l.quantity m

  unfoldable pub apply_levels : (W → W → Bool) → List (W × W) → List (PriceLevel W) → List (W × W)
  apply_levels before m [] = m
  apply_levels before m (l ∷ ls) = apply_levels before (apply_level before m l) ls

  abbrev pub apply_levels_to_bids : List (W × W) → List (PriceLevel W) → List (W × W)
  apply_levels_to_bids = apply_levels higher

  abbrev pub apply_levels_to_asks : List (W × W) → List (PriceLevel W) → List (W × W)
  apply_levels_to_asks = apply_levels lower

  unfoldable pub apply_snapshot :
      OrderBook W → List (PriceLevel W) → List (PriceLevel W) → ℕ → OrderBook W
  apply_snapshot b bids asks last = record {
    bids = apply_levels_to_bids [] bids;
    asks = apply_levels_to_asks [] asks;
    last_update_id = last;
    initialized = true;
  }

  unfoldable pub apply_update : OrderBook W → BookUpdate W → OrderBook W × ApplyUpdateResult
  apply_update b u =
      if not b.initialized
      then (b, ApplyUpdateResult.not_initialized)
      else if leb u.final_update_id b.last_update_id
      then (b, ApplyUpdateResult.ignored_stale)
      else if ltb (inc64 b.last_update_id) u.first_update_id
      then (b, ApplyUpdateResult.gap_detected)
      else (
        record b {
          bids = apply_levels_to_bids b.bids u.bids;
          asks = apply_levels_to_asks b.asks u.asks;
          last_update_id = u.final_update_id;
        },
        ApplyUpdateResult.applied,
      )

module _ {W : Type 0} where
  abbrev pub to_level : W × W → PriceLevel W
  to_level (p, q) = record { price = p; quantity = q }

  -- `*begin()`, if there is one
  abbrev pub first_level : List (W × W) → Option (PriceLevel W)
  first_level [] = none
  first_level (e ∷ m) = some (to_level e)

  unfoldable pub best_bid : OrderBook W → Option (PriceLevel W)
  best_bid b = first_level b.bids

  unfoldable pub best_ask : OrderBook W → Option (PriceLevel W)
  best_ask b = first_level b.asks

  -- The loop of `top_bids` and `top_asks`, with `limit - count` levels to go.
  unfoldable pub top_levels : List (W × W) → ℕ → List (PriceLevel W)
  top_levels [] limit = []
  top_levels (e ∷ m) zero = []
  top_levels (e ∷ m) (suc limit) = to_level e ∷ top_levels m limit

  unfoldable pub top_bids : OrderBook W → ℕ → List (PriceLevel W)
  unfolding top_levels
  top_bids b limit = top_levels b.bids limit

  unfoldable pub top_asks : OrderBook W → ℕ → List (PriceLevel W)
  unfolding top_levels
  top_asks b limit = top_levels b.asks limit

  abbrev pub bid_levels : OrderBook W → ℕ
  bid_levels b = length b.bids

  abbrev pub ask_levels : OrderBook W → ℕ
  ask_levels b = length b.asks

  unfoldable pub clear : OrderBook W → OrderBook W
  clear b = empty_book
