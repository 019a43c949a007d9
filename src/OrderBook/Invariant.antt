-- ===== src/OrderBook/Invariant.antt =====
-- The invariant of `class OrderBook`, and that every operation keeps it.
use arbitrage_engine.Base.{ℕ, ◌≡◌, refl, false, List, [], arith}
use arbitrage_engine.Double.{Double, IsNumber, IsOrdered}
use arbitrage_engine.OrderedMap.Laws.{IsSorted, AllValues}
use arbitrage_engine.Core.{PriceLevel, BookUpdate}
use arbitrage_engine.OrderBook.{
  OrderBook, higher, lower, apply_snapshot, apply_update, clear, empty_book,
}
use arbitrage_engine.OrderBook.Levels.{
  HasNumbers, IsPositive, lower-IsStrictWeak, higher-IsStrictWeak, apply_levels-AllValues,
  apply_levels-IsSorted,
}

module _ {W : Type 0} ⦃d : Double W⦄ where
  -- Bids fall strictly and asks rise strictly, no price is NaN, every quantity is positive, and a
  -- book that was never loaded is empty.
  pub record IsWellFormed (b : OrderBook W) : Type 0 where
    pub bids_sorted : IsSorted higher IsNumber b.bids
    pub asks_sorted : IsSorted lower IsNumber b.asks
    pub bids_positive : AllValues higher IsPositive b.bids
    pub asks_positive : AllValues lower IsPositive b.asks
    pub unloaded : b.initialized ≡ false → (b.bids ≡ []) × (b.asks ≡ []) × (b.last_update_id ≡ 0)

  abbrev pub HasPrices : BookUpdate W → Type 0
  HasPrices u = HasNumbers u.bids × HasNumbers u.asks

  pub empty_book-IsWellFormed : IsWellFormed (empty_book {W = W})
  empty_book-IsWellFormed = record {
    bids_sorted = tt;
    asks_sorted = tt;
    bids_positive = tt;
    asks_positive = tt;
    unloaded = λ _. (refl, refl, refl);
  }

  pub clear-IsWellFormed : (b : OrderBook W) → IsWellFormed (clear b)
  unfolding clear
  clear-IsWellFormed b = empty_book-IsWellFormed

  module _ (o : IsOrdered W) where
    -- Whatever the book was, a snapshot with no NaN price leaves a well-formed book.
    pub apply_snapshot-IsWellFormed :
        (b : OrderBook W) (bids asks : List (PriceLevel W)) (last : ℕ)
        → HasNumbers bids
        → HasNumbers asks
        → IsWellFormed (apply_snapshot b bids asks last)
    unfolding apply_snapshot
    apply_snapshot-IsWellFormed b bids asks last hb ha = record {
      bids_sorted = apply_levels-IsSorted higher (higher-IsStrictWeak o) [] bids hb tt;
      asks_sorted = apply_levels-IsSorted lower (lower-IsStrictWeak o) [] asks ha tt;
      bids_positive = apply_levels-AllValues higher [] bids tt;
      asks_positive = apply_levels-AllValues lower [] asks tt;
      unloaded = λ e. cc;
    }

    -- An update with no NaN price keeps the book well formed, whether or not it is applied.
    pub apply_update-IsWellFormed :
        (b : OrderBook W) (u : BookUpdate W)
        → HasPrices u
        → IsWellFormed b
        → IsWellFormed (apply_update b u).0
    unfolding apply_update
    apply_update-IsWellFormed b u (hb, ha) w = ground (
      arith,
      apply_levels-IsSorted higher (higher-IsStrictWeak o) b.bids u.bids hb w.bids_sorted,
      apply_levels-IsSorted lower (lower-IsStrictWeak o) b.asks u.asks ha w.asks_sorted,
      apply_levels-AllValues higher b.bids u.bids w.bids_positive,
      apply_levels-AllValues lower b.asks u.asks w.asks_positive,
    )
