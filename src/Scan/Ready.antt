-- ===== src/Scan/Ready.antt =====
-- The two books of a symbol, told from the maps of the store.
use arbitrage_engine.Base.{
  ◌≡◌, refl, inl, inr, Bool, true, false, not, ◌&&◌, Option, none, some, List, [], ◌∷◌, arith, Text,
  has_value, Option-cases,
}
use arbitrage_engine.Double.{Double}
use arbitrage_engine.Core.{Exchange}
use arbitrage_engine.Config.{Config}
use arbitrage_engine.Dict.{lookup}
use arbitrage_engine.OrderBook.{OrderBook, best_bid, best_ask}
use arbitrage_engine.MarketData.{Store, get_book, books_for}
use arbitrage_engine.MarketData.Laws.{has_levels, is_ready, has_ready_book_lem}
use arbitrage_engine.Spread.{TopOfBookSpread, compute_top_of_book_spread, spread_of}
use arbitrage_engine.Spread.Laws.{IsBest}
use arbitrage_engine.Scan.{ready_pair}
use arbitrage_engine.SnapshotScan.{both_ready, spread_at}

module _ {W : Type 0} where
  abbrev pub is_loaded : Option (OrderBook W) → Bool
  is_loaded none = false
  is_loaded (some b) = b.initialized

  -- Both exchanges have an initialised book of the symbol.
  abbrev pub both_loaded : Store W → Text → Bool
  both_loaded store symbol =
      is_loaded (lookup symbol store.binance_books) && is_loaded (lookup symbol store.mexc_books)

  pub ready_pair_loaded :
      (store : Store W) (symbol : Text)
      → has_value (ready_pair store symbol) ≡ both_loaded store symbol
  unfolding ready_pair get_book books_for
  ready_pair_loaded store symbol = elim (Option-cases (lookup symbol store.binance_books)) [
    | inl e ↦ rw (ready_pair, e) refl
    | inr (b, e) ↦ elim (Option-cases (lookup symbol store.mexc_books)) [
      | inl f ↦ rw (ready_pair, e, f) (ground arith)
      | inr (m, f) ↦ rw (ready_pair, e, f) (ground arith)
    ]
  ]

  -- The two books stand under the symbol in the store, and are initialised.
  pub record IsPair (store : Store W) (symbol : Text) (binance mexc : OrderBook W) : Type 0 where
    pub on_binance : lookup symbol store.binance_books ≡ some binance
    pub on_mexc : lookup symbol store.mexc_books ≡ some mexc
    pub binance_loaded : binance.initialized ≡ true
    pub mexc_loaded : mexc.initialized ≡ true

  pub ready_pair-IsPair :
      (store : Store W) (symbol : Text) (binance mexc : OrderBook W)
      → ready_pair store symbol ≡ some (binance, mexc)
      → IsPair store symbol binance mexc
  unfolding ready_pair get_book books_for
  ready_pair-IsPair store symbol binance mexc h =
      elim (Option-cases (lookup symbol store.binance_books)) [
        | inl e ↦ absurd (ground (arith, rw (ready_pair, e) at h))
        | inr (b, e) ↦ elim (Option-cases (lookup symbol store.mexc_books)) [
          | inl f ↦ absurd (ground (arith, rw (ready_pair, e, f) at h))
          | inr (m, f) ↦
              let k = rw (ready_pair, e, f) at h in
              record {
                on_binance = ground (arith, k);
                on_mexc = ground (arith, k);
                binance_loaded = ground (arith, k);
                mexc_loaded = ground (arith, k);
              }
        ]
      ]

  -- Both exchanges have a book of the symbol that is initialised and has a bid and an ask.
  abbrev pub both_tradable : Store W → Text → Bool
  both_tradable store symbol =
      is_ready (lookup symbol store.binance_books) && is_ready (lookup symbol store.mexc_books)

module _ {W : Type 0} ⦃d : Double W⦄ where
  pub both_ready_tradable :
      (store : Store W) (symbol : Text)
      → has_value (both_ready store symbol) ≡ both_tradable store symbol
  unfolding both_ready get_book books_for
  both_ready_tradable store symbol =
      let b = has_ready_book_lem store Exchange.binance symbol in
      let m = has_ready_book_lem store Exchange.mexc symbol in
      elim (Option-cases (lookup symbol store.binance_books)) [
        | inl e ↦ ground (arith, e, b, m)
        | inr (x, e) ↦ elim (Option-cases (lookup symbol store.mexc_books)) [
          | inl f ↦ ground (arith, e, f, b, m)
          | inr (y, f) ↦ ground (arith, e, f, b, m)
        ]
      ]

  abbrev has_price : List (W × W) → Bool
  has_price [] = false
  has_price ((price, quantity) ∷ levels) = not (d.le price d.nought)

  -- The book is initialised, has a bid, and its best ask has a positive price.
  abbrev pub is_quoted : Option (OrderBook W) → Bool
  is_quoted none = false
  is_quoted (some b) = b.initialized && (has_levels b.bids && has_price b.asks)

  abbrev pub both_quoted : Store W → Text → Bool
  both_quoted store symbol =
      is_quoted (lookup symbol store.binance_books) && is_quoted (lookup symbol store.mexc_books)

  quoted :
      (c : Config W) (symbol : Text) (b m : OrderBook W)
      → has_value (compute_top_of_book_spread symbol b m c)
        ≡ ((has_levels b.bids && has_price b.asks) && (has_levels m.bids && has_price m.asks))
  unfolding compute_top_of_book_spread spread_of best_bid best_ask
  quoted c symbol b m = ground arith

  pub spread_at_quoted :
      (c : Config W) (store : Store W) (symbol : Text)
      → has_value (spread_at c store symbol) ≡ both_quoted store symbol
  unfolding spread_at ready_pair get_book books_for
  spread_at_quoted c store symbol = elim (Option-cases (lookup symbol store.binance_books)) [
    | inl e ↦ rw (spread_at, ready_pair, e) refl
    | inr (b, e) ↦ elim (Option-cases (lookup symbol store.mexc_books)) [
      | inl f ↦ rw (spread_at, ready_pair, e, f) (ground arith)
      | inr (m, f) ↦ rw (spread_at, ready_pair, e, f) (ground (arith, quoted c symbol b m))
    ]
  ]

  -- The spread is the better direction of the two books of its symbol in the store.
  pub record IsShown (c : Config W) (store : Store W) (s : TopOfBookSpread W) : Type 0 where
    pub binance : OrderBook W
    pub mexc : OrderBook W
    pub pair : IsPair store s.symbol binance mexc
    pub best : IsBest binance mexc c s

  pub compute_top_of_book_spread_symbol :
      (symbol : Text) (b m : OrderBook W) (c : Config W) (s : TopOfBookSpread W)
      → compute_top_of_book_spread symbol b m c ≡ some s
      → s.symbol ≡ symbol
  unfolding compute_top_of_book_spread spread_of
  compute_top_of_book_spread_symbol symbol b m c s h = ground arith
