-- ===== src/Scan.antt =====
-- src/main.cpp, `scan_live_store_once`: what one scan of the store reports.
pub mod Ready
pub mod Printed
pub mod Laws
pub mod Tests
use arbitrage_engine.Base.{
  ℕ, Bool, true, false, not, ◌||◌, Option, none, some, List, [], ◌∷◌, ◌++◌, if◌then◌else◌, Text,
  length, take, inc64,
}
use arbitrage_engine.Double.{Double}
use arbitrage_engine.Core.{Exchange}
use arbitrage_engine.Config.{Config}
use arbitrage_engine.OrderBook.{OrderBook}
use arbitrage_engine.MarketData.{Store, get_book}
use arbitrage_engine.Sort.{sort_by}
use arbitrage_engine.Spread.{TopOfBookSpread, compute_top_of_book_spread}
use arbitrage_engine.Engine.{Settings, Opportunity, scan_symbol, better}

-- The local variables of the function.
pub record Found (W : Type 0) : Type 0 where
  pub spreads : List (TopOfBookSpread W)
  pub opportunities : List (Opportunity W)
  pub ready_pairs : ℕ

-- What is logged: the line with the counts, and the spreads and opportunities that are printed.
pub record Report (W : Type 0) : Type 0 where
  pub ready_pairs : ℕ
  pub top_spreads : ℕ
  pub opportunity_count : ℕ
  pub spreads_printed : List (TopOfBookSpread W)
  pub opportunities_printed : List (Opportunity W)

module _ {W : Type 0} where
  abbrev pub nothing_found : Found W
  nothing_found = record { spreads = []; opportunities = []; ready_pairs = 0 }

  -- The two books of a symbol, unless the turn is left by `continue`.
  unfoldable pub ready_pair : Store W → Text → Option (OrderBook W × OrderBook W)
  ready_pair store symbol = elim (get_book store Exchange.binance symbol) [
    | none ↦ none
    | some binance ↦ elim (get_book store Exchange.mexc symbol) [
      | none ↦ none
      | some mexc ↦
          if not binance.initialized || not mexc.initialized then none else some (binance, mexc)
    ]
  ]

  abbrev pub push_spread :
      Option (TopOfBookSpread W) → List (TopOfBookSpread W) → List (TopOfBookSpread W)
  push_spread none ss = ss
  push_spread (some s) ss = ss ++ (s ∷ [])

module _ {W : Type 0} ⦃d : Double W⦄ where
  abbrev pub found_pair :
      Config W → Text → OrderBook W → OrderBook W → List (Opportunity W) → Found W → Found W
  found_pair c symbol binance mexc os f = record {
    spreads = push_spread (compute_top_of_book_spread symbol binance mexc c) f.spreads;
    opportunities = f.opportunities ++ os;
    ready_pairs = inc64 f.ready_pairs;
  }

  -- One turn of the loop. `none` means that the engine's fuel ran out.
  unfoldable pub scan_pair :
      ℕ
      → Config W
      → Settings W
      → Text
      → Option (OrderBook W × OrderBook W)
      → Found W
      → Option (Found W)
  scan_pair fuel c settings symbol none f = some f
  scan_pair fuel c settings symbol (some (binance, mexc)) f =
      elim (scan_symbol fuel settings symbol binance mexc) [
        | none ↦ none
        | some os ↦ some (found_pair c symbol binance mexc os f)
      ]

  unfoldable pub scan_pairs :
      ℕ → Config W → Settings W → Store W → List Text → Found W → Option (Found W)
  scan_pairs fuel c settings store [] f = some f
  scan_pairs fuel c settings store (symbol ∷ symbols) f =
      elim (scan_pair fuel c settings symbol (ready_pair store symbol) f) [
        | none ↦ none
        | some f' ↦ scan_pairs fuel c settings store symbols f'
      ]

  -- The comparator of the spreads.
  abbrev pub wider : TopOfBookSpread W → TopOfBookSpread W → Bool
  wider x y = d.lt y.net_spread_bps x.net_spread_bps

  abbrev pub report_of : Found W → Report W
  report_of f = record {
    ready_pairs = f.ready_pairs;
    top_spreads = length f.spreads;
    opportunity_count = length f.opportunities;
    spreads_printed = take 3 (sort_by wider f.spreads);
    opportunities_printed = take 10 (sort_by better f.opportunities);
  }

  unfoldable pub scan_live_store_once : ℕ → Config W → Settings W → Store W → Option (Report W)
  scan_live_store_once fuel c settings store =
      elim (scan_pairs fuel c settings store c.symbols nothing_found) [
        | none ↦ none
        | some f ↦ some (report_of f)
      ]
