-- ===== src/Engine.antt =====
-- src/engine/ArbitrageEngine.{hpp,cpp}: `class ArbitrageEngine`, which walks the asks of one book
-- against the bids of another.
pub mod Termination
pub mod Accounts
pub mod Scan
pub mod Tests
use arbitrage_engine.Base.{
  ℕ, zero, suc, Bool, true, false, not, ◌&&◌, ◌||◌, Option, none, some, List, [], ◌∷◌, ◌++◌,
  if◌then◌else◌, Text,
}
use arbitrage_engine.Double.{Double}
use arbitrage_engine.Core.{Exchange, PriceLevel}
use arbitrage_engine.OrderBook.{OrderBook, top_bids, top_asks}
use arbitrage_engine.Sort.{sort_by}

-- `ArbitrageEngineSettings`
pub record Settings (W : Type 0) : Type 0 where
  pub min_net_spread_bps : W
  pub min_notional_usdt : W
  pub max_notional_usdt : W
  pub binance_taker_fee_bps : W
  pub mexc_taker_fee_bps : W
  pub max_depth_levels : ℕ

-- `ArbitrageOpportunity`
pub record Opportunity (W : Type 0) : Type 0 where
  pub symbol : Text
  pub buy_exchange : Exchange
  pub sell_exchange : Exchange
  pub base_quantity : W
  pub buy_notional_usdt : W
  pub sell_notional_usdt : W
  pub buy_vwap : W
  pub sell_vwap : W
  pub gross_profit_usdt : W
  pub fees_usdt : W
  pub net_profit_usdt : W
  pub gross_spread_bps : W
  pub total_fee_bps : W
  pub net_spread_bps : W

-- The variables of the loop in `evaluate_direction`. `asks` are the levels from `ask_index` on, and
-- `bids` those from `bid_index` on.
pub record Walk (W : Type 0) : Type 0 where
  pub asks : List (PriceLevel W)
  pub bids : List (PriceLevel W)
  pub ask_remaining_qty : W
  pub bid_remaining_qty : W
  pub remaining_buy_notional_cap : W
  pub base_quantity : W
  pub buy_notional : W
  pub sell_notional : W

abbrev pub taker_fee_bps : {W : Type 0} → Settings W → Exchange → W
taker_fee_bps s Exchange.binance = s.binance_taker_fee_bps
taker_fee_bps s Exchange.mexc = s.mexc_taker_fee_bps

module _ {W : Type 0} ⦃d : Double W⦄ where
  -- `std::min({a, b, c})`
  abbrev pub min3 : W → W → W → W
  min3 a b c = let m = if d.lt b a then b else a in if d.lt c m then c else m

  -- The end of the loop's body for one side: the levels that are left, and the quantity left at the
  -- first of them. Past the last level the quantity stays.
  abbrev pub advance : List (PriceLevel W) → W → List (PriceLevel W) × W
  advance [] left = ([], left)
  advance (l ∷ []) left = if d.le left d.epsilon then ([], left) else (l ∷ [], left)
  advance (l ∷ k ∷ ls) left =
      if d.le left d.epsilon then (k ∷ ls, k.quantity) else (l ∷ k ∷ ls, left)

  -- The loop's body from the first assignment on, for a quantity at the two prices.
  unfoldable pub trade : Walk W → W → W → W → Walk W
  trade w qty ask_price bid_price =
      let (asks', ask_left) = advance w.asks (d.sub w.ask_remaining_qty qty) in
      let (bids', bid_left) = advance w.bids (d.sub w.bid_remaining_qty qty) in
      record {
        asks = asks';
        bids = bids';
        ask_remaining_qty = ask_left;
        bid_remaining_qty = bid_left;
        remaining_buy_notional_cap = d.sub w.remaining_buy_notional_cap (d.mul qty ask_price);
        base_quantity = d.add w.base_quantity qty;
        buy_notional = d.add w.buy_notional (d.mul qty ask_price);
        sell_notional = d.add w.sell_notional (d.mul qty bid_price);
      }

  abbrev pub executable_qty : Walk W → W → W
  executable_qty w ask_price =
      min3 w.ask_remaining_qty w.bid_remaining_qty (d.div w.remaining_buy_notional_cap ask_price)

  -- One round at the two levels: `none` where the loop ends, by its condition or by a `break`.
  unfoldable pub round_at : PriceLevel W → PriceLevel W → Walk W → Option (Walk W)
  round_at a b w =
      if not (d.lt d.epsilon w.remaining_buy_notional_cap)
        || (d.le a.price d.nought || d.le b.price d.nought || d.le b.price a.price)
      then none
      else if d.le (executable_qty w a.price) d.epsilon
      then none
      else some (trade w (executable_qty w a.price) a.price b.price)

  abbrev pub round_on : List (PriceLevel W) → List (PriceLevel W) → Walk W → Option (Walk W)
  round_on [] bids w = none
  round_on (a ∷ asks) [] w = none
  round_on (a ∷ asks) (b ∷ bids) w = round_at a b w

  abbrev pub round : Walk W → Option (Walk W)
  round w = round_on w.asks w.bids w

  -- The loop. `none` means that the fuel ran out.
  unfoldable pub walk : ℕ → Walk W → Option (Walk W)
  walk zero w = none
  walk (suc fuel) w = elim (round w) [ none ↦ some w | some w' ↦ walk fuel w' ]

  abbrev pub start_walk :
      W → PriceLevel W → List (PriceLevel W) → PriceLevel W → List (PriceLevel W) → Walk W
  start_walk cap a asks b bids = record {
    asks = a ∷ asks;
    bids = b ∷ bids;
    ask_remaining_qty = a.quantity;
    bid_remaining_qty = b.quantity;
    remaining_buy_notional_cap = cap;
    base_quantity = d.nought;
    buy_notional = d.nought;
    sell_notional = d.nought;
  }

  -- `evaluate_direction` after its loop, without the last guard: the opportunity that it builds.
  unfoldable pub opportunity_of : Settings W → Text → Exchange → Exchange → Walk W → Opportunity W
  opportunity_of s symbol buy sell w =
      let buy_fee = d.div (d.mul w.buy_notional (taker_fee_bps s buy)) d.bps in
      let sell_fee = d.div (d.mul w.sell_notional (taker_fee_bps s sell)) d.bps in
      let gross = d.sub w.sell_notional w.buy_notional in
      let fees = d.add buy_fee sell_fee in
      let net = d.sub gross fees in
      record {
        symbol = symbol;
        buy_exchange = buy;
        sell_exchange = sell;
        base_quantity = w.base_quantity;
        buy_notional_usdt = w.buy_notional;
        sell_notional_usdt = w.sell_notional;
        buy_vwap = d.div w.buy_notional w.base_quantity;
        sell_vwap = d.div w.sell_notional w.base_quantity;
        gross_profit_usdt = gross;
        fees_usdt = fees;
        net_profit_usdt = net;
        gross_spread_bps = d.mul (d.div gross w.buy_notional) d.bps;
        total_fee_bps = d.mul (d.div fees w.buy_notional) d.bps;
        net_spread_bps = d.mul (d.div net w.buy_notional) d.bps;
      }

  -- `evaluate_direction` after its loop.
  unfoldable pub conclude :
      Settings W → Text → Exchange → Exchange → Walk W → Option (Opportunity W)
  unfolding opportunity_of
  conclude s symbol buy sell w =
      let found = opportunity_of s symbol buy sell w in
      if d.le w.base_quantity d.epsilon || d.le w.buy_notional d.epsilon
      then none
      else if d.lt w.buy_notional s.min_notional_usdt
      then none
      else if d.lt found.net_spread_bps s.min_net_spread_bps
      then none
      else some found

  -- `evaluate_direction` on the levels that the two books give. The outer `none` means that the
  -- loop's fuel ran out.
  unfoldable pub evaluate_levels :
      ℕ
      → Settings W
      → Text
      → Exchange
      → Exchange
      → List (PriceLevel W)
      → List (PriceLevel W)
      → Option (Option (Opportunity W))
  evaluate_levels fuel s symbol buy sell [] bids = some none
  evaluate_levels fuel s symbol buy sell (a ∷ asks) [] = some none
  evaluate_levels fuel s symbol buy sell (a ∷ asks) (b ∷ bids) =
      elim (walk fuel (start_walk s.max_notional_usdt a asks b bids)) [
        | none ↦ none
        | some w ↦ some (conclude s symbol buy sell w)
      ]

  unfoldable pub evaluate_direction :
      ℕ
      → Settings W
      → Text
      → Exchange
      → Exchange
      → OrderBook W
      → OrderBook W
      → Option (Option (Opportunity W))
  evaluate_direction fuel s symbol buy sell buy_book sell_book =
      evaluate_levels fuel s symbol buy sell (top_asks buy_book s.max_depth_levels)
        (top_bids sell_book s.max_depth_levels)

  -- `push_back`, if there is something
  abbrev pub push_found : Option (Opportunity W) → List (Opportunity W) → List (Opportunity W)
  push_found none os = os
  push_found (some o) os = os ++ (o ∷ [])

  -- The comparator of the two `std::sort` calls on opportunities.
  abbrev pub better : Opportunity W → Opportunity W → Bool
  better x y = d.lt y.net_spread_bps x.net_spread_bps

  unfoldable pub scan_symbol :
      ℕ → Settings W → Text → OrderBook W → OrderBook W → Option (List (Opportunity W))
  scan_symbol fuel s symbol binance_book mexc_book =
      if not binance_book.initialized || not mexc_book.initialized
      then some []
      else elim (evaluate_direction fuel s symbol Exchange.binance Exchange.mexc binance_book
          mexc_book) [
            | none ↦ none
            | some first ↦
                elim (evaluate_direction fuel s symbol Exchange.mexc Exchange.binance mexc_book
                  binance_book) [
                    | none ↦ none
                    | some second ↦ some (sort_by better (push_found second (push_found first [])))
                  ]
          ]
