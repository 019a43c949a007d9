-- ===== src/Engine/Tests.antt =====
-- The engine on concrete books, with whole numbers for prices and quantities.
use native.Mathlib.Nat.{mul-le-mul, le_refl}
use arbitrage_engine.Base.{
  ℕ, ◌*◌, ◌-◌, ◌/◌, ◌<◌, ◌≤◌, ltb, leb, inl, ◌⊎◌, ◌≡◌, refl, true, false, some, List, [], ◌∷◌,
  arith, codes, Text,
}
use arbitrage_engine.Double.{nat_double, nat-IsOrdered}
use arbitrage_engine.Core.{Exchange}
use arbitrage_engine.OrderBook.{OrderBook, top_bids, top_asks}
use arbitrage_engine.Engine.{
  Settings, Opportunity, evaluate_direction, evaluate_levels, walk, round_at, trade, conclude,
  scan_symbol, opportunity_of,
}
use arbitrage_engine.Engine.Termination.{HasRank}
use arbitrage_engine.Engine.Accounts.{
  IsSound, IsMonotone, evaluate_direction-IsSound, evaluate_direction_gross,
}
use arbitrage_engine.Engine.Scan.{scan_symbol_lem}

abbrev pub settings : Settings ℕ
settings = record {
  min_net_spread_bps = 10;
  min_notional_usdt = 20;
  max_notional_usdt = 1000;
  binance_taker_fee_bps = 10;
  mexc_taker_fee_bps = 10;
  max_depth_levels = 5;
}

abbrev pub symbol : Text
symbol = codes "BTCUSDT"

abbrev pub cheap : OrderBook ℕ
cheap = record {
  bids = (9, 5) ∷ [];
  asks = (10, 30) ∷ (11, 40) ∷ [];
  last_update_id = 1;
  initialized = true;
}

abbrev pub dear : OrderBook ℕ
dear = record {
  bids = (15, 20) ∷ (13, 20) ∷ (11, 100) ∷ [];
  asks = (16, 5) ∷ [];
  last_update_id = 1;
  initialized = true;
}

-- 20 at 10 and 15, 10 at 10 and 13, 10 at 11 and 13; then the bid of 11 is not above the ask.
abbrev found : Opportunity ℕ
found = record {
  symbol = symbol;
  buy_exchange = Exchange.binance;
  sell_exchange = Exchange.mexc;
  base_quantity = 40;
  buy_notional_usdt = 410;
  sell_notional_usdt = 560;
  buy_vwap = 10;
  sell_vwap = 14;
  gross_profit_usdt = 150;
  fees_usdt = 0;
  net_profit_usdt = 150;
  gross_spread_bps = 0;
  total_fee_bps = 0;
  net_spread_bps = 0;
}

abbrev any_spread : Settings ℕ
any_spread = record settings { min_net_spread_bps = 0 }

finds :
    evaluate_direction 9 any_spread symbol Exchange.binance Exchange.mexc cheap dear
    ≡ some (some found)
unfolding evaluate_direction evaluate_levels walk round_at trade conclude opportunity_of top_bids
    top_asks
finds = refl

pub mul-pos : (a b : ℕ) → 0 < a → 0 < b → 0 < a * b
mul-pos a b h k = grind arith

pub exhaust_nat :
    (c p : ℕ) → ltb 0 c ≡ true → leb (c / p) 0 ≡ false → leb p 0 ≡ false → c - c / p * p < c
exhaust_nat c p e f g = ground (arith, mul-pos (c / p) p)

pub spend_nat :
    (c x p : ℕ) → leb x 0 ≡ false → leb p 0 ≡ false → (c - x * p ≤ c) ⊎ (ltb 0 (c - x * p) ≡ false)
spend_nat c x p e f = grind arith

pub use_up_nat :
    (c x p : ℕ)
    → leb x 0 ≡ false
    → leb p 0 ≡ false
    → (leb (x - x) 0 ≡ true) ⊎ (ltb 0 (c - x * p) ≡ false)
use_up_nat c x p e f = ground arith

mul_mono_nat : (q x y : ℕ) → leb y x ≡ false → ltb (q * y) (q * x) ≡ false
mul_mono_nat q x y g = ground (arith, mul-le-mul (le_refl q) (below g))
  where
    below : leb y x ≡ false → x ≤ y
    below g = ground arith

abbrev pub nat-HasRank : HasRank ℕ
nat-HasRank = record {
  rank = λ n. n;
  spend = spend_nat;
  use_up = use_up_nat;
  exhaust = λ c p e f g. inl (exhaust_nat c p e f g);
}

nat-IsMonotone : IsMonotone ℕ
nat-IsMonotone = record {
  nought_irrefl = refl;
  add_mono = λ x y z w e f. ground arith;
  mul_mono = λ q x y e f g. mul_mono_nat q x y g;
  sub_nonneg = λ x y e. ground arith;
}

scan_symbol_lem_example :
    (os : List (Opportunity ℕ)) × (scan_symbol 2000 settings symbol cheap dear ≡ some os)
scan_symbol_lem_example =
    let (os, e, _, _) =
      scan_symbol_lem nat-HasRank nat-IsOrdered 2000 settings symbol cheap dear (ground arith) in
    (os, e)

evaluate_direction-IsSound_example : IsSound any_spread symbol Exchange.binance Exchange.mexc found
evaluate_direction-IsSound_example =
    evaluate_direction-IsSound 9 any_spread symbol Exchange.binance Exchange.mexc cheap dear found
      finds

evaluate_direction_gross_example : nat_double.lt 150 0 ≡ false
evaluate_direction_gross_example =
    (evaluate_direction_gross nat-IsMonotone 9 any_spread symbol Exchange.binance Exchange.mexc
      cheap dear found finds).1
