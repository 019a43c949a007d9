-- ===== src/Core.antt =====
-- src/core: the exchanges and the messages that the components pass to one another.
use arbitrage_engine.Base.{ℕ, ℤ, List, Text, Bool, true, false, codes}

-- `enum class Exchange`
pub data Exchange : Type 0 where
  binance mexc : Exchange

abbrev pub exchange_eq : Exchange → Exchange → Bool
exchange_eq Exchange.binance Exchange.binance = true
exchange_eq Exchange.mexc Exchange.mexc = true
exchange_eq _ _ = false

-- `to_string(Exchange)`
unfoldable pub to_string : Exchange → Text
to_string Exchange.binance = codes "binance"
to_string Exchange.mexc = codes "mexc"

pub record PriceLevel (W : Type 0) : Type 0 where
  pub price : W
  pub quantity : W

-- Times are taken as they come, and no component that is modelled computes with them.
pub record BookUpdate (W : Type 0) : Type 0 where
  pub exchange : Exchange
  pub symbol : Text
  pub bids : List (PriceLevel W)
  pub asks : List (PriceLevel W)
  pub first_update_id : ℕ
  pub final_update_id : ℕ
  pub exchange_event_time_ms : ℤ
  pub local_receive_time_ms : ℤ

pub record BookSnapshot (W : Type 0) : Type 0 where
  pub exchange : Exchange
  pub symbol : Text
  pub bids : List (PriceLevel W)
  pub asks : List (PriceLevel W)
  pub last_update_id : ℕ
  pub local_receive_time_ms : ℤ
