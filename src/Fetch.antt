-- ===== src/Fetch.antt =====
-- src/main.cpp, `fetch_binance_snapshot` and `fetch_mexc_snapshot`: a snapshot over REST.
pub mod Laws
mod Tests
use arbitrage_engine.Base.{ℤ, ◌++◌, Text, codes, Result, ok, thrown, ◌>>=◌, ◌>>◌}
use arbitrage_engine.Core.{Exchange, BookSnapshot}
use arbitrage_engine.Config.{Config, ExchangeSettings}
use arbitrage_engine.Strings.{int_text}
use arbitrage_engine.Endpoint.{make_https_endpoint}
use arbitrage_engine.Client.{Send, get}
use arbitrage_engine.Parser.{Json}
use arbitrage_engine.Parser.Snapshot

unfoldable pub depth_target : Text → ℤ → Text
depth_target symbol limit =
    codes "/api/v3/depth?symbol=" ++ (symbol ++ (codes "&limit=" ++ int_text limit))

abbrev pub settings_of : {W : Type 0} → Exchange → Config W → ExchangeSettings
settings_of Exchange.binance c = c.binance
settings_of Exchange.mexc c = c.mexc

abbrev pub parse_body :
    {J W : Type 0} → Json J W → Exchange → ℤ → Text → Text → Result (BookSnapshot W)
parse_body j Exchange.binance = Snapshot.parse_binance j
parse_body j Exchange.mexc = Snapshot.parse_mexc j

module _ {J W : Type 0} (j : Json J W) (send : Send) where
  -- The two functions differ in the exchange. `now` is the clock's reading in the parser.
  unfoldable pub fetch_snapshot : Exchange → ℤ → Config W → Text → Result (BookSnapshot W)
  fetch_snapshot e now config symbol = do
    endpoint ←
        make_https_endpoint (settings_of e config).rest_base_url
          (depth_target symbol config.market_data.book_snapshot_limit)
    body ← get send endpoint
    parse_body j e now body symbol

  unfoldable pub fetch_binance_snapshot : ℤ → Config W → Text → Result (BookSnapshot W)
  unfolding fetch_snapshot
  fetch_binance_snapshot now config symbol = fetch_snapshot Exchange.binance now config symbol

  unfoldable pub fetch_mexc_snapshot : ℤ → Config W → Text → Result (BookSnapshot W)
  unfolding fetch_snapshot
  fetch_mexc_snapshot now config symbol = fetch_snapshot Exchange.mexc now config symbol
