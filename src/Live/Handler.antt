-- ===== src/Live/Handler.antt =====
-- src/main.cpp, `run_live_arbitrage_scan`: the handlers of raw messages and the WebSocket threads that call
-- them. `clock n` are the readings of the clock for the n-th message of a thread.
pub mod Laws
mod Tests
use arbitrage_engine.Base.{
  ℕ, suc, ℤ, Bool, Option, none, some, List, [], ◌∷◌, Text, codes, Result, ok, thrown, ◌>>=◌, ◌>>◌,
}
use arbitrage_engine.Double.{Double}
use arbitrage_engine.Core.{BookUpdate}
use arbitrage_engine.Config.{Config}
use arbitrage_engine.Endpoint.{make_ws_endpoint}
use arbitrage_engine.Planner.{Group}
use arbitrage_engine.Parser.{Json}
use arbitrage_engine.Parser.Binance
use arbitrage_engine.Parser.Mexc.{Proto}
use arbitrage_engine.Parser.Mexc
use arbitrage_engine.Client.{Socket, Outcome, run}
use arbitrage_engine.Live.{Live, on_binance_message, on_mexc_message}

abbrev pub Clock : Type 0
Clock = ℕ → ℤ × ℤ

module _ {W : Type 0} ⦃d : Double W⦄ where
  -- What the parser throws leaves the handler before the lock is taken.
  abbrev pub when_parsed :
      (Live W → Option (BookUpdate W) → Live W)
      → ℕ × Live W
      → Result (Option (BookUpdate W))
      → (ℕ × Live W) × Result (Unit {0})
  when_parsed on_parsed s (ok u) = ((suc s.0, on_parsed s.1 u), ok tt)
  when_parsed on_parsed s (thrown e) = ((suc s.0, s.1), thrown e)

  unfoldable pub binance_handler :
      {J : Type 0} → Json J W → Clock → Text → ℕ × Live W → (ℕ × Live W) × Result (Unit {0})
  binance_handler j clock message s =
      when_parsed on_binance_message s (Binance.parse j (clock s.0).0 message)

  unfoldable pub mexc_handler :
      Proto W → Clock → Text → ℕ × Live W → (ℕ × Live W) × Result (Unit {0})
  mexc_handler p clock message s =
      when_parsed on_mexc_message s (Mexc.parse p (clock s.0).0 (clock s.0).1 message)

  -- The body of a thread, from the group to the end of `run`. A thread starts with its count of messages
  -- at 0.
  unfoldable pub binance_thread :
      {J : Type 0}
      → Json J W
      → Clock
      → Socket
      → Config W
      → Group
      → ℕ
      → List (Result Text)
      → Live W
      → Result ((ℕ × Live W) × Outcome)
  binance_thread j clock socket config group max_messages reads l = do
    endpoint ← make_ws_endpoint config.binance.ws_base_url group.websocket_target
    ok (run (binance_handler j clock) socket endpoint max_messages [] reads (0, l))

  -- `dump` is what `build_mexc_subscription_message` makes of the streams with the JSON library, which throws
  -- if a stream is not UTF-8.
  unfoldable pub mexc_thread :
      Proto W
      → Clock
      → Socket
      → (List Text → Result Text)
      → Config W
      → Group
      → ℕ
      → List (Result Text)
      → Live W
      → Result ((ℕ × Live W) × Outcome)
  mexc_thread p clock socket dump config group max_messages reads l = do
    endpoint ← make_ws_endpoint config.mexc.ws_base_url (codes "/ws")
    message ← dump group.streams
    ok (run (mexc_handler p clock) socket endpoint max_messages (message ∷ []) reads (0, l))
