-- ===== src/Lib.antt =====
-- Verification of the cross-exchange order book scanner: src/ of the repository, C++20.
--
-- The scanner follows the order books of Binance and MEXC. Updates that arrive over WebSocket are
-- given to a local book for each symbol, which buffers them until a REST snapshot is loaded and then
-- applies them in order; the ready books are copied into a store, and the store is scanned for
-- arbitrage between the two exchanges.
--
-- The parts:
--   Base, Sort, Dict, OrderedMap: shared helpers, and what the sources use of std::sort,
--     std::unordered_map and std::map;
--   Double: what the sources use of `double`, as an interface with an instance for the tests;
--   Core: src/core/Exchange.hpp, PriceLevel.hpp, BookUpdate.hpp, BookSnapshot.hpp;
--   OrderBook: src/core/OrderBook.{hpp,cpp}, each method a function of the same name;
--   LocalBook: src/exchanges/BinanceLocalBookManager and MexcLocalBookManager, one definition for the two
--     classes with the exchange as an argument; Binance and Mexc below it name the two;
--   MarketData: src/market/MarketDataStore.{hpp,cpp};
--   Engine: src/engine/ArbitrageEngine.{hpp,cpp};
--   Config: src/config/Config.hpp, and Config/Load for src/config/Config.cpp, over an interface for the nodes of
--     yaml-cpp;
--   Strings, Planner: src/planner/SubscriptionPlanner.{hpp,cpp} and the string functions that it shares with
--     Config.cpp and main.cpp;
--   Endpoint: src/net/WsEndpoint.hpp and src/net/HttpsEndpoint.hpp;
--   Parser: the four parsers of src/exchanges, over interfaces for the nodes of nlohmann::json and the classes
--     that protoc generates; Parser/Binance and Parser/Mexc are the depth parsers, Parser/Snapshot the two
--     snapshot parsers;
--   Client: src/net/HttpsClient.cpp and WebSocketClient.cpp, over interfaces for what Boost and OpenSSL do;
--   Fetch, SnapshotScan, LocalLive: src/main.cpp. Fetch is a snapshot over REST; SnapshotScan the two scans of
--     REST snapshots; LocalLive the local book of one symbol that a thread feeds while it is synchronised, and
--     LocalLiveAll the same for every symbol of an exchange; Monitor the modes that keep no book;
--   Spread, Live, Scan, Command: src/main.cpp. Spread is the top-of-book spread; Live the critical sections of
--     the live scan and the stores that are built from the local books; Live/Sync the synchronisation of
--     a symbol with its waits, attempts and retries; Live/Handler the handlers of raw messages and the threads
--     that call them; Scan one scan of a store; LiveScan the live scan as a whole; Command the arguments
--     and the mode that main runs.
-- A method that changes its object returns the new object, with its result if it has one. Strings are
-- lists of bytes. The 64-bit counters and identifiers wrap as in the source (`inc64`).
--
-- A double is a value of any type with the operators that the sources use. What a theorem needs of
-- them is a named hypothesis: IsOrdered (comparison), HasRank and IsMonotone (rounding). They hold for
-- IEEE 754 doubles, and the tests meet them with whole numbers.
--
-- The loop of `evaluate_direction` runs on fuel; twice the depth limit plus the rank of the notional
-- cap plus two is enough, and with it the function returns. The loop of `plan` runs on the number of
-- symbols, since a turn takes one at least. The attempts and retries count the turns that are left. All
-- other loops are recursion on a list.
--
-- Not modelled: the network below the two clients, TLS, the start of the threads, sleeping, logging and
-- the print functions, and what protoc and the JSON and YAML libraries do; the two functions that run a thread
-- for each group, run_local_live_all and run_live_arbitrage_scan, take it that the subscription messages can be
-- printed. The threads appear as any sequence
-- of their critical sections. When a thread finishes is not assumed: the live scan is given what its loop
-- reads of the counter of finished threads.
pub mod Base
pub mod Double
pub mod OrderedMap
pub mod Core
pub mod OrderBook
pub mod LocalBook
pub mod Dict
pub mod MarketData
pub mod Sort
pub mod Engine
pub mod Config
pub mod Strings
pub mod Planner
pub mod Endpoint
pub mod Scan
pub mod Command
pub mod Parser
pub mod Client
pub mod Fetch
pub mod SnapshotScan
pub mod LocalLive
pub mod LocalLiveAll
pub mod LiveScan
pub mod Monitor
pub mod Spread
pub mod Live
