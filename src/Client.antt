-- ===== src/Client.antt =====
-- src/net/HttpsClient.cpp and WebSocketClient.cpp. What Boost.Asio, Boost.Beast and OpenSSL do on the network
-- is a parameter; the request, the check of the status, the subscription messages and the loop that reads
-- and counts messages are modelled.
pub mod Laws
pub mod Tests
use arbitrage_engine.Base.{
  ℕ, zero, suc, Bool, true, false, not, ◌||◌, ◌==◌, ltb, if◌then◌else◌, List, [], ◌∷◌, ◌++◌, inc64,
  Text, codes, Result, ok, thrown, ◌>>=◌, ◌>>◌,
}
use arbitrage_engine.Strings.{decimal}
use arbitrage_engine.Endpoint.{Endpoint, https_host_header, ws_host_header, tls}

-- The request of `HttpsClient::get`, with the place that it is sent to.
pub record Request : Type 0 where
  pub host : Text
  pub port : Text
  pub target : Text
  pub host_header : Text
  pub user_agent : Text
  pub accept : Text

pub record Response : Type 0 where
  pub status : ℕ
  pub body : Text

-- Sending a request over a new TLS connection, with the response that is read or what is thrown.
abbrev pub Send : Type 0
Send = Request → Result Response

unfoldable pub request_of : Endpoint → Request
request_of e = record {
  host = e.host;
  port = e.port;
  target = e.target;
  host_header = https_host_header e;
  user_agent = codes "arbitrage-engine/0.1.0";
  accept = codes "application/json";
}

-- `HttpsClient::get`
unfoldable pub get : Send → Endpoint → Result Text
get send endpoint = do
  response ← send (request_of endpoint)
  if not (response.status == 200)
      then thrown (codes "HTTP GET failed. Status: " ++ decimal response.status)
      else ok response.body

-- The WebSocket connection: opening it at a host and port with a host header and a target, and writing a
-- text message.
pub record Socket : Type 0 where
  pub connect : Text → Text → Text → Text → Result (Unit {0})
  pub write : Text → Result (Unit {0})

-- How a call of `run` stands after the given reads: blocked in the next read, returned, or left by what
-- was thrown.
pub data Outcome : Type 0 where
  waiting returned : Outcome
  failed : Text → Outcome

unfoldable pub write_all : Socket → List Text → Result (Unit {0})
write_all socket [] = ok tt
write_all socket (m ∷ ms) = do socket.write m; write_all socket ms

abbrev pub of_result : {S : Type 0} → S → Result (Unit {0}) → (Unit {0} → S × Outcome) → S × Outcome
of_result s (ok u) k = k u
of_result s (thrown e) k = (s, failed e)

module _ {S : Type 0} (on_message : Text → S → S × Result (Unit {0})) where
  abbrev pub goes_on : ℕ → ℕ → Bool
  goes_on max_messages message_count = (max_messages == 0) || ltb message_count max_messages

  -- The loop of `run`, for what each read gives, on the state that the handler changes.
  unfoldable pub read_loop : ℕ → List (Result Text) → ℕ → S → S × Outcome
  read_loop max_messages [] message_count s =
      if goes_on max_messages message_count then (s, waiting) else (s, returned)
  read_loop max_messages (thrown e ∷ reads) message_count s =
      if goes_on max_messages message_count then (s, failed e) else (s, returned)
  read_loop max_messages (ok message ∷ reads) message_count s =
      let handled = on_message message s in
      let rest = read_loop max_messages reads (inc64 message_count) handled.0 in
      if goes_on max_messages message_count
      then of_result handled.0 handled.1 (λ _. rest)
      else (s, returned)

  unfoldable pub run : Socket → Endpoint → ℕ → List Text → List (Result Text) → S → S × Outcome
  run socket endpoint max_messages initial_text_messages reads s =
      if not (tls endpoint)
      then (s, failed (codes "Only TLS WebSocket connections are supported"))
      else of_result s
          (socket.connect endpoint.host endpoint.port (ws_host_header endpoint) endpoint.target)
          (λ _.
            of_result s (write_all socket initial_text_messages)
              (λ _. read_loop max_messages reads 0 s))
