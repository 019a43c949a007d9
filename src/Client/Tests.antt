-- ===== src/Client/Tests.antt =====
-- A connection that gives messages, and one that breaks.
use arbitrage_engine.Base.{
  ℕ, ◌+◌, ◌≡◌, refl, inl, true, List, [], ◌∷◌, ◌++◌, map, arith, length, codes, Text, text_eq, ok,
  thrown,
}
use arbitrage_engine.Endpoint.{Endpoint, tls}
use arbitrage_engine.Client.{Socket, Outcome, run, write_all}
use arbitrage_engine.Client.Laws.{total, run_returns, run_fails}

abbrev pub open_socket : Socket
open_socket = record { connect = λ h p t q. ok tt; write = λ m. ok tt }

abbrev endpoint : Endpoint
endpoint = record {
  scheme = codes "wss";
  host = codes "stream.binance.com";
  port = codes "9443";
  target = codes "/ws";
}

-- The handler adds up the lengths of the messages.
abbrev count : Text → ℕ → ℕ
count m n = n + length m

abbrev messages : List Text
messages = codes "a" ∷ codes "bb" ∷ codes "ccc" ∷ []

secure : tls endpoint ≡ true
unfolding tls text_eq
secure = refl

written : write_all open_socket (codes "subscribe" ∷ []) ≡ ok tt
unfolding write_all
written = refl

run_returns_example :
    run
      (total count)
      open_socket
      endpoint
      2
      (codes "subscribe" ∷ [])
      (map ok messages ++ (thrown (codes "closed") ∷ []))
      0
    ≡ (3, Outcome.returned)
run_returns_example =
    run_returns count open_socket endpoint (codes "subscribe" ∷ []) secure refl written 2 messages
      (thrown (codes "closed") ∷ []) 0 (ground arith) (ground arith) (ground arith)

run_fails_example :
    run
      (total count)
      open_socket
      endpoint
      0
      (codes "subscribe" ∷ [])
      (map ok messages ++ (thrown (codes "closed") ∷ []))
      0
    ≡ (6, Outcome.failed (codes "closed"))
run_fails_example =
    run_fails count open_socket endpoint (codes "subscribe" ∷ []) secure refl written 0 messages
      (codes "closed") 0 (inl refl) (ground arith)
