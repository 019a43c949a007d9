-- ===== src/Monitor/Laws.antt =====
-- How many messages the MEXC mode counts before it returns.
use arbitrage_engine.Base.{
  ℕ, suc, ℤ, ◌+◌, ◌≤◌, ◌<◌, ◌≡◌, refl, sym, ap, ◌∙◌, Option, none, some, List, [], ◌∷◌, ◌++◌, map,
  arith, u64_mod, length, take, Text, text_eq_refl, true, zero, subst, codes, Result, ok, thrown,
}
use arbitrage_engine.Core.{Exchange, BookUpdate}
use arbitrage_engine.Config.{Config}
use arbitrage_engine.Planner.{Group}
use arbitrage_engine.Endpoint.{Endpoint, make_ws_endpoint, tls, ws_host_header}
use arbitrage_engine.Endpoint.Laws.{make_ws_endpoint-IsEndpoint}
use arbitrage_engine.Client.{Socket, Outcome, write_all}
use arbitrage_engine.Client.Laws.{after, run_returns}
use arbitrage_engine.Parser.Mexc.{Proto}
use arbitrage_engine.Parser.Mexc
use arbitrage_engine.Monitor.{Counts, no_counts, count_message, handler, run_mexc_live}

-- Every message that was received is counted as parsed or as ignored.
abbrev pub IsCounted : ℕ → ℕ × Counts → Type 0
IsCounted n (k, c) =
    (k ≡ n) × (c.raw_messages ≡ n) × (c.parsed_depth_updates + c.ignored_messages ≡ n)

add_zero : (n : ℕ) → n + 0 ≡ n
add_zero n = omega arith

zero_add : (n : ℕ) → 0 + n ≡ n
zero_add n = omega arith

add_step : (n k : ℕ) → n + 1 + k ≡ n + suc k
add_step n k = omega arith

wss_tls : (e : Endpoint) → e.scheme ≡ codes "wss" → tls e ≡ true
unfolding tls
wss_tls e h = rw h (text_eq_refl (codes "wss"))

length-take : (n : ℕ) (ms : List Text) → n ≤ length ms → length (take n ms) ≡ n
length-take zero ms h = refl
length-take (suc n) [] h = absurd (omega (arith, h))
length-take (suc n) (m ∷ ms) h = ap suc (length-take n ms (omega (arith, h)))

module _ {W : Type 0} where
  count_message-IsCounted :
      (n k : ℕ) (r : Result (Option (BookUpdate W))) (c : Counts)
      → n + 1 < u64_mod
      → IsCounted n (k, c)
      → IsCounted (n + 1) (suc k, count_message Exchange.mexc r c)
  unfolding count_message
  count_message-IsCounted n k (ok (some u)) c l (p, q, s) =
      (omega (arith, p), omega (arith, l, q), omega (arith, l, s))
  count_message-IsCounted n k (ok none) c l (p, q, s) =
      (omega (arith, p), omega (arith, l, q), omega (arith, l, s))
  count_message-IsCounted n k (thrown t) c l (p, q, s) =
      (omega (arith, p), omega (arith, l, q), omega (arith, l, s))

  after-IsCounted :
      (parse : ℕ → Text → Result (Option (BookUpdate W))) (msgs : List Text) (n : ℕ)
      (s : ℕ × Counts)
      → n + length msgs < u64_mod
      → IsCounted n s
      → IsCounted (n + length msgs) (after (handler Exchange.mexc parse) msgs s)
  unfolding handler
  after-IsCounted parse [] n s l h = subst (λ k. IsCounted k s) (sym (add_zero n)) h
  after-IsCounted parse (m ∷ msgs) n (k, c) l h =
      let next = count_message-IsCounted n k (parse k m) c (omega (arith, l)) h in
      subst
        (λ j. IsCounted j (
          after (handler Exchange.mexc parse) msgs
            (suc k, count_message Exchange.mexc (parse k m) c)))
        (add_step n (length msgs))
        (after-IsCounted parse msgs (n + 1) (suc k, count_message Exchange.mexc (parse k m) c)
          (omega (arith, l)) next)

  -- With a limit below 2^64, the MEXC mode returns as soon as that many messages have come, whatever they are and
  -- whatever comes after them: it has counted each of them once, as parsed or as ignored, and a message
  -- that the parser throws on does not end it. The stream has a group to subscribe to, and the connection opens
  -- and takes the subscription.
  pub run_mexc_live-IsCounted :
      (p : Proto W) (clock : ℕ → ℤ × ℤ) (socket : Socket) (dump : List Text → Result Text)
      (config : Config W) (group : Group) (groups : List Group) (max : ℕ) (msgs : List Text)
      (rest : List (Result Text)) (endpoint : Endpoint) (message : Text)
      → make_ws_endpoint config.mexc.ws_base_url (codes "/ws") ≡ ok endpoint
      → socket.connect endpoint.host endpoint.port (ws_host_header endpoint) endpoint.target ≡ ok tt
      → dump group.streams ≡ ok message
      → write_all socket (message ∷ []) ≡ ok tt
      → 0 < max
      → max < u64_mod
      → max ≤ length msgs
      → (s : ℕ × Counts) × ((run_mexc_live p clock socket dump config
              (group ∷ groups)
              max
              (map ok msgs ++ rest)
            ≡ ok (some (s, Outcome.returned)))
          × IsCounted max s)
  unfolding run_mexc_live
  run_mexc_live-IsCounted p clock socket dump config group groups max msgs rest endpoint message
        made connected dumped written pos w enough =
      let f = handler Exchange.mexc (λ n. Mexc.parse p (clock n).0 (clock n).1) in
      let secure = wss_tls endpoint (make_ws_endpoint-IsEndpoint _ _ endpoint made).of_scheme in
      let counted : IsCounted (0 + length (take max msgs)) _ =
        after-IsCounted (λ n. Mexc.parse p (clock n).0 (clock n).1) (take max msgs) 0 (0, no_counts)
          (omega (arith, length-take max msgs enough, w)) (refl, refl, refl) in
      (
        after f (take max msgs) (0, no_counts),
        (
          rw (made, dumped)
              (ap (λ r. ok (some r))
                (run_returns f socket endpoint (message ∷ []) secure connected written max msgs rest
                  (0, no_counts) pos w enough)),
          subst (λ n. IsCounted n (after f (take max msgs) (0, no_counts)))
              (zero_add _ ∙ length-take max msgs enough) counted,
        ),
      )
