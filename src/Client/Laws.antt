-- ===== src/Client/Laws.antt =====
-- How many messages `WebSocketClient::run` hands on, and when it returns.
use arbitrage_engine.Base.{
  ℕ, suc, ◌+◌, ◌-◌, ◌≤◌, ◌<◌, ◌≡◌, ◌⊎◌, inl, inr, refl, ap, ◌∙◌, true, false, not, List, [], ◌∷◌,
  ◌++◌, map, arith, inc64, u64_mod, length, take, Text, Result, ok, thrown, Bool-cases,
  Result-cases,
}
use arbitrage_engine.Endpoint.{Endpoint, tls, ws_host_header}
use arbitrage_engine.Client.{Socket, Outcome, write_all, goes_on, read_loop, run}

module _ {S : Type 0} (f : Text → S → S) where
  -- A handler that does not throw.
  abbrev pub total : Text → S → S × Result (Unit {0})
  total m s = (f m s, ok tt)

  abbrev pub after : List Text → S → S
  after [] s = s
  after (m ∷ ms) s = after ms (f m s)

  stops :
      (max count : ℕ) (reads : List (Result Text)) (s : S)
      → goes_on total max count ≡ false
      → read_loop total max reads count s ≡ (s, Outcome.returned)
  unfolding read_loop
  stops max count [] s h = rw h refl
  stops max count (ok m ∷ reads) s h = rw h refl
  stops max count (thrown e ∷ reads) s h = rw h refl

  running : (max count : ℕ) → (max ≡ 0) ⊎ (count < max) → goes_on total max count ≡ true
  running max count h = ground arith

  fails :
      (max count : ℕ) (e : Text) (s : S)
      → (max ≡ 0) ⊎ (count < max)
      → read_loop total max (thrown e ∷ []) count s ≡ (s, Outcome.failed e)
  unfolding read_loop
  fails max count e s h = rw (running max count h) refl

  le_cases : (a b : ℕ) → a ≤ b → (a ≡ b) ⊎ (a < b)
  le_cases a b h = ground arith

  inc_below : (max count : ℕ) → count < max → max < u64_mod → inc64 count ≡ count + 1
  inc_below max count h k = omega (arith, h, k)

  loop_returns :
      (max : ℕ) (msgs : List Text) (rest : List (Result Text)) (count : ℕ) (s : S)
      → 0 < max
      → max < u64_mod
      → count ≤ max
      → max ≤ count + length msgs
      → read_loop total max (map ok msgs ++ rest) count s
        ≡ (after (take (max - count) msgs) s, Outcome.returned)
  unfolding read_loop
  loop_returns max [] rest count s p w h k =
      let e : max - count ≡ 0 = omega (arith, h, k) in
      rw (stops max count rest s (ground (arith, p, h, k)), e) refl
  loop_returns max (m ∷ msgs) rest count s p w h k = elim (le_cases count max h) [
    | inl e ↦
        let z : max - count ≡ 0 = omega (arith, e) in
        rw (stops max count (ok m ∷ (map ok msgs ++ rest)) s (ground (arith, p, e)), z) refl
    | inr l ↦
        let n : max - count ≡ suc (max - (count + 1)) = omega (arith, l) in
        rw (read_loop, running max count (inr l), inc_below max count l w, n)
          (loop_returns max msgs rest (count + 1) (f m s) p w (omega (arith, l)) (omega (arith, k)))
  ]

  -- The loop does not come to the limit within the messages.
  loop_passes :
      (max : ℕ) (msgs : List Text) (rest : List (Result Text)) (count : ℕ) (s : S)
      → max < u64_mod
      → 0 < max
      → count + length msgs < max
      → read_loop total max (map ok msgs ++ rest) count s
        ≡ read_loop total max rest (count + length msgs) (after msgs s)
  unfolding read_loop
  loop_passes max [] rest count s w p h = ap (λ c. read_loop total max rest c s) (omega arith)
  loop_passes max (m ∷ msgs) rest count s w p h =
      rw
        (
          read_loop,
          running max count (inr (omega (arith, h))),
          inc_below max count (omega (arith, h)) w,
        )
        (loop_passes max msgs rest (count + 1) (f m s) w p (omega (arith, h))
          ∙ ap (λ c. read_loop total max rest c (after msgs (f m s))) (omega arith))

  loop_unlimited :
      (msgs : List Text) (rest : List (Result Text)) (count : ℕ) (s : S)
      → (c : ℕ) × (read_loop total 0 (map ok msgs ++ rest) count s
          ≡ read_loop total 0 rest c (after msgs s))
  unfolding read_loop
  loop_unlimited [] rest count s = (count, refl)
  loop_unlimited (m ∷ msgs) rest count s = loop_unlimited msgs rest (inc64 count) (f m s)

  module _ (socket : Socket) (endpoint : Endpoint) (initial : List Text)
      (secure : tls endpoint ≡ true)
      (connected : socket.connect endpoint.host endpoint.port
          (ws_host_header endpoint)
          endpoint.target
        ≡ ok tt)
      (written : write_all socket initial ≡ ok tt) where
    -- Over a TLS connection that opens and takes the initial messages, a call with a limit returns as soon
    -- as the limit of messages has been read: the handler has had exactly the first messages, as many as
    -- the limit, in order, and what comes after them is not read. The handler does not throw, and the
    -- limit is a 64-bit number.
    pub run_returns :
        (max : ℕ) (msgs : List Text) (rest : List (Result Text)) (s : S)
        → 0 < max
        → max < u64_mod
        → max ≤ length msgs
        → run total socket endpoint max initial (map ok msgs ++ rest) s
          ≡ (after (take max msgs) s, Outcome.returned)
    unfolding run
    run_returns max msgs rest s p w k =
        rw (secure, connected, written)
          (loop_returns max msgs rest 0 s p w (omega arith) (omega arith)
            ∙ ap (λ n. (after (take n msgs) s, Outcome.returned)) (omega arith))

    -- Over a TLS connection that opens and takes the initial messages, a read that throws before the limit is
    -- reached, or at any time if there is none, ends the call with what it throws, after the handler
    -- has had every message before it in order. The handler does not throw, and the limit is a 64-bit
    -- number.
    pub run_fails :
        (max : ℕ) (msgs : List Text) (e : Text) (s : S)
        → (max ≡ 0) ⊎ (length msgs < max)
        → max < u64_mod
        → run total socket endpoint max initial (map ok msgs ++ (thrown e ∷ [])) s
          ≡ (after msgs s, Outcome.failed e)
    unfolding run
    run_fails max msgs e s (inl z) w =
        rw (secure, connected, written, z)
          (let (c, h) = loop_unlimited msgs (thrown e ∷ []) 0 s in
            h ∙ fails 0 c e (after msgs s) (inl refl))
    run_fails max msgs e s (inr l) w =
        rw (secure, connected, written)
          (loop_passes max msgs (thrown e ∷ []) 0 s w (omega arith) (omega (arith, l))
            ∙ fails max (0 + length msgs) e (after msgs s) (inr (omega (arith, l))))

-- What the handler keeps, a call of `run` keeps, however it ends.
module _ {ℓ} {S : Type 0} (on_message : Text → S → S × Result (Unit {0})) (P : S → Type ℓ)
    (keep : (m : Text) (s : S) → P s → P (on_message m s).0) where
  loop_inv :
      (max : ℕ) (reads : List (Result Text)) (count : ℕ) (s : S)
      → P s
      → P (read_loop on_message max reads count s).0
  unfolding read_loop
  loop_inv max [] count s h = ground (arith, h)
  loop_inv max (thrown e ∷ reads) count s h = ground (arith, h)
  loop_inv max (ok m ∷ reads) count s h = elim (Bool-cases (goes_on on_message max count)) [
    | inr e ↦ rw (read_loop, e) h
    | inl e ↦
        let rest = loop_inv max reads (inc64 count) (on_message m s).0 (keep m s h) in
        elim (Result-cases (on_message m s).1) [
          | inl (u, q) ↦ rw (read_loop, e, q) rest
          | inr (t, q) ↦ rw (read_loop, e, q) (keep m s h)
        ]
  ]

  pub run_inv :
      (socket : Socket) (endpoint : Endpoint) (max : ℕ) (initial : List Text)
      (reads : List (Result Text)) (s : S)
      → P s
      → P (run on_message socket endpoint max initial reads s).0
  unfolding run
  run_inv socket endpoint max initial reads s h = elim (Bool-cases (not (tls endpoint))) [
    | inl e ↦ rw (run, e) h
    | inr e ↦
        elim (Result-cases
          (socket.connect endpoint.host endpoint.port (ws_host_header endpoint) endpoint.target)) [
            | inr (t, q) ↦ rw (run, e, q) h
            | inl (u, q) ↦ elim (Result-cases (write_all socket initial)) [
              | inr (t, k) ↦ rw (run, e, q, k) h
              | inl (v, k) ↦ rw (run, e, q, k) (loop_inv max reads 0 s h)
            ]
          ]
  ]
