-- ===== src/LocalLive/Failure.antt =====
-- A request that fails while the thread still runs.
use arbitrage_engine.Base.{
  ℕ, suc, ◌≤◌, ◌≡◌, refl, Bool, Option, some, List, ◌∷◌, map, length, Text, ok, thrown,
}
use arbitrage_engine.Double.{Double}
use arbitrage_engine.Core.{Exchange, BookUpdate}
use arbitrage_engine.Config.{Config}
use arbitrage_engine.Endpoint.{Endpoint}
use arbitrage_engine.Strings.{to_upper}
use arbitrage_engine.LocalBook
use arbitrage_engine.LocalBook.{make}
use arbitrage_engine.LocalBook.Feed.{Belong}
use arbitrage_engine.LocalLive.{
  Run, Messages, Poll, Attempt, escaped, failed, new_run, on_messages, try_snapshot, sync_attempt,
  sync_loop, sync_local_live, stream_endpoint, terminated, run_local_live,
}
use arbitrage_engine.LocalLive.Success.{quiet, attempt_waits, new_run_manager}

module _ {W : Type 0} ⦃d : Double W⦄ (e : Exchange) where
  try_fails :
      (a : Attempt W) (t : Text) (r : Run W)
      → a.snapshot ≡ thrown t
      → (try_snapshot e a r).1 ≡ failed t
  unfolding try_snapshot
  try_fails a t r h = rw (try_snapshot, h) refl

  loop_escapes :
      (left k : ℕ) (inputs : ℕ → Attempt W) (t : Text) (r : Run W)
      → (sync_attempt e k (inputs k) r).1 ≡ failed t
      → sync_loop e (suc left) k inputs r ≡ ((sync_attempt e k (inputs k) r).0, escaped t)
  unfolding sync_loop
  loop_escapes left k inputs t r q = rw (sync_loop, q) refl

  -- If the first request fails once messages have been buffered, the exception is not reported: it meets a thread
  -- that has not been joined, and the program is ended by `std::terminate`, whatever the thread goes on to
  -- do. The messages are updates of the book that fit the buffer, and the stream has an endpoint.
  pub run_local_live_terminates :
      (config : Config W) (input_symbol : Text) (endpoint : Endpoint) (n : ℕ) (u : BookUpdate W)
      (us : List (BookUpdate W)) (finished : Bool) (rest : List (Poll W)) (t : Text)
      (inputs : ℕ → Attempt W) (closing : Messages W) (ws_exception : Option Text)
      → stream_endpoint e config (to_upper input_symbol) ≡ ok endpoint
      → (inputs 1).polls
        ≡ quiet e n (record { messages = map some (u ∷ us); finished = finished } ∷ rest)
      → (inputs 1).snapshot ≡ thrown t
      → Belong e (to_upper input_symbol) (u ∷ us)
      → length (u ∷ us) ≤ 10000
      → run_local_live e config input_symbol inputs closing ws_exception ≡ terminated t
  unfolding run_local_live sync_local_live make
  run_local_live_terminates config input_symbol endpoint n u us finished rest t inputs closing
        ws_exception place polls failing belong room =
      let r = new_run {W = W} e input_symbol in
      let (comes, _) =
        attempt_waits e (inputs 1) n u us finished rest r
          (LocalBook.make (to_upper input_symbol) 10000) (new_run_manager W e input_symbol) refl
          refl belong room polls in
      let q : (sync_attempt e 1 (inputs 1) r).1 ≡ failed t =
        rw comes (try_fails (inputs 1) t (on_messages e r (map some (u ∷ us))) failing) in
      rw (run_local_live, place, loop_escapes 2 1 inputs t r q) refl
