-- ===== src/LocalLive/Success.antt =====
-- A synchronisation of one local book that must succeed.
use arbitrage_engine.Base.{
  ℕ, zero, suc, ◌≤◌, ◌≡◌, refl, sym, ap, subst, ◌∙◌, Bool, true, false, ltb, some, List, [], ◌∷◌,
  ◌++◌, map, arith, length, Text, ok, All, All-front, length-append,
}
use mathlib.Core.List.{append-nil}
use arbitrage_engine.Double.{Double}
use arbitrage_engine.Core.{Exchange, BookUpdate, BookSnapshot}
use arbitrage_engine.Strings.{to_upper}
use arbitrage_engine.OrderBook.Update.{HasIds}
use arbitrage_engine.OrderBook.Replay.{IsChain, apply_updates}
use arbitrage_engine.LocalBook
use arbitrage_engine.LocalBook.{
  LocalBook, Status, UpdateResult, is_need_resync, on_update, apply_snapshot, make, load_snapshot,
}
use arbitrage_engine.LocalBook.Binance
use arbitrage_engine.LocalBook.Mexc
use arbitrage_engine.LocalBook.Feed.{feed, Belong, feed_waiting}
use arbitrage_engine.LocalBook.Replay.{fresh}
use arbitrage_engine.LocalBook.Stream.{loaded_book, SnapshotBelongs, synchronise, synchronise_lem}
use arbitrage_engine.LocalLive.{
  Run, Poll, Attempt, synced, is_applied, done, new_run, reset_before, on_message, on_messages,
  wait_for_buffered_updates, try_snapshot, sync_attempt, sync_loop, sync_local_live,
}
use arbitrage_engine.LocalLive.Outcome.{tally_manager, ready_applied}

module _ {W : Type 0} ⦃d : Double W⦄ (e : Exchange) where
  -- Messages that are all updates reach the book as those updates.
  on_messages-feed :
      (us : List (BookUpdate W)) (r : Run W)
      → (on_messages e r (map some us)).manager ≡ feed e r.manager us
  unfolding on_messages on_message feed
  on_messages-feed [] r = refl
  on_messages-feed (u ∷ us) r = on_messages-feed us _ ∙ ap (λ m. feed e m us) (tally_manager e _ _)

  feed-append :
      (m : LocalBook W) (us vs : List (BookUpdate W))
      → feed e m (us ++ vs) ≡ feed e (feed e m us) vs
  unfolding feed
  feed-append m [] vs = refl
  feed-append m (u ∷ us) vs = feed-append (on_update e m u).0 us vs

  -- Looks at the buffer before anything has come.
  abbrev pub quiet : ℕ → List (Poll W) → List (Poll W)
  quiet zero polls = polls
  quiet (suc n) polls = record { messages = []; finished = false } ∷ quiet n polls

  wait-quiet :
      (n : ℕ) (p : Poll W) (rest : List (Poll W)) (r : Run W)
      → r.manager.buffer ≡ []
      → ltb 0 (length (on_messages e r p.messages).manager.buffer) ≡ true
      → wait_for_buffered_updates e (quiet n (p ∷ rest)) r ≡ (on_messages e r p.messages, true)
  unfolding wait_for_buffered_updates on_messages
  wait-quiet zero p rest r h k = rw k refl
  wait-quiet (suc n) p rest r h k =
      let z : ltb 0 (length r.manager.buffer) ≡ false = rw h refl in
      rw (wait_for_buffered_updates, z) (wait-quiet n p rest r h k)

  try_succeeds :
      (a : Attempt W) (s : BookSnapshot W) (r : Run W)
      → a.snapshot ≡ ok s
      → is_applied (apply_snapshot e (on_messages e r a.fetching).manager s).1 ≡ true
      → ((try_snapshot e a r).1 ≡ done)
        × ((try_snapshot e a r).0.manager
            ≡ (apply_snapshot e (on_messages e r a.fetching).manager s).0)
  unfolding try_snapshot
  try_succeeds a s r q k = rw (try_snapshot, q, k) (refl, refl)

  reset_before_first :
      (r : Run W) → r.manager.status ≡ Status.waiting_for_snapshot → reset_before 1 r ≡ r
  reset_before_first r h = rw h refl

  has_buffered :
      (m : LocalBook W) (u : BookUpdate W) (us : List (BookUpdate W))
      → m.buffer ≡ u ∷ us
      → ltb 0 (length m.buffer) ≡ true
  has_buffered m u us h = rw h (ground (arith))

  -- The first attempt comes to the request once the first messages have been buffered.
  pub attempt_waits :
      (a : Attempt W) (n : ℕ) (u : BookUpdate W) (us : List (BookUpdate W)) (finished : Bool)
      (rest : List (Poll W)) (r : Run W) (m0 : LocalBook W)
      → r.manager ≡ m0
      → m0.status ≡ Status.waiting_for_snapshot
      → m0.buffer ≡ []
      → Belong e m0.symbol (u ∷ us)
      → length (u ∷ us) ≤ m0.max_buffered_updates
      → a.polls ≡ quiet n (record { messages = map some (u ∷ us); finished = finished } ∷ rest)
      → let r1 = on_messages e r (map some (u ∷ us)) in
        (sync_attempt e 1 a r ≡ try_snapshot e a r1) × (r1.manager ≡ feed e m0 (u ∷ us))
  unfolding sync_attempt
  attempt_waits a n u us finished rest r m0 start w b belong room polls =
      let p : Poll W = record { messages = map some (u ∷ us); finished = finished } in
      let r1 = on_messages e r p.messages in
      let m1 : r1.manager ≡ feed e m0 (u ∷ us) =
        on_messages-feed (u ∷ us) r ∙ ap (λ m. feed e m (u ∷ us)) start in
      let (buffer, _, _, _) = feed_waiting e m0 (u ∷ us) w belong (omega (arith, ap length b)) in
      let full =
        has_buffered r1.manager u us
          (ap (λ (m : LocalBook W). m.buffer) m1 ∙ buffer ∙ ap (λ v. v ++ (u ∷ us)) b) in
      let waited : wait_for_buffered_updates e a.polls r ≡ (r1, true) =
        ap (λ ps. wait_for_buffered_updates e ps r) polls
        ∙ wait-quiet n p rest r (ap (λ (m : LocalBook W). m.buffer) start ∙ b) full in
      (rw (reset_before_first r (ap (λ (m : LocalBook W). m.status) start ∙ w), waited) refl, m1)

  -- An attempt whose messages all come before the snapshot.
  attempt_succeeds :
      (a : Attempt W) (n : ℕ) (u : BookUpdate W) (us more : List (BookUpdate W)) (finished : Bool)
      (rest : List (Poll W)) (s : BookSnapshot W) (r : Run W) (m0 : LocalBook W)
      → r.manager ≡ m0
      → m0.status ≡ Status.waiting_for_snapshot
      → m0.buffer ≡ []
      → Belong e m0.symbol (u ∷ us)
      → length (u ∷ us) ≤ m0.max_buffered_updates
      → a.polls ≡ quiet n (record { messages = map some (u ∷ us); finished = finished } ∷ rest)
      → a.fetching ≡ map some more
      → a.snapshot ≡ ok s
      → let loaded = apply_snapshot e (feed e m0 ((u ∷ us) ++ more)) s in
        is_applied loaded.1 ≡ true
        → ((sync_attempt e 1 a r).1 ≡ done) × ((sync_attempt e 1 a r).0.manager ≡ loaded.0)
  attempt_succeeds a n u us more finished rest s r m0 start w b belong room polls fetching snapshot
        applied =
      let r1 = on_messages e r (map some (u ∷ us)) in
      let (comes, m1) = attempt_waits a n u us finished rest r m0 start w b belong room polls in
      let m2 : (on_messages e r1 a.fetching).manager ≡ feed e m0 ((u ∷ us) ++ more) =
        rw fetching (on_messages-feed more r1)
        ∙ ap (λ m. feed e m more) m1
        ∙ sym (feed-append m0 (u ∷ us) more) in
      let (q, m) =
        try_succeeds a s r1 snapshot (ap (λ m. is_applied (apply_snapshot e m s).1) m2 ∙ applied) in
      rw comes (q, m ∙ ap (λ m. (apply_snapshot e m s).0) m2)

  loop_ends :
      (left k : ℕ) (inputs : ℕ → Attempt W) (r : Run W)
      → (sync_attempt e k (inputs k) r).1 ≡ done
      → sync_loop e (suc left) k inputs r ≡ ((sync_attempt e k (inputs k) r).0, synced)
  unfolding sync_loop
  loop_ends left k inputs r q = rw (sync_loop, q) refl

pub new_run_manager :
    (W : Type 0) (e : Exchange) (symbol : Text)
    → (new_run {W = W} e symbol).manager ≡ LocalBook.make (to_upper symbol) 10000
unfolding new_run Binance.make Mexc.make
new_run_manager W Exchange.binance symbol = refl
new_run_manager W Exchange.mexc symbol = refl

module _ {W : Type 0} ⦃d : Double W⦄ (e : Exchange) where
  -- Once the first messages have come, before the deadline and while the thread runs, and the request gives a
  -- snapshot of the book, the first attempt succeeds: the book is that of the snapshot given every update from
  -- the first that ends after it. The messages are updates of the book that make up one chain with 64-bit
  -- identifiers, which begins no later than the snapshot and fits the buffer.
  pub sync_local_live_succeeds :
      (input_symbol : Text) (n base : ℕ) (u : BookUpdate W) (us more : List (BookUpdate W))
      (finished : Bool) (rest : List (Poll W)) (s : BookSnapshot W) (inputs : ℕ → Attempt W)
      → (inputs 1).polls
        ≡ quiet e n (record { messages = map some (u ∷ us); finished = finished } ∷ rest)
      → (inputs 1).fetching ≡ map some more
      → (inputs 1).snapshot ≡ ok s
      → Belong e (to_upper input_symbol) ((u ∷ us) ++ more)
      → SnapshotBelongs e (to_upper input_symbol) s
      → length ((u ∷ us) ++ more) ≤ 10000
      → All HasIds ((u ∷ us) ++ more)
      → IsChain base ((u ∷ us) ++ more)
      → base ≤ s.last_update_id
      → let out = sync_local_live e input_symbol inputs in
        (out.1 ≡ synced)
        × (out.0.manager.book
            ≡ apply_updates (loaded_book e s) (fresh s.last_update_id ((u ∷ us) ++ more)))
  unfolding sync_local_live synchronise feed make
  sync_local_live_succeeds input_symbol n base u us more finished rest s inputs polls fetching
        snapshot belong own room ids chain l =
      let symbol = to_upper input_symbol in
      let r = new_run {W = W} e input_symbol in
      let start = new_run_manager W e input_symbol in
      let all = (u ∷ us) ++ more in
      let (status, book) =
        synchronise_lem e symbol 10000 base all [] s belong tt own room ids tt
          (subst (IsChain base) (sym (append-nil all)) chain) l in
      let (_, waiting, _, _) =
        feed_waiting e (LocalBook.make symbol 10000) all refl belong (omega (arith, room)) in
      let applied = ready_applied e (feed e (LocalBook.make symbol 10000) all) s waiting status in
      let (q, m) =
        attempt_succeeds e (inputs 1) n u us more finished rest s r (LocalBook.make symbol 10000)
          start refl refl (All-front _ (u ∷ us) more belong)
          (omega (arith, room, length-append (u ∷ us) more)) polls fetching snapshot applied in
      rw (loop_ends e 2 1 inputs r q) (
        refl,
        ap (λ (m : LocalBook W). m.book) m
            ∙ book
            ∙ ap (λ us. apply_updates (loaded_book e s) (fresh s.last_update_id us))
                (append-nil all),
      )
