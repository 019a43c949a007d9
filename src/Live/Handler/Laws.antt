-- ===== src/Live/Handler/Laws.antt =====
-- What a raw message does to the local books, and what a thread does.
use arbitrage_engine.Base.{
  ℕ, suc, ℤ, ◌≡◌, ◌≢◌, inl, inr, refl, sym, ap, subst, true, Option, some, List, [], ◌∷◌, arith,
  Text, Result, ok, thrown, ok_injective, bind_ok, Option-cases, text_eq_refl, text_eq, ◌∙◌, false,
}
use arbitrage_engine.Double.{Double}
use arbitrage_engine.Core.{Exchange, BookUpdate}
use arbitrage_engine.Config.{Config}
use arbitrage_engine.Dict.{lookup}
use arbitrage_engine.Endpoint.{make_ws_endpoint}
use arbitrage_engine.Planner.{Group}
use arbitrage_engine.Parser.{Json}
use arbitrage_engine.Parser.Laws.{parse_iff, some_injective, no_update}
use arbitrage_engine.Parser.Binance as BinanceParser
use arbitrage_engine.Parser.Mexc.{Proto, Wrapper, Depths, read_depths, read_items, parse_wrapper}
use arbitrage_engine.Parser.Mexc as MexcParser
use arbitrage_engine.Client.Laws.{run_inv}
use arbitrage_engine.Client.{Socket, Outcome}
use arbitrage_engine.LocalBook.{
  LocalBook, UpdateResult, update_belongs, on_update, apply_update_to_ready_book, settle,
}
use arbitrage_engine.LocalBook.Binance
use arbitrage_engine.LocalBook.Mexc
use arbitrage_engine.Live.Export.{lookup-on_binance_message, lookup-on_mexc_message}
use arbitrage_engine.Live.{Live, Side, on_binance_message, on_mexc_message}
use arbitrage_engine.Live.Invariant.{
  IsLive, IsKept, LiveEvent, binance_message, mexc_message, live_step, live_run,
}
use arbitrage_engine.Live.Entries.{lookup-AllEntries}
use arbitrage_engine.Live.Sync.Laws.{IsRun, here, join}
use arbitrage_engine.Live.Handler.{
  Clock, when_parsed, binance_handler, mexc_handler, binance_thread, mexc_thread,
}

module _ {W : Type 0} ⦃d : Double W⦄ where
  on_update-Belongs :
      (e : Exchange) (m : LocalBook W) (u : BookUpdate W)
      → update_belongs e m u ≡ true
      → (on_update e m u).1 ≢ UpdateResult.not_for_symbol
  unfolding on_update apply_update_to_ready_book settle
  on_update-Belongs e m u h = ground (arith, h)

  belongs_of :
      (e : Exchange) (m : LocalBook W) (u : BookUpdate W)
      → u.exchange ≡ e
      → m.symbol ≡ u.symbol
      → update_belongs e m u ≡ true
  belongs_of Exchange.binance m u x y = rw (x, y) (text_eq_refl u.symbol)
  belongs_of Exchange.mexc m u x y = rw (x, y) (text_eq_refl u.symbol)

  -- The update is given to the local book of its symbol on one side, which takes it for its own; the other
  -- books of that side and the other side are left.
  pub record IsGiven (e : Exchange) (side other : Live W → Side W) (l l' : Live W)
      (u : BookUpdate W) (m : LocalBook W) : Type 0 where
    pub given : lookup u.symbol (side l').managers ≡ some (on_update e m u).0
    pub left :
        (symbol : Text)
        → text_eq u.symbol symbol ≡ false
        → lookup symbol (side l').managers ≡ lookup symbol (side l).managers
    pub other_left : other l' ≡ other l
    pub own : (on_update e m u).1 ≢ UpdateResult.not_for_symbol

  on_binance_message-IsGiven :
      (l : Live W) (u : BookUpdate W) (m : LocalBook W)
      → lookup u.symbol l.binance.managers ≡ some m
      → (on_update Exchange.binance m u).1 ≢ UpdateResult.not_for_symbol
      → IsGiven Exchange.binance
          (λ k. k.binance)
          (λ k. k.mexc)
          l
          (on_binance_message l (some u))
          u
          m
  unfolding Binance.on_update
  on_binance_message-IsGiven l u m q own = record {
    given = (lookup-on_binance_message l u u.symbol).0 ∙ rw (text_eq_refl u.symbol, q) refl;
    left = λ symbol n. (lookup-on_binance_message l u symbol).0 ∙ rw n refl;
    other_left = (lookup-on_binance_message l u u.symbol).1;
    own = own;
  }

  on_mexc_message-IsGiven :
      (l : Live W) (u : BookUpdate W) (m : LocalBook W)
      → lookup u.symbol l.mexc.managers ≡ some m
      → (on_update Exchange.mexc m u).1 ≢ UpdateResult.not_for_symbol
      → IsGiven Exchange.mexc (λ k. k.mexc) (λ k. k.binance) l (on_mexc_message l (some u)) u m
  unfolding Mexc.on_update
  on_mexc_message-IsGiven l u m q own = record {
    given = (lookup-on_mexc_message l u u.symbol).0 ∙ rw (text_eq_refl u.symbol, q) refl;
    left = λ symbol n. (lookup-on_mexc_message l u symbol).0 ∙ rw n refl;
    other_left = (lookup-on_mexc_message l u u.symbol).1;
    own = own;
  }

  -- A Binance message that parses as an update of a symbol that has a local book, whatever the threads have
  -- done before, is given to that book, which takes it for its own: afterwards the symbol has the book
  -- that the update makes of it, the other local books of both exchanges are as they were, and nothing is
  -- thrown.
  pub binance_handler-accepts :
      {J : Type 0} (j : Json J W) (clock : Clock) (message : Text) (n : ℕ) (l : Live W)
      (u : BookUpdate W) (m : LocalBook W)
      → IsLive l
      → BinanceParser.parse j (clock n).0 message ≡ ok (some u)
      → lookup u.symbol l.binance.managers ≡ some m
      → let (s, r) = binance_handler j clock message (n, l) in
        (r ≡ ok tt)
        × (s.0 ≡ suc n)
        × IsGiven Exchange.binance (λ k. k.binance) (λ k. k.mexc) l s.1 u m
  unfolding binance_handler
  binance_handler-accepts j clock message n l u m live p q =
      let (_, (_, (node, (_, (_, shows))))) = (parse_iff j (clock n).0 message u).0 p in
      let kept : IsKept u.symbol m =
        lookup-AllEntries IsKept u.symbol l.binance.managers live.0.0 q in
      let own =
        on_update-Belongs Exchange.binance m u
          (belongs_of Exchange.binance m u shows.of_exchange kept.0) in
      rw (binance_handler, p) (refl, refl, on_binance_message-IsGiven l u m q own)

  read_depths-exchange :
      (p : Proto W) (now later : ℤ) (w : Wrapper) (ds : Depths) (u : BookUpdate W)
      → read_depths p now later w ds ≡ ok u
      → u.exchange ≡ Exchange.mexc
  unfolding read_depths
  read_depths-exchange p now later w ds u h =
      let (bids, (_, h)) = bind_ok (read_items p ds.bids) _ u h in
      let (asks, (_, h)) = bind_ok (read_items p ds.asks) _ u h in
      let (first, (_, h)) = bind_ok (p.stoull ds.fromversion) _ u h in
      let (final, (_, h)) = bind_ok (p.stoull ds.toversion) _ u h in
      sym (ap (λ (v : BookUpdate W). v.exchange) (ok_injective h))

  mexc_exchange :
      (p : Proto W) (now later : ℤ) (message : Text) (u : BookUpdate W)
      → MexcParser.parse p now later message ≡ ok (some u)
      → u.exchange ≡ Exchange.mexc
  unfolding MexcParser.parse parse_wrapper
  mexc_exchange p now later message u h = elim (Option-cases (p.parse_from_array message)) [
    | inl e ↦ absurd (no_update (rw (MexcParser.parse, e) at h))
    | inr (w, e) ↦ elim (Option-cases w.publicaggredepths) [
      | inl f ↦ absurd (no_update (rw (MexcParser.parse, e, parse_wrapper, f) at h))
      | inr (ds, f) ↦
          let (v, (r, k)) =
            bind_ok (read_depths p now later w ds) _ (some u)
              (rw (MexcParser.parse, e, parse_wrapper, f) at h) in
          subst (λ (x : BookUpdate W). x.exchange ≡ Exchange.mexc) (some_injective (ok_injective k))
            (read_depths-exchange p now later w ds v r)
    ]
  ]

  -- The same of a MEXC message and the MEXC books.
  pub mexc_handler-accepts :
      (p : Proto W) (clock : Clock) (message : Text) (n : ℕ) (l : Live W) (u : BookUpdate W)
      (m : LocalBook W)
      → IsLive l
      → MexcParser.parse p (clock n).0 (clock n).1 message ≡ ok (some u)
      → lookup u.symbol l.mexc.managers ≡ some m
      → let (s, r) = mexc_handler p clock message (n, l) in
        (r ≡ ok tt) × (s.0 ≡ suc n) × IsGiven Exchange.mexc (λ k. k.mexc) (λ k. k.binance) l s.1 u m
  unfolding mexc_handler
  mexc_handler-accepts p clock message n l u m live h q =
      let kept : IsKept u.symbol m = lookup-AllEntries IsKept u.symbol l.mexc.managers live.1.0 q in
      let own =
        on_update-Belongs Exchange.mexc m u
          (belongs_of Exchange.mexc m u (mexc_exchange p _ _ message u h) kept.0) in
      rw (mexc_handler, h) (refl, refl, on_mexc_message-IsGiven l u m q own)

  parsed-IsRun :
      (event : Option (BookUpdate W) → LiveEvent W)
      (on_parsed : Live W → Option (BookUpdate W) → Live W) (l : Live W) (s : ℕ × Live W)
      (r : Result (Option (BookUpdate W)))
      → ((k : Live W) (u : Option (BookUpdate W)) → on_parsed k u ≡ live_step k (event u))
      → IsRun l s.1
      → IsRun l (when_parsed on_parsed s r).0.1
  unfolding live_run
  parsed-IsRun event on_parsed l s (thrown e) same h = h
  parsed-IsRun event on_parsed l s (ok u) same h = join l s.1 _ h (event u ∷ [], same s.1 u)

  -- A Binance thread changes the local books only by the handler's critical sections: whatever the network
  -- gives it, and however it ends, what it leaves is a history of such sections.
  pub binance_thread-IsRun :
      {J : Type 0} (j : Json J W) (clock : Clock) (socket : Socket) (config : Config W)
      (group : Group) (max : ℕ) (reads : List (Result Text)) (l : Live W)
      (out : (ℕ × Live W) × Outcome)
      → binance_thread j clock socket config group max reads l ≡ ok out
      → IsRun l out.0.1
  unfolding binance_thread binance_handler live_step
  binance_thread-IsRun j clock socket config group max reads l out h =
      let (endpoint, (_, h)) = bind_ok (make_ws_endpoint _ _) _ out h in
      subst (λ o. IsRun l o.0.1) (ok_injective h)
        (run_inv (binance_handler j clock) (λ s. IsRun l s.1)
          (λ m s k. parsed-IsRun binance_message on_binance_message l s _ (λ a b. refl) k) socket
          endpoint max [] reads (0, l) (here l))

  -- A MEXC thread changes the local books only by the handler's critical sections: whatever the network
  -- gives it, and however it ends, what it leaves is a history of such sections.
  pub mexc_thread-IsRun :
      (p : Proto W) (clock : Clock) (socket : Socket) (dump : List Text → Result Text)
      (config : Config W) (group : Group) (max : ℕ) (reads : List (Result Text)) (l : Live W)
      (out : (ℕ × Live W) × Outcome)
      → mexc_thread p clock socket dump config group max reads l ≡ ok out
      → IsRun l out.0.1
  unfolding mexc_thread mexc_handler live_step
  mexc_thread-IsRun p clock socket dump config group max reads l out h =
      let (endpoint, (_, h)) = bind_ok (make_ws_endpoint _ _) _ out h in
      let (message, (_, h)) = bind_ok (dump group.streams) _ out h in
      subst (λ o. IsRun l o.0.1) (ok_injective h)
        (run_inv (mexc_handler p clock) (λ s. IsRun l s.1)
          (λ m s k. parsed-IsRun mexc_message on_mexc_message l s _ (λ a b. refl) k) socket endpoint
          max (message ∷ []) reads (0, l) (here l))
