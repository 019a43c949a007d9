-- ===== src/Engine/Scan.antt =====
-- `evaluate_direction` and `scan_symbol` return, and what `scan_symbol` returns.
use arbitrage_engine.Base.{
  ℕ, ◌+◌, ◌*◌, ◌≤◌, ◌<◌, ◌≡◌, subst, sym, ◌⊎◌, inl, inr, refl, ap, ◌∙◌, not, ◌||◌, Option, none,
  some, List, [], ◌∷◌, arith, length, All, All-append, Bool-cases, Option-cases, Text,
}
use arbitrage_engine.Double.{Double, IsOrdered}
use arbitrage_engine.Core.{Exchange, PriceLevel}
use arbitrage_engine.OrderBook.{OrderBook, top_asks, top_bids}
use arbitrage_engine.OrderBook.Best.{length-top_levels}
use arbitrage_engine.Sort.{sort_by, sort_by-All, InOrder, sort_by-InOrder}
use arbitrage_engine.Engine.{
  Settings, Opportunity, walk, start_walk, conclude, evaluate_levels, evaluate_direction,
  scan_symbol, push_found, better,
}
use arbitrage_engine.Engine.Termination.{HasRank, measure, walk-Ends}
use arbitrage_engine.Engine.Accounts.{IsSound, evaluate_direction-IsSound}

module _ {W : Type 0} ⦃d : Double W⦄ where
  -- One of the two directions between the exchanges.
  abbrev pub IsEither : Settings W → Text → Opportunity W → Type 0
  IsEither s symbol o =
      IsSound s symbol Exchange.binance Exchange.mexc o
      ⊎ IsSound s symbol Exchange.mexc Exchange.binance o

  -- The opportunity has passed the engine's guards.
  abbrev pub IsOffered : Settings W → Opportunity W → Type 0
  IsOffered s o = IsEither s o.symbol o

  pub offered :
      (settings : Settings W) (symbol : Text) (os : List (Opportunity W))
      → All (IsEither settings symbol) os
      → All (IsOffered settings) os
  offered settings symbol [] h = tt
  offered settings symbol (o ∷ os) (inl s, hs) = (
    inl (subst (λ t. IsSound settings t Exchange.binance Exchange.mexc o) (sym s.of_symbol) s),
    offered settings symbol os hs,
  )
  offered settings symbol (o ∷ os) (inr s, hs) = (
    inr (subst (λ t. IsSound settings t Exchange.mexc Exchange.binance o) (sym s.of_symbol) s),
    offered settings symbol os hs,
  )

module _ {W : Type 0} ⦃d : Double W⦄ (h : HasRank W) where
  open h use {rank}

  -- Fuel that is enough for one direction: the levels that are read, and the rank of the cap.
  abbrev pub enough : Settings W → ℕ
  enough s = 2 * s.max_depth_levels + rank s.max_notional_usdt + 2

  evaluate_levels_total :
      (fuel : ℕ) (s : Settings W) (symbol : Text) (buy sell : Exchange)
      (asks bids : List (PriceLevel W))
      → length asks + length bids + rank s.max_notional_usdt + 1 < fuel
      → (found : Option (Opportunity W)) × (evaluate_levels fuel s symbol buy sell asks bids
          ≡ some found)
  unfolding evaluate_levels measure
  evaluate_levels_total fuel s symbol buy sell [] bids m = (none, refl)
  evaluate_levels_total fuel s symbol buy sell (a ∷ asks) [] m = (none, refl)
  evaluate_levels_total fuel s symbol buy sell (a ∷ asks) (b ∷ bids) m =
      let w = start_walk s.max_notional_usdt a asks b bids in
      let ends = walk-Ends h fuel w (omega arith) in
      elim (Option-cases (walk fuel w)) [
        | inl n ↦ absurd (rw n at ends)
        | inr (w', n) ↦ (conclude s symbol buy sell w', rw (n, evaluate_levels))
      ]

  -- Where the values have a rank, `evaluate_direction` returns on fuel that the depth limit and the
  -- rank of the notional cap bound, whatever the books hold.
  pub evaluate_direction_total :
      (fuel : ℕ) (s : Settings W) (symbol : Text) (buy sell : Exchange)
      (buy_book sell_book : OrderBook W)
      → enough s ≤ fuel
      → (found : Option (Opportunity W)) × (evaluate_direction fuel s symbol buy sell buy_book
            sell_book
          ≡ some found)
  unfolding evaluate_direction top_asks top_bids
  evaluate_direction_total fuel s symbol buy sell buy_book sell_book m =
      evaluate_levels_total fuel s symbol buy sell _ _ (
        omega (
          arith,
          length-top_levels buy_book.asks s.max_depth_levels,
          length-top_levels sell_book.bids s.max_depth_levels,
        ))

  push_found-All :
      (P : Opportunity W → Type 0) (found : Option (Opportunity W)) (os : List (Opportunity W))
      → ((o : Opportunity W) → found ≡ some o → P o)
      → All P os
      → All P (push_found found os)
  push_found-All P none os f a = a
  push_found-All P (some o) os f a = All-append P os (o ∷ []) a (f o refl, tt)

  -- On enough fuel `scan_symbol` returns a list in which no opportunity has a larger net spread than
  -- the one before it, and each has passed the guards of one of the two directions.
  pub scan_symbol_lem :
      (ordered : IsOrdered W) (fuel : ℕ) (s : Settings W) (symbol : Text)
      (binance_book mexc_book : OrderBook W)
      → enough s ≤ fuel
      → (os : List (Opportunity W)) × (scan_symbol fuel s symbol binance_book mexc_book ≡ some os)
        × InOrder (λ x y. d.lt y.net_spread_bps x.net_spread_bps) os
        × All (IsEither s symbol) os
  unfolding scan_symbol
  scan_symbol_lem ordered fuel s symbol binance_book mexc_book m =
      let (one, e) =
        evaluate_direction_total fuel s symbol Exchange.binance Exchange.mexc binance_book mexc_book
          m in
      let (two, f) =
        evaluate_direction_total fuel s symbol Exchange.mexc Exchange.binance mexc_book binance_book
          m in
      let os = push_found two (push_found one []) in
      let sound : All (IsEither s symbol) os =
        push_found-All (IsEither s symbol) two (push_found one [])
          (λ o q.
            inr (
              evaluate_direction-IsSound fuel s symbol _ _ mexc_book binance_book o
                (f ∙ ap some q)))
          (push_found-All (IsEither s symbol) one []
            (λ o q. inl (
              evaluate_direction-IsSound fuel s symbol _ _ binance_book mexc_book o
                (e ∙ ap some q)))
            tt) in
      elim (Bool-cases (not binance_book.initialized || not mexc_book.initialized)) [
        | inl n ↦ ([], rw n refl, tt, tt)
        | inr n ↦ (
          sort_by better os,
          rw (n, e, f) refl,
          sort_by-InOrder better (λ x y. ordered.lt_asym y.net_spread_bps x.net_spread_bps) os,
          sort_by-All better (IsEither s symbol) os sound,
        )
      ]
