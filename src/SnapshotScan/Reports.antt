-- ===== src/SnapshotScan/Reports.antt =====
-- What the two snapshot scans report.
use mathlib.Core.List.{Perm, append-nil, append_assoc, map-append}
use mathlib.Core.List
use mathlib.Core.List.Perm
use arbitrage_engine.Base.{
  ℕ, suc, ◌+◌, ◌%◌, ◌≤◌, ◌≡◌, refl, sym, subst, ap, ◌∙◌, inl, inr, true, false, some, List, [], ◌∷◌,
  ◌++◌, if◌then◌else◌, arith, length, inc64, u64_mod, All, All-append, length-append, Text,
  Option-cases,
}
use arbitrage_engine.Double.{Double, IsOrdered}
use arbitrage_engine.Config.{Config}
use arbitrage_engine.MarketData.{Store}
use arbitrage_engine.Sort.{
  sort_by, InOrder, sort_by-InOrder, sort_by-All, sort_by-perm, length-sort_by,
}
use arbitrage_engine.Engine.{Settings, Opportunity, better}
use arbitrage_engine.Engine.Termination.{HasRank}
use arbitrage_engine.Engine.Scan.{enough, IsOffered, offered, scan_symbol_lem}
use arbitrage_engine.Spread.{TopOfBookSpread, make_arbitrage_settings}
use arbitrage_engine.Spread.Laws.{configured, compute_top_of_book_spread-IsBest}
use arbitrage_engine.Scan.{wider, ready_pair}
use arbitrage_engine.Scan.Ready.{
  IsShown, IsPair, ready_pair-IsPair, compute_top_of_book_spread_symbol, both_tradable,
  both_ready_tradable, both_quoted, spread_at_quoted,
}
use arbitrage_engine.SnapshotScan.{
  Fetches, Loaded, ArbitrageReport, SpreadReport, nothing_loaded, load_books, both_ready,
  arbitrage_turn, arbitrage_loop, run_snapshot_arbitrage_scan, spread_at, spread_turn, spread_loop,
  run_snapshot_top_spread_scan,
}
use arbitrage_engine.SnapshotScan.Counts.{
  keep_if, count_if, counts, add_zero, is_none_or_some, keep_append, step_mod,
}

module _ {W : Type 0} ⦃d : Double W⦄ (ordered : IsOrdered W) (ranked : HasRank W)
    (settings : Settings W) (store : Store W) (fuel : ℕ)
    (most : enough ranked settings ≤ fuel) where
  abbrev IsSum : ℕ → ℕ × List (Opportunity W) → Type 0
  IsSum n found = (found.0 ≡ n % u64_mod) × All (IsOffered settings) found.1

  turn-IsSum :
      (symbol : Text) (n : ℕ) (found : ℕ × List (Opportunity W))
      → IsSum n found
      → (found' : ℕ × List (Opportunity W)) × ((arbitrage_turn fuel settings symbol
              (both_ready store symbol)
              found
            ≡ some found')
          × IsSum (if both_tradable store symbol then suc n else n) found')
  unfolding arbitrage_turn
  turn-IsSum symbol n found (h, a) =
      let test = both_ready_tradable store symbol in
      elim (Option-cases (both_ready store symbol)) [
        | inl e ↦
            let no : both_tradable store symbol ≡ false = sym test ∙ rw e refl in
            rw (e, no) (found, (refl, (h, a)))
        | inr ((binance, mexc), e) ↦
            let (os, made, _, sound) =
              scan_symbol_lem ranked ordered fuel settings symbol binance mexc most in
            let yes : both_tradable store symbol ≡ true = sym test ∙ rw e refl in
            rw (e, yes)
              (
                (inc64 found.0, found.1 ++ os),
                (
                  rw (arbitrage_turn, made) refl,
                  (
                    step_mod n found.0 h,
                    All-append (IsOffered settings) found.1 os a (offered settings symbol os sound),
                  ),
                ),
              )
      ]

  loop-IsSum :
      (symbols : List Text) (n : ℕ) (found : ℕ × List (Opportunity W))
      → IsSum n found
      → (found' : ℕ × List (Opportunity W)) × ((arbitrage_loop fuel settings store symbols found
            ≡ some found')
          × IsSum (count_if (both_tradable store) symbols + n) found')
  unfolding arbitrage_loop
  loop-IsSum [] n found h = (found, (refl, subst (λ k. IsSum k found) (omega arith) h))
  loop-IsSum (symbol ∷ symbols) n found h =
      let (f, (e, k)) = turn-IsSum symbol n found h in
      let (g, (e', k')) = loop-IsSum symbols _ f k in
      (
        g,
        (
          rw (arbitrage_loop, e) e',
          subst (λ m. IsSum m g) (counts (both_tradable store) symbol symbols n) k',
        ),
      )

module _ {W : Type 0} ⦃d : Double W⦄ (c : Config W) (fetch : Fetches W) (order : IsOrdered W) where
  abbrev pub loaded : Loaded W
  loaded = load_books fetch 0 c.symbols nothing_loaded

  pub record IsArbitrageReport (r : ArbitrageReport W) : Type 0 where
    pub counted : r.ready_pairs ≡ count_if (both_tradable r.loaded.store) c.symbols % u64_mod
    pub sorted : InOrder (λ x y. d.lt y.net_spread_bps x.net_spread_bps) r.opportunities
    pub all_offered : All (IsOffered (configured c)) r.opportunities

  -- On enough fuel the snapshot scan for arbitrage returns its report on the books that it has loaded: the number of
  -- ready pairs is that of the symbols of which both exchanges have an initialised book with a bid and an
  -- ask, in 64 bits; every opportunity has passed the engine's guards under the settings that the
  -- configuration gives, and none has a larger net spread than the one before it.
  pub run_snapshot_arbitrage_scan-IsReport :
      (ranked : HasRank W) (fuel : ℕ)
      → enough ranked (configured c) ≤ fuel
      → (r : ArbitrageReport W) × ((run_snapshot_arbitrage_scan fuel c fetch ≡ some r)
          × ((r.loaded ≡ loaded) × IsArbitrageReport r))
  unfolding run_snapshot_arbitrage_scan make_arbitrage_settings
  run_snapshot_arbitrage_scan-IsReport ranked fuel most =
      let settings = configured c in
      let (found, (e, (h, a))) =
        loop-IsSum order ranked settings loaded.store fuel most c.symbols 0 (0, [])
          ((omega arith), tt) in
      (
        record { loaded = loaded; ready_pairs = found.0; opportunities = sort_by better found.1 },
        (
          rw (run_snapshot_arbitrage_scan, e) refl,
          (
            refl,
            record {
              counted = h ∙ ap (λ k. k % u64_mod) (add_zero _);
              sorted =
                  sort_by-InOrder better (λ x y. order.lt_asym y.net_spread_bps x.net_spread_bps)
                    found.1;
              all_offered = sort_by-All better (IsOffered settings) found.1 a;
            },
          ),
        ),
      )

  pub record IsSpreadReport (r : SpreadReport W) : Type 0 where
    pub of_loaded : r.loaded ≡ loaded
    pub listed :
        Perm (List.map (λ s. s.symbol) r.spreads) (keep_if (both_quoted loaded.store) c.symbols)
    pub counted : r.ready_pairs ≡ length r.spreads % u64_mod
    pub sorted_spreads : InOrder (λ x y. d.lt y.net_spread_bps x.net_spread_bps) r.spreads
    pub all_shown : All (IsShown c loaded.store) r.spreads

  spread_at-IsShown :
      (symbol : Text) (s : TopOfBookSpread W)
      → spread_at c loaded.store symbol ≡ some s
      → (s.symbol ≡ symbol) × IsShown c loaded.store s
  unfolding spread_at
  spread_at-IsShown symbol s h = elim (Option-cases (ready_pair loaded.store symbol)) [
    | inl e ↦ absurd (is_none_or_some (rw (spread_at, e) at h))
    | inr ((binance, mexc), e) ↦
        let made = rw (spread_at, e) at h in
        let same = compute_top_of_book_spread_symbol symbol binance mexc c s made in
        let pair = ready_pair-IsPair loaded.store symbol binance mexc e in
        (
          same,
          record {
            binance = binance;
            mexc = mexc;
            pair = subst (λ t. IsPair loaded.store t binance mexc) (sym same) pair;
            best = compute_top_of_book_spread-IsBest order symbol binance mexc c s made;
          },
        )
  ]

  abbrev IsListed : List Text → ℕ × List (TopOfBookSpread W) → Type 0
  IsListed listed found =
      (List.map (λ s. s.symbol) found.1 ≡ listed)
      × (found.0 ≡ length found.1 % u64_mod)
      × All (IsShown c loaded.store) found.1

  turn-IsListed :
      (symbol : Text) (listed : List Text) (found : ℕ × List (TopOfBookSpread W))
      → IsListed listed found
      → IsListed
          (listed ++ keep_if (both_quoted loaded.store) (symbol ∷ []))
          (spread_turn (spread_at c loaded.store symbol) found)
  turn-IsListed symbol listed found (l, h, a) =
      let test = spread_at_quoted c loaded.store symbol in
      elim (Option-cases (spread_at c loaded.store symbol)) [
        | inl e ↦
            let no : both_quoted loaded.store symbol ≡ false = sym test ∙ rw e refl in
            rw (e, no) (l ∙ sym (append-nil listed), h, a)
        | inr (s, e) ↦
            let yes : both_quoted loaded.store symbol ≡ true = sym test ∙ rw e refl in
            let (same, shown) = spread_at-IsShown symbol s e in
            let size : suc (length found.1) ≡ length (found.1 ++ (s ∷ [])) =
              omega (arith, length-append found.1 (s ∷ [])) in
            rw (e, yes)
              (
                map-append (λ s. s.symbol) found.1 (s ∷ []) ∙ rw (l, same) refl,
                step_mod (length found.1) found.0 h ∙ ap (λ n. n % u64_mod) size,
                All-append (IsShown c loaded.store) found.1 (s ∷ []) a (shown, tt),
              )
      ]

  loop-IsListed :
      (symbols listed : List Text) (found : ℕ × List (TopOfBookSpread W))
      → IsListed listed found
      → IsListed
          (listed ++ keep_if (both_quoted loaded.store) symbols)
          (spread_loop c loaded.store symbols found)
  unfolding spread_loop
  loop-IsListed [] listed found h = subst (λ k. IsListed k found) (sym (append-nil listed)) h
  loop-IsListed (symbol ∷ symbols) listed found h =
      let test = both_quoted loaded.store in
      subst (λ k. IsListed k (spread_loop c loaded.store (symbol ∷ symbols) found))
        (append_assoc listed (keep_if test (symbol ∷ [])) (keep_if test symbols)
          ∙ ap (λ k. listed ++ k) (keep_append test symbol symbols))
        (loop-IsListed symbols _ (spread_turn (spread_at c loaded.store symbol) found)
          (turn-IsListed symbol listed found h))

  -- The snapshot scan for spreads reports, on the books that it has loaded, one spread for each symbol, as
  -- often as it is configured, of which both exchanges have an initialised book with a bid and a best
  -- ask of a positive price, and no other, and counts them in 64 bits; each is the better direction of
  -- the two books of its symbol, and none has a larger net spread than the one before it.
  pub run_snapshot_top_spread_scan-IsSpreadReport :
      IsSpreadReport (run_snapshot_top_spread_scan c fetch)
  unfolding run_snapshot_top_spread_scan
  run_snapshot_top_spread_scan-IsSpreadReport =
      let found = spread_loop c loaded.store c.symbols (0, []) in
      let (l, h, a) = loop-IsListed c.symbols [] (0, []) (refl, (omega arith), tt) in
      record {
        of_loaded = refl;
        listed =
            subst (λ k. Perm (List.map (λ s. s.symbol) (sort_by wider found.1)) k) l
              (Perm.map (λ s. s.symbol) (sort_by-perm wider found.1));
        counted = h ∙ ap (λ k. k % u64_mod) (sym (length-sort_by wider found.1));
        sorted_spreads =
            sort_by-InOrder wider (λ x y. order.lt_asym y.net_spread_bps x.net_spread_bps) found.1;
        all_shown = sort_by-All wider (IsShown c loaded.store) found.1 a;
      }
