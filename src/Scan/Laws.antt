-- ===== src/Scan/Laws.antt =====
-- What one scan of the store reports.
use arbitrage_engine.Base.{
  ℕ, false, ◌∙◌, ap, suc, ◌≤◌, ◌+◌, ◌%◌, ◌≡◌, refl, sym, subst, inl, inr, Option, none, some, List,
  [], ◌∷◌, arith, Text, length, inc64, u64_mod, min, All, All-append, length-append, Option-cases,
  has_value, if◌then◌else◌,
}
use arbitrage_engine.Double.{Double, IsOrdered}
use arbitrage_engine.Config.{Config}
use arbitrage_engine.OrderBook.{OrderBook}
use arbitrage_engine.MarketData.{Store}
use arbitrage_engine.Sort.{InOrder, sort_by-InOrder, sort_by-All}
use arbitrage_engine.SnapshotScan.{spread_at}
use arbitrage_engine.Scan.Ready.{
  both_loaded, ready_pair_loaded, IsPair, ready_pair-IsPair, both_quoted, spread_at_quoted, IsShown,
  compute_top_of_book_spread_symbol,
}
use arbitrage_engine.Spread.{TopOfBookSpread, compute_top_of_book_spread}
use arbitrage_engine.Spread.Laws.{compute_top_of_book_spread-IsBest}
use arbitrage_engine.Engine.{Settings, better}
use arbitrage_engine.Engine.Termination.{HasRank}
use arbitrage_engine.Engine.Scan.{IsOffered, offered, enough, scan_symbol_lem}
use arbitrage_engine.Scan.{
  Found, Report, ready_pair, scan_pair, scan_pairs, nothing_found, push_spread, found_pair, wider,
  report_of, scan_live_store_once,
}
use arbitrage_engine.Scan.Printed.{take-All, take-InOrder, printed}

add_zero : (n : ℕ) → n + 0 ≡ n
add_zero n = omega arith

module _ {W : Type 0} where
  -- The symbols of which the store has both books, both initialised.
  abbrev pub count_pairs : Store W → List Text → ℕ
  count_pairs store [] = 0
  count_pairs store (symbol ∷ symbols) =
      let rest = count_pairs store symbols in if both_loaded store symbol then suc rest else rest

  counts :
      (store : Store W) (symbol : Text) (symbols : List Text) (n : ℕ)
      → count_pairs store symbols + (if has_value (ready_pair store symbol) then suc n else n)
        ≡ count_pairs store (symbol ∷ symbols) + n
  counts store symbol symbols n = rw (ready_pair_loaded store symbol) (ground arith)

  inc64_counted :
      (n : ℕ) (f : Found W) → f.ready_pairs ≡ n % u64_mod → inc64 f.ready_pairs ≡ suc n % u64_mod
  inc64_counted n f h = omega (arith, h)

  pushed_count :
      (n : ℕ) (s : Option (TopOfBookSpread W)) (ss : List (TopOfBookSpread W))
      → length ss ≡ n
      → length (push_spread s ss) ≡ (if has_value s then suc n else n)
  pushed_count n none ss h = h
  pushed_count n (some s) ss h = omega (arith, length-append ss (s ∷ []), h)

module _ {W : Type 0} ⦃d : Double W⦄ where
  -- The symbols of which both exchanges have an initialised book with a bid and a best ask of a positive
  -- price.
  abbrev pub count_quoted : Store W → List Text → ℕ
  count_quoted store [] = 0
  count_quoted store (symbol ∷ symbols) =
      let rest = count_quoted store symbols in if both_quoted store symbol then suc rest else rest

  quoted_counts :
      (store : Store W) (symbol : Text) (symbols : List Text) (n : ℕ)
      → count_quoted store symbols + (if both_quoted store symbol then suc n else n)
        ≡ count_quoted store (symbol ∷ symbols) + n
  quoted_counts store symbol symbols n = ground arith

module _ {W : Type 0} ⦃d : Double W⦄ (c : Config W) (settings : Settings W) (store : Store W) where
  pub record IsFound (n k : ℕ) (f : Found W) : Type 0 where
    pub counted : f.ready_pairs ≡ n % u64_mod
    pub spread_count : length f.spreads ≡ k
    pub all_offered : All (IsOffered settings) f.opportunities
    pub all_shown : All (IsShown c store) f.spreads

  relabel : {n n' k k' : ℕ} (f : Found W) → n ≡ n' → k ≡ k' → IsFound n k f → IsFound n' k' f
  relabel f p q h = record {
    counted = h.counted ∙ ap (λ m. m % u64_mod) p;
    spread_count = h.spread_count ∙ q;
    all_offered = h.all_offered;
    all_shown = h.all_shown;
  }

  module _ (ordered : IsOrdered W) (ranked : HasRank W) (fuel : ℕ)
      (most : enough ranked settings ≤ fuel) where
    pushed-IsShown :
        (symbol : Text) (binance mexc : OrderBook W)
        → ready_pair store symbol ≡ some (binance, mexc)
        → (ss : List (TopOfBookSpread W)) → All (IsShown c store) ss
        → All (IsShown c store) (push_spread (compute_top_of_book_spread symbol binance mexc c) ss)
    pushed-IsShown symbol binance mexc e ss h =
        elim (Option-cases (compute_top_of_book_spread symbol binance mexc c)) [
          | inl n ↦ rw n h
          | inr (s, n) ↦
              let same = compute_top_of_book_spread_symbol symbol binance mexc c s n in
              let pair = ready_pair-IsPair store symbol binance mexc e in
              let shown : IsShown c store s = record {
                binance = binance;
                mexc = mexc;
                pair = subst (λ t. IsPair store t binance mexc) (sym same) pair;
                best = compute_top_of_book_spread-IsBest ordered symbol binance mexc c s n;
              } in
              rw n (All-append (IsShown c store) ss (s ∷ []) h (shown, tt))
        ]

    pair-IsFound :
        (symbol : Text) (n k : ℕ) (f : Found W)
        → IsFound n k f
        → (f' : Found W) × ((scan_pair fuel c settings symbol (ready_pair store symbol) f ≡ some f')
            × IsFound
                (if has_value (ready_pair store symbol) then suc n else n)
                (if both_quoted store symbol then suc k else k)
                f')
    unfolding scan_pair spread_at
    pair-IsFound symbol n k f h =
        let quoted = spread_at_quoted c store symbol in
        elim (Option-cases (ready_pair store symbol)) [
          | inl e ↦
              let no : both_quoted store symbol ≡ false = sym quoted ∙ rw (spread_at, e) refl in
              rw (e, no) (f, (refl, h))
          | inr ((binance, mexc), e) ↦
              let (os, made, _, sound) =
                scan_symbol_lem ranked ordered fuel settings symbol binance mexc most in
              let found = found_pair c symbol binance mexc os f in
              let made_spread = compute_top_of_book_spread symbol binance mexc c in
              let same : both_quoted store symbol ≡ has_value made_spread =
                sym quoted ∙ rw (spread_at, e) refl in
              rw (e, same)
                (
                  found,
                  (
                    rw (scan_pair, made) refl,
                    record {
                      counted = inc64_counted n f h.counted;
                      spread_count = pushed_count k made_spread f.spreads h.spread_count;
                      all_offered =
                          All-append (IsOffered settings) f.opportunities os h.all_offered
                            (offered settings symbol os sound);
                      all_shown = pushed-IsShown symbol binance mexc e f.spreads h.all_shown;
                    },
                  ),
                )
        ]

    pairs-IsFound :
        (symbols : List Text) (n k : ℕ) (f : Found W)
        → IsFound n k f
        → (f' : Found W) × ((scan_pairs fuel c settings store symbols f ≡ some f')
            × IsFound (count_pairs store symbols + n) (count_quoted store symbols + k) f')
    unfolding scan_pairs
    pairs-IsFound [] n k f h = (f, (refl, relabel f (omega arith) (omega arith) h))
    pairs-IsFound (symbol ∷ symbols) n k f h =
        let (f', (e, h')) = pair-IsFound symbol n k f h in
        let (g, (e', last)) = pairs-IsFound symbols _ _ f' h' in
        (
          g,
          (
            rw (scan_pairs, e) e',
            relabel g (counts store symbol symbols n) (quoted_counts store symbol symbols k) last,
          ),
        )

  -- What the scan reports, for the symbols that have a ready pair in the store.
  pub record IsReport (n : ℕ) (r : Report W) : Type 0 where
    pub counted : r.ready_pairs ≡ n % u64_mod
    pub spread_count : r.top_spreads ≡ count_quoted store c.symbols
    pub spreads_ordered : InOrder (λ x y. d.lt y.net_spread_bps x.net_spread_bps) r.spreads_printed
    pub spreads_shown : All (IsShown c store) r.spreads_printed
    pub three : length r.spreads_printed ≡ min 3 r.top_spreads
    pub opportunities_ordered :
        InOrder (λ x y. d.lt y.net_spread_bps x.net_spread_bps) r.opportunities_printed
    pub opportunities_offered : All (IsOffered settings) r.opportunities_printed
    pub ten : length r.opportunities_printed ≡ min 10 r.opportunity_count

  pub scan_live_store_once-IsReport :
      (ordered : IsOrdered W) (ranked : HasRank W) (fuel : ℕ)
      → enough ranked settings ≤ fuel
      → (r : Report W) × ((scan_live_store_once fuel c settings store ≡ some r)
          × IsReport (count_pairs store c.symbols) r)
  unfolding scan_live_store_once
  scan_live_store_once-IsReport ordered ranked fuel most =
      let (f, (e, h)) =
        pairs-IsFound ordered ranked fuel most c.symbols 0 0 nothing_found (record {
          counted = omega arith;
          spread_count = refl;
          all_offered = tt;
          all_shown = tt;
        }) in
      let k = relabel f (add_zero (count_pairs store c.symbols)) (add_zero _) h in
      (
        report_of f,
        (
          rw (scan_live_store_once, e) refl,
          record {
            counted = k.counted;
            spread_count = k.spread_count;
            spreads_ordered = take-InOrder wider 3 _ (
                sort_by-InOrder wider (λ x y. ordered.lt_asym y.net_spread_bps x.net_spread_bps)
                  f.spreads);
            spreads_shown =
                take-All (IsShown c store) 3 _
                  (sort_by-All wider (IsShown c store) f.spreads k.all_shown);
            three = printed wider 3 f.spreads;
            opportunities_ordered = take-InOrder better 10 _ (
                sort_by-InOrder better (λ x y. ordered.lt_asym y.net_spread_bps x.net_spread_bps)
                  f.opportunities);
            opportunities_offered =
                take-All (IsOffered settings) 10 _
                  (sort_by-All better (IsOffered settings) f.opportunities k.all_offered);
            ten = printed better 10 f.opportunities;
          },
        ),
      )
