-- ===== src/Parser/Mexc/Laws.antt =====
-- What a message must show for the MEXC depth parser to return an update.
use arbitrage_engine.Base.{
  ℤ, ◌≡◌, ◌↔◌, ◌⊎◌, inl, inr, refl, sym, ap, subst, ◌∙◌, none, some, List, [], ◌∷◌, Text, ok,
  ok_injective, bind_ok, Option-cases,
}
use arbitrage_engine.Core.{Exchange, PriceLevel, BookUpdate}
use arbitrage_engine.Parser.Laws.{some_injective, no_update}
use arbitrage_engine.Parser.Mexc.{
  Item, Depths, Wrapper, Proto, read_item, read_items, event_time, read_depths, parse_wrapper,
  parse,
}

module _ {W : Type 0} (p : Proto W) where
  -- The levels have the prices and quantities of the items, in order.
  abbrev pub ShowsItems : List Item → List (PriceLevel W) → Type 0
  ShowsItems [] [] = Unit
  ShowsItems [] (l ∷ ls) = ⊥
  ShowsItems (i ∷ items) [] = ⊥
  ShowsItems (i ∷ items) (l ∷ ls) =
      (p.stod i.price ≡ ok l.price) × (p.stod i.quantity ≡ ok l.quantity) × ShowsItems items ls

  -- The wrapper's own time, or the clock's if it has none.
  abbrev pub IsSent : ℤ → Wrapper → ℤ → Type 0
  IsSent now w t = (w.sendtime ≡ some t) ⊎ ((w.sendtime ≡ none) × (t ≡ now))

  pub record ShowsDepths (now later : ℤ) (w : Wrapper) (ds : Depths) (u : BookUpdate W)
      : Type 0 where
    pub of_exchange : u.exchange ≡ Exchange.mexc
    pub of_symbol : u.symbol ≡ w.symbol
    pub of_bids : ShowsItems ds.bids u.bids
    pub of_asks : ShowsItems ds.asks u.asks
    pub of_first : p.stoull ds.fromversion ≡ ok u.first_update_id
    pub of_final : p.stoull ds.toversion ≡ ok u.final_update_id
    pub of_event_time : IsSent now w u.exchange_event_time_ms
    pub of_receive_time : u.local_receive_time_ms ≡ later

  abbrev pub ShowsWrapper : ℤ → ℤ → Text → BookUpdate W → Type 0
  ShowsWrapper now later message u =
      (w : Wrapper) × ((p.parse_from_array message ≡ some w)
        × ((ds : Depths) × ((w.publicaggredepths ≡ some ds) × ShowsDepths now later w ds u)))

  read_items_to :
      (items : List Item) (ls : List (PriceLevel W))
      → read_items p items ≡ ok ls
      → ShowsItems items ls
  unfolding read_items read_item
  read_items_to [] [] h = tt
  read_items_to [] (l ∷ ls) h = absurd (cc)
  read_items_to (i ∷ items) ls h =
      let (k, (a, h)) = bind_ok (read_item p i) _ ls h in
      let (rest, (b, h)) = bind_ok (read_items p items) _ ls h in
      let (price, (x, a)) = bind_ok (p.stod i.price) _ k a in
      let (quantity, (y, a)) = bind_ok (p.stod i.quantity) _ k a in
      subst (ShowsItems (i ∷ items)) (ok_injective h) (
        x ∙ ap (λ (c : PriceLevel W). ok c.price) (ok_injective a),
        y ∙ ap (λ (c : PriceLevel W). ok c.quantity) (ok_injective a),
        read_items_to items rest b,
      )

  read_items_from :
      (items : List Item) (ls : List (PriceLevel W))
      → ShowsItems items ls
      → read_items p items ≡ ok ls
  unfolding read_items read_item
  read_items_from [] [] h = refl
  read_items_from [] (l ∷ ls) h = absurd h
  read_items_from (i ∷ items) [] h = absurd h
  read_items_from (i ∷ items) (l ∷ ls) (x, y, s) = rw (x, y, read_items_from items ls s) refl

  event_time-IsSent : (now : ℤ) (w : Wrapper) → IsSent now w (event_time p now w)
  event_time-IsSent now w = elim (Option-cases w.sendtime) [
    | inl n ↦ inr (n, rw n refl)
    | inr (t, s) ↦ inl (s ∙ ap some (rw s refl))
  ]

  sent_time : (now t : ℤ) (w : Wrapper) → IsSent now w t → event_time p now w ≡ t
  sent_time now t w (inl s) = rw s refl
  sent_time now t w (inr (n, q)) = rw n (sym q)

  read_depths_to :
      (now later : ℤ) (w : Wrapper) (ds : Depths) (u : BookUpdate W)
      → read_depths p now later w ds ≡ ok u
      → ShowsDepths now later w ds u
  unfolding read_depths
  read_depths_to now later w ds u h =
      let (bids, (b, h)) = bind_ok (read_items p ds.bids) _ u h in
      let (asks, (a, h)) = bind_ok (read_items p ds.asks) _ u h in
      let (first, (f, h)) = bind_ok (p.stoull ds.fromversion) _ u h in
      let (final, (l, h)) = bind_ok (p.stoull ds.toversion) _ u h in
      subst (ShowsDepths now later w ds) (ok_injective h) (record {
        of_exchange = refl;
        of_symbol = refl;
        of_bids = read_items_to ds.bids bids b;
        of_asks = read_items_to ds.asks asks a;
        of_first = f;
        of_final = l;
        of_event_time = event_time-IsSent now w;
        of_receive_time = refl;
      })

  read_depths_from :
      (now later : ℤ) (w : Wrapper) (ds : Depths) (u : BookUpdate W)
      → ShowsDepths now later w ds u
      → read_depths p now later w ds ≡ ok u
  unfolding read_depths
  read_depths_from now later w ds u h =
      rw
        (
          read_items_from ds.bids u.bids h.of_bids,
          read_items_from ds.asks u.asks h.of_asks,
          h.of_first,
          h.of_final,
        )
        (rw
          (
            sent_time now u.exchange_event_time_ms w h.of_event_time,
            ← h.of_exchange,
            ← h.of_symbol,
            ← h.of_receive_time,
          )
          refl)

  -- A message is parsed to an update if and only if it is a wrapper with depths that shows the update: the wrapper's
  -- symbol, the levels of all its items in order, the two versions, and the time of sending or else the
  -- clock's; every price, quantity and version is a text that reads as the number, and the update
  -- is MEXC's, with the time of its receipt.
  pub wrapper_iff :
      (now later : ℤ) (message : Text) (u : BookUpdate W)
      → (parse p now later message ≡ ok (some u)) ↔ ShowsWrapper now later message u
  unfolding parse parse_wrapper
  wrapper_iff now later message u = (to, from)
    where
      to : parse p now later message ≡ ok (some u) → ShowsWrapper now later message u
      to h = elim (Option-cases (p.parse_from_array message)) [
        | inl q ↦ absurd (no_update (rw (parse, q) at h))
        | inr (w, q) ↦ elim (Option-cases w.publicaggredepths) [
          | inl n ↦ absurd (no_update (rw (parse, q, parse_wrapper, n) at h))
          | inr (ds, n) ↦
              let (v, (r, k)) =
                bind_ok (read_depths p now later w ds) _ (some u)
                  (rw (parse, q, parse_wrapper, n) at h) in
              (
                w,
                (
                  q,
                  (
                    ds,
                    (
                      n,
                      subst (ShowsDepths now later w ds) (some_injective (ok_injective k))
                          (read_depths_to now later w ds v r),
                    ),
                  ),
                ),
              )
        ]
      ]

      from : ShowsWrapper now later message u → parse p now later message ≡ ok (some u)
      from (w, (q, (ds, (n, s)))) =
          rw (parse, q, parse_wrapper, n, read_depths_from now later w ds u s) refl
