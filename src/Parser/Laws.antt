-- ===== src/Parser/Laws.antt =====
-- What a message must show for the Binance depth parser to return an update.
use arbitrage_engine.Base.{
  ℤ, ◌≡◌, ◌↔◌, ◌⊎◌, inl, inr, refl, ap, subst, ◌∙◌, true, false, none, some, List, arith, Text,
  codes, Result, ok, ok_injective, bind_ok, Bool-cases,
}
use arbitrage_engine.Core.{Exchange, PriceLevel, BookUpdate}
use arbitrage_engine.Parser.{Json, parse_levels}
use arbitrage_engine.Parser.Levels.{ShowsLevels, levels_iff}
use arbitrage_engine.Parser.Binance.{data_of, is_depth, read_update, parse}

pub some_injective : {A : Type 0} {x y : A} → some x ≡ some y → x ≡ y
some_injective h = cc

pub no_update : {A : Type 0} {x : A} → ¬ (ok none ≡ ok (some x))
no_update h = cc

module _ {J W : Type 0} (j : Json J W) where
  -- The node has the key, with a value that is read as this.
  abbrev pub Has : {A : Type 0} → (J → Result A) → J → Text → A → Type 0
  Has read n key a = (v : J) × ((j.child n key ≡ ok v) × (read v ≡ ok a))

  abbrev pub HasLevels : J → Text → List (PriceLevel W) → Type 0
  HasLevels n key ls = (v : J) × ((j.child n key ≡ ok v) × ShowsLevels j (j.elements v) ls)

  -- The node is a depth event with the contents of the update, that is received at the given time.
  pub record ShowsUpdate (now : ℤ) (n : J) (u : BookUpdate W) : Type 0 where
    pub of_exchange : u.exchange ≡ Exchange.binance
    pub of_symbol : Has j.text n (codes "s") u.symbol
    pub of_bids : HasLevels n (codes "b") u.bids
    pub of_asks : HasLevels n (codes "a") u.asks
    pub of_first : Has j.u64 n (codes "U") u.first_update_id
    pub of_final : Has j.u64 n (codes "u") u.final_update_id
    pub of_event_time : Has j.i64 n (codes "E") u.exchange_event_time_ms
    pub of_receive_time : u.local_receive_time_ms ≡ now

  abbrev pub IsEvent : J → Type 0
  IsEvent n =
      (j.contains n (codes "e") ≡ true)
      × ((v : J) × ((j.child n (codes "e") ≡ ok v) × (j.equals v (codes "depthUpdate") ≡ true)))

  -- The message itself, or what a combined stream has under its key.
  abbrev pub IsData : J → J → Type 0
  IsData root n =
      ((j.contains root (codes "data") ≡ true) × (j.child root (codes "data") ≡ ok n))
      ⊎ ((j.contains root (codes "data") ≡ false) × (root ≡ n))

  abbrev pub ShowsMessage : ℤ → Text → BookUpdate W → Type 0
  ShowsMessage now message u =
      (root : J) × ((j.parse message ≡ ok root)
        × ((n : J) × (IsData root n × (IsEvent n × ShowsUpdate now n u))))

  levels_of :
      {n v : J} {key : Text} {ls : List (PriceLevel W)}
      → j.child n key ≡ ok v
      → parse_levels j v ≡ ok ls
      → HasLevels n key ls
  levels_of {v = v} {ls = ls} c p = (v, (c, (levels_iff j v ls).0 p))

  read_update_to :
      (now : ℤ) (n : J) (u : BookUpdate W) → read_update j now n ≡ ok u → ShowsUpdate now n u
  unfolding read_update
  read_update_to now n u h =
      let (s, (cs, h)) = bind_ok (j.child n _) _ u h in
      let (symbol, (ps, h)) = bind_ok (j.text s) _ u h in
      let (b, (cb, h)) = bind_ok (j.child n _) _ u h in
      let (bids, (pb, h)) = bind_ok (parse_levels j b) _ u h in
      let (a, (ca, h)) = bind_ok (j.child n _) _ u h in
      let (asks, (pa, h)) = bind_ok (parse_levels j a) _ u h in
      let (f, (cf, h)) = bind_ok (j.child n _) _ u h in
      let (first, (pf, h)) = bind_ok (j.u64 f) _ u h in
      let (l, (cl, h)) = bind_ok (j.child n _) _ u h in
      let (final, (pl, h)) = bind_ok (j.u64 l) _ u h in
      let (t, (ct, h)) = bind_ok (j.child n _) _ u h in
      let (time, (pt, h)) = bind_ok (j.i64 t) _ u h in
      subst (ShowsUpdate now n) (ok_injective h) (record {
        of_exchange = refl;
        of_symbol = (s, (cs, ps));
        of_bids = levels_of cb pb;
        of_asks = levels_of ca pa;
        of_first = (f, (cf, pf));
        of_final = (l, (cl, pl));
        of_event_time = (t, (ct, pt));
        of_receive_time = refl;
      })

  read_update_from :
      (now : ℤ) (n : J) (u : BookUpdate W) → ShowsUpdate now n u → read_update j now n ≡ ok u
  unfolding read_update
  read_update_from now n u h =
      let (s, (cs, ps)) = h.of_symbol in
      let (b, (cb, pb)) = h.of_bids in
      let (a, (ca, pa)) = h.of_asks in
      let (f, (cf, pf)) = h.of_first in
      let (l, (cl, pl)) = h.of_final in
      let (t, (ct, pt)) = h.of_event_time in
      rw
        (
          cs,
          ps,
          cb,
          (levels_iff j b u.bids).1 pb,
          ca,
          (levels_iff j a u.asks).1 pa,
          cf,
          pf,
          cl,
          pl,
          ct,
          pt,
        )
        (rw (← h.of_exchange, ← h.of_receive_time) refl)

  data_of-IsData : (root n : J) → (data_of j root ≡ ok n) ↔ IsData root n
  unfolding data_of
  data_of-IsData root n = elim (Bool-cases (j.contains root (codes "data"))) [
    | inl e ↦ (
      λ h. inl (e, rw (data_of, e) at h),
      λ d. elim d [ inl (k, c) ↦ rw (data_of, e) c | inr (k, c) ↦ absurd (cc) ],
    )
    | inr e ↦ (
      λ h. inr (e, ok_injective (rw (data_of, e) at h)),
      λ d. elim d [ inl (k, c) ↦ absurd (cc) | inr (k, c) ↦ rw (data_of, e) (ap ok c) ],
    )
  ]

  is_depth-IsEvent : (n : J) → (is_depth j n ≡ ok true) ↔ IsEvent n
  unfolding is_depth
  is_depth-IsEvent n = elim (Bool-cases (j.contains n (codes "e"))) [
    | inl e ↦ (
      λ h.
          let (v, (c, k)) = bind_ok (j.child n (codes "e")) _ true (rw (is_depth, e) at h) in
          (e, (v, (c, ok_injective k))),
      λ (k, (v, (c, q))). rw (is_depth, e, c) (ap ok q),
    )
    | inr e ↦ (
      λ h. absurd (ground (arith, ok_injective (rw (is_depth, e) at h))),
      λ (k, (v, c)). absurd (cc),
    )
  ]

  -- A message is parsed to an update if and only if it is a depth event, on its own or under `data` of a
  -- combined stream, that shows the update: its symbol, its identifiers, its time, and the levels of the
  -- elements of `b` and `a` that are arrays of two or more, in order, with each price and quantity given as
  -- a number or as a string that reads as one; the update is Binance's, with the time of its receipt.
  pub parse_iff :
      (now : ℤ) (message : Text) (u : BookUpdate W)
      → (parse j now message ≡ ok (some u)) ↔ ShowsMessage now message u
  unfolding parse
  parse_iff now message u = (to, from)
    where
      to : parse j now message ≡ ok (some u) → ShowsMessage now message u
      to h =
          let (root, (p, h)) = bind_ok (j.parse message) _ (some u) h in
          let (n, (q, h)) = bind_ok (data_of j root) _ (some u) h in
          let (depth, (e, h)) = bind_ok (is_depth j n) _ (some u) h in
          elim (Bool-cases depth) [
            | inl y ↦
                let (v, (r, h)) = bind_ok (read_update j now n) _ (some u) (rw y at h) in
                let same : v ≡ u = some_injective (ok_injective h) in
                (
                  root,
                  (
                    p,
                    (
                      n,
                      (
                        (data_of-IsData root n).0 q,
                        (
                          (is_depth-IsEvent n).0 (e ∙ ap ok y),
                          subst (ShowsUpdate now n) same (read_update_to now n v r),
                        ),
                      ),
                    ),
                  ),
                )
            | inr y ↦ absurd (no_update (rw y at h))
          ]

      from : ShowsMessage now message u → parse j now message ≡ ok (some u)
      from (root, (p, (n, (d, (e, s))))) =
          rw (p, (data_of-IsData root n).1 d, (is_depth-IsEvent n).1 e, read_update_from now n u s)
            refl
