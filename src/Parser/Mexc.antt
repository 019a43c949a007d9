-- ===== src/Parser/Mexc.antt =====
-- src/exchanges/MexcDepthParser.cpp: `MexcDepthParser::parse`.
pub mod Laws
mod Tests
use arbitrage_engine.Base.{ℕ, ℤ, Option, none, some, List, [], ◌∷◌, Text, Result, ok, ◌>>=◌}
use arbitrage_engine.Core.{Exchange, PriceLevel, BookUpdate}

-- The getters of the generated classes that the file calls: those of an item of `bids` or `asks`, of the
-- depths, and of the wrapper.
pub record Item : Type 0 where
  pub price : Text
  pub quantity : Text

pub record Depths : Type 0 where
  pub bids : List Item
  pub asks : List Item
  pub fromversion : Text
  pub toversion : Text

-- A field that may be missing is `none` where its `has_` getter is false.
pub record Wrapper : Type 0 where
  pub symbol : Text
  pub publicaggredepths : Option Depths
  pub sendtime : Option ℤ

-- `ParseFromArray`, whose `none` is false, with `std::stod` and `std::stoull`.
pub record Proto (W : Type 0) : Type 0 where
  pub parse_from_array : Text → Option Wrapper
  pub stod : Text → Result W
  pub stoull : Text → Result ℕ

module _ {W : Type 0} (p : Proto W) where
  unfoldable pub read_item : Item → Result (PriceLevel W)
  read_item i = do
    price ← p.stod i.price
    quantity ← p.stod i.quantity
    ok (record { price = price; quantity = quantity })

  -- The loops over `bids` and `asks`.
  unfoldable pub read_items : List Item → Result (List (PriceLevel W))
  read_items [] = ok []
  read_items (i ∷ is) = do l ← read_item i; ls ← read_items is; ok (l ∷ ls)

  -- `wrapper.has_sendtime() ? wrapper.sendtime() : now_ms()`
  abbrev pub event_time : ℤ → Wrapper → ℤ
  event_time now w = elim w.sendtime [ none ↦ now | some t ↦ t ]

  -- `now` and `later` are what the two calls of `now_ms` return; without the first, `later` alone counts.
  unfoldable pub read_depths : ℤ → ℤ → Wrapper → Depths → Result (BookUpdate W)
  read_depths now later w d = do
    bids ← read_items d.bids
    asks ← read_items d.asks
    first ← p.stoull d.fromversion
    final ← p.stoull d.toversion
    ok (record {
      exchange = Exchange.mexc;
      symbol = w.symbol;
      bids = bids;
      asks = asks;
      first_update_id = first;
      final_update_id = final;
      exchange_event_time_ms = event_time now w;
      local_receive_time_ms = later;
    })

  unfoldable pub parse_wrapper : ℤ → ℤ → Wrapper → Result (Option (BookUpdate W))
  parse_wrapper now later w = elim w.publicaggredepths [
    | none ↦ ok none
    | some d ↦ do u ← read_depths now later w d; ok (some u)
  ]

  unfoldable pub parse : ℤ → ℤ → Text → Result (Option (BookUpdate W))
  parse now later message = elim (p.parse_from_array message) [
    | none ↦ ok none
    | some w ↦ parse_wrapper now later w
  ]
