-- ===== src/Parser/Mexc/Tests.antt =====
-- The MEXC parser on a wrapper with one bid and no time of sending.
use arbitrage_engine.Base.{ℕ, ◌≡◌, refl, none, some, [], ◌∷◌, codes, pos, ok}
use arbitrage_engine.Core.{Exchange, BookUpdate}
use arbitrage_engine.Parser.Mexc.{Proto, parse, parse_wrapper, read_depths, read_items, read_item}
use arbitrage_engine.Parser.Mexc.Laws.{ShowsWrapper, wrapper_iff}

abbrev proto : Proto ℕ
proto = record {
  parse_from_array = λ t. some (record {
    symbol = codes "BTCUSDT";
    publicaggredepths = some (record {
      bids = record { price = codes "9"; quantity = codes "9" } ∷ [];
      asks = [];
      fromversion = codes "5";
      toversion = codes "5";
    });
    sendtime = none;
  });
  stod = λ t. ok 9;
  stoull = λ t. ok 5;
}

abbrev update : BookUpdate ℕ
update = record {
  exchange = Exchange.mexc;
  symbol = codes "BTCUSDT";
  bids = record { price = 9; quantity = 9 } ∷ [];
  asks = [];
  first_update_id = 5;
  final_update_id = 5;
  exchange_event_time_ms = pos 60;
  local_receive_time_ms = pos 61;
}

parsed : parse proto (pos 60) (pos 61) (codes "depth") ≡ ok (some update)
unfolding parse parse_wrapper read_depths read_items read_item
parsed = refl

wrapper_iff_example : ShowsWrapper proto (pos 60) (pos 61) (codes "depth") update
wrapper_iff_example = (wrapper_iff proto (pos 60) (pos 61) (codes "depth") update).0 parsed
