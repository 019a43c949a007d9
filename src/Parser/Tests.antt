-- ===== src/Parser/Tests.antt =====
-- The Binance parser on a concrete message. The JSON library is instantiated by trees whose numbers are
-- natural, and a table of two texts.
use arbitrage_engine.Base.{
  ℕ, zero, suc, ℤ, pos, ◌≡◌, refl, Bool, true, false, if◌then◌else◌, some, List, [], ◌∷◌, length,
  codes, Text, text_eq, Result, ok, thrown,
}
use arbitrage_engine.Core.{Exchange, BookUpdate}
use arbitrage_engine.Parser.{
  Json, parse_double_from_json_string, parse_level, parse_elements, parse_levels,
}
use arbitrage_engine.Parser.Binance.{parse, data_of, is_depth, read_update}
use arbitrage_engine.Parser.Laws.{ShowsMessage, parse_iff}

mutual
  pub data Node : Type 0 where
    string : Text → Node
    number : ℕ → Node
    array : Nodes → Node
    object : Fields → Node

  pub data Nodes : Type 0 where
    none_left : Nodes
    then_node : Node → Nodes → Nodes

  pub data Fields : Type 0 where
    no_field : Fields
    field : Text → Node → Fields → Fields

abbrev find : Fields → Text → Result Node
find no_field key = thrown (codes "no such key")
find (field k v fs) key = let rest = find fs key in if text_eq k key then ok v else rest

abbrev found : Result Node → Bool
found (ok n) = true
found (thrown e) = false

abbrev nodes : Nodes → List Node
nodes none_left = []
nodes (then_node n ns) = n ∷ nodes ns

abbrev child : Node → Text → Result Node
child (object fs) key = find fs key
child _ key = thrown (codes "not an object")

abbrev elements : Node → List Node
elements (array ns) = nodes ns
elements _ = []

abbrev nth : List Node → ℕ → Node
nth [] i = number 0
nth (n ∷ ns) zero = n
nth (n ∷ ns) (suc i) = nth ns i

abbrev is_text : Node → Text → Bool
is_text (string t) s = text_eq t s
is_text _ s = false

abbrev is_string : Node → Bool
is_string (string t) = true
is_string _ = false

abbrev is_number : Node → Bool
is_number (number n) = true
is_number _ = false

abbrev is_array : Node → Bool
is_array (array ns) = true
is_array _ = false

abbrev text_of : Node → Result Text
text_of (string t) = ok t
text_of _ = thrown (codes "not a string")

abbrev number_of : Node → Result ℕ
number_of (number n) = ok n
number_of _ = thrown (codes "not a number")

abbrev int_of : Node → Result ℤ
int_of (number n) = ok (pos n)
int_of _ = thrown (codes "not a number")

abbrev level : ℕ → ℕ → Node
level p q = array (then_node (number p) (then_node (number q) none_left))

abbrev event : Node
event = object (
    field (codes "e") (string (codes "depthUpdate")) (
      field (codes "E") (number 50) (
        field (codes "s") (string (codes "BTCUSDT")) (
          field (codes "U") (number 3) (
            field (codes "u") (number 5) (
              field (codes "b")
                (array (then_node (level 9 2) (then_node (array none_left) none_left)))
                (field (codes "a") (array none_left) no_field)))))))

abbrev snapshot : Node
snapshot = object (
    field (codes "lastUpdateId") (number 4) (
      field (codes "bids") (array none_left)
        (field (codes "asks") (array (then_node (level 10 1) none_left)) no_field)))

abbrev pub tree : Json Node ℕ
tree = record {
  parse = λ t.
      if text_eq t (codes "depth")
      then ok (object (field (codes "data") event no_field))
      else ok snapshot;
  contains = λ n key. found (child n key);
  child = child;
  equals = is_text;
  is_string = is_string;
  is_number = is_number;
  is_array = is_array;
  size = λ n. length (elements n);
  item = λ n i. nth (elements n) i;
  elements = elements;
  text = text_of;
  double = number_of;
  u64 = number_of;
  i64 = int_of;
  stod = λ t. thrown (codes "stod");
}

abbrev pub update : BookUpdate ℕ
update = record {
  exchange = Exchange.binance;
  symbol = codes "BTCUSDT";
  bids = record { price = 9; quantity = 2 } ∷ [];
  asks = [];
  first_update_id = 3;
  final_update_id = 5;
  exchange_event_time_ms = pos 50;
  local_receive_time_ms = pos 60;
}

-- The level of one element is skipped.
pub parsed : parse tree (pos 60) (codes "depth") ≡ ok (some update)
unfolding parse data_of is_depth read_update parse_levels parse_elements parse_level
    parse_double_from_json_string text_eq
parsed = refl

parse_iff_example : ShowsMessage tree (pos 60) (codes "depth") update
parse_iff_example = (parse_iff tree (pos 60) (codes "depth") update).0 parsed
