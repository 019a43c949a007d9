-- ===== src/Parser.antt =====
-- src/exchanges: the four message parsers. The JSON library and the classes that protoc generates are not
-- in the repository; what the parsers use of them are the interfaces below.
pub mod Binance
pub mod Snapshot
pub mod Mexc
pub mod Levels
pub mod Laws
pub mod Tests
use arbitrage_engine.Base.{
  ℕ, ℤ, Bool, true, false, not, ◌||◌, ltb, if◌then◌else◌, List, [], ◌∷◌, Text, codes, Result, ok,
  thrown, ◌>>=◌, ◌>>◌,
}
use arbitrage_engine.Core.{PriceLevel}

-- The operations of `nlohmann::json` that the files call, on nodes `J`, with `std::stod`.
pub record Json (J W : Type 0) : Type 0 where
  -- `nlohmann::json::parse`
  pub parse : Text → Result J
  pub contains : J → Text → Bool
  -- `at(key)`, which throws without the key
  pub child : J → Text → Result J
  -- `== "…"`
  pub equals : J → Text → Bool
  pub is_string : J → Bool
  pub is_number : J → Bool
  pub is_array : J → Bool
  pub size : J → ℕ
  -- `[i]` on an array with more than `i` elements
  pub item : J → ℕ → J
  -- what a range loop visits
  pub elements : J → List J
  -- `get<std::string>()`, `get<double>()`, `get<std::uint64_t>()`, `get<std::int64_t>()`
  pub text : J → Result Text
  pub double : J → Result W
  pub u64 : J → Result ℕ
  pub i64 : J → Result ℤ
  pub stod : Text → Result W

module _ {J W : Type 0} (j : Json J W) where
  unfoldable pub parse_double_from_json_string : J → Result W
  parse_double_from_json_string value =
      if j.is_string value
      then (do s ← j.text value; j.stod s)
      else if j.is_number value
      then j.double value
      else thrown (codes "Expected price/quantity as string or number")

  -- The test by which `parse_levels` skips an element.
  abbrev pub is_skipped : J → Bool
  is_skipped level = not (j.is_array level) || ltb (j.size level) 2

  unfoldable pub parse_level : J → Result (PriceLevel W)
  parse_level level = do
    price ← parse_double_from_json_string (j.item level 0)
    quantity ← parse_double_from_json_string (j.item level 1)
    ok (record { price = price; quantity = quantity })

  -- The loop of `parse_levels`.
  unfoldable pub parse_elements : List J → Result (List (PriceLevel W))
  parse_elements [] = ok []
  parse_elements (level ∷ levels) =
      let rest = parse_elements levels in
      if is_skipped level then rest else (do l ← parse_level level; ls ← rest; ok (l ∷ ls))

  unfoldable pub parse_levels : J → Result (List (PriceLevel W))
  parse_levels levels = parse_elements (j.elements levels)
