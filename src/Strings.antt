-- ===== src/Strings.antt =====
-- What the sources use of `std::string`, <cctype> and <algorithm> on strings: `to_lower` and `to_upper`
-- as src/planner/SubscriptionPlanner.cpp, src/config/Config.cpp and src/main.cpp define them, `find`,
-- `substr` and `rfind(prefix, 0)`.
pub mod Laws
pub mod Decimal
use arbitrage_engine.Base.{
  ℤ, pos, negsuc, ◌/◌, ◌%◌, ℕ, zero, suc, ◌+◌, ◌-◌, Bool, true, false, ◌&&◌, Option, none, some,
  List, [], ◌∷◌, leb, ◌==◌, if◌then◌else◌, map, Text,
}
use mathlib.Core.Option

-- `std::tolower` and `std::toupper` of a byte in the "C" locale, the one that a program starts in.
abbrev pub lower_byte : ℕ → ℕ
lower_byte c = if leb 65 c && leb c 90 then c + 32 else c

abbrev pub upper_byte : ℕ → ℕ
upper_byte c = if leb 97 c && leb c 122 then c - 32 else c

unfoldable pub to_lower : Text → Text
to_lower s = map lower_byte s

unfoldable pub to_upper : Text → Text
to_upper s = map upper_byte s

-- `s.rfind(prefix, 0) == 0`
unfoldable pub starts_with : Text → Text → Bool
starts_with [] s = true
starts_with (p ∷ ps) [] = false
starts_with (p ∷ ps) (c ∷ s) = p == c && starts_with ps s

-- `s.find(pattern)`; `none` is `npos`.
unfoldable pub find : Text → Text → Option ℕ
unfolding starts_with
find p [] = if starts_with p [] then some 0 else none
find p (c ∷ s) =
    let rest = Option.map suc (find p s) in if starts_with p (c ∷ s) then some 0 else rest

-- The decimal digits of a number before a text, on fuel: a turn divides by ten.
unfoldable pub digits : ℕ → ℕ → Text → Text
digits zero n s = s
digits (suc fuel) n s =
    let rest = digits fuel (n / 10) ((48 + n % 10) ∷ s) in
    if n / 10 == 0 then (48 + n % 10) ∷ s else rest

-- `std::to_string` of an `unsigned` and of an `int`
unfoldable pub decimal : ℕ → Text
decimal n = digits (n + 1) n []

unfoldable pub int_text : ℤ → Text
int_text (pos n) = decimal n
int_text (negsuc n) = 45 ∷ decimal (n + 1)
