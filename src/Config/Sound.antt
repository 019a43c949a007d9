-- ===== src/Config/Sound.antt =====
-- What `load_config` guarantees to the code that runs on the configuration.
use arbitrage_engine.Base.{
  ok_injective, bind_ok, ◌<◌, ◌≡◌, ◌≢◌, refl, ◌⊎◌, ap, subst, inl, inr, Bool, true, false, ◌&&◌,
  not, ◌==◌, List, [], ◌∷◌, arith, Text, All, Result, ok, ◌>>=◌,
}
use arbitrage_engine.Strings.{to_upper}
use arbitrage_engine.Strings.Laws.{upper-upper, upper_empty}
use arbitrage_engine.Core.{Exchange}
use arbitrage_engine.Config.{ExchangeSettings, default_exchange, Config}
use arbitrage_engine.Config.Load.{
  Yaml, Defaults, guard, is_empty, when, check_exchange, read_exchange, parse_exchange_settings,
  read_symbols, load_symbols, load_exchanges, load_config, load_log_level, load_market_data,
  load_arbitrage, load_fees,
}
use arbitrage_engine.Planner.{Group, plan}
use arbitrage_engine.Planner.Laws.{IsPlan, plan-IsPlan}

-- An exchange that is switched on has an address and room for a stream.
abbrev pub IsUsable : ExchangeSettings → Type 0
IsUsable s = s.enabled ≡ true → (s.ws_base_url ≢ []) × (0 < s.max_streams_per_connection)

-- A name of a symbol, in upper case.
abbrev pub IsSymbol : Text → Type 0
IsSymbol s = (s ≢ []) × (to_upper s ≡ s)

pub record IsLoaded {W : Type 0} (c : Config W) : Type 0 where
  pub some_symbol : c.symbols ≢ []
  pub all_symbols : All IsSymbol c.symbols
  pub binance_usable : IsUsable c.binance
  pub mexc_usable : IsUsable c.mexc

when_ok :
    {A : Type 0} (c : Bool) (a : A) (r : Result A) (b : A)
    → when c a r ≡ ok b
    → (r ≡ ok b) ⊎ (a ≡ b)
when_ok true a r b h = inl h
when_ok false a r b h = inr (ok_injective h)

guard_ok :
    {B : Type 0} (c : Bool) (e : Text) (r : Result B) (b : B)
    → (guard c e >>= λ _. r) ≡ ok b
    → (c ≡ true) × (r ≡ ok b)
guard_ok true e r b h = (refl, h)
guard_ok false e r b h = absurd (cc)

nonempty_of : {A : Type 0} (xs : List A) → not (is_empty xs) ≡ true → xs ≢ []
nonempty_of [] h = absurd (cc)
nonempty_of (x ∷ xs) h = ground arith

default-IsUsable : IsUsable default_exchange
default-IsUsable = ground arith

both-IsUsable :
    {s t s' t' : ExchangeSettings}
    → ◌≡◌ {A = ExchangeSettings × ExchangeSettings} (s', t') (s, t)
    → IsUsable s'
    → IsUsable t'
    → IsUsable s × IsUsable t
both-IsUsable h u v = (subst IsUsable (ap (λ p. p.0) h) u, subst IsUsable (ap (λ p. p.1) h) v)

usable :
    (s : ExchangeSettings)
    → not (s.enabled && is_empty s.ws_base_url) ≡ true
    → not (s.enabled && (s.max_streams_per_connection == 0)) ≡ true
    → IsUsable s
usable s h k e = (nonempty_of s.ws_base_url (ground (arith, h, e)), ground (arith, k, e))

check_exchange-IsUsable : (s t : ExchangeSettings) → check_exchange s ≡ ok t → IsUsable t
unfolding check_exchange
check_exchange-IsUsable s t h =
    let (address, h1) = guard_ok (not (s.enabled && is_empty s.ws_base_url)) _ _ t h in
    let (room, h2) = guard_ok (not (s.enabled && (s.max_streams_per_connection == 0))) _ _ t h1 in
    subst IsUsable (ok_injective h2) (usable s address room)

module _ {N W : Type 0} (y : Yaml N W) where
  parse-IsUsable :
      (node : N) (s : ExchangeSettings) → parse_exchange_settings y node ≡ ok s → IsUsable s
  unfolding parse_exchange_settings
  parse-IsUsable node s h = elim (when_ok (y.is_defined node) _ _ s h) [
    | inl h1 ↦
        let (r, (_, c)) = bind_ok (read_exchange y node) _ s h1 in check_exchange-IsUsable r s c
    | inr e ↦ subst IsUsable e default-IsUsable
  ]

  read_symbols-All :
      (ns : List N) (symbols : List Text) → read_symbols y ns ≡ ok symbols → All IsSymbol symbols
  unfolding read_symbols
  read_symbols-All [] symbols h = subst (All IsSymbol) (ok_injective h) tt
  read_symbols-All (n ∷ ns) symbols h =
      let (symbol, (_, h1)) = bind_ok (y.text n) _ symbols h in
      let (nonempty, h2) = guard_ok (not (is_empty symbol)) _ _ symbols h1 in
      let (rest, (e, h3)) = bind_ok (read_symbols y ns) _ symbols h2 in
      subst (All IsSymbol) (ok_injective h3) (
        (upper_empty symbol (nonempty_of symbol nonempty), upper-upper symbol),
        read_symbols-All ns rest e,
      )

  load_symbols_ok :
      (root : N) (symbols : List Text)
      → load_symbols y root ≡ ok symbols
      → (symbols ≢ []) × All IsSymbol symbols
  unfolding load_symbols
  load_symbols_ok root symbols h =
      let (node, (_, h1)) = bind_ok (y.child root _) _ symbols h in
      let (_, h2) = guard_ok (y.is_defined node && y.is_sequence node) _ _ symbols h1 in
      let (read, (e, h3)) = bind_ok (read_symbols y (y.elements node)) _ symbols h2 in
      let (nonempty, h4) = guard_ok (not (is_empty read)) _ _ symbols h3 in
      subst (λ r. (r ≢ []) × All IsSymbol r) (ok_injective h4)
        (nonempty_of read nonempty, read_symbols-All (y.elements node) read e)

  load_exchanges_ok :
      (root : N) (binance mexc : ExchangeSettings)
      → load_exchanges y root ≡ ok (binance, mexc)
      → IsUsable binance × IsUsable mexc
  unfolding load_exchanges
  load_exchanges_ok root binance mexc h =
      let (node, (_, h1)) = bind_ok (y.child root _) _ (binance, mexc) h in
      elim (when_ok (y.is_defined node) _ _ (binance, mexc) h1) [
        | inl h2 ↦
            let (b, (_, h3)) = bind_ok (y.child node _) _ (binance, mexc) h2 in
            let (b', (c, h4)) = bind_ok (parse_exchange_settings y b) _ (binance, mexc) h3 in
            let (m, (_, h5)) = bind_ok (y.child node _) _ (binance, mexc) h4 in
            let (m', (c', h6)) = bind_ok (parse_exchange_settings y m) _ (binance, mexc) h5 in
            both-IsUsable (ok_injective h6) (parse-IsUsable b b' c) (parse-IsUsable m m' c')
        | inr e ↦ both-IsUsable e default-IsUsable default-IsUsable
      ]

  -- A configuration that loads, whatever the YAML library returns for the file, has a symbol; its symbols
  -- are not empty and in upper case; and an exchange that is enabled has an address and a positive
  -- number of streams for a connection.
  pub load_config-IsLoaded :
      (defaults : Defaults W) (path : Text) (c : Config W)
      → load_config y defaults path ≡ ok c
      → IsLoaded c
  unfolding load_config
  load_config-IsLoaded defaults path c h =
      let (root, (_, h1)) = bind_ok (y.load_file path) _ c h in
      let (level, (_, h2)) = bind_ok (load_log_level y root) _ c h1 in
      let (market, (_, h3)) = bind_ok (load_market_data y root) _ c h2 in
      let (symbols, (s, h4)) = bind_ok (load_symbols y root) _ c h3 in
      let (exchanges, (e, h5)) = bind_ok (load_exchanges y root) _ c h4 in
      let (arbitrage, (_, h6)) = bind_ok (load_arbitrage y defaults root) _ c h5 in
      let (fees, (_, h7)) = bind_ok (load_fees y defaults root) _ c h6 in
      let (some_symbol, all_symbols) = load_symbols_ok root symbols s in
      let (binance, mexc) = load_exchanges_ok root exchanges.0 exchanges.1 e in
      subst IsLoaded (ok_injective h7) (record {
        some_symbol = some_symbol;
        all_symbols = all_symbols;
        binance_usable = binance;
        mexc_usable = mexc;
      })

  -- On a configuration that loads, planning the connections of an exchange that is enabled does not
  -- throw, and it serves all the symbols of the configuration.
  pub plan-load_config :
      (defaults : Defaults W) (path : Text) (c : Config W)
      → load_config y defaults path ≡ ok c
      → c.binance.enabled ≡ true
      → (gs : List Group) × ((plan Exchange.binance c.symbols c.binance.max_streams_per_connection
            ≡ ok gs)
          × IsPlan Exchange.binance c.binance.max_streams_per_connection 0 c.symbols gs)
  plan-load_config defaults path c h e =
      plan-IsPlan Exchange.binance c.symbols c.binance.max_streams_per_connection
        ((load_config-IsLoaded defaults path c h).binance_usable e).1
