-- ===== src/Fetch/Laws.antt =====
-- What a fetched snapshot is an answer to, and that the local book of its symbol takes it for its own.
use arbitrage_engine.Base.{
  ℤ, ◌≡◌, inl, inr, refl, sym, subst, true, not, ◌==◌, ◌||◌, ◌++◌, arith, Text, codes, ok,
  ok_injective, bind_ok, Bool-cases, text_eq_refl,
}
use arbitrage_engine.Double.{Double}
use arbitrage_engine.Core.{Exchange, BookSnapshot}
use arbitrage_engine.Config.{Config}
use arbitrage_engine.LocalBook.{LocalBook, snapshot_belongs, apply_snapshot}
use arbitrage_engine.LocalBook.Outcome.{Answers, load_snapshot-Answers}
use arbitrage_engine.Strings.{int_text}
use arbitrage_engine.Strings.Decimal.{IsIntText, int_text-IsIntText}
use arbitrage_engine.Endpoint.{Endpoint, target_of, make_https_endpoint, https_host_header}
use arbitrage_engine.Endpoint.Laws.{make_https_endpoint-IsEndpoint}
use arbitrage_engine.Client.{Send, Request, Response, request_of, get}
use arbitrage_engine.Parser.{Json, parse_levels}
use arbitrage_engine.Parser.Levels.{levels_iff}
use arbitrage_engine.Parser.Laws.{Has, HasLevels}
use arbitrage_engine.Parser.Snapshot.{
  Missing, read_snapshot, check_snapshot, parse_snapshot, parse_binance, parse_mexc,
}
use arbitrage_engine.Fetch.{depth_target, settings_of, parse_body, fetch_snapshot}

-- The request asks for the depth of the symbol, with a numeral of the limit.
pub record AsksDepth (symbol : Text) (limit : ℤ) (request : Request) : Type 0 where
  pub limit_text : Text
  pub of_limit : IsIntText limit limit_text
  pub of_target :
      request.target ≡ codes "/api/v3/depth?symbol=" ++ (symbol ++ (codes "&limit=" ++ limit_text))

request_of-AsksDepth :
    (symbol : Text) (limit : ℤ) (e : Endpoint)
    → e.target ≡ target_of (depth_target symbol limit)
    → AsksDepth symbol limit (request_of e)
unfolding depth_target target_of request_of
request_of-AsksDepth symbol limit e h = record {
  limit_text = int_text limit;
  of_limit = int_text-IsIntText limit;
  of_target = h;
}

-- The request goes to the host and the port of the endpoint.
abbrev pub IsSentTo : Endpoint → Request → Type 0
IsSentTo e request =
    (request.host ≡ e.host)
    × (request.port ≡ e.port)
    × (request.host_header ≡ e.host ++ (codes ":" ++ e.port))

request_of-IsSentTo : (e : Endpoint) → IsSentTo e (request_of e)
unfolding request_of https_host_header
request_of-IsSentTo e = (refl, refl, refl)

abbrev pub base_url : {W : Type 0} → Exchange → Config W → Text
base_url Exchange.binance c = c.binance.rest_base_url
base_url Exchange.mexc c = c.mexc.rest_base_url

settings_url :
    {W : Type 0} (e : Exchange) (c : Config W) → (settings_of e c).rest_base_url ≡ base_url e c
settings_url Exchange.binance c = refl
settings_url Exchange.mexc c = refl

belongs :
    {W : Type 0} (e : Exchange) (m : LocalBook W) (s : BookSnapshot W)
    → s.exchange ≡ e
    → s.symbol ≡ m.symbol
    → snapshot_belongs e m s ≡ true
belongs Exchange.binance m s x y = rw (x, y) (text_eq_refl m.symbol)
belongs Exchange.mexc m s x y = rw (x, y) (text_eq_refl m.symbol)

module _ {J W : Type 0} (j : Json J W) where
  -- The body is a depth answer with the contents of the snapshot, read for an exchange and a symbol.
  pub record ShowsSnapshot (e : Exchange) (now : ℤ) (symbol body : Text) (s : BookSnapshot W)
      : Type 0 where
    pub root : J
    pub of_body : j.parse body ≡ ok root
    pub of_exchange : s.exchange ≡ e
    pub of_symbol : s.symbol ≡ symbol
    pub of_bids : HasLevels j root (codes "bids") s.bids
    pub of_asks : HasLevels j root (codes "asks") s.asks
    pub of_id : Has j j.u64 root (codes "lastUpdateId") s.last_update_id
    pub of_receive_time : s.local_receive_time_ms ≡ now

  read_snapshot-Shows :
      (e : Exchange) (now : ℤ) (symbol body : Text) (root : J) (s : BookSnapshot W)
      → j.parse body ≡ ok root
      → read_snapshot j e now symbol root ≡ ok s
      → ShowsSnapshot e now symbol body s
  unfolding read_snapshot
  read_snapshot-Shows e now symbol body root s p h =
      let (b, (cb, h)) = bind_ok (j.child root _) _ s h in
      let (bids, (pb, h)) = bind_ok (parse_levels j b) _ s h in
      let (a, (ca, h)) = bind_ok (j.child root _) _ s h in
      let (asks, (pa, h)) = bind_ok (parse_levels j a) _ s h in
      let (i, (ci, h)) = bind_ok (j.child root _) _ s h in
      let (last, (pi, h)) = bind_ok (j.u64 i) _ s h in
      subst (ShowsSnapshot e now symbol body) (ok_injective h) (record {
        root = root;
        of_body = p;
        of_exchange = refl;
        of_symbol = refl;
        of_bids = (b, (cb, (levels_iff j b bids).0 pb));
        of_asks = (a, (ca, (levels_iff j a asks).0 pa));
        of_id = (i, (ci, pi));
        of_receive_time = refl;
      })

  parse_snapshot-Shows :
      (e : Exchange) (missing : Missing) (now : ℤ) (symbol body : Text) (s : BookSnapshot W)
      → parse_snapshot j e missing now body symbol ≡ ok s
      → ShowsSnapshot e now symbol body s
  unfolding parse_snapshot check_snapshot
  parse_snapshot-Shows e missing now symbol body s h =
      let (root, (p, h)) = bind_ok (j.parse body) _ s h in
      elim (Bool-cases (j.contains root (codes "lastUpdateId"))) [
        | inr i ↦ absurd (ground (arith, rw (check_snapshot, i) at h))
        | inl i ↦
            elim (Bool-cases
              (not (j.contains root (codes "bids")) || not (j.contains root (codes "asks")))) [
                | inl k ↦ absurd (ground (arith, rw (check_snapshot, i, k) at h))
                | inr k ↦
                    read_snapshot-Shows e now symbol body root s p (rw (check_snapshot, i, k) at h)
              ]
      ]

  parse_body-Shows :
      (e : Exchange) (now : ℤ) (symbol body : Text) (s : BookSnapshot W)
      → parse_body j e now body symbol ≡ ok s
      → ShowsSnapshot e now symbol body s
  unfolding parse_binance parse_mexc
  parse_body-Shows Exchange.binance now symbol body s h =
      parse_snapshot-Shows Exchange.binance _ now symbol body s h
  parse_body-Shows Exchange.mexc now symbol body s h =
      parse_snapshot-Shows Exchange.mexc _ now symbol body s h

  -- The request that was sent and the answer that came back.
  pub record IsFetched (send : Send) (e : Exchange) (now : ℤ) (config : Config W) (symbol : Text)
      (s : BookSnapshot W) : Type 0 where
    pub endpoint : Endpoint
    pub request : Request
    pub response : Response
    pub asked : Text
    pub of_exchange : make_https_endpoint (base_url e config) asked ≡ ok endpoint
    pub over_tls : endpoint.scheme ≡ codes "https"
    pub sent_to : IsSentTo endpoint request
    pub asks : AsksDepth symbol config.market_data.book_snapshot_limit request
    pub answered : send request ≡ ok response
    pub is_ok : response.status ≡ 200
    pub shown : ShowsSnapshot e now symbol response.body s

  get_ok :
      (send : Send) (e : Endpoint) (body : Text)
      → get send e ≡ ok body
      → (r : Response) × ((send (request_of e) ≡ ok r) × ((r.status ≡ 200) × (r.body ≡ body)))
  unfolding get
  get_ok send e body h =
      let (r, (a, h)) = bind_ok (send (request_of e)) _ body h in
      elim (Bool-cases (r.status == 200)) [
        | inl q ↦ (r, (a, (ground (arith, q), ok_injective (rw q at h))))
        | inr q ↦ absurd (ground (arith, rw q at h))
      ]

  -- A snapshot that is fetched is what the exchange answered, with status 200, to a request over TLS to the
  -- host and port read from the exchange's REST URL, of the target `/api/v3/depth?symbol=S&limit=N`, with
  -- the symbol for S and a decimal numeral of the configured limit for N: it shows the levels and the
  -- identifier of the body, and is marked with the exchange, the symbol and the time of its receipt.
  pub fetch_snapshot-IsFetched :
      (send : Send) (e : Exchange) (now : ℤ) (config : Config W) (symbol : Text)
      (s : BookSnapshot W)
      → fetch_snapshot j send e now config symbol ≡ ok s
      → IsFetched send e now config symbol s
  unfolding fetch_snapshot
  fetch_snapshot-IsFetched send e now config symbol s h =
      let (endpoint, (m, h)) = bind_ok (make_https_endpoint _ _) _ s h in
      let target = depth_target symbol config.market_data.book_snapshot_limit in
      let place = make_https_endpoint-IsEndpoint _ _ endpoint m in
      let (body, (g, h)) = bind_ok (get send endpoint) _ s h in
      let (r, (a, (k, b))) = get_ok send endpoint body g in
      record {
        endpoint = endpoint;
        request = request_of endpoint;
        response = r;
        asked = target;
        of_exchange =
            subst (λ url. make_https_endpoint url target ≡ ok endpoint) (settings_url e config) m;
        over_tls = place.of_scheme;
        sent_to = request_of-IsSentTo endpoint;
        asks =
            request_of-AsksDepth symbol config.market_data.book_snapshot_limit endpoint place.asked;
        answered = a;
        is_ok = k;
        shown =
            subst (λ t. ShowsSnapshot e now symbol t s) (sym b)
              (parse_body-Shows e now symbol body s h);
      }

  -- The local book of a symbol takes a snapshot that is fetched for it: it ends ready with the snapshot
  -- applied, or asks for a new synchronisation, but never takes the snapshot for another book's.
  pub apply_snapshot-fetch_snapshot :
      ⦃d : Double W⦄ (send : Send) (e : Exchange) (now : ℤ) (config : Config W) (m : LocalBook W)
      (s : BookSnapshot W)
      → fetch_snapshot j send e now config m.symbol ≡ ok s
      → Answers (apply_snapshot e m s)
  unfolding apply_snapshot
  apply_snapshot-fetch_snapshot send e now config m s h =
      let shown = (fetch_snapshot-IsFetched send e now config m.symbol s h).shown in
      rw (belongs e m s shown.of_exchange shown.of_symbol) (load_snapshot-Answers m s)
