-- ===== src/Endpoint/Tests.antt =====
-- The two URL functions on concrete texts.
use arbitrage_engine.Base.{◌≡◌, refl, ◌++◌, [], arith, codes, Text, ok, thrown, text_eq}
use arbitrage_engine.Strings.{find, starts_with}
use arbitrage_engine.Endpoint.{
  Endpoint, make_endpoint, make_ws_endpoint, make_https_endpoint, host_port_of, host_of, port_of,
  target_of, endpoint_of,
}
use arbitrage_engine.Endpoint.Print.{IsTarget, authority, endpoint, make_ws_endpoint_print}

abbrev mexc : Endpoint
mexc = record {
  scheme = codes "wss";
  host = codes "w.mexc";
  port = codes "443";
  target = codes "/ws";
}

ws : make_ws_endpoint (codes "wss://w.mexc") (codes "ws") ≡ ok mexc
unfolding make_ws_endpoint make_endpoint find starts_with host_port_of host_of port_of target_of
    endpoint_of text_eq
ws = refl

abbrev rest : Endpoint
rest = record { scheme = codes "https"; host = codes "h"; port = codes "8080"; target = codes "/" }

https : make_https_endpoint (codes "https://h:8080/x") [] ≡ ok rest
unfolding make_https_endpoint make_endpoint find starts_with host_port_of host_of port_of target_of
    endpoint_of text_eq
https = refl

plain :
    make_ws_endpoint (codes "ws://h") []
    ≡ thrown (codes "Only wss:// WebSocket endpoints are supported for now")
unfolding make_ws_endpoint make_endpoint find starts_with text_eq
plain = refl

make_ws_endpoint_print_example :
    (t : Text) × (IsTarget (codes "t") t
      × (make_ws_endpoint
            (codes "wss://" ++ authority (codes "ab") (codes "80") (codes "x"))
            (codes "t")
          ≡ ok (endpoint (codes "wss") (codes "ab") (codes "80") t)))
make_ws_endpoint_print_example =
    make_ws_endpoint_print (codes "ab") (codes "80") (codes "x") (codes "t") (ground arith)
