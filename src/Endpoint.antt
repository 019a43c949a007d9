-- ===== src/Endpoint.antt =====
-- src/net/WsEndpoint.hpp and src/net/HttpsEndpoint.hpp: the parts of a URL. The two functions differ in
-- the scheme that they take and in the texts of their errors, which are arguments here.
pub mod Laws
pub mod Print
mod Tests
use arbitrage_engine.Base.{
  ℕ, ◌+◌, Bool, true, false, not, Option, none, some, List, [], ◌∷◌, ◌++◌, ◌==◌, if◌then◌else◌,
  take, drop, Text, codes, text_eq, Result, ok, thrown,
}
use arbitrage_engine.Strings.{find}

-- `WsEndpoint`, and `HttpsEndpoint` with the same members.
pub record Endpoint : Type 0 where
  pub scheme : Text
  pub host : Text
  pub port : Text
  pub target : Text

pub record Errors : Type 0 where
  pub missing_scheme : Text
  pub unsupported : Text
  pub empty_host : Text
  pub empty_port : Text

abbrev pub slash : ℕ
slash = 47

abbrev pub colon : ℕ
colon = 58

abbrev pub is_empty : Text → Bool
is_empty [] = true
is_empty (c ∷ s) = false

-- `host_port`: the rest of the URL up to the first slash.
unfoldable pub host_port_of : Text → Text
host_port_of rest = elim (find (slash ∷ []) rest) [ none ↦ rest | some n ↦ take n rest ]

unfoldable pub host_of : Text → Text
host_of host_port = elim (find (colon ∷ []) host_port) [
  | none ↦ host_port
  | some n ↦ take n host_port
]

unfoldable pub port_of : Text → Text
port_of host_port = elim (find (colon ∷ []) host_port) [
  | none ↦ codes "443"
  | some n ↦ drop (n + 1) host_port
]

unfoldable pub target_of : Text → Text
target_of [] = codes "/"
target_of (c ∷ s) = if c == slash then c ∷ s else slash ∷ c ∷ s

-- The checks, and the object that is returned.
unfoldable pub endpoint_of : Errors → Text → Text → Text → Result Endpoint
endpoint_of errors scheme host_port target =
    if is_empty (host_of host_port)
    then thrown errors.empty_host
    else if is_empty (port_of host_port)
    then thrown errors.empty_port
    else ok (record {
      scheme = scheme;
      host = host_of host_port;
      port = port_of host_port;
      target = target_of target;
    })

unfoldable pub make_endpoint : Text → Errors → Text → Text → Result Endpoint
unfolding endpoint_of
make_endpoint supported errors base_url target = elim (find (codes "://") base_url) [
  | none ↦ thrown errors.missing_scheme
  | some n ↦
      if not (text_eq (take n base_url) supported)
      then thrown errors.unsupported
      else endpoint_of errors (take n base_url) (host_port_of (drop (n + 3) base_url)) target
]

abbrev pub ws_errors : Errors
ws_errors = record {
  missing_scheme = codes "Invalid WebSocket URL: missing scheme";
  unsupported = codes "Only wss:// WebSocket endpoints are supported for now";
  empty_host = codes "Invalid WebSocket URL: empty host";
  empty_port = codes "Invalid WebSocket URL: empty port";
}

unfoldable pub make_ws_endpoint : Text → Text → Result Endpoint
unfolding make_endpoint
make_ws_endpoint = make_endpoint (codes "wss") ws_errors

abbrev pub https_errors : Errors
https_errors = record {
  missing_scheme = codes "Invalid HTTPS URL: missing scheme";
  unsupported = codes "Only https:// endpoints are supported";
  empty_host = codes "Invalid HTTPS URL: empty host";
  empty_port = codes "Invalid HTTPS URL: empty port";
}

unfoldable pub make_https_endpoint : Text → Text → Result Endpoint
unfolding make_endpoint
make_https_endpoint = make_endpoint (codes "https") https_errors

-- `WsEndpoint::host_header` and `WsEndpoint::tls`
unfoldable pub ws_host_header : Endpoint → Text
ws_host_header e = if text_eq e.port (codes "443") then e.host else e.host ++ (codes ":" ++ e.port)

unfoldable pub tls : Endpoint → Bool
tls e = text_eq e.scheme (codes "wss")

-- `HttpsEndpoint::host_header`
unfoldable pub https_host_header : Endpoint → Text
https_host_header e = e.host ++ (codes ":" ++ e.port)
