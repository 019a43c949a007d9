-- ===== src/Endpoint/Print.antt =====
-- A URL that is put together from its parts is taken apart into them.
use arbitrage_engine.Base.{◌≡◌, ◌≢◌, refl, false, [], ◌∷◌, ◌++◌, arith, Text, codes, ok, text_eq}
use arbitrage_engine.Strings.{find, starts_with}
use arbitrage_engine.Strings.Laws.{Lacks, find-append, take-append, drop_past-append, Lacks-append}
use arbitrage_engine.Endpoint.{
  Endpoint, Errors, slash, colon, is_empty, host_port_of, host_of, port_of, target_of, endpoint_of,
  make_endpoint, make_ws_endpoint, make_https_endpoint, ws_errors, https_errors,
}

-- `host:port/path`
abbrev pub authority : Text → Text → Text → Text
authority host port path = (host ++ (colon ∷ port)) ++ (slash ∷ path)

pub record IsAuthority (host port : Text) : Type 0 where
  pub has_host : host ≢ []
  pub has_port : port ≢ []
  pub host_colon : Lacks colon host
  pub host_slash : Lacks slash host
  pub port_slash : Lacks slash port

abbrev pub endpoint : Text → Text → Text → Text → Endpoint
endpoint scheme host port target = record {
  scheme = scheme;
  host = host;
  port = port;
  target = target;
}

-- The target that is asked for: `/` for the empty one, the text itself if it begins with a slash, and
-- else the text after a slash.
abbrev pub IsTarget : Text → Text → Type 0
IsTarget [] t = t ≡ codes "/"
IsTarget (c ∷ s) t = (c ≡ 47 → t ≡ c ∷ s) × (c ≢ 47 → t ≡ 47 ∷ (c ∷ s))

target_of-IsTarget : (target : Text) → IsTarget target (target_of target)
unfolding target_of
target_of-IsTarget [] = refl
target_of-IsTarget (c ∷ s) = ground arith

host_port-authority :
    (host port path : Text)
    → IsAuthority host port
    → host_port_of (authority host port path) ≡ host ++ (colon ∷ port)
unfolding host_port_of
host_port-authority host port path h =
    rw
      (
        host_port_of,
        find-append slash (host ++ (colon ∷ port)) path
            (Lacks-append slash host (colon ∷ port) h.host_slash ((ground arith), h.port_slash)),
      )
      (take-append (host ++ (colon ∷ port)) (slash ∷ path))

host-append : (host port : Text) → IsAuthority host port → host_of (host ++ (colon ∷ port)) ≡ host
unfolding host_of
host-append host port h =
    rw (host_of, find-append colon host port h.host_colon) (take-append host (colon ∷ port))

port-append : (host port : Text) → IsAuthority host port → port_of (host ++ (colon ∷ port)) ≡ port
unfolding port_of
port-append host port h =
    rw (port_of, find-append colon host port h.host_colon) (drop_past-append colon host port)

full : (s : Text) → s ≢ [] → is_empty s ≡ false
full [] h = absurd (h refl)
full (c ∷ s) h = refl

endpoint_of-authority :
    (errors : Errors) (scheme host port path target : Text)
    → IsAuthority host port
    → endpoint_of errors scheme (host_port_of (authority host port path)) target
      ≡ ok (endpoint scheme host port (target_of target))
unfolding endpoint_of
endpoint_of-authority errors scheme host port path target h =
    rw
      (
        host_port-authority host port path h,
        host-append host port h,
        port-append host port h,
        full host h.has_host,
        full port h.has_port,
      )
      refl

-- `wss://host:port/path` is read as its host and its port, with the target that is asked for, after a
-- slash if it does not begin with one; the host and the port are not empty, neither has a slash, and
-- the host has no colon.
pub make_ws_endpoint_print :
    (host port path target : Text)
    → IsAuthority host port
    → (t : Text) × (IsTarget target t
        × (make_ws_endpoint (codes "wss://" ++ authority host port path) target
            ≡ ok (endpoint (codes "wss") host port t)))
unfolding make_ws_endpoint make_endpoint find starts_with text_eq
make_ws_endpoint_print host port path target h =
    let e = endpoint_of-authority ws_errors (codes "wss") host port path target h in
    (target_of target, (target_of-IsTarget target, e))

-- `https://host:port/path` is read as its host and its port, with the target that is asked for, after
-- a slash if it does not begin with one; the host and the port are not empty, neither has a slash, and
-- the host has no colon.
pub make_https_endpoint_print :
    (host port path target : Text)
    → IsAuthority host port
    → (t : Text) × (IsTarget target t
        × (make_https_endpoint (codes "https://" ++ authority host port path) target
            ≡ ok (endpoint (codes "https") host port t)))
unfolding make_https_endpoint make_endpoint find starts_with text_eq
make_https_endpoint_print host port path target h =
    let e = endpoint_of-authority https_errors (codes "https") host port path target h in
    (target_of target, (target_of-IsTarget target, e))
