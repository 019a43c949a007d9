-- ===== src/Endpoint/Laws.antt =====
-- What the two URL functions accept, and the parts that they return.
use arbitrage_engine.Base.{
  ok_injective, ℕ, zero, suc, subst, ◌+◌, ◌≡◌, ◌≢◌, refl, sym, ◌∙◌, inl, inr, some, false, [], ◌∷◌,
  arith, take, drop, Text, codes, text_eq, text_eq_iff, ok, head?, Bool-cases, Option-cases,
}
use arbitrage_engine.Strings.{find}
use arbitrage_engine.Strings.Laws.{Lacks, take-find, find-none}
use arbitrage_engine.Endpoint.{
  Endpoint, Errors, slash, colon, is_empty, host_port_of, host_of, port_of, target_of, endpoint_of,
  make_endpoint, make_ws_endpoint, make_https_endpoint, ws_errors, https_errors,
}

-- The parts of an accepted URL.
pub record IsEndpoint (scheme target : Text) (e : Endpoint) : Type 0 where
  pub of_scheme : e.scheme ≡ scheme
  pub has_host : e.host ≢ []
  pub has_port : e.port ≢ []
  pub host_colon : Lacks colon e.host
  pub host_slash : Lacks slash e.host
  pub port_slash : Lacks slash e.port
  pub asked : e.target ≡ target_of target
  pub absolute : head? e.target ≡ some slash

host_port-Lacks : (rest : Text) → Lacks slash (host_port_of rest)
unfolding host_port_of
host_port-Lacks rest = elim (Option-cases (find (slash ∷ []) rest)) [
  | inl e ↦ rw (e, host_port_of) (find-none slash rest e)
  | inr (n, e) ↦ rw (e, host_port_of) (take-find slash rest n e)
]

take-Lacks : (c n : ℕ) (s : Text) → Lacks c s → Lacks c (take n s)
take-Lacks c zero s h = tt
take-Lacks c (suc n) [] h = tt
take-Lacks c (suc n) (b ∷ s) h = (h.0, take-Lacks c n s h.1)

drop-Lacks : (c n : ℕ) (s : Text) → Lacks c s → Lacks c (drop n s)
drop-Lacks c zero s h = h
drop-Lacks c (suc n) [] h = tt
drop-Lacks c (suc n) (b ∷ s) h = drop-Lacks c n s h.1

host-Lacks : (h : Text) → Lacks slash h → Lacks colon (host_of h) × Lacks slash (host_of h)
unfolding host_of
host-Lacks h l = elim (Option-cases (find (colon ∷ []) h)) [
  | inl e ↦ rw (e, host_of) (find-none colon h e, l)
  | inr (n, e) ↦ rw (e, host_of) (take-find colon h n e, take-Lacks slash n h l)
]

port-Lacks : (h : Text) → Lacks slash h → Lacks slash (port_of h)
unfolding port_of
port-Lacks h l = elim (Option-cases (find (colon ∷ []) h)) [
  | inl e ↦ rw (e, port_of) (ground arith)
  | inr (n, e) ↦ rw (e, port_of) (drop-Lacks slash (n + 1) h l)
]

target_absolute : (t : Text) → head? (target_of t) ≡ some slash
unfolding target_of
target_absolute [] = refl
target_absolute (c ∷ s) = ground arith

not_empty : (s : Text) → is_empty s ≡ false → s ≢ []
not_empty [] h = absurd (cc)
not_empty (c ∷ s) h = ground arith

endpoint_of-IsEndpoint :
    (errors : Errors) (scheme h target : Text) (e : Endpoint)
    → Lacks slash h
    → endpoint_of errors scheme h target ≡ ok e
    → IsEndpoint scheme target e
unfolding endpoint_of
endpoint_of-IsEndpoint errors scheme h target e l r = elim (Bool-cases (is_empty (host_of h))) [
  | inl i ↦ absurd (ground (arith, i, r))
  | inr i ↦ elim (Bool-cases (is_empty (port_of h))) [
    | inl j ↦ absurd (ground (arith, i, j, r))
    | inr j ↦ subst (IsEndpoint scheme target) (ok_injective (sym (rw (i, j) refl) ∙ r)) (record {
      of_scheme = refl;
      has_host = not_empty (host_of h) i;
      has_port = not_empty (port_of h) j;
      host_colon = (host-Lacks h l).0;
      host_slash = (host-Lacks h l).1;
      port_slash = port-Lacks h l;
      asked = refl;
      absolute = target_absolute target;
    })
  ]
]

make_endpoint-IsEndpoint :
    (scheme : Text) (errors : Errors) (url target : Text) (e : Endpoint)
    → make_endpoint scheme errors url target ≡ ok e
    → IsEndpoint scheme target e
unfolding make_endpoint
make_endpoint-IsEndpoint scheme errors url target e r =
    elim (Option-cases (find (codes "://") url)) [
      | inl f ↦ absurd (ground (arith, f, r))
      | inr (n, f) ↦ elim (Bool-cases (text_eq (take n url) scheme)) [
        | inl i ↦
            subst (λ s. IsEndpoint s target e) ((text_eq_iff (take n url) scheme).0 i)
              (endpoint_of-IsEndpoint errors (take n url) (host_port_of (drop (n + 3) url)) target e
                (host_port-Lacks (drop (n + 3) url)) (sym (rw (make_endpoint, f, i) refl) ∙ r))
        | inr i ↦ absurd (ground (arith, f, i, r))
      ]
    ]

-- What `make_ws_endpoint` returns has the scheme wss, a host and a port that are not empty, no slash in
-- either and no colon in the host, and the target that was asked for, after a slash if it had none.
pub make_ws_endpoint-IsEndpoint :
    (url target : Text) (e : Endpoint)
    → make_ws_endpoint url target ≡ ok e
    → IsEndpoint (codes "wss") target e
unfolding make_ws_endpoint
make_ws_endpoint-IsEndpoint = make_endpoint-IsEndpoint (codes "wss") ws_errors

-- What `make_https_endpoint` returns has the scheme https, a host and a port that are not empty, no
-- slash in either and no colon in the host, and the target that was asked for, after a slash if it had none.
pub make_https_endpoint-IsEndpoint :
    (url target : Text) (e : Endpoint)
    → make_https_endpoint url target ≡ ok e
    → IsEndpoint (codes "https") target e
unfolding make_https_endpoint
make_https_endpoint-IsEndpoint = make_endpoint-IsEndpoint (codes "https") https_errors
