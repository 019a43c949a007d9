-- ===== src/Planner/Target.antt =====
-- The target of a Binance connection names its streams.
use arbitrage_engine.Base.{
  ℕ, ◌≡◌, refl, ap, List, [], ◌∷◌, ◌++◌, arith, Text, codes, ok, All, if◌then◌else◌, ◌==◌,
}
use arbitrage_engine.Strings.Laws.{Lacks}
use arbitrage_engine.Planner.{append_streams, build_binance_combined_target}

-- A reader of the target's list of streams: the text is cut at each slash.
abbrev pub push_byte : ℕ → List Text → List Text
push_byte c [] = (c ∷ []) ∷ []
push_byte c (t ∷ ts) = (c ∷ t) ∷ ts

unfoldable pub cut : Text → List Text
cut [] = [] ∷ []
cut (c ∷ s) = let rest = cut s in if c == 47 then [] ∷ rest else push_byte c rest

cut-Lacks :
    (s t : Text) (rest : List Text) → Lacks 47 s → cut t ≡ [] ∷ rest → cut (s ++ t) ≡ s ∷ rest
unfolding cut
cut-Lacks [] t rest h e = e
cut-Lacks (c ∷ s) t rest h e = ground (arith, cut-Lacks s t rest h.1 e)

cut-append_streams : (ss : List Text) → All (Lacks 47) ss → cut (append_streams ss) ≡ [] ∷ ss
unfolding cut append_streams
cut-append_streams [] h = refl
cut-append_streams (s ∷ ss) (l, h) =
    ap (λ r. [] ∷ r) (cut-Lacks s (append_streams ss) ss l (cut-append_streams ss h))

-- The combined target of at least one stream is "/stream?streams=" before a text that, cut at its
-- slashes, gives the streams in order, when no stream has a slash in its name.
pub cut-build_binance_combined_target :
    (s : Text) (ss : List Text)
    → All (Lacks 47) (s ∷ ss)
    → (t : Text) × ((build_binance_combined_target (s ∷ ss) ≡ ok (codes "/stream?streams=" ++ t))
        × (cut t ≡ s ∷ ss))
unfolding build_binance_combined_target
cut-build_binance_combined_target s ss (l, h) =
    (s ++ append_streams ss, (refl, cut-Lacks s (append_streams ss) ss l (cut-append_streams ss h)))
