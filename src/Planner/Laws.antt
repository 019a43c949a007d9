-- ===== src/Planner/Laws.antt =====
-- What the groups of `SubscriptionPlanner::plan` are.
use arbitrage_engine.Base.{
  false, ℕ, zero, suc, ◌≤◌, ◌<◌, ◌≡◌, refl, ap, ◌∙◌, List, [], ◌∷◌, ◌++◌, map, arith, length, take,
  drop, inc64, Text, ok, All, ◌==◌, length-append,
}
use arbitrage_engine.Core.{Exchange}
use arbitrage_engine.Planner.{
  Group, build_stream_name, target_of, build_binance_combined_target, make_group, plan_from, plan,
}

abbrev pub all_symbols : List Group → List Text
all_symbols [] = []
all_symbols (g ∷ gs) = g.symbols ++ all_symbols gs

-- Every connection but the last carries the allowed number of streams, and the last one at least one.
abbrev pub AreFull : ℕ → List Group → Type 0
AreFull max [] = Unit
AreFull max (g ∷ []) = (0 < length g.symbols) × (length g.symbols ≤ max)
AreFull max (g ∷ h ∷ gs) = (length g.symbols ≡ max) × AreFull max (h ∷ gs)

abbrev pub AreNumbered : ℕ → List Group → Type 0
AreNumbered index [] = Unit
AreNumbered index (g ∷ gs) = (g.connection_index ≡ index) × AreNumbered (inc64 index) gs

-- A Binance connection asks for its streams in the target, a MEXC one subscribes to them.
abbrev pub IsTarget : Exchange → Group → Type 0
IsTarget Exchange.binance g = build_binance_combined_target g.streams ≡ ok g.websocket_target
IsTarget Exchange.mexc g = g.websocket_target ≡ []

-- The streams and the target of a group are those of its symbols.
pub record IsGroup (e : Exchange) (g : Group) : Type 0 where
  pub of_exchange : g.exchange ≡ e
  pub of_symbols : g.streams ≡ map (build_stream_name e) g.symbols
  pub of_streams : target_of e g.streams ≡ ok g.websocket_target
  pub of_target : IsTarget e g

pub record IsPlan (e : Exchange) (max index : ℕ) (symbols : List Text) (gs : List Group)
    : Type 0 where
  pub covers : all_symbols gs ≡ symbols
  pub full : AreFull max gs
  pub numbered : AreNumbered index gs
  pub groups : All (IsGroup e) gs

take-drop : (n : ℕ) (xs : List Text) → take n xs ++ drop n xs ≡ xs
take-drop zero xs = refl
take-drop (suc n) [] = refl
take-drop (suc n) (x ∷ xs) = ap (λ r. x ∷ r) (take-drop n xs)

length-take : (n : ℕ) (xs : List Text) → length (take n xs) ≤ n
length-take zero xs = omega arith
length-take (suc n) [] = omega arith
length-take (suc n) (x ∷ xs) = omega (arith, length-take n xs)

length-drop : (n : ℕ) (xs : List Text) → length (drop n xs) ≤ length xs
length-drop zero xs = omega arith
length-drop (suc n) [] = omega arith
length-drop (suc n) (x ∷ xs) = omega (arith, length-drop n xs)

take_full : (n : ℕ) (xs : List Text) → 0 < length (drop n xs) → length (take n xs) ≡ n
take_full zero xs h = refl
take_full (suc n) [] h = omega arith
take_full (suc n) (x ∷ xs) h = ap suc (take_full n xs h)

first_nonempty :
    (max : ℕ) (g : Group) (gs : List Group) → 0 < max → AreFull max (g ∷ gs) → 0 < length g.symbols
first_nonempty max g [] p h = h.0
first_nonempty max g (h' ∷ gs) p h = omega (arith, h.0)

AreFull_cons :
    (n : ℕ) (s : Text) (ss : List Text) (g : Group) (gs : List Group)
    → g.symbols ≡ s ∷ take n ss
    → all_symbols gs ≡ drop n ss
    → AreFull (suc n) gs
    → AreFull (suc n) (g ∷ gs)
AreFull_cons n s ss g [] e c h = rw e (omega arith, omega (arith, length-take n ss))
AreFull_cons n s ss g (g' ∷ gs) e c h = (
  ap length e
      ∙ ap suc (
          take_full n ss (grind (arith, first_nonempty (suc n) g' gs, length-append, ap length c))),
  h,
)

make_group_total :
    (e : Exchange) (index : ℕ) (s : Text) (ss : List Text)
    → (g : Group) × ((make_group e index (s ∷ ss) ≡ ok g)
        × (IsGroup e g × ((g.symbols ≡ s ∷ ss) × (g.connection_index ≡ index))))
unfolding make_group target_of build_binance_combined_target
make_group_total Exchange.binance index s ss = (
  _,
  (
    refl,
    (
      record { of_exchange = refl; of_symbols = refl; of_streams = refl; of_target = refl },
      (refl, refl),
    ),
  ),
)
make_group_total Exchange.mexc index s ss = (
  _,
  (
    refl,
    (
      record { of_exchange = refl; of_symbols = refl; of_streams = refl; of_target = refl },
      (refl, refl),
    ),
  ),
)

plan_from_total :
    (fuel : ℕ) (e : Exchange) (n index : ℕ) (ss : List Text)
    → length ss ≤ fuel
    → (gs : List Group) × ((plan_from fuel e (suc n) index ss ≡ ok gs)
        × IsPlan e (suc n) index ss gs)
unfolding plan_from
plan_from_total fuel e n index [] h =
    ([], (refl, record { covers = refl; full = tt; numbered = tt; groups = tt }))
plan_from_total zero e n index (s ∷ ss) h = ground arith
plan_from_total (suc fuel) e n index (s ∷ ss) h =
    let (g, (made, (is_group, (symbols, number)))) = make_group_total e index s (take n ss) in
    let (gs, (planned, is_plan)) =
      plan_from_total fuel e n (inc64 index) (drop n ss) (omega (arith, h, length-drop n ss)) in
    (
      g ∷ gs,
      (
        rw (made, planned) refl,
        record {
          covers =
              ap (λ r. r ++ all_symbols gs) symbols
              ∙ ap (λ r. (s ∷ take n ss) ++ r) is_plan.covers
              ∙ ap (λ r. s ∷ r) (take-drop n ss);
          full = AreFull_cons n s ss g gs symbols is_plan.covers is_plan.full;
          numbered = (number, is_plan.numbered);
          groups = (is_group, is_plan.groups);
        },
      ),
    )

suc_eq : (n : ℕ) → (suc n == 0) ≡ false
suc_eq n = ground arith

-- With a positive limit the plan never throws, whatever the symbols: its groups hold the symbols in
-- order, every group but the last holds the allowed number of them and none is empty, the groups are
-- numbered from 0 in 64 bits, and each has the streams of its symbols and the target of its streams, which for MEXC is empty.
pub plan-IsPlan :
    (e : Exchange) (symbols : List Text) (max : ℕ)
    → 0 < max
    → (gs : List Group) × ((plan e symbols max ≡ ok gs) × IsPlan e max 0 symbols gs)
unfolding plan
plan-IsPlan e symbols zero p = absurd (omega arith)
plan-IsPlan e symbols (suc n) p =
    rw (suc_eq n) (plan_from_total (length symbols) e n 0 symbols (omega arith))
