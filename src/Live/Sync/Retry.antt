-- ===== src/Live/Sync/Retry.antt =====
-- The retries of the snapshot request.
use arbitrage_engine.Base.{
  Result-cases, ℕ, zero, suc, ◌+◌, ◌≤◌, ◌<◌, ◌≡◌, sym, ap, ◌∙◌, ◌⊎◌, inl, inr, true, false, arith,
  ◌==◌, Text, Result, ok, thrown,
}
use arbitrage_engine.Live.Sync.{fetch_loop, fetch_snapshot_with_retries}

split : (attempt k : ℕ) → attempt ≤ k → (attempt ≡ k) ⊎ (attempt + 1 ≤ k)
split attempt k h = ground arith

same_attempt : (a b : ℕ) → a ≡ b → (a == b) ≡ true
same_attempt a b h = ground arith

other_attempt : (a b : ℕ) → a < b → (a == b) ≡ false
other_attempt a b h = ground arith

module _ {S : Type 0} (fetch : ℕ → Result S) where
  -- Every request from one attempt on to another, that one not included, fails.
  abbrev pub FailsBetween : ℕ → ℕ → Type 0
  FailsBetween first last = (k : ℕ) → first ≤ k → k < last → (t : Text) × (fetch k ≡ thrown t)

  -- The first request that gives a snapshot gives the result; if none does, the last failure does.
  pub record IsRetried (max_attempts first : ℕ) (r : Result S) : Type 0 where
    pub attempt : ℕ
    pub at_least : first ≤ attempt
    pub at_most : attempt ≤ max_attempts
    pub failed_before : FailsBetween first attempt
    pub answer : r ≡ fetch attempt
    pub last_failure : (t : Text) → r ≡ thrown t → attempt ≡ max_attempts

  stop :
      (attempt max_attempts : ℕ) (r : Result S)
      → attempt ≤ max_attempts
      → r ≡ fetch attempt
      → ((t : Text) → r ≡ thrown t → attempt ≡ max_attempts)
      → IsRetried max_attempts attempt r
  stop attempt max_attempts r h e last = record {
    attempt = attempt;
    at_least = omega arith;
    at_most = h;
    failed_before = λ k a b. absurd (omega arith);
    answer = e;
    last_failure = last;
  }

  later :
      (attempt max_attempts : ℕ) (r : Result S) (t : Text)
      → fetch attempt ≡ thrown t
      → IsRetried max_attempts (attempt + 1) r
      → IsRetried max_attempts attempt r
  later attempt max_attempts r t e i = record {
    attempt = i.attempt;
    at_least = omega (arith, i.at_least);
    at_most = i.at_most;
    failed_before = λ k a b. elim (split attempt k a) [
      | inl q ↦ (t, ap fetch (sym q) ∙ e)
      | inr q ↦ i.failed_before k q b
    ];
    answer = i.answer;
    last_failure = i.last_failure;
  }

  loop-IsRetried :
      (left attempt max_attempts : ℕ)
      → left + attempt ≡ max_attempts
      → IsRetried max_attempts attempt (fetch_loop (suc left) attempt max_attempts fetch)
  unfolding fetch_loop
  loop-IsRetried zero attempt max_attempts h = elim (Result-cases (fetch attempt)) [
    | inl (s, e) ↦
        rw (fetch_loop, e)
          (stop attempt max_attempts (ok s) (omega (arith, h)) (sym e) (λ t q. absurd (cc)))
    | inr (t, e) ↦
        rw (fetch_loop, e, same_attempt attempt max_attempts (omega (arith, h)))
          (stop attempt max_attempts (thrown t) (omega (arith, h)) (sym e)
            (λ u q. omega (arith, h)))
  ]
  loop-IsRetried (suc left) attempt max_attempts h = elim (Result-cases (fetch attempt)) [
    | inl (s, e) ↦
        rw (fetch_loop, e)
          (stop attempt max_attempts (ok s) (omega (arith, h)) (sym e) (λ t q. absurd (cc)))
    | inr (t, e) ↦
        rw (fetch_loop, e, other_attempt attempt max_attempts (omega (arith, h)))
          (later attempt max_attempts _ t e
            (loop-IsRetried left (attempt + 1) max_attempts (omega (arith, h))))
  ]

  -- The request is made up to the allowed number of times. The result is that of the first request that
  -- gives a snapshot; if none does, it is the failure of the last one.
  pub fetch_snapshot_with_retries-IsRetried :
      (n : ℕ) → IsRetried (suc n) 1 (fetch_snapshot_with_retries (suc n) fetch)
  unfolding fetch_snapshot_with_retries
  fetch_snapshot_with_retries-IsRetried n = loop-IsRetried n 1 (suc n) (omega arith)
