-- ===== src/Rates/Burst.antt =====
-- How many requests mcptoolkit/src/rate_limiter.cpp allows at one instant.
use mcptoolkit.Prelude.{
  ℕ, zero, suc, ◌-◌, ◌/◌, ◌^◌, ◌≤◌, ◌≡◌, refl, sym, ◌∙◌, ap, true, false, none, some, ltb, leb,
  Bytes, beq_refl, ℤ, pos, arith,
}
use mcptoolkit.Prelude.Dict.{lookup, insert, lookup-insert}
use mcptoolkit.Double.{Double, IsIeee}
use mcptoolkit.Runtime.{elapsed_ms}
use mcptoolkit.Rates.{
  TokenBucket, RateLimiter, new_bucket, cap, refill, take_token, bucket_of, allow_request,
}

module _ {W : Type 0} ⦃d : Double W⦄ where
  -- A number of requests of one client, all at one instant.
  abbrev pub requests_at : ℕ → Bytes → ℕ → RateLimiter W → RateLimiter W
  requests_at zero client now r = r
  requests_at (suc k) client now r = (allow_request client now now (requests_at k client now r)).0

  bucket_of-absent :
      (r : RateLimiter W) (client : Bytes) (now : ℕ)
      → lookup client r.buckets ≡ none
      → bucket_of r client now ≡ new_bucket r.default_refill_rate r.default_max_tokens now
  unfolding bucket_of
  bucket_of-absent r client now h = rw (h, bucket_of) refl

  bucket_of-allow_request :
      (r : RateLimiter W) (client : Bytes) (now : ℕ)
      → bucket_of (allow_request client now now r).0 client now
        ≡ (take_token (refill now (bucket_of r client now))).0
  unfolding bucket_of allow_request
  bucket_of-allow_request r client now =
      let left = (take_token (refill now (bucket_of r client now))).0 in
      let found : lookup client (insert client left r.buckets) ≡ some left =
        lookup-insert client client left r.buckets ∙ rw (beq_refl client) refl in
      rw (found, bucket_of) refl

  module _ (laws : IsIeee W) (now burst : ℕ) (rate : W) (fits : burst ≤ 2 ^ 53)
      (finite : laws.is_finite rate ≡ true) where
    open laws use {exact_gt, exact_ge, exact_sub_one, add_nothing}

    -- A bucket with `n` tokens that was filled at this instant.
    abbrev holding : ℕ → TokenBucket W
    holding n = record {
      tokens = d.of_count n;
      last_refill = now;
      refill_rate = rate;
      max_tokens = d.of_count burst;
    }

    elapsed_ms-now : elapsed_ms now now ≡ pos 0
    unfolding elapsed_ms
    elapsed_ms-now =
        let reached : leb now now ≡ true = ground arith in
        let nothing : (now - now) / 1000000 ≡ 0 = omega arith in
        rw (reached, elapsed_ms) (ap pos nothing)

    cap-count : (n : ℕ) → n ≤ burst → cap (d.of_count burst) (d.of_count n) ≡ d.of_count n
    unfolding cap
    cap-count n h =
        let within : d.gt (d.of_count n) (d.of_count burst) ≡ false =
          exact_gt n burst (omega arith) fits ∙ ground arith in
        rw (within, cap) refl

    refill-holding : (n : ℕ) → n ≤ burst → refill now (holding n) ≡ holding n
    unfolding refill
    refill-holding n h =
        let limit = d.of_count burst in
        let grown : ℤ → W = λ e. cap limit (d.add (d.of_count n) (d.mul (d.seconds e) rate)) in
        let same : grown (elapsed_ms now now) ≡ d.of_count n =
          ap grown elapsed_ms-now
          ∙ ap (cap limit) (add_nothing n rate (omega arith) finite)
          ∙ cap-count n h in
        ap (λ t. record (holding n) { tokens = t }) same

    take_token-holding : (n : ℕ) → n ≤ burst → take_token (holding n) ≡ (holding (n - 1), leb 1 n)
    unfolding take_token
    take_token-holding zero h =
        let empty_handed : d.ge (d.of_count 0) (d.of_count 1) ≡ false =
          exact_ge 0 1 (omega arith) (omega arith) in
        rw (empty_handed, take_token) refl
    take_token-holding (suc m) h =
        let one_left : d.ge (d.of_count (suc m)) (d.of_count 1) ≡ true =
          exact_ge (suc m) 1 (omega arith) (omega arith) ∙ ground arith in
        let taken : d.sub (d.of_count (suc m)) (d.of_count 1) ≡ d.of_count (suc m - 1) =
          ap (λ n. d.sub (d.of_count n) (d.of_count 1)) (omega arith)
          ∙ exact_sub_one m (omega arith)
          ∙ ap (λ n. d.of_count n) (omega arith) in
        let yes_left : leb 1 (suc m) ≡ true = ground arith in
        rw (one_left, take_token)
          (ap (λ t. (record (holding (suc m)) { tokens = t }, true)) taken
            ∙ ap (λ b. (holding (suc m - 1), b)) (sym yes_left))

    -- A request to a limiter where the client's bucket holds `n`.
    turn :
        (r : RateLimiter W) (client : Bytes) (n : ℕ)
        → n ≤ burst
        → bucket_of r client now ≡ holding n
        → take_token (refill now (bucket_of r client now)) ≡ (holding (n - 1), leb 1 n)
    turn r client n h e =
        ap (λ b. take_token (refill now b)) e
        ∙ ap take_token (refill-holding n h)
        ∙ take_token-holding n h

    bucket_of-requests_at :
        (r : RateLimiter W) (client : Bytes) (k : ℕ)
        → r.default_refill_rate ≡ rate
        → r.default_max_tokens ≡ d.of_count burst
        → lookup client r.buckets ≡ none
        → bucket_of (requests_at k client now r) client now ≡ holding (burst - k)
    bucket_of-requests_at r client zero e f absent =
        bucket_of-absent r client now absent
        ∙ ap (λ t. new_bucket t r.default_max_tokens now) e
        ∙ ap (λ t. new_bucket rate t now) f
        ∙ ap (λ n. record (holding burst) { tokens = d.of_count n }) (omega arith)
    bucket_of-requests_at r client (suc k) e f absent =
        let before = requests_at k client now r in
        let held = bucket_of-requests_at r client k e f absent in
        bucket_of-allow_request before client now
        ∙ ap (λ t. t.0) (turn before client (burst - k) (omega arith) held)
        ∙ ap (λ n. holding n) (omega arith)

    -- Where the numbers obey the laws of IEEE 754, the configured rate is finite and the configured burst
    -- is a count that a double holds exactly: a client without a bucket that sends all its requests at
    -- one instant is allowed exactly as many as the burst; the request behind `k` others passes if `k`
    -- is below it.
    pub allow_request-burst :
        (r : RateLimiter W) (client : Bytes) (k : ℕ)
        → r.default_refill_rate ≡ rate
        → r.default_max_tokens ≡ d.of_count burst
        → lookup client r.buckets ≡ none
        → (allow_request client now now (requests_at k client now r)).1 ≡ ltb k burst
    unfolding allow_request
    allow_request-burst r client k e f absent =
        let held = bucket_of-requests_at r client k e f absent in
        ap (λ t. t.1) (turn (requests_at k client now r) client (burst - k) (omega arith) held)
        ∙ ground arith
