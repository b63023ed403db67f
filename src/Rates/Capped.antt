-- ===== src/Rates/Capped.antt =====
-- No client of mcptoolkit/src/rate_limiter.cpp has more tokens than its burst.
use mathlib.Core.Path.{subst}
use mcptoolkit.Prelude.{
  ℕ, ◌≡◌, refl, sym, ◌∙◌, inl, inr, false, none, some, List, [], ◌∷◌, Bool-cases, Option-cases,
  Bytes, beq, some-eq-some,
}
use mcptoolkit.Prelude.Dict.{Dict, lookup, insert, erase, lookup-insert, lookup-erase}
use mcptoolkit.Double.{Double, IsIeee}
use mcptoolkit.Rates.{
  TokenBucket, RateLimiter, new_bucket, new_limiter, configure_rates, cap, refill, take_token,
  bucket_of, allow_request, set_rate, set_burst, reset_client,
}

-- What can happen to a limiter.
pub data RateStep (W : Type 0) : Type 0 where
  configures : W → ℕ → RateStep W
  requests : Bytes → ℕ → ℕ → RateStep W
  sets_rate : Bytes → W → ℕ → RateStep W
  sets_burst : Bytes → ℕ → ℕ → RateStep W
  resets : Bytes → RateStep W

module _ {W : Type 0} ⦃d : Double W⦄ where
  abbrev pub rate_step : RateStep W → RateLimiter W → RateLimiter W
  rate_step (configures rps burst) r = configure_rates rps burst r
  rate_step (requests client now created) r = (allow_request client now created r).0
  rate_step (sets_rate client rps created) r = set_rate client rps created r
  rate_step (sets_burst client burst created) r = set_burst client burst created r
  rate_step (resets client) r = reset_client client r

  abbrev pub rate_steps : List (RateStep W) → RateLimiter W → RateLimiter W
  rate_steps [] r = r
  rate_steps (step ∷ steps) r = rate_steps steps (rate_step step r)

  -- The tokens are not greater than the burst.
  abbrev pub IsCapped : TokenBucket W → Type 0
  IsCapped b = d.gt b.tokens b.max_tokens ≡ false

  abbrev pub AllCapped : Dict (TokenBucket W) → Type 0
  AllCapped buckets =
      (client : Bytes) (b : TokenBucket W) → lookup client buckets ≡ some b → IsCapped b

  abbrev with_burst : ℕ → TokenBucket W → TokenBucket W
  with_burst burst b = record b {
    max_tokens = d.of_count burst;
    tokens = cap (d.of_count burst) b.tokens;
  }

  -- The two setters for a client without a bucket, and for one with a bucket.
  module _ (client : Bytes) (created : ℕ) (r : RateLimiter W) where
    set_rate-absent :
        (rps : W)
        → lookup client r.buckets ≡ none
        → (set_rate client rps created r).buckets
          ≡ insert client (new_bucket rps r.default_max_tokens created) r.buckets
    unfolding set_rate
    set_rate-absent rps h = rw (h, set_rate) refl

    set_rate-present :
        (rps : W) (b : TokenBucket W)
        → lookup client r.buckets ≡ some b
        → (set_rate client rps created r).buckets
          ≡ insert client (record b { refill_rate = rps }) r.buckets
    unfolding set_rate
    set_rate-present rps b h = rw (h, set_rate) refl

    set_burst-absent :
        (burst : ℕ)
        → lookup client r.buckets ≡ none
        → (set_burst client burst created r).buckets
          ≡ insert client (new_bucket r.default_refill_rate (d.of_count burst) created) r.buckets
    unfolding set_burst
    set_burst-absent burst h = rw (h, set_burst) refl

    set_burst-present :
        (burst : ℕ) (b : TokenBucket W)
        → lookup client r.buckets ≡ some b
        → (set_burst client burst created r).buckets ≡ insert client (with_burst burst b) r.buckets
    unfolding set_burst
    set_burst-present burst b h = rw (h, set_burst) refl

  module _ (laws : IsIeee W) where
    open laws use {not_gt_self, not_gt-sub_one}

    cap-IsCapped : (limit x : W) → d.gt (cap limit x) limit ≡ false
    unfolding cap
    cap-IsCapped limit x = elim (Bool-cases (d.gt x limit)) [
      | inl over ↦ simp over (not_gt_self limit)
      | inr within ↦ simp within
    ]

    refill-IsCapped : (now : ℕ) (b : TokenBucket W) → IsCapped (refill now b)
    unfolding refill
    refill-IsCapped now b = cap-IsCapped b.max_tokens _

    take_token-IsCapped : (b : TokenBucket W) → IsCapped b → IsCapped (take_token b).0
    unfolding take_token
    take_token-IsCapped b h = elim (Bool-cases (d.ge b.tokens (d.of_count 1))) [
      | inl some_left ↦ simp some_left (not_gt-sub_one b.tokens b.max_tokens h)
      | inr none_left ↦ simp none_left h
    ]

    insert-AllCapped :
        (client : Bytes) (b : TokenBucket W) (buckets : Dict (TokenBucket W))
        → IsCapped b
        → AllCapped buckets
        → AllCapped (insert client b buckets)
    insert-AllCapped client b buckets h all other c e = elim (Bool-cases (beq client other)) [
      | inl same ↦
          let there = sym (lookup-insert client other b buckets) ∙ e in
          let found : some b ≡ some c = simp same at there in subst IsCapped (some-eq-some found) h
      | inr differ ↦
          let there = sym (lookup-insert client other b buckets) ∙ e in
          all other c (simp differ at there)
    ]

    erase-AllCapped :
        (client : Bytes) (buckets : Dict (TokenBucket W))
        → AllCapped buckets
        → AllCapped (erase client buckets)
    erase-AllCapped client buckets all other c e = elim (Bool-cases (beq client other)) [
      | inl same ↦
          let there = sym (lookup-erase client other buckets) ∙ e in
          let found : none ≡ some c = simp same at there in cc
      | inr differ ↦
          let there = sym (lookup-erase client other buckets) ∙ e in
          all other c (simp differ at there)
    ]

    rate_step-AllCapped :
        (step : RateStep W) (r : RateLimiter W)
        → AllCapped r.buckets
        → AllCapped (rate_step step r).buckets
    unfolding configure_rates allow_request reset_client
    rate_step-AllCapped (configures rps burst) r all = all
    rate_step-AllCapped (requests client now created) r all =
        insert-AllCapped client _ r.buckets
          (take_token-IsCapped (refill now (bucket_of r client created))
            (refill-IsCapped now (bucket_of r client created)))
          all
    rate_step-AllCapped (sets_rate client rps created) r all =
        elim (Option-cases (lookup client r.buckets)) [
          | inl absent ↦
              let made = new_bucket rps r.default_max_tokens created in
              subst AllCapped (sym (set_rate-absent client created r rps absent))
                (insert-AllCapped client made r.buckets (not_gt_self r.default_max_tokens) all)
          | inr (b, there) ↦ subst AllCapped (sym (set_rate-present client created r rps b there)) (
              insert-AllCapped client (record b { refill_rate = rps }) r.buckets
                (all client b there) all)
        ]
    rate_step-AllCapped (sets_burst client burst created) r all =
        elim (Option-cases (lookup client r.buckets)) [
          | inl absent ↦
              let made = new_bucket r.default_refill_rate (d.of_count burst) created in
              subst AllCapped (sym (set_burst-absent client created r burst absent))
                (insert-AllCapped client made r.buckets (not_gt_self (d.of_count burst)) all)
          | inr (b, there) ↦
              subst AllCapped (sym (set_burst-present client created r burst b there)) (
                insert-AllCapped client (with_burst burst b) r.buckets
                  (cap-IsCapped (d.of_count burst) b.tokens) all)
        ]
    rate_step-AllCapped (resets client) r all = erase-AllCapped client r.buckets all

    rate_steps-AllCapped :
        (steps : List (RateStep W)) (r : RateLimiter W)
        → AllCapped r.buckets
        → AllCapped (rate_steps steps r).buckets
    rate_steps-AllCapped [] r all = all
    rate_steps-AllCapped (step ∷ steps) r all =
        rate_steps-AllCapped steps (rate_step step r) (rate_step-AllCapped step r all)

    -- Where the numbers obey the laws of IEEE 754: whatever happens to a new limiter, no client's tokens
    -- are ever greater than its burst.
    pub new_limiter-capped :
        (steps : List (RateStep W)) (client : Bytes) (b : TokenBucket W)
        → lookup client (rate_steps steps new_limiter).buckets ≡ some b
        → d.gt b.tokens b.max_tokens ≡ false
    unfolding lookup
    new_limiter-capped steps client b e =
        rate_steps-AllCapped steps new_limiter (λ other c q. absurd cc) client b e
