-- ===== src/Rates.antt =====
-- `RateLimiter`: mcptoolkit/include/rate_limiter.h and mcptoolkit/src/rate_limiter.cpp, over any
-- `double`. An operation is given the readings of the clock that it makes, in nanoseconds; the mutex is
-- not modelled: each method is one step.
pub mod Capped
pub mod Burst
use mcptoolkit.Prelude.{ℕ, Bool, true, false, Option, none, some, [], if◌then◌else◌, Bytes, ℤ}
use mcptoolkit.Prelude.Dict.{Dict, lookup, insert, erase}
use mcptoolkit.Double.{Double}
use mcptoolkit.Runtime.{elapsed_ms}

pub record TokenBucket (W : Type 0) : Type 0 where
  pub tokens : W
  pub last_refill : ℕ
  pub refill_rate : W
  pub max_tokens : W

pub record RateLimiter (W : Type 0) : Type 0 where
  pub buckets : Dict (TokenBucket W)
  pub default_refill_rate : W
  pub default_max_tokens : W

module _ {W : Type 0} ⦃d : Double W⦄ where
  -- `TokenBucket(rate, burst)`, which reads the clock.
  abbrev pub new_bucket : W → W → ℕ → TokenBucket W
  new_bucket rate burst created = record {
    tokens = burst;
    last_refill = created;
    refill_rate = rate;
    max_tokens = burst;
  }

  -- `RateLimiter()`
  abbrev pub new_limiter : RateLimiter W
  new_limiter = record {
    buckets = [];
    default_refill_rate = d.of_count 100;
    default_max_tokens = d.of_count 10;
  }

  unfoldable pub configure_rates : W → ℕ → RateLimiter W → RateLimiter W
  configure_rates rps burst r = record r {
    default_refill_rate = rps;
    default_max_tokens = d.of_count burst;
  }

  -- A value no greater than the limit.
  unfoldable pub cap : W → W → W
  cap limit x = if d.gt x limit then limit else x

  -- The refill and what follows it up to the check.
  unfoldable pub refill : ℕ → TokenBucket W → TokenBucket W
  refill now b =
      let grown = d.add b.tokens (d.mul (d.seconds (elapsed_ms b.last_refill now)) b.refill_rate) in
      record b { tokens = cap b.max_tokens grown; last_refill = now }

  -- The check: a token is taken if there is one.
  unfoldable pub take_token : TokenBucket W → TokenBucket W × Bool
  take_token b =
      if d.ge b.tokens (d.of_count 1)
      then (record b { tokens = d.sub b.tokens (d.of_count 1) }, true)
      else (b, false)

  -- The bucket of a client, made at `created` if there is none.
  unfoldable pub bucket_of : RateLimiter W → Bytes → ℕ → TokenBucket W
  bucket_of r client created = elim (lookup client r.buckets) [
    | none ↦ new_bucket r.default_refill_rate r.default_max_tokens created
    | some b ↦ b
  ]

  unfoldable pub allow_request : Bytes → ℕ → ℕ → RateLimiter W → RateLimiter W × Bool
  allow_request client now created r =
      let (b, allowed) = take_token (refill now (bucket_of r client created)) in
      (record r { buckets = insert client b r.buckets }, allowed)

  unfoldable pub set_rate : Bytes → W → ℕ → RateLimiter W → RateLimiter W
  set_rate client rps created r = elim (lookup client r.buckets) [
    | none ↦ record r {
      buckets = insert client (new_bucket rps r.default_max_tokens created) r.buckets;
    }
    | some b ↦ record r { buckets = insert client (record b { refill_rate = rps }) r.buckets }
  ]

  unfoldable pub set_burst : Bytes → ℕ → ℕ → RateLimiter W → RateLimiter W
  set_burst client burst created r = elim (lookup client r.buckets) [
    | none ↦ record r {
      buckets =
          insert client (new_bucket r.default_refill_rate (d.of_count burst) created) r.buckets;
    }
    | some b ↦ record r {
      buckets =
          insert client
            (record b { max_tokens = d.of_count burst; tokens = cap (d.of_count burst) b.tokens })
            r.buckets;
    }
  ]

  unfoldable pub reset_client : Bytes → RateLimiter W → RateLimiter W
  reset_client client r = record r { buckets = erase client r.buckets }

  unfoldable pub get_tokens : RateLimiter W → Bytes → W
  get_tokens r client = elim (lookup client r.buckets) [ none ↦ d.of_count 0 | some b ↦ b.tokens ]
