-- ===== src/Auth/Lockout.antt =====
-- Failed attempts are counted for each client, and the count decides the lock-out.
use mcptoolkit.Prelude.{
  ℕ, zero, suc, ◌+◌, ◌%◌, ◌^◌, ◌<◌, ◌≡◌, refl, ◌∙◌, sym, ap, true, false, not, none, some,
  if◌then◌else◌, Bytes, beq, beq_refl, ℤ, pos, ltb_ℤ, arith,
}
use mcptoolkit.Prelude.Dict.{lookup, lookup-insert, lookup-erase}
use mcptoolkit.Auth.{AuthHandler, int_of, record_failure, reset_failures, is_locked_out}

-- The failures that the handler has counted for a client.
abbrev pub failures : AuthHandler → Bytes → ℕ
failures h client = elim (lookup client h.failed_attempts) [ none ↦ 0 | some n ↦ n ]

abbrev pub fail_times : ℕ → Bytes → AuthHandler → AuthHandler
fail_times zero client h = h
fail_times (suc n) client h = fail_times n client (record_failure client h)

failures-record_failure :
    (h : AuthHandler) (client other : Bytes)
    → failures (record_failure client h) other
      ≡ (if beq client other then (failures h client + 1) % 2 ^ 32 else failures h other)
unfolding record_failure
failures-record_failure h client other =
    ground (arith, lookup-insert client other ((failures h client + 1) % 2 ^ 32) h.failed_attempts)

failures-fail_times :
    (n : ℕ) (h : AuthHandler) (client : Bytes)
    → failures h client + n < 2 ^ 32
    → failures (fail_times n client h) client ≡ failures h client + n
failures-fail_times zero h client fits = omega arith
failures-fail_times (suc n) h client fits =
    let one = failures_self h client in
    omega (arith, one, failures-fail_times n (record_failure client h) client (omega (arith, one)))
  where
    failures_self :
        (h : AuthHandler) (client : Bytes)
        → failures (record_failure client h) client ≡ (failures h client + 1) % 2 ^ 32
    failures_self h client = rw (failures-record_failure h client client, beq_refl client)

int_of-small : (n : ℕ) → n < 2 ^ 31 → int_of n ≡ pos n
unfolding int_of
int_of-small n h = ground arith

is_locked_out-failures :
    (h : AuthHandler) (client : Bytes) (count : ℕ) (limit : ℤ)
    → failures h client ≡ count
    → h.config.max_failed_attempts ≡ limit
    → ltb_ℤ (pos 0) limit ≡ true
    → is_locked_out h client ≡ not (ltb_ℤ (int_of count) limit)
unfolding is_locked_out int_of
is_locked_out-failures h client count limit counted limited positive = ground arith

fail_times-config :
    (n : ℕ) (h : AuthHandler) (client : Bytes) → (fail_times n client h).config ≡ h.config
unfolding record_failure
fail_times-config zero h client = refl
fail_times-config (suc n) h client = fail_times-config n (record_failure client h) client

failures-reset_failures :
    (h : AuthHandler) (client : Bytes) → failures (reset_failures client h) client ≡ 0
unfolding reset_failures
failures-reset_failures h client =
    ground (arith, lookup-erase client client h.failed_attempts, beq_refl client)

failures-reset_failures_other :
    (h : AuthHandler) (client other : Bytes)
    → beq client other ≡ false
    → failures (reset_failures client h) other ≡ failures h other
unfolding reset_failures
failures-reset_failures_other h client other d =
    ground (arith, lookup-erase client other h.failed_attempts)

reset_failures-config :
    (h : AuthHandler) (client : Bytes) → (reset_failures client h).config ≡ h.config
unfolding reset_failures
reset_failures-config h client = refl

failures-fail_times_other :
    (n : ℕ) (h : AuthHandler) (client other : Bytes)
    → beq client other ≡ false
    → failures (fail_times n client h) other ≡ failures h other
failures-fail_times_other zero h client other d = refl
failures-fail_times_other (suc n) h client other d =
    failures-fail_times_other n (record_failure client h) client other d
    ∙ ground (arith, failures-record_failure h client other)

-- With a positive limit: after a reset and `n` failures, fewer than 2 ^ 31 so that their count is an
-- `int`, a client is locked out exactly if `n` reaches the limit, and another client's lock-out is what
-- it was before.
pub is_locked_out_after :
    (h : AuthHandler) (client other : Bytes) (n : ℕ)
    → ltb_ℤ (pos 0) h.config.max_failed_attempts ≡ true
    → beq client other ≡ false
    → n < 2 ^ 31
    → (is_locked_out (fail_times n client (reset_failures client h)) client
        ≡ not (ltb_ℤ (pos n) h.config.max_failed_attempts))
      × (is_locked_out (fail_times n client (reset_failures client h)) other
          ≡ is_locked_out h other)
is_locked_out_after h client other n positive differ fits = (
  is_locked_out-failures after client n limit
        (omega (arith, counted, failures-reset_failures h client)) same positive
      ∙ ap (λ i. not (ltb_ℤ i limit)) (int_of-small n fits),
  is_locked_out-failures after other (failures h other) limit
        (failures-fail_times_other n start client other differ
          ∙ failures-reset_failures_other h client other differ)
        same positive
      ∙ sym (is_locked_out-failures h other (failures h other) limit refl refl positive),
)
  where
    limit : ℤ
    limit = h.config.max_failed_attempts

    start : AuthHandler
    start = reset_failures client h

    after : AuthHandler
    after = fail_times n client start

    counted : failures after client ≡ failures start client + n
    counted = failures-fail_times n start client (omega (arith, failures-reset_failures h client))

    same : after.config.max_failed_attempts ≡ limit
    same =
        ap (λ c. c.max_failed_attempts)
          (fail_times-config n start client ∙ reset_failures-config h client)
