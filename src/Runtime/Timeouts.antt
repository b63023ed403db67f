-- ===== src/Runtime/Timeouts.antt =====
-- The identifiers that mcptoolkit/src/timeout_manager.cpp gives to its guards.
use mcptoolkit.Prelude.{ℕ, suc, ◌+◌, ◌^◌, ◌≤◌, ◌≡◌, refl, List, [], ◌∷◌, ℤ, arith}
use mcptoolkit.Runtime.{
  TimeoutManager, TimeoutGuard, new_timeouts, start_timeout, set_default_timeout,
}

-- What can be done to a manager: a guard is started at a time, or the default is changed.
pub data TimeoutStep : Type 0 where
  starts : ℤ → ℕ → TimeoutStep
  changes_default : ℤ → TimeoutStep

-- The guards that are handed out, in order.
abbrev pub guards : List TimeoutStep → TimeoutManager → List TimeoutGuard
guards [] t = []
guards (starts duration now ∷ steps) t =
    let (t', guard) = start_timeout duration now t in guard ∷ guards steps t'
guards (changes_default ms ∷ steps) t = guards steps (set_default_timeout ms t)

abbrev pub count_starts : List TimeoutStep → ℕ
count_starts [] = 0
count_starts (starts duration now ∷ steps) = suc (count_starts steps)
count_starts (changes_default ms ∷ steps) = count_starts steps

-- The identifiers grow from one guard to the next, from the given one on.
abbrev pub AreGrowing : ℕ → List TimeoutGuard → Type 0
AreGrowing least [] = Unit {0}
AreGrowing least (guard ∷ rest) =
    (least ≤ guard.timeout_id) × AreGrowing (suc guard.timeout_id) rest

-- The counter holds the given number as long as a guard is still to be started: it wraps at the earliest
-- behind the last one.
guards-AreGrowing :
    (steps : List TimeoutStep) (t : TimeoutManager) (least : ℕ)
    → (1 ≤ count_starts steps → t.next_id ≡ least)
    → least + count_starts steps ≤ 2 ^ 64
    → AreGrowing least (guards steps t)
unfolding start_timeout set_default_timeout
guards-AreGrowing [] t least at h = record {}
guards-AreGrowing (changes_default ms ∷ steps) t least at h =
    guards-AreGrowing steps (set_default_timeout ms t) least at h
guards-AreGrowing (starts duration now ∷ steps) t least at h =
    let now_at : t.next_id ≡ least = at (omega arith) in
    (
      omega (arith, now_at),
      guards-AreGrowing steps (start_timeout duration now t).0 (suc t.next_id)
          (λ more. omega (arith, now_at, more)) (omega (arith, now_at)),
    )

-- As long as a manager starts no more than 2 ^ 64 guards, each guard's identifier is larger than every
-- one before it, so that no two guards have the same.
pub new_timeouts-AreGrowing :
    (steps : List TimeoutStep)
    → count_starts steps ≤ 2 ^ 64
    → AreGrowing 0 (guards steps new_timeouts)
new_timeouts-AreGrowing steps h =
    guards-AreGrowing steps new_timeouts 0 (λ more. refl) (omega arith)
