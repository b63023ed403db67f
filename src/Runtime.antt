-- ===== src/Runtime.antt =====
-- What runs around a tool's call: the queue of requests (mcptoolkit/src/request_queue.cpp), the
-- timeouts (mcptoolkit/src/timeout_manager.cpp) and the guard of an execution
-- (mcptoolkit/src/tool_execution_guard.cpp), whose log lines are those of `Audit`.
pub mod Fifo
pub mod Drain
pub mod Guarding
pub mod Audit
pub mod Auditing
pub mod Timeouts
use mcptoolkit.Prelude.{
  ℕ, ◌+◌, ◌-◌, ◌/◌, ◌%◌, ◌^◌, Bool, true, false, ◌&&◌, not, Option, none, some, List, [], ◌∷◌, ◌++◌,
  ltb, leb, ◌==◌, if◌then◌else◌, length, Bytes, codes, ℤ, pos, negate, ltb_ℤ, pos_part, neg_part,
}
use mcptoolkit.Json.Builder.{to_string}

pub record ToolRequest : Type 0 where
  pub tool_name : Bytes
  pub args_json : Bytes
  pub client_id : Bytes

pub record RequestQueue : Type 0 where
  pub queue : List ToolRequest
  pub max_size : ℕ

-- `RequestQueue()`
abbrev pub new_queue : RequestQueue
new_queue = record { queue = []; max_size = 1000 }

unfoldable pub enqueue : ToolRequest → RequestQueue → RequestQueue × Bool
enqueue req q =
    if leb q.max_size (length q.queue)
    then (q, false)
    else (record q { queue = q.queue ++ (req ∷ []) }, true)

-- `dequeue` at the end of its wait: a request is there, or the 30 seconds are over.
unfoldable pub dequeue : RequestQueue → RequestQueue × Option ToolRequest
dequeue q = elim q.queue [ [] ↦ (q, none) | req ∷ reqs ↦ (record q { queue = reqs }, some req) ]

unfoldable pub is_full : RequestQueue → Bool
is_full q = leb q.max_size (length q.queue)

unfoldable pub set_max_size : ℕ → RequestQueue → RequestQueue
set_max_size max q = record q { max_size = max }

unfoldable pub clear : RequestQueue → RequestQueue
clear q = record q { queue = [] }

pub record TimeoutGuard : Type 0 where
  pub timeout_id : ℕ
  -- in nanoseconds
  pub start_time : ℕ
  pub timeout_ms : ℤ

pub record TimeoutManager : Type 0 where
  pub next_id : ℕ
  pub default_timeout : ℤ

-- `TimeoutManager()`
abbrev pub new_timeouts : TimeoutManager
new_timeouts = record { next_id = 0; default_timeout = pos 5000 }

-- The counter has 64 bits.
unfoldable pub start_timeout : ℤ → ℕ → TimeoutManager → TimeoutManager × TimeoutGuard
start_timeout duration now t = (
  record t { next_id = (t.next_id + 1) % 2 ^ 64 },
  record { timeout_id = t.next_id; start_time = now; timeout_ms = duration },
)

-- `duration_cast<milliseconds>(now - start)`, which rounds towards zero.
unfoldable pub elapsed_ms : ℕ → ℕ → ℤ
elapsed_ms start now =
    if leb start now then pos ((now - start) / 1000000) else negate ((start - now) / 1000000)

unfoldable pub is_timeout : TimeoutGuard → ℕ → Bool
unfolding elapsed_ms
is_timeout guard now = not (ltb_ℤ (elapsed_ms guard.start_time now) guard.timeout_ms)

unfoldable pub set_default_timeout : ℤ → TimeoutManager → TimeoutManager
set_default_timeout ms t = record t { default_timeout = ms }

-- The fields of `ToolExecutionGuard` that its checks read.
pub record ExecutionGuard : Type 0 where
  pub timeout : ℤ
  pub started_at : ℕ

-- `ToolExecutionGuard::is_timeout`
unfoldable pub is_overdue : ExecutionGuard → ℕ → Bool
unfolding elapsed_ms
is_overdue guard now = ltb_ℤ guard.timeout (elapsed_ms guard.started_at now)

-- `a - b`
unfoldable pub sub_ℤ : ℤ → ℤ → ℤ
sub_ℤ a b =
    let up = pos_part a + neg_part b in
    let down = neg_part a + pos_part b in
    if leb down up then pos (up - down) else negate (down - up)

unfoldable pub get_remaining_time : ExecutionGuard → ℕ → ℤ
unfolding elapsed_ms sub_ℤ
get_remaining_time guard now =
    let elapsed = elapsed_ms guard.started_at now in
    if not (ltb_ℤ elapsed guard.timeout) then pos 0 else sub_ℤ guard.timeout elapsed

-- A control character other than tab, line feed and carriage return.
unfoldable pub breaks_json : ℕ → Bool
breaks_json c = ltb c 32 && not (c == 9) && not (c == 10) && not (c == 13)

-- The loop of `validate_output`.
unfoldable pub has_breaking : Bytes → Bool
unfolding breaks_json
has_breaking [] = false
has_breaking (c ∷ output) = if breaks_json c then true else has_breaking output

-- `validate_output`: `none` for an output that passes, and else the error.
unfoldable pub validate_output : Bytes → ℕ → Option Bytes
unfolding has_breaking
validate_output output max_size =
    if ltb max_size (length output)
    then some (
        codes "Tool output exceeds maximum size (" ++ (to_string (pos max_size) ++ codes " bytes)"))
    else if has_breaking output
    then some (codes "Tool output contains control characters")
    else none
