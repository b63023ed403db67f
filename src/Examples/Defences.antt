-- ===== src/Examples/Defences.antt =====
-- The sanitizer, the path validator, the rate limiter, the monitor, identifiers, log lines and the
-- queue on concrete inputs, and the theorems applied to them.
use mcptoolkit.Prelude.{
  ℕ, zero, suc, ◌*◌, ◌≤◌, ◌<◌, ◌≡◌, ◌↔◌, ◌⊎◌, refl, true, false, none, some, List, [], ◌∷◌, ◌++◌,
  length, replicate, Bytes, codes, ltb, pos, arith, beq, contains, is_prefix,
}
use mcptoolkit.Prelude.Dict.{lookup, insert}
use mcptoolkit.Json.Scan.{quote, string_end}
use mcptoolkit.Json.Builder.Unescape.{unescape, plain}
use mcptoolkit.Sanitizer.{
  default_sanitizing, unsafe, clean_up, sanitize, redact_paths, contains_injection_patterns, screen,
  lower_all,
}
use mcptoolkit.Sanitizer.Redaction.{HasPath}
use mcptoolkit.Sanitizer.Outcome.{kept, IsRefused, passed, sanitize_cases, sanitize-unescape}
use mcptoolkit.Paths.{FileSystem, PathValidator, new_validator, resolved, is_safe_path}
use mcptoolkit.Paths.Within.{IsSafePath, is_safe_path_iff}
use mcptoolkit.Double.{
  Thousandths, thousandths_double, Thousandths-IsIeee, Thousandths-IsIeee_finite,
}
use mcptoolkit.Rates.{
  TokenBucket, RateLimiter, new_limiter, configure_rates, allow_request, bucket_of, refill, cap,
  take_token,
}
use mcptoolkit.Rates.Capped.{RateStep, configures, requests, rate_steps, new_limiter-capped}
use mcptoolkit.Rates.Burst.{requests_at, allow_request-burst}
use mcptoolkit.Monitor.{get_metrics}
use mcptoolkit.Monitor.Counts.{
  MonitorEvent, requested, used_memory, observe_all, notice_all, get_metrics-observe_all,
}
use mcptoolkit.Sessions.{generate_id}
use mcptoolkit.Sessions.Random.{
  Kernel, FillsBuffer, random_bytes, read_id, AreBytes, read_id-random_bytes,
}
use mcptoolkit.Runtime.Audit.{ToolExecution, default_execution, completion_context, log_completion}
use mcptoolkit.Runtime.{ToolRequest, RequestQueue, enqueue, dequeue, elapsed_ms, is_overdue}
use mcptoolkit.Runtime.{clear, set_max_size}
use mcptoolkit.Runtime.Drain.{
  QueueCall, adds, takes, clears, resizes, queue_behind, taken_in, departures,
  requests as left_behind, drops, then_turns, delivered_at_last,
}
use mcptoolkit.Validation.{contains_one_of}
use mcptoolkit.Security.{dispatch_error, log_security_event}
use mcptoolkit.Runtime.Auditing.{log_completion-IsOneLine}
use mcptoolkit.Security.Lines.{feeds, IsOneLine}

abbrev answer : Bytes
answer = codes "see /etc/passwd now"

sanitize_cases_example :
    (IsRefused default_sanitizing answer
      × (error : Bytes) × (sanitize default_sanitizing answer ≡ unsafe error))
    ⊎ ((¬ IsRefused default_sanitizing answer)
        × (sanitize default_sanitizing answer
            ≡ passed (clean_up default_sanitizing (kept default_sanitizing answer))))
sanitize_cases_example = sanitize_cases default_sanitizing answer

answer_passes : (sanitize default_sanitizing answer).error_msg ≡ none
unfolding sanitize screen contains_injection_patterns contains_one_of contains lower_all is_prefix
answer_passes = refl

sanitize-unescape_example :
    (string_end false ((sanitize default_sanitizing answer).response ++ quote ∷ codes "}")
      ≡ some (codes "}"))
    × (unescape plain (sanitize default_sanitizing answer).response
        ≡ some (redact_paths (kept default_sanitizing answer)))
    × (¬ HasPath (redact_paths (kept default_sanitizing answer)))
sanitize-unescape_example =
    sanitize-unescape default_sanitizing answer (codes "}") refl refl answer_passes

-- A file system without links, where every path is canonical.
abbrev plain_files : FileSystem
plain_files = record {
  join = λ base path. base ++ (47 ∷ path);
  weakly_canonical = resolved;
  preferred_separator = 47;
}

abbrev documents : PathValidator
documents = record new_validator {
  path_config = record {
    base_directory = codes "/docs";
    allow_absolute_paths = false;
    allow_symlinks = false;
  };
  is_ready = true;
}

is_safe_path_iff_example :
    (is_safe_path plain_files documents (codes "a.txt") ≡ none)
    ↔ IsSafePath plain_files documents (codes "a.txt")
is_safe_path_iff_example = is_safe_path_iff plain_files documents (codes "a.txt")

abbrev traffic : List (RateStep Thousandths)
traffic = configures 5000 2 ∷ requests (codes "c") 10 10 ∷ []

abbrev spent : TokenBucket Thousandths
spent = record { tokens = 1000; last_refill = 10; refill_rate = 5000; max_tokens = 2000 }

spent_is_kept : lookup (codes "c") (rate_steps traffic new_limiter).buckets ≡ some spent
unfolding lookup insert beq configure_rates allow_request bucket_of refill cap take_token elapsed_ms
spent_is_kept = refl

new_limiter-capped_example : ltb spent.max_tokens spent.tokens ≡ false
new_limiter-capped_example =
    new_limiter-capped Thousandths-IsIeee traffic (codes "c") spent spent_is_kept

abbrev two_at_once : RateLimiter Thousandths
two_at_once = record { buckets = []; default_refill_rate = 5000; default_max_tokens = 2000 }

not_seen : lookup (codes "c") two_at_once.buckets ≡ none
unfolding lookup
not_seen = refl

allow_request-burst_example :
    (allow_request (codes "c") 10 10 (requests_at 2 (codes "c") 10 two_at_once)).1 ≡ ltb 2 2
allow_request-burst_example =
    allow_request-burst Thousandths-IsIeee 10 2 5000 (omega arith) (Thousandths-IsIeee_finite 5000)
      two_at_once (codes "c") 2 refl refl not_seen

abbrev events : List (MonitorEvent Thousandths)
events =
    requested (codes "echo")
    ∷ used_memory (codes "echo") 9
    ∷ requested (codes "list")
    ∷ used_memory (codes "echo") 4
    ∷ []

get_metrics-observe_all_example :
    get_metrics (codes "echo") (observe_all events [])
    ≡ notice_all (codes "echo") events (get_metrics (codes "echo") [])
get_metrics-observe_all_example = get_metrics-observe_all (codes "echo") events []

-- The first call is interrupted, the device answers.
abbrev kernel : Kernel
kernel = record {
  getrandom = λ n. record { count = pos 0; buffer = replicate n 1 };
  opens_urandom = true;
  read_urandom = λ n. record { count = pos n; buffer = replicate n 7 };
}

ones-AreBytes :
    (n b : ℕ) → b < 256 → (length (replicate {A = ℕ} n b) ≡ n) × AreBytes (replicate n b)
ones-AreBytes zero b h = (refl, record {})
ones-AreBytes (suc n) b h = let (size, bytes) = ones-AreBytes n b h in (omega arith, (h, bytes))

kernel-FillsBuffer : FillsBuffer kernel
kernel-FillsBuffer = record {
  getrandom_fills = λ n. (ones-AreBytes n 1 (omega arith)).0;
  getrandom_bytes = λ n. (ones-AreBytes n 1 (omega arith)).1;
  read_fills = λ n. (ones-AreBytes n 7 (omega arith)).0;
  read_bytes = λ n. (ones-AreBytes n 7 (omega arith)).1;
}

read_id-random_bytes_example :
    (length (generate_id (random_bytes kernel 4)) ≡ 2 * 4)
    × (read_id (generate_id (random_bytes kernel 4)) ≡ random_bytes kernel 4)
read_id-random_bytes_example = read_id-random_bytes kernel 4 kernel-FillsBuffer

abbrev forged : ToolExecution
forged = record {
  tool = codes "echo";
  user = codes "bob\nSECURITY";
  execution_config = default_execution;
  guard = record { timeout = pos 30000; started_at = 0 };
}

abbrev forged_line : Bytes
forged_line =
    log_security_event (codes "t") dispatch_error
      (codes "Tool execution completed: " ++ codes "echo") (completion_context forged true [])

forged_is_logged : log_completion forged true [] 5 (codes "t") ≡ some forged_line
unfolding log_completion is_overdue elapsed_ms
forged_is_logged = refl

log_completion-IsOneLine_example :
    (IsOneLine forged_line ↔ ((feeds forged.user ≡ 0) × (feeds forged.tool ≡ 0)))
    × ((other : Bytes)
        → length other ≡ 0
        → log_completion forged true other 5 (codes "t") ≡ some forged_line)
log_completion-IsOneLine_example =
    log_completion-IsOneLine forged true [] 5 (codes "t") forged_line refl forged_is_logged

abbrev echo_request : ToolRequest
echo_request = record { tool_name = codes "echo"; args_json = codes "{}"; client_id = codes "c" }

abbrev one_place : RequestQueue
one_place = record { queue = []; max_size = 1 }

-- The second request that is taken in is dropped, and a third one waits.
abbrev busy : List QueueCall
busy = adds echo_request ∷ takes ∷ adds echo_request ∷ clears ∷ resizes 2 ∷ adds echo_request ∷ []

one_is_left : length (queue_behind busy one_place).queue ≤ 1
unfolding enqueue dequeue clear set_max_size
one_is_left = omega arith

delivered_at_last_example :
    (left_behind (departures (then_turns 1 busy) one_place)
      ≡ one_place.queue ++ taken_in busy one_place)
    × (drops (departures (then_turns 1 busy) one_place) ≡ drops (departures busy one_place))
delivered_at_last_example = delivered_at_last busy 1 one_place one_is_left

one_is_dropped : drops (departures busy one_place) ≡ echo_request ∷ []
unfolding enqueue dequeue clear set_max_size
one_is_dropped = refl
