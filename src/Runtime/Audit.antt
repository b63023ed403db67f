-- ===== src/Runtime/Audit.antt =====
-- The log lines of `ToolExecutionGuard`: mcptoolkit/src/tool_execution_guard.cpp. The member
-- `timeout_guard_`, which nothing reads, is left out.
use mcptoolkit.Prelude.{
  ℕ, ◌*◌, Bool, true, not, Option, none, some, ◌++◌, if◌then◌else◌, length, Bytes, codes, ℤ, pos,
}
use mcptoolkit.Json.Builder.{to_string}
use mcptoolkit.Runtime.{ExecutionGuard, is_overdue}
use mcptoolkit.Security.{validation_error, dispatch_error, timed_out, log_security_event}

pub record ExecutionConfig : Type 0 where
  pub timeout_limit : ℤ
  pub log_invocation : Bool
  pub log_result : Bool
  pub max_output_size : ℕ

-- The defaults of the struct.
abbrev pub default_execution : ExecutionConfig
default_execution = record {
  timeout_limit = pos 30000;
  log_invocation = true;
  log_result = true;
  max_output_size = 1024 * 1024;
}

pub record ToolExecution : Type 0 where
  pub tool : Bytes
  pub user : Bytes
  pub execution_config : ExecutionConfig
  -- `start_time_`, with the timeout of the configuration
  pub guard : ExecutionGuard

unfoldable pub log_start : ToolExecution → Bytes → Bytes
log_start x timestamp =
    log_security_event timestamp dispatch_error (codes "Tool execution started: " ++ x.tool)
      (codes "user=" ++ (x.user ++ (codes ",tool=" ++ x.tool)))

-- The constructor, and the line that it logs, if any.
unfoldable pub new_execution :
    Bytes → Bytes → ExecutionConfig → ℕ → Bytes → ToolExecution × Option Bytes
new_execution tool user config now timestamp =
    let x : ToolExecution = record {
      tool = tool;
      user = user;
      execution_config = config;
      guard = record { timeout = config.timeout_limit; started_at = now };
    } in
    (x, if config.log_invocation then some (log_start x timestamp) else none)

-- The context of a completion.
unfoldable pub completion_context : ToolExecution → Bool → Bytes → Bytes
completion_context x success result =
    codes "user="
    ++ (x.user
        ++ (codes ",tool="
            ++ (x.tool
                ++ (codes ",success="
                    ++ ((if success then codes "true" else codes "false")
                        ++ (codes ",result_size=" ++ to_string (pos (length result))))))))

-- The line that `log_completion` logs, if any.
unfoldable pub log_completion : ToolExecution → Bool → Bytes → ℕ → Bytes → Option Bytes
log_completion x success result now timestamp =
    let context = completion_context x success result in
    if not x.execution_config.log_result
    then none
    else if is_overdue x.guard now
    then some (
        log_security_event timestamp timed_out (codes "Tool execution timeout: " ++ x.tool) context)
    else some (
        log_security_event timestamp (if success then dispatch_error else validation_error)
          (codes "Tool execution completed: " ++ x.tool) context)
