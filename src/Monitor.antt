-- ===== src/Monitor.antt =====
-- `ResourceMonitor`: mcptoolkit/include/resource_monitor.h and mcptoolkit/src/resource_monitor.cpp, over
-- any `double`. The mutex is not modelled: each method is one step.
pub mod Counts
use mcptoolkit.Prelude.{
  ℕ, ◌+◌, ◌%◌, ◌^◌, Bool, true, false, Option, none, some, [], ltb, if◌then◌else◌, Bytes,
}
use mcptoolkit.Prelude.Dict.{Dict, lookup, insert}
use mcptoolkit.Double.{Double}

pub record ResourceMetrics (W : Type 0) : Type 0 where
  pub tool_name : Bytes
  pub cpu_time_ms : W
  pub memory_peak_kb : ℕ
  pub request_count : ℕ
  pub rejection_count : ℕ

-- The field `metrics_` is all the state.
abbrev pub ResourceMonitor : Type 0 → Type 0
ResourceMonitor W = Dict (ResourceMetrics W)

module _ {W : Type 0} ⦃d : Double W⦄ where
  -- `ResourceMetrics(name)`
  abbrev pub new_metrics : Bytes → ResourceMetrics W
  new_metrics name = record {
    tool_name = name;
    cpu_time_ms = d.of_count 0;
    memory_peak_kb = 0;
    request_count = 0;
    rejection_count = 0;
  }

  -- The lines with which each `record_` method starts: new metrics for a tool that has none.
  unfoldable pub ensure : Bytes → ResourceMonitor W → ResourceMonitor W
  ensure tool_name m = elim (lookup tool_name m) [
    | none ↦ insert tool_name (new_metrics tool_name) m
    | some metrics ↦ m
  ]

  -- `metrics_[tool_name]`, where a missing entry reads as new metrics.
  unfoldable pub get_metrics : Bytes → ResourceMonitor W → ResourceMetrics W
  get_metrics tool_name m = elim (lookup tool_name m) [
    | some metrics ↦ metrics
    | none ↦ new_metrics tool_name
  ]

  unfoldable pub record_request : Bytes → ResourceMonitor W → ResourceMonitor W
  record_request tool_name m =
      let known = ensure tool_name m in
      let old = get_metrics tool_name known in
      insert tool_name (record old { request_count = (old.request_count + 1) % 2 ^ 64 }) known

  unfoldable pub record_rejection : Bytes → ResourceMonitor W → ResourceMonitor W
  record_rejection tool_name m =
      let known = ensure tool_name m in
      let old = get_metrics tool_name known in
      insert tool_name (record old { rejection_count = (old.rejection_count + 1) % 2 ^ 64 }) known

  unfoldable pub record_cpu_time : Bytes → W → ResourceMonitor W → ResourceMonitor W
  record_cpu_time tool_name cpu_ms m =
      let known = ensure tool_name m in
      let old = get_metrics tool_name known in
      insert tool_name (record old { cpu_time_ms = d.add old.cpu_time_ms cpu_ms }) known

  unfoldable pub record_memory : Bytes → ℕ → ResourceMonitor W → ResourceMonitor W
  record_memory tool_name memory_kb m =
      let known = ensure tool_name m in
      let old = get_metrics tool_name known in
      if ltb old.memory_peak_kb memory_kb
      then insert tool_name (record old { memory_peak_kb = memory_kb }) known
      else known

  unfoldable pub reset_metrics : Bytes → ResourceMonitor W → ResourceMonitor W
  reset_metrics tool_name m = elim (lookup tool_name m) [
    | none ↦ m
    | some metrics ↦ insert tool_name (new_metrics tool_name) m
  ]

  unfoldable pub reset_all : ResourceMonitor W → ResourceMonitor W
  reset_all m = []
