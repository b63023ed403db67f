-- ===== src/Monitor/Counts.antt =====
-- What mcptoolkit/src/resource_monitor.cpp reports of a tool depends on that tool's own events, and
-- counts them.
use mcptoolkit.Prelude.{
  ℕ, ◌+◌, ◌%◌, ◌^◌, ◌≡◌, refl, sym, ◌∙◌, ap, inl, inr, Bool, true, false, none, some, List, [], ◌∷◌,
  ltb, if◌then◌else◌, Bool-cases, Option-cases, Bytes, beq, beq_iff,
}
use mcptoolkit.Prelude.Dict.{lookup, insert, lookup-insert}
use mcptoolkit.Double.{Double}
use mcptoolkit.Monitor.{
  ResourceMetrics, ResourceMonitor, new_metrics, ensure, get_metrics, record_request,
  record_rejection, record_cpu_time, record_memory, reset_metrics, reset_all,
}

pub data MonitorEvent (W : Type 0) : Type 0 where
  requested : Bytes → MonitorEvent W
  rejected : Bytes → MonitorEvent W
  used_cpu : Bytes → W → MonitorEvent W
  used_memory : Bytes → ℕ → MonitorEvent W
  reset : Bytes → MonitorEvent W
  reset_every : MonitorEvent W

module _ {W : Type 0} ⦃d : Double W⦄ where
  abbrev pub observe : MonitorEvent W → ResourceMonitor W → ResourceMonitor W
  observe (requested tool) m = record_request tool m
  observe (rejected tool) m = record_rejection tool m
  observe (used_cpu tool ms) m = record_cpu_time tool ms m
  observe (used_memory tool kb) m = record_memory tool kb m
  observe (reset tool) m = reset_metrics tool m
  observe reset_every m = reset_all m

  abbrev pub observe_all : List (MonitorEvent W) → ResourceMonitor W → ResourceMonitor W
  observe_all [] m = m
  observe_all (event ∷ events) m = observe_all events (observe event m)

  -- The abstract view: one tool's metrics, without a map. An event of another tool is skipped.
  abbrev pub notice : Bytes → MonitorEvent W → ResourceMetrics W → ResourceMetrics W
  notice tool (requested t) x =
      if beq t tool then record x { request_count = (x.request_count + 1) % 2 ^ 64 } else x
  notice tool (rejected t) x =
      if beq t tool then record x { rejection_count = (x.rejection_count + 1) % 2 ^ 64 } else x
  notice tool (used_cpu t ms) x =
      if beq t tool then record x { cpu_time_ms = d.add x.cpu_time_ms ms } else x
  notice tool (used_memory t kb) x =
      if beq t tool
      then (if ltb x.memory_peak_kb kb then record x { memory_peak_kb = kb } else x)
      else x
  notice tool (reset t) x = if beq t tool then new_metrics tool else x
  notice tool reset_every x = new_metrics tool

  abbrev pub notice_all : Bytes → List (MonitorEvent W) → ResourceMetrics W → ResourceMetrics W
  notice_all tool [] x = x
  notice_all tool (event ∷ events) x = notice_all tool events (notice tool event x)

  get_metrics_found :
      (tool : Bytes) {x : ResourceMetrics W} (m : ResourceMonitor W)
      → lookup tool m ≡ some x
      → get_metrics tool m ≡ x
  unfolding get_metrics
  get_metrics_found tool m found = rw (found, get_metrics) refl

  get_metrics_absent :
      (tool : Bytes) (m : ResourceMonitor W)
      → lookup tool m ≡ none
      → get_metrics tool m ≡ new_metrics tool
  unfolding get_metrics
  get_metrics_absent tool m absent = rw (absent, get_metrics) refl

  get_metrics_same :
      (tool : Bytes) (m n : ResourceMonitor W)
      → lookup tool m ≡ lookup tool n
      → get_metrics tool m ≡ get_metrics tool n
  unfolding get_metrics
  get_metrics_same tool m n same = rw (same, get_metrics) refl

  get_metrics-insert :
      (t tool : Bytes) (x : ResourceMetrics W) (m : ResourceMonitor W)
      → get_metrics tool (insert t x m) ≡ (if beq t tool then x else get_metrics tool m)
  get_metrics-insert t tool x m = elim (Bool-cases (beq t tool)) [
    | inl same ↦
        let found = lookup-insert t tool x m ∙ simp same in
        rw same (get_metrics_found tool (insert t x m) found)
    | inr differ ↦
        let skipped = lookup-insert t tool x m ∙ simp differ in
        rw differ (get_metrics_same tool (insert t x m) m skipped)
  ]

  if_same : (b : Bool) (x : ResourceMetrics W) → (if b then x else x) ≡ x
  if_same true x = refl
  if_same false x = refl

  if_beq :
      (h : Bytes → ResourceMetrics W) (t tool : Bytes) (y : ResourceMetrics W)
      → (if beq t tool then h t else y) ≡ (if beq t tool then h tool else y)
  if_beq h t tool y = elim (Bool-cases (beq t tool)) [
    | inl same ↦ ap (λ k. if beq t tool then h k else y) ((beq_iff t tool).0 same)
    | inr differ ↦ simp differ
  ]

  new_if_absent :
      (t tool : Bytes) (m : ResourceMonitor W)
      → lookup t m ≡ none
      → (if beq t tool then new_metrics t else get_metrics tool m) ≡ get_metrics tool m
  new_if_absent t tool m absent = elim (Bool-cases (beq t tool)) [
    | inl same ↦
        let equal = (beq_iff t tool).0 same in
        if_beq new_metrics t tool (get_metrics tool m)
        ∙ simp same (sym (get_metrics_absent tool m (ap (λ k. lookup k m) (sym equal) ∙ absent)))
    | inr differ ↦ simp differ
  ]

  get_metrics-ensure :
      (t tool : Bytes) (m : ResourceMonitor W) → get_metrics tool (ensure t m) ≡ get_metrics tool m
  unfolding ensure
  get_metrics-ensure t tool m = elim (Option-cases (lookup t m)) [
    | inl absent ↦
        rw (absent, ensure)
          (get_metrics-insert t tool (new_metrics t) m ∙ new_if_absent t tool m absent)
    | inr (x, known) ↦ rw (known, ensure) refl
  ]

  -- Replacing the metrics of `t` by a function of them is seen by a reader of `t` alone.
  get_metrics-change :
      (f : ResourceMetrics W → ResourceMetrics W) (t tool : Bytes) (m : ResourceMonitor W)
      → get_metrics tool (insert t (f (get_metrics t (ensure t m))) (ensure t m))
        ≡ (if beq t tool then f (get_metrics tool m) else get_metrics tool m)
  get_metrics-change f t tool m =
      get_metrics-insert t tool (f (get_metrics t (ensure t m))) (ensure t m)
      ∙ if_beq (λ k. f (get_metrics k (ensure t m))) t tool (get_metrics tool (ensure t m))
      ∙ ap (λ x. if beq t tool then f x else x) (get_metrics-ensure t tool m)

  get_metrics-insert_if :
      (b : Bool) (t tool : Bytes) (x : ResourceMetrics W) (m : ResourceMonitor W)
      → get_metrics tool (if b then insert t x m else m)
        ≡ (if beq t tool then (if b then x else get_metrics t m) else get_metrics tool m)
  get_metrics-insert_if true t tool x m = get_metrics-insert t tool x m
  get_metrics-insert_if false t tool x m = sym (
      if_beq (λ k. get_metrics k m) t tool (get_metrics tool m)
      ∙ if_same (beq t tool) (get_metrics tool m))

  get_metrics-record_memory :
      (t tool : Bytes) (kb : ℕ) (m : ResourceMonitor W)
      → get_metrics tool (record_memory t kb m)
        ≡ notice tool (used_memory t kb) (get_metrics tool m)
  unfolding record_memory
  get_metrics-record_memory t tool kb m =
      let known = ensure t m in
      let old = get_metrics t known in
      let raise : ResourceMetrics W → ResourceMetrics W =
        λ x. if ltb x.memory_peak_kb kb then record x { memory_peak_kb = kb } else x in
      get_metrics-insert_if (ltb old.memory_peak_kb kb) t tool (record old { memory_peak_kb = kb })
        known
      ∙ if_beq (λ k. raise (get_metrics k known)) t tool (get_metrics tool known)
      ∙ ap (λ x. if beq t tool then raise x else x) (get_metrics-ensure t tool m)

  get_metrics-observe :
      (tool : Bytes) (event : MonitorEvent W) (m : ResourceMonitor W)
      → get_metrics tool (observe event m) ≡ notice tool event (get_metrics tool m)
  unfolding record_request record_rejection record_cpu_time reset_metrics reset_all lookup
  get_metrics-observe tool (requested t) m =
      get_metrics-change (λ x. record x { request_count = (x.request_count + 1) % 2 ^ 64 }) t tool m
  get_metrics-observe tool (rejected t) m =
      get_metrics-change (λ x. record x { rejection_count = (x.rejection_count + 1) % 2 ^ 64 }) t
        tool m
  get_metrics-observe tool (used_cpu t ms) m =
      get_metrics-change (λ x. record x { cpu_time_ms = d.add x.cpu_time_ms ms }) t tool m
  get_metrics-observe tool (used_memory t kb) m = get_metrics-record_memory t tool kb m
  get_metrics-observe tool (reset t) m = elim (Option-cases (lookup t m)) [
    | inl absent ↦
        rw (absent, reset_metrics)
          (sym (new_if_absent t tool m absent) ∙ if_beq new_metrics t tool (get_metrics tool m))
    | inr (x, known) ↦
        rw (known, reset_metrics)
          (get_metrics-insert t tool (new_metrics t) m
            ∙ if_beq new_metrics t tool (get_metrics tool m))
  ]
  get_metrics-observe tool reset_every m = get_metrics_absent tool [] refl

  -- What the monitor reports of a tool after any events is what one gets by following that tool's events
  -- alone, from what it reported before.
  pub get_metrics-observe_all :
      (tool : Bytes) (events : List (MonitorEvent W)) (m : ResourceMonitor W)
      → get_metrics tool (observe_all events m) ≡ notice_all tool events (get_metrics tool m)
  get_metrics-observe_all tool [] m = refl
  get_metrics-observe_all tool (event ∷ events) m =
      get_metrics-observe_all tool events (observe event m)
      ∙ ap (notice_all tool events) (get_metrics-observe tool event m)
