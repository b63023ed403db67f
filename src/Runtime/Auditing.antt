-- ===== src/Runtime/Auditing.antt =====
-- The lines that the guard of mcptoolkit/src/tool_execution_guard.cpp logs.
use mathlib.Core.Path.{subst}
use mcptoolkit.Prelude.{
  ℕ, ◌+◌, ◌≡◌, refl, sym, ◌∙◌, ◌↔◌, inl, inr, Bool, true, false, some, some-eq-some, ◌++◌,
  if◌then◌else◌, length, Bool-cases, Bytes, codes, pos, arith,
}
use mcptoolkit.Json.Builder.{to_string}
use mcptoolkit.Security.{
  SecurityEventCategory, validation_error, dispatch_error, timed_out, log_security_event,
}
use mcptoolkit.Security.Lines.{
  feeds, IsOneLine, feeds-append, feeds-to_string, log_security_event_iff,
}
use mcptoolkit.Runtime.{is_overdue}
use mcptoolkit.Runtime.Audit.{ToolExecution, completion_context, log_completion}

outcome_feeds : (success : Bool) → feeds (if success then codes "true" else codes "false") ≡ 0
outcome_feeds true = refl
outcome_feeds false = refl

feeds-completion_context :
    (x : ToolExecution) (success : Bool) (result : Bytes)
    → feeds (completion_context x success result) ≡ feeds x.user + feeds x.tool
unfolding completion_context
feeds-completion_context x success result =
    let size = to_string (pos (length result)) in
    let none_in_size = feeds-to_string (pos (length result)) in
    let outcome = if success then codes "true" else codes "false" in
    let none_in_outcome : feeds outcome ≡ 0 = outcome_feeds success in
    let behind_tool = codes ",success=" ++ (outcome ++ (codes ",result_size=" ++ size)) in
    let a = feeds-append x.user (codes ",tool=" ++ (x.tool ++ behind_tool)) in
    let b = feeds-append x.tool behind_tool in
    let c = feeds-append outcome (codes ",result_size=" ++ size) in omega arith

-- The line of a completion, with its category and the first words of its detail.
completed :
    (x : ToolExecution) (success : Bool) (result : Bytes) (now : ℕ) (timestamp line : Bytes)
    → log_completion x success result now timestamp ≡ some line
    → (category : SecurityEventCategory) × (words : Bytes) × (feeds words ≡ 0)
      × (line
          ≡ log_security_event timestamp category
              (words ++ x.tool)
              (completion_context x success result))
unfolding log_completion
completed x success result now timestamp line h =
    let context = completion_context x success result in
    elim (Bool-cases x.execution_config.log_result) [
      | inr quiet ↦ absurd (ground arith)
      | inl logs ↦ elim (Bool-cases (is_overdue x.guard now)) [
        | inl late ↦ (
          timed_out,
          codes "Tool execution timeout: ",
          refl,
          some-eq-some (sym h ∙ simp (logs, late)),
        )
        | inr on_time ↦ (
          if success then dispatch_error else validation_error,
          codes "Tool execution completed: ",
          refl,
          some-eq-some (sym h ∙ simp (logs, on_time)),
        )
      ]
    ]

log_completion-size :
    (x : ToolExecution) (success : Bool) (result other : Bytes) (now : ℕ) (timestamp : Bytes)
    → length other ≡ length result
    → log_completion x success other now timestamp ≡ log_completion x success result now timestamp
unfolding log_completion completion_context
log_completion-size x success result other now timestamp same = rw same refl

-- Where the timestamp holds no line feed, the completion that the guard logs is one line of the log
-- exactly if neither the user nor the tool holds a line feed. Of what the tool returned, the line shows
-- no more than the size: any other text of that size gives the same line.
pub log_completion-IsOneLine :
    (x : ToolExecution) (success : Bool) (result : Bytes) (now : ℕ) (timestamp line : Bytes)
    → feeds timestamp ≡ 0
    → log_completion x success result now timestamp ≡ some line
    → (IsOneLine line ↔ ((feeds x.user ≡ 0) × (feeds x.tool ≡ 0)))
      × ((other : Bytes)
          → length other ≡ length result
          → log_completion x success other now timestamp ≡ some line)
log_completion-IsOneLine x success result now timestamp line h e =
    let (category, words, none_in_words, same) = completed x success result now timestamp line e in
    let context = completion_context x success result in
    let (to, from) = log_security_event_iff timestamp category (words ++ x.tool) context in
    let a = feeds-append words x.tool in
    let b = feeds-completion_context x success result in
    (
      (
        λ one. let (_, f, g) = to (subst IsOneLine same one) in (omega arith, omega arith),
        λ (f, g). subst IsOneLine (sym same) (from (h, omega arith, omega arith)),
      ),
      λ other size. log_completion-size x success result other now timestamp size ∙ e,
    )
