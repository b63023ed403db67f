-- ===== src/Runtime/Fifo.antt =====
-- The queue of mcptoolkit/src/request_queue.cpp is bounded and first in, first out.
use mathlib.Core.Path.{subst}
use mcptoolkit.Prelude.{
  ℕ, ◌+◌, ◌≤◌, ◌≡◌, refl, sym, ◌∙◌, ap, ◌⊎◌, Bool, true, false, none, some, List, [], ◌∷◌, ◌++◌,
  append_assoc, append-nil, leb, if◌then◌else◌, Bool-cases, inl, inr, length, length-append, arith,
}
use mcptoolkit.Runtime.{ToolRequest, RequestQueue, enqueue, dequeue}

pub data QueueStep : Type 0 where
  enqueues : ToolRequest → QueueStep
  dequeues : QueueStep

abbrev pub queue_after : List QueueStep → RequestQueue → RequestQueue
queue_after [] q = q
queue_after (enqueues req ∷ steps) q = queue_after steps (enqueue req q).0
queue_after (dequeues ∷ steps) q = queue_after steps (dequeue q).0

-- The requests that were taken in, in order.
abbrev pub accepted : List QueueStep → RequestQueue → List ToolRequest
accepted [] q = []
accepted (enqueues req ∷ steps) q =
    let rest = accepted steps (enqueue req q).0 in if (enqueue req q).1 then req ∷ rest else rest
accepted (dequeues ∷ steps) q = accepted steps (dequeue q).0

-- The requests that were handed out, in order.
abbrev pub delivered : List QueueStep → RequestQueue → List ToolRequest
delivered [] q = []
delivered (enqueues req ∷ steps) q = delivered steps (enqueue req q).0
delivered (dequeues ∷ steps) q =
    let rest = delivered steps (dequeue q).0 in
    elim (dequeue q).1 [ none ↦ rest | some req ↦ req ∷ rest ]

abbrev pub with_waiting : List ToolRequest → ℕ → RequestQueue
with_waiting waiting max = record { queue = waiting; max_size = max }

-- A step that takes a request in, by its outcome: nothing changes, or the request waits at the end.
pub enqueue-cases :
    (req : ToolRequest) (waiting : List ToolRequest) (max : ℕ)
    → (enqueue req (with_waiting waiting max) ≡ (with_waiting waiting max, false))
      ⊎ ((enqueue req (with_waiting waiting max) ≡ (with_waiting (waiting ++ (req ∷ [])) max, true))
          × (length waiting + 1 ≤ max))
unfolding enqueue
enqueue-cases req waiting max = elim (Bool-cases (leb max (length waiting))) [
  | inl full ↦ inl (rw full refl)
  | inr free ↦ inr (rw free refl, ground arith)
]

fifo_from :
    (steps : List QueueStep) (waiting : List ToolRequest) (max : ℕ)
    → delivered steps (with_waiting waiting max)
        ++ (queue_after steps (with_waiting waiting max)).queue
      ≡ waiting ++ accepted steps (with_waiting waiting max)
unfolding dequeue
fifo_from [] waiting max = sym (append-nil waiting)
fifo_from (enqueues req ∷ steps) waiting max =
    let goal : RequestQueue × Bool → Type 0 = λ r.
      delivered steps r.0 ++ (queue_after steps r.0).queue
      ≡ waiting ++ (if r.1 then req ∷ accepted steps r.0 else accepted steps r.0) in
    elim (enqueue-cases req waiting max) [
      | inl e ↦ subst goal (sym e) (fifo_from steps waiting max)
      | inr (e, _) ↦ subst goal (sym e) (
          fifo_from steps (waiting ++ (req ∷ [])) max
          ∙ append_assoc waiting (req ∷ [])
              (accepted steps (with_waiting (waiting ++ (req ∷ [])) max)))
    ]
fifo_from (dequeues ∷ steps) [] max = fifo_from steps [] max
fifo_from (dequeues ∷ steps) (req ∷ reqs) max = ap (◌∷◌ req) (fifo_from steps reqs max)

-- Whatever is put in and taken out: the requests handed out, followed by those still waiting, are those
-- that waited at the start, followed by those taken in, in the same order.
pub delivered_fifo :
    (steps : List QueueStep) (q : RequestQueue)
    → delivered steps q ++ (queue_after steps q).queue ≡ q.queue ++ accepted steps q
delivered_fifo steps q = fifo_from steps q.queue q.max_size

bounded_from :
    (steps : List QueueStep) (waiting : List ToolRequest) (max : ℕ)
    → length waiting ≤ max
    → length (queue_after steps (with_waiting waiting max)).queue
      ≤ (queue_after steps (with_waiting waiting max)).max_size
unfolding dequeue
bounded_from [] waiting max h = h
bounded_from (enqueues req ∷ steps) waiting max h =
    let goal : RequestQueue × Bool → Type 0 =
      λ r. length (queue_after steps r.0).queue ≤ (queue_after steps r.0).max_size in
    elim (enqueue-cases req waiting max) [
      | inl e ↦ subst goal (sym e) (bounded_from steps waiting max h)
      | inr (e, room) ↦ subst goal (sym e) (
          bounded_from steps (waiting ++ (req ∷ [])) max
            (omega (arith, length-append waiting (req ∷ []))))
    ]
bounded_from (dequeues ∷ steps) [] max h = bounded_from steps [] max h
bounded_from (dequeues ∷ steps) (req ∷ reqs) max h = bounded_from steps reqs max (omega arith)

-- Whatever is put in and taken out, a queue within its limit stays within it.
pub queue_after_bounded :
    (steps : List QueueStep) (q : RequestQueue)
    → length q.queue ≤ q.max_size
    → length (queue_after steps q).queue ≤ (queue_after steps q).max_size
queue_after_bounded steps q h = bounded_from steps q.queue q.max_size h
