-- ===== src/Runtime/Drain.antt =====
-- The queue of mcptoolkit/src/request_queue.cpp under all of its methods that change it: how a request leaves
-- it.
use mathlib.Core.Path.{subst}
use mcptoolkit.Prelude.{
  ℕ, zero, suc, ◌≤◌, ◌≡◌, refl, sym, ◌∙◌, ap, Bool, Option, none, some, List, [], ◌∷◌, ◌++◌,
  append_assoc, append-nil, if◌then◌else◌, inl, inr, length, replicate, arith,
}
use mcptoolkit.Runtime.{ToolRequest, RequestQueue, enqueue, dequeue, clear, set_max_size}
use mcptoolkit.Runtime.Fifo.{with_waiting, enqueue-cases}

-- A call of the queue.
pub data QueueCall : Type 0 where
  adds : ToolRequest → QueueCall
  takes clears : QueueCall
  resizes : ℕ → QueueCall

-- How a request leaves: the worker gets it, or `clear` drops it.
pub data Departure : Type 0 where
  handed dropped : ToolRequest → Departure

abbrev pub queue_behind : List QueueCall → RequestQueue → RequestQueue
queue_behind [] q = q
queue_behind (adds req ∷ calls) q = queue_behind calls (enqueue req q).0
queue_behind (takes ∷ calls) q = queue_behind calls (dequeue q).0
queue_behind (clears ∷ calls) q = queue_behind calls (clear q)
queue_behind (resizes max ∷ calls) q = queue_behind calls (set_max_size max q)

-- The requests that were taken in, in order.
abbrev pub taken_in : List QueueCall → RequestQueue → List ToolRequest
taken_in [] q = []
taken_in (adds req ∷ calls) q =
    let rest = taken_in calls (enqueue req q).0 in if (enqueue req q).1 then req ∷ rest else rest
taken_in (takes ∷ calls) q = taken_in calls (dequeue q).0
taken_in (clears ∷ calls) q = taken_in calls (clear q)
taken_in (resizes max ∷ calls) q = taken_in calls (set_max_size max q)

abbrev drop_all : List ToolRequest → List Departure → List Departure
drop_all [] rest = rest
drop_all (req ∷ reqs) rest = dropped req ∷ drop_all reqs rest

abbrev hand : Option ToolRequest → List Departure → List Departure
hand o rest = elim o [ none ↦ rest | some req ↦ handed req ∷ rest ]

-- The requests that left, in order: what `dequeue` returned, and what was waiting at a `clear`.
abbrev pub departures : List QueueCall → RequestQueue → List Departure
departures [] q = []
departures (adds req ∷ calls) q = departures calls (enqueue req q).0
departures (takes ∷ calls) q = hand (dequeue q).1 (departures calls (dequeue q).0)
departures (clears ∷ calls) q = drop_all q.queue (departures calls (clear q))
departures (resizes max ∷ calls) q = departures calls (set_max_size max q)

abbrev pub requests : List Departure → List ToolRequest
requests [] = []
requests (handed req ∷ ds) = req ∷ requests ds
requests (dropped req ∷ ds) = req ∷ requests ds

-- Those that `clear` dropped.
abbrev pub drops : List Departure → List ToolRequest
drops [] = []
drops (handed req ∷ ds) = drops ds
drops (dropped req ∷ ds) = req ∷ drops ds

requests-drop_all :
    (reqs : List ToolRequest) (ds : List Departure)
    → requests (drop_all reqs ds) ≡ reqs ++ requests ds
requests-drop_all [] ds = refl
requests-drop_all (req ∷ reqs) ds = ap (◌∷◌ req) (requests-drop_all reqs ds)

drops-drop_all :
    (reqs : List ToolRequest) (ds : List Departure) → drops (drop_all reqs ds) ≡ reqs ++ drops ds
drops-drop_all [] ds = refl
drops-drop_all (req ∷ reqs) ds = ap (◌∷◌ req) (drops-drop_all reqs ds)

drops-hand : (o : Option ToolRequest) (ds : List Departure) → drops (hand o ds) ≡ drops ds
drops-hand none ds = refl
drops-hand (some req) ds = refl

module _ (turns : ℕ) where
  -- The calls, and then the turns of the worker.
  abbrev pub then_turns : List QueueCall → List QueueCall
  then_turns calls = calls ++ replicate turns takes

  leave_from :
      (calls : List QueueCall) (waiting : List ToolRequest) (max : ℕ)
      → length (queue_behind calls (with_waiting waiting max)).queue ≤ turns
      → requests (departures (then_turns calls) (with_waiting waiting max))
        ≡ waiting ++ taken_in calls (with_waiting waiting max)
  unfolding dequeue clear set_max_size
  leave_from [] waiting max h = drained turns waiting max h ∙ sym (append-nil waiting)
    where
      -- As many turns of the worker as there are requests take them all.
      drained :
          (turns : ℕ) (waiting : List ToolRequest) (max : ℕ)
          → length waiting ≤ turns
          → requests (departures (replicate turns takes) (with_waiting waiting max)) ≡ waiting
      drained zero [] max h = refl
      drained zero (req ∷ reqs) max h = absurd (omega arith)
      drained (suc turns) [] max h = drained turns [] max (omega arith)
      drained (suc turns) (req ∷ reqs) max h = ap (◌∷◌ req) (drained turns reqs max (omega arith))
  leave_from (adds req ∷ calls) waiting max h =
      let goal : RequestQueue × Bool → Type 0 = λ r.
        length (queue_behind calls r.0).queue ≤ turns
        → requests (departures (then_turns calls) r.0)
          ≡ waiting ++ (if r.1 then req ∷ taken_in calls r.0 else taken_in calls r.0) in
      elim (enqueue-cases req waiting max) [
        | inl e ↦ subst goal (sym e) (leave_from calls waiting max) h
        | inr (e, _) ↦
            subst goal (sym e)
              (λ k.
                leave_from calls (waiting ++ (req ∷ [])) max k
                ∙ append_assoc waiting (req ∷ [])
                    (taken_in calls (with_waiting (waiting ++ (req ∷ [])) max)))
              h
      ]
  leave_from (takes ∷ calls) [] max h = leave_from calls [] max h
  leave_from (takes ∷ calls) (req ∷ reqs) max h = ap (◌∷◌ req) (leave_from calls reqs max h)
  leave_from (clears ∷ calls) waiting max h =
      requests-drop_all waiting (departures (then_turns calls) (with_waiting [] max))
      ∙ ap (λ t. waiting ++ t) (leave_from calls [] max h)
  leave_from (resizes size ∷ calls) waiting max h = leave_from calls waiting size h

  turns_drop_none : (n : ℕ) (q : RequestQueue) → drops (departures (replicate n takes) q) ≡ []
  turns_drop_none zero q = refl
  turns_drop_none (suc n) q =
      drops-hand (dequeue q).1 (departures (replicate n takes) (dequeue q).0)
      ∙ turns_drop_none n (dequeue q).0

  drops-then_turns :
      (calls : List QueueCall) (q : RequestQueue)
      → drops (departures (then_turns calls) q) ≡ drops (departures calls q)
  drops-then_turns [] q = turns_drop_none turns q
  drops-then_turns (adds req ∷ calls) q = drops-then_turns calls (enqueue req q).0
  drops-then_turns (takes ∷ calls) q =
      let q' = (dequeue q).0 in
      drops-hand (dequeue q).1 (departures (then_turns calls) q')
      ∙ drops-then_turns calls q'
      ∙ sym (drops-hand (dequeue q).1 (departures calls q'))
  drops-then_turns (clears ∷ calls) q =
      drops-drop_all q.queue (departures (then_turns calls) (clear q))
      ∙ ap (λ t. q.queue ++ t) (drops-then_turns calls (clear q))
      ∙ sym (drops-drop_all q.queue (departures calls (clear q)))
  drops-then_turns (resizes max ∷ calls) q = drops-then_turns calls (set_max_size max q)

-- Nothing starves: after any calls of `enqueue`, `dequeue`, `clear` and `set_max_size`, as many further
-- turns of the worker as there are requests waiting make every request leave that waited at the start or
-- was taken in since, in that order. The worker got each of them but those that a `clear` dropped, and the
-- further turns drop none.
pub delivered_at_last :
    (calls : List QueueCall) (turns : ℕ) (q : RequestQueue)
    → length (queue_behind calls q).queue ≤ turns
    → (requests (departures (then_turns turns calls) q) ≡ q.queue ++ taken_in calls q)
      × (drops (departures (then_turns turns calls) q) ≡ drops (departures calls q))
delivered_at_last calls turns q h =
    (leave_from turns calls q.queue q.max_size h, drops-then_turns turns calls q)
