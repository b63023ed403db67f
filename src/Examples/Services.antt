-- ===== src/Examples/Services.antt =====
-- Sessions, the request queue and the timeouts on concrete inputs, and the theorems applied to them.
use mcptoolkit.Prelude.{
  ◌≤◌, ◌≡◌, ◌↔◌, refl, true, false, some, List, [], ◌∷◌, ◌++◌, length, IsElement, codes, beq, pos,
  arith,
}
use mcptoolkit.Prelude.Dict.{lookup}
use mcptoolkit.Sessions.{SessionManager, SessionData, new_manager, generate_id, login, validate}
use mcptoolkit.Sessions.Validity.{
  IsLive, validate_iff, SessionStep, logs_in, validates, take_steps, some_issues,
  login-ends_session,
}
use mcptoolkit.Runtime.{ToolRequest, RequestQueue}
use mcptoolkit.Sessions.{purge_expired}
use mcptoolkit.Sessions.Purged.{IsFresh, constant, purge_expired_iff}
use mcptoolkit.Runtime.{new_timeouts}
use mcptoolkit.Runtime.Timeouts.{
  TimeoutStep, starts, changes_default, guards, AreGrowing, new_timeouts-AreGrowing,
}
use mcptoolkit.Runtime.Fifo.{
  QueueStep, enqueues, dequeues, queue_after, accepted, delivered, delivered_fifo,
  queue_after_bounded,
}

abbrev manager : SessionManager
manager = record new_manager {
  ready = true;
  sessions =
      (codes "old", record { user_id = []; user_agent = []; created_at = 5; last_active = 5 }) ∷ [];
}

validate_iff_example : ((validate (codes "old") (codes "web") 6 7 manager).1.valid ≡ true) ↔ (
    (manager.ready ≡ true)
    × (s : SessionData) × (lookup (codes "old") manager.sessions ≡ some s)
    × IsLive manager (codes "web") 6 s)
validate_iff_example = validate_iff manager (codes "old") (codes "web") 6 7

login_is_valid :
    (login (codes "old") (codes "bob") (codes "web") (7 ∷ 255 ∷ []) 8 manager).1.valid ≡ true
unfolding login
login_is_valid = refl

abbrev login_step : SessionStep
login_step = logs_in (codes "old") (codes "bob") (codes "web") (7 ∷ 255 ∷ []) 8

not_issued : some_issues (codes "old") (login_step ∷ validates (codes "old") [] 9 9 ∷ []) ≡ false
unfolding generate_id beq
not_issued = refl

login-ends_session_example :
    (validate
      (codes "old")
      (codes "web")
      10
      10
      (take_steps (login_step ∷ validates (codes "old") [] 9 9 ∷ []) manager)).1.valid
    ≡ false
login-ends_session_example =
    login-ends_session manager (codes "old") (codes "bob") (codes "web") (7 ∷ 255 ∷ []) 8
      (validates (codes "old") [] 9 9 ∷ []) (codes "web") 10 10 login_is_valid not_issued

abbrev echo_request : ToolRequest
echo_request = record { tool_name = codes "echo"; args_json = codes "{}"; client_id = codes "c" }

abbrev one_place : RequestQueue
one_place = record { queue = []; max_size = 1 }

abbrev busy : List QueueStep
busy = enqueues echo_request ∷ enqueues echo_request ∷ dequeues ∷ enqueues echo_request ∷ []

delivered_fifo_example :
    delivered busy one_place ++ (queue_after busy one_place).queue
    ≡ one_place.queue ++ accepted busy one_place
delivered_fifo_example = delivered_fifo busy one_place

queue_after_bounded_example :
    length (queue_after busy one_place).queue ≤ (queue_after busy one_place).max_size
queue_after_bounded_example = queue_after_bounded busy one_place (omega arith)

abbrev two_guards : List TimeoutStep
two_guards = starts (pos 5) 7 ∷ changes_default (pos 9) ∷ starts (pos 5) 8 ∷ []

new_timeouts-AreGrowing_example : AreGrowing 0 (guards two_guards new_timeouts)
new_timeouts-AreGrowing_example = new_timeouts-AreGrowing two_guards (omega arith)

abbrev old_session : SessionData
old_session = record { user_id = []; user_agent = []; created_at = 5; last_active = 5 }

purge_expired_iff_example :
    IsElement (codes "old", old_session) (purge_expired (constant 6) manager).sessions ↔ (
      IsElement (codes "old", old_session) manager.sessions
      × IsFresh manager.session_config 6 old_session)
purge_expired_iff_example = purge_expired_iff manager 6 (codes "old") old_session
