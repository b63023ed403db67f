-- ===== src/Sessions.antt =====
-- `SessionManager`: mcptoolkit/include/session_manager.h and mcptoolkit/src/session_manager.cpp. An
-- operation is given the readings of the clock that it makes, in nanoseconds, and the random bytes of
-- the identifier that it issues. The mutex is not modelled: each method is one step.
pub mod Validity
pub mod Purged
pub mod Random
use mcptoolkit.Prelude.{
  ℕ, suc, ◌/◌, ◌%◌, Bool, true, false, ◌&&◌, ◌||◌, not, Option, none, some, List, [], ◌∷◌,
  if◌then◌else◌, length, Bytes, codes, beq, empty, ℤ, pos, exceeds,
}
use mcptoolkit.Prelude.Dict.{Dict, lookup, insert, erase}
use mcptoolkit.Auth.{in_ticks}
use mcptoolkit.Json.Builder.{hex_digit}

pub record SessionConfig : Type 0 where
  -- in seconds
  pub idle_timeout : ℤ
  -- in seconds
  pub absolute_ttl : ℤ
  pub id_bytes : ℕ
  pub bind_user_agent : Bool

pub record SessionData : Type 0 where
  pub user_id : Bytes
  pub user_agent : Bytes
  pub created_at : ℕ
  pub last_active : ℕ

pub record SessionResult : Type 0 where
  pub valid : Bool
  pub session_id : Bytes
  pub error : Bytes

pub record SessionManager : Type 0 where
  pub session_config : SessionConfig
  pub ready : Bool
  pub sessions : Dict SessionData

-- `SessionManager()`
abbrev pub new_manager : SessionManager
new_manager = record {
  session_config = record {
    idle_timeout = pos 1800;
    absolute_ttl = pos 86400;
    id_bytes = 32;
    bind_user_agent = true;
  };
  ready = false;
  sessions = [];
}

unfoldable pub configure_sessions : SessionConfig → SessionManager → SessionManager
configure_sessions config m = record m { session_config = config; ready = true }

-- The hexadecimal text of the random bytes, two digits for each.
unfoldable pub generate_id : Bytes → Bytes
unfolding hex_digit
generate_id [] = []
generate_id (byte ∷ random) = hex_digit (byte / 16) ∷ hex_digit (byte % 16) ∷ generate_id random

abbrev pub reject : Bytes → SessionResult
reject error = record { valid = false; session_id = []; error = error }

abbrev pub accept : Bytes → SessionResult
accept id = record { valid = true; session_id = id; error = [] }

-- The session's idle time or its age is over the limit. `SessionManager::is_expired`.
unfoldable pub is_session_expired : SessionConfig → SessionData → ℕ → Bool
is_session_expired config s now =
    exceeds now s.last_active (in_ticks config.idle_timeout)
    || exceeds now s.created_at (in_ticks config.absolute_ttl)

unfoldable pub create_anonymous : Bytes → ℕ → SessionManager → SessionManager × SessionResult
create_anonymous random now m =
    if not m.ready
    then (m, reject (codes "SessionManager not configured"))
    else (let id = generate_id random in
        let session : SessionData = record {
          user_id = [];
          user_agent = [];
          created_at = now;
          last_active = now;
        } in
        (record m { sessions = insert id session m.sessions }, accept id))

-- The old session ends before the new one is stored.
unfoldable pub login :
    Bytes → Bytes → Bytes → Bytes → ℕ → SessionManager → SessionManager × SessionResult
login old_session_id user_id user_agent random now m =
    if not m.ready
    then (m, reject (codes "SessionManager not configured"))
    else if empty user_id
    then (m, reject (codes "user_id required"))
    else (let id = generate_id random in
        let session : SessionData = record {
          user_id = user_id;
          user_agent = user_agent;
          created_at = now;
          last_active = now;
        } in
        (record m { sessions = insert id session (erase old_session_id m.sessions) }, accept id))

-- `validate`, which reads the clock for the expiry and again for the activity.
unfoldable pub validate : Bytes → Bytes → ℕ → ℕ → SessionManager → SessionManager × SessionResult
validate session_id user_agent checked touched m =
    if not m.ready
    then (m, reject (codes "SessionManager not configured"))
    else elim (lookup session_id m.sessions) [
      | none ↦ (m, reject (codes "Session not found"))
      | some s ↦
          if is_session_expired m.session_config s checked
          then (
            record m { sessions = erase session_id m.sessions },
            reject (codes "Session expired"),
          )
          else if m.session_config.bind_user_agent
              && not (empty s.user_agent)
              && not (beq s.user_agent user_agent)
          then (
            record m { sessions = erase session_id m.sessions },
            reject (codes "Session user-agent mismatch"),
          )
          else (
            record m {
              sessions = insert session_id (record s { last_active = touched }) m.sessions;
            },
            accept session_id,
          )
    ]

unfoldable pub logout : Bytes → SessionManager → SessionManager
logout session_id m = record m { sessions = erase session_id m.sessions }

-- The loop of `purge_expired`, with the readings of the clock, one for each session.
unfoldable pub drop_expired : SessionConfig → Dict SessionData → (ℕ → ℕ) → Dict SessionData
drop_expired config [] readings = []
drop_expired config ((id, s) ∷ sessions) readings =
    let rest = drop_expired config sessions (λ n. readings (suc n)) in
    if is_session_expired config s (readings 0) then rest else (id, s) ∷ rest

unfoldable pub purge_expired : (ℕ → ℕ) → SessionManager → SessionManager
purge_expired readings m = record m { sessions = drop_expired m.session_config m.sessions readings }

unfoldable pub active_count : SessionManager → ℕ
active_count m = length m.sessions
