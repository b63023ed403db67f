-- ===== src/Sessions/Validity.antt =====
-- Which sessions `validate` of mcptoolkit/src/session_manager.cpp accepts, and which identifiers it
-- refuses for good.
use mathlib.Core.Path.{subst}
use mcptoolkit.Prelude.{
  ℕ, suc, ◌+◌, ◌*◌, ◌≤◌, ◌≡◌, refl, ◌↔◌, ◌⊎◌, inl, inr, Bool, true, false, ◌&&◌, ◌||◌, not, none,
  some, List, [], ◌∷◌, Bool-cases, Option-cases, Bytes, beq, beq_iff, beq_refl, empty, ℤ, pos,
  negsuc, exceeds, arith,
}
use mcptoolkit.Prelude.Dict.{Dict, lookup, erase, lookup-insert, lookup-erase}
use mcptoolkit.Auth.{in_ticks, ticks_per_second}
use mcptoolkit.Sessions.{
  SessionConfig, SessionData, SessionManager, configure_sessions, generate_id, is_session_expired,
  create_anonymous, login, validate, logout, drop_expired, purge_expired,
}

-- No more than that many seconds went by between the two times.
abbrev pub IsWithin : ℤ → ℕ → ℕ → Type 0
IsWithin (pos n) since now = now ≤ since + n * ticks_per_second
IsWithin (negsuc n) since now = now + suc n * ticks_per_second ≤ since

pub IsWithin-iff :
    (limit : ℤ) (since now : ℕ)
    → (exceeds now since (in_ticks limit) ≡ false) ↔ IsWithin limit since now
unfolding in_ticks
IsWithin-iff (pos n) since now = (λ h. ground arith, λ h. ground arith)
IsWithin-iff (negsuc n) since now = (λ h. ground arith, λ h. ground arith)

-- A session that a client with the user agent may go on with.
pub record IsLive (m : SessionManager) (user_agent : Bytes) (now : ℕ) (s : SessionData)
    : Type 0 where
  pub not_idle : IsWithin m.session_config.idle_timeout s.last_active now
  pub not_old : IsWithin m.session_config.absolute_ttl s.created_at now
  pub same_agent :
      (m.session_config.bind_user_agent ≡ false) ⊎ (s.user_agent ≡ []) ⊎ (s.user_agent ≡ user_agent)

agent_iff :
    (bind : Bool) (stored given : Bytes)
    → ((bind && not (empty stored) && not (beq stored given)) ≡ false)
      ↔ ((bind ≡ false) ⊎ (stored ≡ []) ⊎ (stored ≡ given))
agent_iff false stored given = (λ h. inl refl, λ h. refl)
agent_iff true [] given = (λ h. inr (inl refl), λ h. refl)
agent_iff true (c ∷ stored) given =
    let (to, from) = beq_iff (c ∷ stored) given in
    (
      λ h. inr (inr (to (ground arith))),
      λ r. elim r [
        | inl e ↦ cc
        | inr (inl e) ↦ absurd cc
        | inr (inr e) ↦ let same = from e in ground arith
      ],
    )

IsLive-iff :
    (m : SessionManager) (user_agent : Bytes) (now : ℕ) (s : SessionData)
    → ((is_session_expired m.session_config s now
          || (m.session_config.bind_user_agent
              && not (empty s.user_agent)
              && not (beq s.user_agent user_agent)))
        ≡ false)
      ↔ IsLive m user_agent now s
unfolding is_session_expired
IsLive-iff m user_agent now s =
    let idle = IsWithin-iff m.session_config.idle_timeout s.last_active now in
    let old = IsWithin-iff m.session_config.absolute_ttl s.created_at now in
    let agent = agent_iff m.session_config.bind_user_agent s.user_agent user_agent in
    (
      λ h. record {
        not_idle = idle.0 (ground arith);
        not_old = old.0 (ground arith);
        same_agent = agent.0 (ground arith);
      },
      λ l.
          let a = idle.1 l.not_idle in
          let b = old.1 l.not_old in let c = agent.1 l.same_agent in ground arith,
    )

-- `validate` accepts an identifier exactly if the manager is configured and a session is stored under
-- it that is neither idle nor old beyond its limit at the time of the check, and whose user agent,
-- where agents are bound and the session has one, is the client's.
pub validate_iff :
    (m : SessionManager) (id user_agent : Bytes) (checked touched : ℕ)
    → ((validate id user_agent checked touched m).1.valid ≡ true) ↔ (
        (m.ready ≡ true)
        × (s : SessionData) × (lookup id m.sessions ≡ some s)
        × IsLive m user_agent checked s)
unfolding validate
validate_iff m id user_agent checked touched = elim (Option-cases (lookup id m.sessions)) [
  | inl missing ↦ (λ h. absurd (ground arith), λ (ready, s, there, live). absurd (ground arith))
  | inr (s, there) ↦
      let (to, from) = IsLive-iff m user_agent checked s in
      (
        λ h. (ground arith, s, there, to (ground arith)),
        λ (ready, t, found, live).
            let same : t ≡ s = ground arith in
            let fine = from (subst (IsLive m user_agent checked) same live) in ground arith,
      )
]

-- What can happen to a manager.
pub data SessionStep : Type 0 where
  configures : SessionConfig → SessionStep
  creates : Bytes → ℕ → SessionStep
  logs_in : Bytes → Bytes → Bytes → Bytes → ℕ → SessionStep
  validates : Bytes → Bytes → ℕ → ℕ → SessionStep
  logs_out : Bytes → SessionStep
  purges : (ℕ → ℕ) → SessionStep

abbrev pub take_step : SessionStep → SessionManager → SessionManager
take_step (configures config) m = configure_sessions config m
take_step (creates random now) m = (create_anonymous random now m).0
take_step (logs_in old who agent random now) m = (login old who agent random now m).0
take_step (validates id agent checked touched) m = (validate id agent checked touched m).0
take_step (logs_out id) m = logout id m
take_step (purges readings) m = purge_expired readings m

abbrev pub take_steps : List SessionStep → SessionManager → SessionManager
take_steps [] m = m
take_steps (step ∷ steps) m = take_steps steps (take_step step m)

-- The step issues the identifier.
abbrev pub issues : Bytes → SessionStep → Bool
issues id (creates random now) = beq (generate_id random) id
issues id (logs_in old who agent random now) = beq (generate_id random) id
issues id _ = false

abbrev pub some_issues : Bytes → List SessionStep → Bool
some_issues id [] = false
some_issues id (step ∷ steps) = issues id step || some_issues id steps

drop_expired_absent :
    (config : SessionConfig) (id : Bytes) (sessions : Dict SessionData) (readings : ℕ → ℕ)
    → lookup id sessions ≡ none
    → lookup id (drop_expired config sessions readings) ≡ none
unfolding lookup drop_expired
drop_expired_absent config id [] readings h = refl
drop_expired_absent config id ((j, s) ∷ sessions) readings h =
    ground (arith, drop_expired_absent config id sessions (λ n. readings (suc n)))

validate_absent :
    (m : SessionManager) (id j agent : Bytes) (checked touched : ℕ)
    → lookup id m.sessions ≡ none
    → lookup id (validate j agent checked touched m).0.sessions ≡ none
unfolding validate
validate_absent m id j agent checked touched h = elim (Option-cases (lookup j m.sessions)) [
  | inl missing ↦ ground arith
  | inr (s, there) ↦ elim (Bool-cases (beq j id)) [
    | inl same ↦ let e : j ≡ id = (beq_iff j id).0 same in absurd cc
    | inr other ↦ ground (
      arith,
      lookup-insert j id (record s { last_active = touched }) m.sessions,
      lookup-erase j id m.sessions,
    )
  ]
]

step_absent :
    (step : SessionStep) (m : SessionManager) (id : Bytes)
    → issues id step ≡ false
    → lookup id m.sessions ≡ none
    → lookup id (take_step step m).sessions ≡ none
unfolding configure_sessions create_anonymous login logout purge_expired
step_absent (configures config) m id i h = h
step_absent (creates random now) m id i h = ground (
  arith,
  lookup-insert (generate_id random) id
      (record { user_id = []; user_agent = []; created_at = now; last_active = now }) m.sessions,
)
step_absent (logs_in old who agent random now) m id i h = ground (
  arith,
  lookup-insert (generate_id random) id
      (record { user_id = who; user_agent = agent; created_at = now; last_active = now })
      (erase old m.sessions),
  lookup-erase old id m.sessions,
)
step_absent (validates j agent checked touched) m id i h =
    validate_absent m id j agent checked touched h
step_absent (logs_out j) m id i h = ground (arith, lookup-erase j id m.sessions)
step_absent (purges readings) m id i h =
    drop_expired_absent m.session_config id m.sessions readings h

steps_absent :
    (steps : List SessionStep) (m : SessionManager) (id : Bytes)
    → some_issues id steps ≡ false
    → lookup id m.sessions ≡ none
    → lookup id (take_steps steps m).sessions ≡ none
steps_absent [] m id i h = h
steps_absent (step ∷ steps) m id i h =
    steps_absent steps (take_step step m) id (ground arith) (step_absent step m id (ground arith) h)

validate_unknown :
    (m : SessionManager) (id agent : Bytes) (checked touched : ℕ)
    → lookup id m.sessions ≡ none
    → (validate id agent checked touched m).1.valid ≡ false
unfolding validate
validate_unknown m id agent checked touched h = ground arith

login_absent :
    (m : SessionManager) (old who agent random : Bytes) (now : ℕ)
    → (login old who agent random now m).1.valid ≡ true
    → beq (generate_id random) old ≡ false
    → lookup old (login old who agent random now m).0.sessions ≡ none
unfolding login
login_absent m old who agent random now ok other = ground (
  arith,
  beq_refl old,
  lookup-insert (generate_id random) old
      (record { user_id = who; user_agent = agent; created_at = now; last_active = now })
      (erase old m.sessions),
  lookup-erase old old m.sessions,
)

-- An identifier that a successful login gave up (the session from before it, which an attacker may have
-- fixed) is refused ever after: whatever steps follow, as long as neither the login nor any of them
-- issues that very identifier again.
pub login-ends_session :
    (m : SessionManager) (old who agent random : Bytes) (now : ℕ) (steps : List SessionStep)
    (given : Bytes) (checked touched : ℕ)
    → (login old who agent random now m).1.valid ≡ true
    → some_issues old (logs_in old who agent random now ∷ steps) ≡ false
    → (validate old given checked touched
        (take_steps (logs_in old who agent random now ∷ steps) m)).1.valid
      ≡ false
login-ends_session m old who agent random now steps given checked touched ok i =
    let after = login_absent m old who agent random now ok (ground arith) in
    validate_unknown (take_steps steps (login old who agent random now m).0) old given checked
      touched (steps_absent steps (login old who agent random now m).0 old (ground arith) after)
