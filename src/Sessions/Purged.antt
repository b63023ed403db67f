-- ===== src/Sessions/Purged.antt =====
-- Which sessions `purge_expired` of mcptoolkit/src/session_manager.cpp leaves.
use mcptoolkit.Prelude.{
  ℕ, ◌≡◌, ◌↔◌, ◌⊎◌, inl, inr, false, List, [], ◌∷◌, ◌++◌, Bool-cases, IsElement, IsElement-here,
  IsElement-there, Bytes, arith,
}
use mcptoolkit.Prelude.Dict.{Dict}
use mcptoolkit.Sessions.{
  SessionConfig, SessionData, SessionManager, is_session_expired, drop_expired, purge_expired,
}
use mcptoolkit.Sessions.Validity.{IsWithin, IsWithin-iff}

-- A session that is neither idle nor old beyond its limit.
pub record IsFresh (config : SessionConfig) (now : ℕ) (s : SessionData) : Type 0 where
  pub not_idle : IsWithin config.idle_timeout s.last_active now
  pub not_old : IsWithin config.absolute_ttl s.created_at now

is_session_expired-IsFresh :
    (config : SessionConfig) (now : ℕ) (s : SessionData)
    → (is_session_expired config s now ≡ false) ↔ IsFresh config now s
unfolding is_session_expired
is_session_expired-IsFresh config now s =
    let idle = IsWithin-iff config.idle_timeout s.last_active now in
    let old = IsWithin-iff config.absolute_ttl s.created_at now in
    (
      λ h. record { not_idle = idle.0 (ground arith); not_old = old.0 (ground arith) },
      λ f. let a = idle.1 f.not_idle in let b = old.1 f.not_old in ground arith,
    )

IsElement-cases :
    {A : Type 0} (x y : A) (xs : List A) → IsElement x (y ∷ xs) → (x ≡ y) ⊎ IsElement x xs
IsElement-cases x y xs ([], after, e) = inl cc
IsElement-cases x y xs (z ∷ before, after, e) = inr (before, after, cc)

-- The readings of a clock that stands still.
abbrev pub constant : ℕ → ℕ → ℕ
constant now n = now

drop_expired_sound :
    (config : SessionConfig) (now : ℕ) (entry : Bytes × SessionData) (sessions : Dict SessionData)
    → IsElement entry (drop_expired config sessions (constant now))
    → IsElement entry sessions × (is_session_expired config entry.1 now ≡ false)
unfolding drop_expired
drop_expired_sound config now entry [] ([], after, e) = absurd cc
drop_expired_sound config now entry [] (z ∷ before, after, e) = absurd cc
drop_expired_sound config now entry ((id, s) ∷ sessions) h =
    elim (Bool-cases (is_session_expired config s now)) [
      | inl expired ↦
          let (there, fresh) = drop_expired_sound config now entry sessions (simp expired at h) in
          (IsElement-there (id, s) there, fresh)
      | inr fresh ↦
          elim (IsElement-cases entry (id, s) (drop_expired config sessions (constant now))
            (simp fresh at h)) [
              | inl here ↦ rw here (IsElement-here (id, s) sessions, fresh)
              | inr later ↦
                  let (there, still) = drop_expired_sound config now entry sessions later in
                  (IsElement-there (id, s) there, still)
            ]
    ]

drop_expired_complete :
    (config : SessionConfig) (now : ℕ) (entry : Bytes × SessionData)
    (before after : Dict SessionData)
    → is_session_expired config entry.1 now ≡ false
    → IsElement entry (drop_expired config (before ++ (entry ∷ after)) (constant now))
unfolding drop_expired
drop_expired_complete config now (id, s) [] after fresh =
    simp fresh (IsElement-here (id, s) (drop_expired config after (constant now)))
drop_expired_complete config now entry ((id, s) ∷ before) after fresh =
    let rest = drop_expired_complete config now entry before after fresh in
    elim (Bool-cases (is_session_expired config s now)) [
      | inl expired ↦ simp expired rest
      | inr kept ↦ simp kept (IsElement-there (id, s) rest)
    ]

-- At one time of the clock, `purge_expired` leaves exactly the sessions that are neither idle nor old
-- beyond their limit, each with its identifier and its data.
pub purge_expired_iff :
    (m : SessionManager) (now : ℕ) (id : Bytes) (s : SessionData)
    → IsElement (id, s) (purge_expired (constant now) m).sessions
      ↔ (IsElement (id, s) m.sessions × IsFresh m.session_config now s)
unfolding purge_expired
purge_expired_iff m now id s =
    let (to, from) = is_session_expired-IsFresh m.session_config now s in
    (
      λ h.
          let (there, fresh) = drop_expired_sound m.session_config now (id, s) m.sessions h in
          (there, to fresh),
      λ ((before, after, e), fresh).
          rw e (drop_expired_complete m.session_config now (id, s) before after (from fresh)),
    )
