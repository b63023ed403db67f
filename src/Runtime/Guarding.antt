-- ===== src/Runtime/Guarding.antt =====
-- The timeouts of mcptoolkit/src/timeout_manager.cpp and the checks of
-- mcptoolkit/src/tool_execution_guard.cpp.
use mcptoolkit.Prelude.{
  ℕ, ◌+◌, ◌-◌, ◌*◌, ◌/◌, ◌≤◌, ◌<◌, ◌≡◌, refl, ◌↔◌, ◌⊎◌, true, false, none, [], ◌∷◌, ltb, ◌==◌,
  Bool-cases, inl, inr, length, Bytes, pos, arith,
}
use mcptoolkit.Runtime.{is_timeout, get_remaining_time, breaks_json, has_breaking, validate_output}

-- A timeout of `n` milliseconds is over exactly from `n` million nanoseconds behind its start on, where
-- the clock has not gone back behind the start.
pub is_timeout_iff :
    (id start n now : ℕ)
    → start ≤ now
    → (is_timeout (record { timeout_id = id; start_time = start; timeout_ms = pos n }) now ≡ true)
      ↔ (start + n * 1000000 ≤ now)
unfolding is_timeout
is_timeout_iff id start n now h = (λ k. ground arith, λ k. ground arith)

-- The time left is a given positive number of milliseconds exactly if this number and the whole
-- milliseconds that went by make up the timeout, where the clock has not gone back.
pub get_remaining_time_iff :
    (start n now left : ℕ)
    → start ≤ now
    → 0 < left
    → (get_remaining_time (record { timeout = pos n; started_at = start }) now ≡ pos left)
      ↔ (left + (now - start) / 1000000 ≡ n)
unfolding get_remaining_time
get_remaining_time_iff start n now left h k = (λ e. ground arith, λ e. ground arith)

-- Every byte can stand in the text of a JSON reply: it is no control character but a tab, a line feed
-- or a carriage return.
abbrev pub IsClean : Bytes → Type 0
IsClean [] = Unit {0}
IsClean (c ∷ output) = ((32 ≤ c) ⊎ (c ≡ 9) ⊎ (c ≡ 10) ⊎ (c ≡ 13)) × IsClean output

breaks_json_iff : (c : ℕ) → (breaks_json c ≡ false) ↔ ((32 ≤ c) ⊎ (c ≡ 9) ⊎ (c ≡ 10) ⊎ (c ≡ 13))
unfolding breaks_json
breaks_json_iff c = (
  λ h. elim (Bool-cases (ltb c 32)) [
    | inr printed ↦ inl (ground arith)
    | inl control ↦ elim (Bool-cases (c == 9)) [
      | inl tab ↦ inr (inl (ground arith))
      | inr no_tab ↦ elim (Bool-cases (c == 10)) [
        | inl feed ↦ inr (inr (inl (ground arith)))
        | inr no_feed ↦
            (let ret : (c == 13) ≡ true = ground arith in inr (inr (inr (ground arith))))
      ]
    ]
  ],
  λ h. elim h [
    | inl e ↦ ground arith
    | inr (inl e) ↦ ground arith
    | inr (inr (inl e)) ↦ ground arith
    | inr (inr (inr e)) ↦ ground arith
  ],
)

has_breaking_iff : (output : Bytes) → (has_breaking output ≡ false) ↔ IsClean output
unfolding has_breaking
has_breaking_iff [] = (λ h. record {}, λ h. refl)
has_breaking_iff (c ∷ output) =
    let (to, from) = breaks_json_iff c in
    let (to_rest, from_rest) = has_breaking_iff output in
    (
      λ h. (to (ground arith), to_rest (ground arith)),
      λ (here, later). let a = from here in let b = from_rest later in ground arith,
    )

-- An output passes exactly if it is no longer than the limit and each of its bytes can stand in a
-- reply.
pub validate_output_iff :
    (output : Bytes) (max_size : ℕ)
    → (validate_output output max_size ≡ none) ↔ ((length output ≤ max_size) × IsClean output)
unfolding validate_output
validate_output_iff output max_size =
    let (to, from) = has_breaking_iff output in
    (λ h. (ground arith, to (ground arith)), λ (short, clean). let a = from clean in ground arith)
