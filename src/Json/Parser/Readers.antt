-- ===== src/Json/Parser/Readers.antt =====
-- The readers of `parse` and `parse_error_object` never leave more input than they were given, so the
-- loops over them end.
use mcptoolkit.Prelude.{
  ℕ, suc, ◌≤◌, ◌≡◌, ap, Bool, true, false, Option, none, some, [], ◌∷◌, inl, inr, ◌==◌, length,
  Bytes, arith, IsSuffix-length, if◌then◌else◌, codes, beq, Option-cases,
}
use mcptoolkit.Json.Message.{Message}
use mcptoolkit.Json.Scan.{skip_ws, parse_string, parse_int, skip_value}
use mcptoolkit.Json.Scan.Suffix.{
  skip_ws-IsSuffix, parse_string-IsSpan, parse_int-IsSuffix, skip_value-IsSpan,
}
use mcptoolkit.Json.Parser.Total.{
  Shrinks, IsShrinking, Shrinks-mono, run_members_total, run_members-Shrinks,
}
use mcptoolkit.Json.Parser.{
  Step, members, run_members, store_error_code, store_error_msg, ignore_value, read_error_field,
  close_error, error_object_at, parse_error_object, object_at, store_method, store_id, store_params,
  store_result, mark_response, read_field,
}

store_error_code-Shrinks :
    (msg : Message) (s : Bytes) → Shrinks s (store_error_code msg (parse_int s))
unfolding store_error_code
store_error_code-Shrinks msg s = elim (Option-cases (parse_int s)) [
  | inl e ↦ rw e tt
  | inr ((n, r), e) ↦ rw e (IsSuffix-length (parse_int-IsSuffix s e).0)
]

store_id-Shrinks : (msg : Message) (s : Bytes) → Shrinks s (store_id msg (parse_int s))
unfolding store_id
store_id-Shrinks msg s = elim (Option-cases (parse_int s)) [
  | inl e ↦ rw e tt
  | inr ((n, r), e) ↦ rw e (IsSuffix-length (parse_int-IsSuffix s e).0)
]

-- The readers that go on from a value differ only in what they store.
value-Shrinks :
    (store : Option (Bytes × ℕ × Bytes) → Step) (s : Bytes)
    → Shrinks s (store none)
    → ((start r : Bytes) (len : ℕ) → length r ≤ length s → Shrinks s (store (some (start, len, r))))
    → Shrinks s (store (skip_value s))
value-Shrinks store s f g = elim (Option-cases (skip_value s)) [
  | inl e ↦ rw e f
  | inr ((start, len, r), e) ↦
      let found = skip_value-IsSpan s e in
      rw e (g start r len (omega (arith, found.fits, IsSuffix-length found.starts)))
]

string-Shrinks :
    (store : Option Bytes → Option (ℕ × Bytes) → Step) (s : Bytes)
    → ((end : Option (ℕ × Bytes)) → Shrinks s (store none end))
    → ((start : Bytes) → Shrinks s (store (some start) none))
    → ((start r : Bytes) (len : ℕ)
        → length r ≤ length s
        → Shrinks s (store (some start) (some (len, r))))
    → Shrinks s (store (parse_string s).start (parse_string s).end)
string-Shrinks store s f g k = elim (Option-cases (parse_string s).start) [
  | inl e ↦ rw e (f (parse_string s).end)
  | inr (start, e) ↦ elim (Option-cases (parse_string s).end) [
    | inl q ↦ rw (e, q) (g start)
    | inr ((len, r), q) ↦
        let found = parse_string-IsSpan s e q in
        rw (e, q) (k start r len (omega (arith, found.fits, IsSuffix-length found.starts)))
  ]
]

if-Shrinks :
    (b : Bool) (s : Bytes) (x y : Step) → Shrinks s x → Shrinks s y → Shrinks s (if b then x else y)
if-Shrinks true s x y f g = f
if-Shrinks false s x y f g = g

ignore_value-Shrinks : (msg : Message) (s : Bytes) → Shrinks s (ignore_value msg (skip_value s))
unfolding ignore_value
ignore_value-Shrinks msg s = value-Shrinks (ignore_value msg) s tt (λ start r len h. h)

read_error_field-IsShrinking : IsShrinking read_error_field
unfolding read_error_field store_error_msg
read_error_field-IsShrinking = record {
  at = λ key msg s. if-Shrinks (beq key (codes "code")) s _ _ (store_error_code-Shrinks msg s) (
      if-Shrinks (beq key (codes "message")) s _ _
        (string-Shrinks (store_error_msg msg) s (λ end. tt) (λ start. tt) (λ start r len h. h))
        (ignore_value-Shrinks msg s));
}

error_object_at-Shrinks : (msg : Message) (s : Bytes) → Shrinks s (error_object_at msg s)
unfolding error_object_at
error_object_at-Shrinks msg [] = tt
error_object_at-Shrinks msg (c ∷ s) =
    if-Shrinks (c == b'{') (c ∷ s) _ _
      (close (run_members read_error_field msg s)
        (run_members-Shrinks read_error_field read_error_field-IsShrinking msg s))
      tt
  where
    close : (step : Step) → Shrinks s step → Shrinks (c ∷ s) (close_error step)
    close (msg, none) h = tt
    close (msg, some r) h = omega arith

parse_error_object-Shrinks : (msg : Message) (s : Bytes) → Shrinks s (parse_error_object msg s)
unfolding parse_error_object
parse_error_object-Shrinks msg s =
    Shrinks-mono (skip_ws s) s (error_object_at msg (skip_ws s))
      (IsSuffix-length (skip_ws-IsSuffix s)) (error_object_at-Shrinks msg (skip_ws s))

mark_response-Shrinks : (s : Bytes) (step : Step) → Shrinks s step → Shrinks s (mark_response step)
mark_response-Shrinks s (msg, none) h = tt
mark_response-Shrinks s (msg, some r) h = h

pub read_field-IsShrinking : IsShrinking read_field
unfolding read_field store_method store_params store_result
read_field-IsShrinking = record {
  at = λ key msg s. if-Shrinks (beq key (codes "jsonrpc")) s _ _ (ignore_value-Shrinks msg s) (
      if-Shrinks (beq key (codes "method")) s _ _
        (string-Shrinks (store_method msg) s (λ end. tt) (λ start. tt) (λ start r len h. h))
        (if-Shrinks (beq key (codes "id")) s _ _ (store_id-Shrinks msg s) (
          if-Shrinks (beq key (codes "params")) s _ _
            (value-Shrinks (store_params msg) s tt (λ start r len h. h))
            (if-Shrinks (beq key (codes "result")) s _ _
              (value-Shrinks (store_result msg) s tt (λ start r len h. h))
              (if-Shrinks (beq key (codes "error")) s _ _
                (mark_response-Shrinks s (parse_error_object msg s)
                  (parse_error_object-Shrinks msg s))
                (ignore_value-Shrinks msg s))))));
}

-- The two object loops end, whatever follows the opening brace: on fuel of one more than the bytes that are
-- left, neither the loop over an error object nor the one over a message uses its fuel up; what
-- `parse_error_object` and `parse` make of the object is what that loop came to, and on success no more
-- input is left than there was.
pub object_loops_total :
    (msg : Message) (s : Bytes)
    → ((step : Step) × (members read_error_field (suc (length s)) msg s ≡ some step)
        × (parse_error_object msg (b'{' ∷ s) ≡ close_error step)
        × (Shrinks s step))
      × ((step : Step) × (members read_field (suc (length s)) msg s ≡ some step)
          × (object_at msg (b'{' ∷ s) ≡ step)
          × (Shrinks s step))
unfolding parse_error_object error_object_at object_at skip_ws
object_loops_total msg s =
    let (inner, inner_ends, inner_run, inner_less) =
      run_members_total read_error_field read_error_field-IsShrinking msg s in
    let (outer, outer_ends, outer_run, outer_less) =
      run_members_total read_field read_field-IsShrinking msg s in
    (
      (inner, inner_ends, ap close_error inner_run, inner_less),
      (outer, outer_ends, outer_run, outer_less),
    )
