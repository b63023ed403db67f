-- ===== src/Json/Parser/Spans.antt =====
-- A message that was parsed is well formed: its pointers and lengths lie in the input, and its flags
-- say which fields are there.
use mcptoolkit.Prelude.{
  ℕ, ◌≤◌, ◌≡◌, refl, Bool, true, false, ◌||◌, Option, none, some, [], ◌∷◌, inl, inr, ◌==◌,
  Bool-cases, length, Bytes, codes, beq, ltb, IsSuffix, IsSuffix-trans, Option-cases, arith, ℤ,
}
use mcptoolkit.Json.Message.{Message, blank}
use mcptoolkit.Json.Scan.{skip_ws, parse_string, parse_int, skip_value}
use mcptoolkit.Json.Scan.Suffix.{
  IsInt, IsSpan, skip_ws-IsSuffix, parse_string-IsSpan, parse_int-IsSuffix, skip_value-IsSpan,
}
use mcptoolkit.Json.Parser.Invariant.{Keeps, IsKeeping, if-Keeps, IsSuffix-tail, run_members-Keeps}
use mcptoolkit.Json.Parser.{
  Step, run_members, store_error_code, store_error_msg, ignore_value, read_error_field, close_error,
  error_object_at, parse_error_object, store_method, store_id, store_params, store_result,
  mark_response, read_field, object_at, parse, set_valid, parse_message,
}

-- A null pointer, or a pointer into the input with room for the length.
abbrev pub Points : Bytes → Option Bytes → ℕ → Type 0
Points input none len = Unit {0}
Points input (some p) len = IsSuffix p input × (len ≤ length p)

abbrev pub is_some {ℓ} : {A : Type ℓ} → Option A → Bool
is_some none = false
is_some (some a) = true

abbrev pub IntIfAny : Option ℤ → Type 0
IntIfAny none = Unit {0}
IntIfAny (some n) = IsInt n

-- All but `is_response`, which is set last.
pub record IsPartial (input : Bytes) (msg : Message) : Type 0 where
  pub method : Points input msg.method msg.method_len
  pub params : Points input msg.params_start msg.params_len
  pub result : Points input msg.result_start msg.result_len
  pub error_msg : Points input msg.error_msg msg.error_msg_len
  pub id : IntIfAny msg.id
  pub error_code : IsInt msg.error_code
  pub request_iff : msg.is_request ≡ is_some msg.method
  pub result_iff : msg.has_result ≡ is_some msg.result_start

pub record IsWellFormed (input : Bytes) (msg : Message) : Type 0 where
  pub base : IsPartial input msg
  pub open base use *
  pub response_iff : msg.is_response ≡ (msg.has_result || msg.has_error)

-- What a token's reader gives its store: a span of the input.
record IsRead (input start : Bytes) (len : ℕ) (r : Bytes) : Type 0 where
  points : IsSuffix start input × (len ≤ length start)
  left : IsSuffix r input

IsRead-span :
    {input s start r : Bytes} {len : ℕ}
    → IsSuffix s input
    → IsSpan s start len r
    → IsRead input start len r
IsRead-span h found = record {
  points = (IsSuffix-trans found.starts h, omega (arith, found.fits));
  left = IsSuffix-trans found.rests (IsSuffix-trans found.starts h);
}

module _ (P : Message → Type 0) {input s : Bytes} (h : IsSuffix s input) where
  value-Keeps :
      (store : Option (Bytes × ℕ × Bytes) → Step)
      → Keeps P input (store none)
      → ((start r : Bytes) (len : ℕ)
          → IsRead input start len r
          → Keeps P input (store (some (start, len, r))))
      → Keeps P input (store (skip_value s))
  value-Keeps store f g = elim (Option-cases (skip_value s)) [
    | inl e ↦ rw e f
    | inr ((start, len, r), e) ↦ rw e (g start r len (IsRead-span h (skip_value-IsSpan s e)))
  ]

  string-Keeps :
      (store : Option Bytes → Option (ℕ × Bytes) → Step)
      → ((end : Option (ℕ × Bytes)) → Keeps P input (store none end))
      → ((start : Bytes) → Keeps P input (store (some start) none))
      → ((start r : Bytes) (len : ℕ)
          → IsRead input start len r
          → Keeps P input (store (some start) (some (len, r))))
      → Keeps P input (store (parse_string s).start (parse_string s).end)
  string-Keeps store f g k = elim (Option-cases (parse_string s).start) [
    | inl e ↦ rw e (f (parse_string s).end)
    | inr (start, e) ↦ elim (Option-cases (parse_string s).end) [
      | inl q ↦ rw (e, q) (g start)
      | inr ((len, r), q) ↦ rw (e, q) (k start r len (IsRead-span h (parse_string-IsSpan s e q)))
    ]
  ]

  int-Keeps :
      (store : Option (ℤ × Bytes) → Step)
      → Keeps P input (store none)
      → ((n : ℤ) (r : Bytes) → IsSuffix r input → IsInt n → Keeps P input (store (some (n, r))))
      → Keeps P input (store (parse_int s))
  int-Keeps store f g = elim (Option-cases (parse_int s)) [
    | inl e ↦ rw e f
    | inr ((n, r), e) ↦
        let (tail, int) = parse_int-IsSuffix s e in rw e (g n r (IsSuffix-trans tail h) int)
  ]

  ignore_value-Keeps : (msg : Message) → P msg → Keeps P input (ignore_value msg (skip_value s))
  unfolding ignore_value
  ignore_value-Keeps msg p =
      value-Keeps (ignore_value msg) tt (λ start r len found. (found.left, p))

-- The readers of an error object keep well-formedness.
read_error_field-IsKeeping : (input : Bytes) → IsKeeping (IsWellFormed input) input read_error_field
unfolding read_error_field store_error_code store_error_msg
read_error_field-IsKeeping input = record {
  at = λ key msg s h p.
      if-Keeps P input (beq key (codes "code")) _ _
        (int-Keeps P h (store_error_code msg) tt (λ n r left int. (left, assumption)))
        (if-Keeps P input (beq key (codes "message")) _ _
          (string-Keeps P h (store_error_msg msg) (λ end. tt) (λ start. tt)
            (λ start r len found. (found.left, assumption)))
          (ignore_value-Keeps P h msg p));
}
  where
    P : Message → Type 0
    P = IsWellFormed input

-- An error object that was read: `has_error` is set, and `is_response` waits for the caller.
record HasError (input : Bytes) (msg : Message) : Type 0 where
  base : IsPartial input msg
  error : msg.has_error ≡ true

error_object_at-Keeps :
    (input : Bytes) (msg : Message) (s : Bytes)
    → IsSuffix s input
    → IsWellFormed input msg
    → Keeps (HasError input) input (error_object_at msg s)
unfolding error_object_at
error_object_at-Keeps input msg [] h p = tt
error_object_at-Keeps input msg (c ∷ s) h p =
    if-Keeps (HasError input) input (c == b'{') _ _
      (close (run_members read_error_field msg s) (
        run_members-Keeps (IsWellFormed input) input read_error_field
          (read_error_field-IsKeeping input) msg s (IsSuffix-tail c h) p))
      tt
  where
    close :
        (step : Step)
        → Keeps (IsWellFormed input) input step
        → Keeps (HasError input) input (close_error step)
    close (m, none) k = tt
    close (m, some r) (left, q) = (left, assumption refl)

mark_response-Keeps :
    (input : Bytes) (step : Step)
    → Keeps (HasError input) input step
    → Keeps (IsWellFormed input) input (mark_response step)
mark_response-Keeps input (m, none) k = tt
mark_response-Keeps input (m, some r) (left, q) =
    (left, record { base = assumption; response_iff = ground arith })

parse_error_object-Keeps :
    (input : Bytes) (msg : Message) (s : Bytes)
    → IsSuffix s input
    → IsWellFormed input msg
    → Keeps (IsWellFormed input) input (mark_response (parse_error_object msg s))
unfolding parse_error_object
parse_error_object-Keeps input msg s h p =
    mark_response-Keeps input (error_object_at msg (skip_ws s))
      (error_object_at-Keeps input msg (skip_ws s) (IsSuffix-trans (skip_ws-IsSuffix s) h) p)

read_field-IsKeeping : (input : Bytes) → IsKeeping (IsWellFormed input) input read_field
unfolding read_field store_method store_id store_params store_result
read_field-IsKeeping input = record {
  at = λ key msg s h p.
      if-Keeps P input (beq key (codes "jsonrpc")) _ _ (ignore_value-Keeps P h msg p) (
        if-Keeps P input (beq key (codes "method")) _ _
          (string-Keeps P h (store_method msg) (λ end. tt) (λ start. tt)
            (λ start r len found. (found.left, assumption refl)))
          (if-Keeps P input (beq key (codes "id")) _ _
            (int-Keeps P h (store_id msg) tt (λ n r left int. (left, assumption)))
            (if-Keeps P input (beq key (codes "params")) _ _
              (value-Keeps P h (store_params msg) tt
                (λ start r len found. (found.left, assumption)))
              (if-Keeps P input (beq key (codes "result")) _ _
                (value-Keeps P h (store_result msg) tt
                  (λ start r len found. (found.left, assumption refl)))
                (if-Keeps P input (beq key (codes "error")) _ _
                  (parse_error_object-Keeps input msg s h p) (ignore_value-Keeps P h msg p))))));
}
  where
    P : Message → Type 0
    P = IsWellFormed input

object_at-Keeps :
    (input : Bytes) (msg : Message) (s : Bytes)
    → IsSuffix s input
    → IsWellFormed input msg
    → Keeps (IsWellFormed input) input (object_at msg s)
unfolding object_at
object_at-Keeps input msg [] h p = tt
object_at-Keeps input msg (c ∷ s) h p =
    if-Keeps (IsWellFormed input) input (c == b'{') _ _
      (run_members-Keeps (IsWellFormed input) input read_field (read_field-IsKeeping input) msg s
        (IsSuffix-tail c h) p)
      tt

blank-IsWellFormed :
    (input : Bytes) (buffer : Option Bytes) (n : ℕ)
    → IsWellFormed input (record blank { raw_input = buffer; raw_len = n })
blank-IsWellFormed input buffer n = record {
  base = record {
    method = tt;
    params = tt;
    result = tt;
    error_msg = tt;
    id = tt;
    error_code = omega arith;
    request_iff = refl;
    result_iff = refl;
  };
  response_iff = refl;
}

set_valid-IsWellFormed :
    (input : Bytes) (step : Step)
    → Keeps (IsWellFormed input) input step
    → (set_valid step).valid ≡ true
    → IsWellFormed input (set_valid step)
set_valid-IsWellFormed input (m, none) k v = cc
set_valid-IsWellFormed input (m, some r) (left, q) v = assumption

parse-Keeps :
    (input : Bytes) (max_bytes : ℕ) → Keeps (IsWellFormed input) input (parse input max_bytes blank)
unfolding parse
parse-Keeps input max_bytes =
    if-Keeps (IsWellFormed input) input (ltb max_bytes (length input)) _ _ tt (
      object_at-Keeps input _ (skip_ws input) (skip_ws-IsSuffix input)
        (blank-IsWellFormed input (some input) (length input)))

-- A message that `parse_message` calls valid is well formed for the input: each of the four pointers is
-- null or lies in the input with room for its length, the id and the error code are `int`s, and the
-- flags `is_request`, `has_result` and `is_response` say exactly which fields were read.
pub parse_message-IsWellFormed :
    (input : Bytes) (max_bytes : ℕ)
    → (parse_message (some input) max_bytes).valid ≡ true
    → IsWellFormed input (parse_message (some input) max_bytes)
unfolding parse_message
parse_message-IsWellFormed [] max_bytes v = cc
parse_message-IsWellFormed (c ∷ s) max_bytes v =
    elim (Bool-cases (ltb max_bytes (length (c ∷ s)))) [
      | inl over ↦ cc (rw over at v)
      | inr fits ↦ rw fits (
          set_valid-IsWellFormed (c ∷ s) (parse (c ∷ s) max_bytes blank)
            (parse-Keeps (c ∷ s) max_bytes) (rw fits at v))
    ]
