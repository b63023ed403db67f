-- ===== src/Sessions/Random.antt =====
-- Where `SessionManager::generate_id` of mcptoolkit/src/session_manager.cpp takes its random bytes from,
-- on Linux, and the identifier that it makes of them. The kernel is a parameter.
use mcptoolkit.Prelude.{
  ℕ, zero, suc, ◌+◌, ◌-◌, ◌*◌, ◌/◌, ◌%◌, ◌<◌, ◌≡◌, refl, inl, inr, Bool, false, not, [], ◌∷◌,
  if◌then◌else◌, ltb, ◌==◌, Bool-cases, length, replicate, Bytes, ℤ, pos, pos_part, ltb_ℤ, arith,
}
use mcptoolkit.Json.Builder.{hex_digit}
use mcptoolkit.Sessions.{generate_id}

-- What a system call returns, and the buffer as it leaves it.
pub record Transfer : Type 0 where
  pub count : ℤ
  pub buffer : Bytes

-- `getrandom` into a buffer of the given size, `open` of the device, and `read` from it.
pub record Kernel : Type 0 where
  pub getrandom : ℕ → Transfer
  pub opens_urandom : Bool
  pub read_urandom : ℕ → Transfer

-- `result >= 0 && static_cast<size_t>(result) == n`
unfoldable pub is_whole : ℕ → ℤ → Bool
is_whole n result = if ltb_ℤ result (pos 0) then false else pos_part result == n

-- The random bytes: zeros where neither source fills the buffer.
unfoldable pub random_bytes : Kernel → ℕ → Bytes
random_bytes kernel id_bytes =
    if is_whole id_bytes (kernel.getrandom id_bytes).count
    then (kernel.getrandom id_bytes).buffer
    else if not kernel.opens_urandom
    then replicate id_bytes 0
    else if is_whole id_bytes (kernel.read_urandom id_bytes).count
    then (kernel.read_urandom id_bytes).buffer
    else replicate id_bytes 0

abbrev pub AreBytes : Bytes → Type 0
AreBytes [] = Unit {0}
AreBytes (c ∷ s) = (c < 256) × AreBytes s

-- The buffer keeps its size, and it holds bytes.
pub record FillsBuffer (kernel : Kernel) : Type 0 where
  pub getrandom_fills : (n : ℕ) → length (kernel.getrandom n).buffer ≡ n
  pub getrandom_bytes : (n : ℕ) → AreBytes (kernel.getrandom n).buffer
  pub read_fills : (n : ℕ) → length (kernel.read_urandom n).buffer ≡ n
  pub read_bytes : (n : ℕ) → AreBytes (kernel.read_urandom n).buffer

-- The value of a hexadecimal digit, and the bytes of which a text shows the digits.
abbrev pub digit_value : ℕ → ℕ
digit_value c = if ltb c 97 then c - 48 else c - 87

abbrev pub read_id : Bytes → Bytes
read_id (high ∷ low ∷ id) = (digit_value high * 16 + digit_value low) ∷ read_id id
read_id _ = []

zeros : (n : ℕ) → (length (replicate {A = ℕ} n 0) ≡ n) × AreBytes (replicate n 0)
zeros zero = (refl, record {})
zeros (suc n) = let (size, bytes) = zeros n in (omega arith, (omega arith, bytes))

random_bytes-filled :
    (kernel : Kernel) (n : ℕ)
    → FillsBuffer kernel
    → (length (random_bytes kernel n) ≡ n) × AreBytes (random_bytes kernel n)
unfolding random_bytes
random_bytes-filled kernel n fills = elim (Bool-cases (is_whole n (kernel.getrandom n).count)) [
  | inl whole ↦ simp whole (fills.getrandom_fills n, fills.getrandom_bytes n)
  | inr short ↦ elim (Bool-cases kernel.opens_urandom) [
    | inr closed ↦ simp (short, closed) (zeros n)
    | inl open_device ↦ elim (Bool-cases (is_whole n (kernel.read_urandom n).count)) [
      | inl whole ↦ simp (short, open_device, whole) (fills.read_fills n, fills.read_bytes n)
      | inr cut ↦ simp (short, open_device, cut) (zeros n)
    ]
  ]
]

digit_value-hex_digit : (n : ℕ) → n < 16 → digit_value (hex_digit n) ≡ n
unfolding hex_digit
digit_value-hex_digit n h = ground arith

read_id-generate_id :
    (random : Bytes)
    → AreBytes random
    → (read_id (generate_id random) ≡ random) × (length (generate_id random) ≡ 2 * length random)
unfolding generate_id
read_id-generate_id [] h = (refl, refl)
read_id-generate_id (byte ∷ random) (small, h) =
    let (back, size) = read_id-generate_id random h in
    let byte_back : digit_value (hex_digit (byte / 16)) * 16 + digit_value (hex_digit (byte % 16))
        ≡ byte =
      rw
        (
          digit_value-hex_digit (byte / 16) (omega arith),
          digit_value-hex_digit (byte % 16) (omega arith),
        )
        (omega arith) in
    (rw (byte_back, back) refl, omega arith)

-- Where the system calls keep the size of the buffer and leave bytes in it, a new session's identifier
-- has two digits for each byte that is configured, and shows all the random bytes: none of them is lost.
pub read_id-random_bytes :
    (kernel : Kernel) (id_bytes : ℕ)
    → FillsBuffer kernel
    → (length (generate_id (random_bytes kernel id_bytes)) ≡ 2 * id_bytes)
      × (read_id (generate_id (random_bytes kernel id_bytes)) ≡ random_bytes kernel id_bytes)
read_id-random_bytes kernel id_bytes fills =
    let (size, bytes) = random_bytes-filled kernel id_bytes fills in
    let (back, twice) = read_id-generate_id (random_bytes kernel id_bytes) bytes in
    (omega arith, back)
