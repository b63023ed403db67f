-- ===== src/Json/Parser/Invariant.antt =====
-- What the readers keep of a message, the object loops keep: the loop rule, for any predicate.
use mathlib.Core.Path.{subst, sym}
use mcptoolkit.Prelude.{
  ℕ, zero, suc, ◌≡◌, Bool, true, false, Option, none, some, [], ◌∷◌, inl, inr, ◌==◌, Bool-cases,
  length, take, Bytes, IsSuffix, IsSuffix-cons, IsSuffix-refl, IsSuffix-trans, if◌then◌else◌, refl,
  some-eq-some, Option-cases,
}
use mcptoolkit.Json.Message.{Message}
use mcptoolkit.Json.Scan.{skip_ws, parse_string}
use mcptoolkit.Json.Scan.Suffix.{skip_ws-IsSuffix, parse_string-IsSpan}
use mcptoolkit.Json.Parser.Total.{Round-cases}
use mcptoolkit.Json.Parser.{
  Step, FieldReader, Round, stop, again, after_value, finish_member, read_member, read_key,
  round_at, round, members, run_members,
}

-- A success leaves a suffix of the input, and a message that satisfies `P`.
abbrev pub Keeps : (Message → Type 0) → Bytes → Step → Type 0
Keeps P input (msg, none) = Unit {0}
Keeps P input (msg, some r) = IsSuffix r input × P msg

abbrev KeepsRound : (Message → Type 0) → Bytes → Round → Type 0
KeepsRound P input (stop msg none) = Unit {0}
KeepsRound P input (stop msg (some r)) = IsSuffix r input × P msg
KeepsRound P input (again msg r) = IsSuffix r input × P msg

pub record IsKeeping (P : Message → Type 0) (input : Bytes) (reader : FieldReader) : Type 0 where
  pub at :
      (key : Bytes) (msg : Message) (s : Bytes)
      → IsSuffix s input
      → P msg
      → Keeps P input (reader key msg s)

pub if-Keeps :
    (P : Message → Type 0) (input : Bytes) (b : Bool) (x y : Step)
    → Keeps P input x
    → Keeps P input y
    → Keeps P input (if b then x else y)
if-Keeps P input true x y f g = f
if-Keeps P input false x y f g = g

pub IsSuffix-tail : (c : ℕ) {s input : Bytes} → IsSuffix (c ∷ s) input → IsSuffix s input
IsSuffix-tail c {s} h = IsSuffix-trans (IsSuffix-cons c (IsSuffix-refl s)) h

module _ (P : Message → Type 0) (input : Bytes) where
  after_value-KeepsRound :
      (msg : Message) (s : Bytes)
      → IsSuffix s input
      → P msg
      → KeepsRound P input (after_value msg s)
  unfolding after_value
  after_value-KeepsRound msg [] h p = tt
  after_value-KeepsRound msg (c ∷ s) h p = elim (Bool-cases (c == b',')) [
    | inl comma ↦ rw comma (IsSuffix-tail c h, p)
    | inr other ↦ elim (Bool-cases (c == b'}')) [
      | inl close ↦ rw (other, close) (h, p)
      | inr neither ↦ rw (other, neither) tt
    ]
  ]

  finish_member-KeepsRound :
      (step : Step) → Keeps P input step → KeepsRound P input (finish_member step)
  unfolding finish_member
  finish_member-KeepsRound (msg, none) k = tt
  finish_member-KeepsRound (msg, some r) k =
      after_value-KeepsRound msg (skip_ws r) (IsSuffix-trans (skip_ws-IsSuffix r) k.0) k.1

module _ (P : Message → Type 0) (input : Bytes) (reader : FieldReader)
    (keeping : IsKeeping P input reader) where
  read_member-KeepsRound :
      (key : Bytes) (msg : Message) (s : Bytes)
      → IsSuffix s input
      → P msg
      → KeepsRound P input (read_member reader key msg s)
  unfolding read_member
  read_member-KeepsRound key msg [] h p = tt
  read_member-KeepsRound key msg (c ∷ s) h p = elim (Bool-cases (c == b':')) [
    | inl colon ↦ rw colon (
        finish_member-KeepsRound P input (reader key msg s)
          (keeping.at key msg s (IsSuffix-tail c h) p))
    | inr other ↦ rw other tt
  ]

  read_key-KeepsRound :
      (msg : Message) (start : Option Bytes) (end : Option (ℕ × Bytes))
      → ((p rest : Bytes) (len : ℕ) → start ≡ some p → end ≡ some (len, rest) → IsSuffix rest input)
      → P msg
      → KeepsRound P input (read_key reader msg start end)
  unfolding read_key
  read_key-KeepsRound msg none end h p = tt
  read_key-KeepsRound msg (some q) none h p = tt
  read_key-KeepsRound msg (some q) (some (len, rest)) h p =
      read_member-KeepsRound (take len q) msg (skip_ws rest)
        (IsSuffix-trans (skip_ws-IsSuffix rest) (h q rest len refl refl)) p

  round_at-KeepsRound :
      (msg : Message) (s : Bytes)
      → IsSuffix s input
      → P msg
      → KeepsRound P input (round_at reader msg s)
  unfolding round_at
  round_at-KeepsRound msg [] h p = tt
  round_at-KeepsRound msg (c ∷ s) h p = elim (Bool-cases (c == b'}')) [
    | inl close ↦ rw close (IsSuffix-tail c h, p)
    | inr other ↦ rw other (
        read_key-KeepsRound msg (parse_string (c ∷ s)).start (parse_string (c ∷ s)).end
          (λ q rest len e k.
            let found = parse_string-IsSpan (c ∷ s) e k in
            IsSuffix-trans found.rests (IsSuffix-trans found.starts h))
          p)
  ]

  members-Keeps :
      (fuel : ℕ) (msg : Message) (s : Bytes) (step : Step)
      → members reader fuel msg s ≡ some step
      → IsSuffix s input
      → P msg
      → Keeps P input step
  unfolding members round
  members-Keeps zero msg s step e h p = cc
  members-Keeps (suc fuel) msg s step e h p =
      let kept = round_at-KeepsRound msg (skip_ws s) (IsSuffix-trans (skip_ws-IsSuffix s) h) p in
      elim (Round-cases (round reader msg s)) [
        | inl (msg', none, q) ↦ subst (Keeps P input) (some-eq-some (rw (q, members) at e)) tt
        | inl (msg', some r, q) ↦
            subst (Keeps P input) (some-eq-some (rw (q, members) at e)) (rw q at kept)
        | inr (msg', r, q) ↦
            let (left, p') : IsSuffix r input × P msg' = rw q at kept in
            members-Keeps fuel msg' r step (rw (q, members) at e) left p'
      ]

run_members-none :
    (reader : FieldReader) (msg : Message) (s : Bytes)
    → members reader (suc (length s)) msg s ≡ none
    → run_members reader msg s ≡ (msg, none)
unfolding run_members
run_members-none reader msg s e = rw (e, run_members)

run_members-some :
    (reader : FieldReader) (msg : Message) (s : Bytes) (step : Step)
    → members reader (suc (length s)) msg s ≡ some step
    → run_members reader msg s ≡ step
unfolding run_members
run_members-some reader msg s step e = rw (e, run_members)

-- The loop rule: what each member's reader keeps, the loop keeps.
pub run_members-Keeps :
    (P : Message → Type 0) (input : Bytes) (reader : FieldReader)
    (keeping : IsKeeping P input reader) (msg : Message) (s : Bytes)
    → IsSuffix s input
    → P msg
    → Keeps P input (run_members reader msg s)
run_members-Keeps P input reader keeping msg s h p =
    elim (Option-cases (members reader (suc (length s)) msg s)) [
      | inl e ↦ subst (Keeps P input) (sym (run_members-none reader msg s e)) tt
      | inr (step, e) ↦
          subst (Keeps P input) (sym (run_members-some reader msg s step e))
            (members-Keeps P input reader keeping (suc (length s)) msg s step e h p)
    ]
