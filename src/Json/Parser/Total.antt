-- ===== src/Json/Parser/Total.antt =====
-- The object loops end: the fuel that `run_members` gives is never used up.
use mathlib.Core.Path.{subst, sym}
use mcptoolkit.Prelude.{
  ℕ, zero, suc, ◌≤◌, ◌<◌, ◌≡◌, refl, Option, none, some, [], ◌∷◌, inl, inr, ◌==◌, Bool-cases,
  length, take, Bytes, arith, IsSuffix-length, ◌⊎◌,
}
use mcptoolkit.Json.Message.{Message}
use mcptoolkit.Json.Scan.{skip_ws, parse_string}
use mcptoolkit.Json.Scan.Suffix.{skip_ws-IsSuffix, parse_string-IsSpan}
use mcptoolkit.Json.Parser.{
  Step, FieldReader, Round, stop, again, after_value, finish_member, read_member, read_key,
  round_at, round, members, run_members,
}

-- A step leaves no more than it was given.
abbrev pub Shrinks : Bytes → Step → Type 0
Shrinks s (msg, none) = Unit {0}
Shrinks s (msg, some r) = length r ≤ length s

pub record IsShrinking (reader : FieldReader) : Type 0 where
  pub at : (key : Bytes) (msg : Message) (s : Bytes) → Shrinks s (reader key msg s)

-- A round that goes on has taken a byte, and one that breaks off leaves no more than it was given.
abbrev Advances : Bytes → Round → Type 0
Advances s (stop msg none) = Unit {0}
Advances s (stop msg (some r)) = length r ≤ length s
Advances s (again msg r) = length r < length s

after_value-Advances :
    (msg : Message) (s t : Bytes) → length s < length t → Advances t (after_value msg s)
unfolding after_value
after_value-Advances msg [] t h = tt
after_value-Advances msg (c ∷ s) t h = ground arith

finish_member-Advances :
    (step : Step) (s t : Bytes)
    → Shrinks s step
    → length s < length t
    → Advances t (finish_member step)
unfolding finish_member
finish_member-Advances (msg, none) s t h k = tt
finish_member-Advances (msg, some r) s t h k =
    after_value-Advances msg (skip_ws r) t (omega (arith, IsSuffix-length (skip_ws-IsSuffix r)))

pub Round-cases :
    (r : Round)
    → ((msg : Message) × (left : Option Bytes) × (r ≡ stop msg left))
      ⊎ ((msg : Message) × (left : Bytes) × (r ≡ again msg left))
Round-cases (stop msg left) = inl (msg, left, refl)
Round-cases (again msg left) = inr (msg, left, refl)

pub Shrinks-mono :
    (s t : Bytes) (step : Step) → length s ≤ length t → Shrinks s step → Shrinks t step
Shrinks-mono s t (msg, none) h a = tt
Shrinks-mono s t (msg, some r) h a = omega arith

module _ (reader : FieldReader) (shrinking : IsShrinking reader) where
  read_member-Advances :
      (key : Bytes) (msg : Message) (s t : Bytes)
      → length s ≤ length t
      → Advances t (read_member reader key msg s)
  unfolding read_member
  read_member-Advances key msg [] t h = tt
  read_member-Advances key msg (c ∷ s) t h = elim (Bool-cases (c == b':')) [
    | inl colon ↦
        rw colon
          (finish_member-Advances (reader key msg s) s t (shrinking.at key msg s) (omega arith))
    | inr other ↦ rw other tt
  ]

  read_key-Advances :
      (msg : Message) (start : Option Bytes) (end : Option (ℕ × Bytes)) (t : Bytes)
      → ((p rest : Bytes) (len : ℕ)
          → start ≡ some p
          → end ≡ some (len, rest)
          → length rest ≤ length t)
      → Advances t (read_key reader msg start end)
  unfolding read_key
  read_key-Advances msg none end t h = tt
  read_key-Advances msg (some p) none t h = tt
  read_key-Advances msg (some p) (some (len, rest)) t h =
      read_member-Advances (take len p) msg (skip_ws rest) t
        (omega (arith, h p rest len refl refl, IsSuffix-length (skip_ws-IsSuffix rest)))

  round_at-Advances : (msg : Message) (s : Bytes) → Advances s (round_at reader msg s)
  unfolding round_at
  round_at-Advances msg [] = tt
  round_at-Advances msg (c ∷ s) = elim (Bool-cases (c == b'}')) [
    | inl close ↦ rw close (omega arith)
    | inr other ↦ rw other (
        read_key-Advances msg (parse_string (c ∷ s)).start (parse_string (c ∷ s)).end (c ∷ s)
          (λ p rest len h k.
            let found = parse_string-IsSpan (c ∷ s) h k in
            omega (arith, found.fits, IsSuffix-length found.starts)))
  ]

  widen : (s t : Bytes) (r : Round) → length s ≤ length t → Advances s r → Advances t r
  widen s t (stop msg none) h a = tt
  widen s t (stop msg (some r)) h a = omega arith
  widen s t (again msg r) h a = omega arith

  round-Advances : (msg : Message) (s : Bytes) → Advances s (round reader msg s)
  unfolding round
  round-Advances msg s =
      widen (skip_ws s) s (round_at reader msg (skip_ws s)) (IsSuffix-length (skip_ws-IsSuffix s))
        (round_at-Advances msg (skip_ws s))

  -- With a byte of fuel for each byte of input, and one more, the loop ends.
  pub members_total :
      (fuel : ℕ) (msg : Message) (s : Bytes)
      → length s < fuel
      → (step : Step) × (members reader fuel msg s ≡ some step) × (Shrinks s step)
  unfolding members
  members_total zero msg s h = absurd (omega arith)
  members_total (suc fuel) msg s h = elim (Round-cases (round reader msg s)) [
    | inl (msg', none, e) ↦ ((msg', none), rw (e, members), tt)
    | inl (msg', some r, e) ↦ ((msg', some r), rw (e, members), rw e at (round-Advances msg s))
    | inr (msg', r, e) ↦
        let less : length r < length s = rw e at (round-Advances msg s) in
        let (step, ends, small) = members_total fuel msg' r (omega arith) in
        (step, rw (e, members) ends, Shrinks-mono r s step (omega arith) small)
  ]

  -- So `run_members` is the loop, and its default is never taken.
  pub run_members_total :
      (msg : Message) (s : Bytes)
      → (step : Step) × (members reader (suc (length s)) msg s ≡ some step)
        × (run_members reader msg s ≡ step)
        × (Shrinks s step)
  unfolding run_members
  run_members_total msg s =
      let (step, ends, small) = members_total (suc (length s)) msg s (omega arith) in
      (step, ends, rw (ends, run_members), small)

  pub run_members-Shrinks : (msg : Message) (s : Bytes) → Shrinks s (run_members reader msg s)
  run_members-Shrinks msg s =
      let (step, ends, e, small) = run_members_total msg s in subst (Shrinks s) (sym e) small
