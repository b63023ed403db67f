-- ===== src/Prelude/Lists.antt =====
-- Lists measured by native numbers, under the library's names, and suffixes: a pointer into a buffer
-- is the suffix of the buffer that starts there.
use Prim.Native.Nat.{ℕ, zero, suc, ◌+◌, ◌≤◌}
use mathlib.Core.Path.{◌≡◌, refl, sym, ap, ◌∙◌}
use mathlib.Core.List.{List, [], ◌∷◌, ◌++◌, append_assoc}
use mathlib.Core.Option.{Option, none, some}
use native.Mathlib.Omega.{arith}

module _ {ℓ} {A : Type ℓ} where
  abbrev pub length : List A → ℕ
  length [] = 0
  length (x ∷ xs) = suc (length xs)

  abbrev pub take : ℕ → List A → List A
  take zero xs = []
  take (suc n) [] = []
  take (suc n) (x ∷ xs) = x ∷ take n xs

  abbrev pub drop : ℕ → List A → List A
  drop zero xs = xs
  drop (suc n) [] = []
  drop (suc n) (x ∷ xs) = drop n xs

  abbrev pub replicate : ℕ → A → List A
  replicate zero a = []
  replicate (suc n) a = a ∷ replicate n a

  -- `s.back()`, nothing for an empty string.
  abbrev pub back : List A → Option A
  back [] = none
  back (x ∷ []) = some x
  back (x ∷ y ∷ ys) = back (y ∷ ys)

  -- `p` points into `s`: it is what is left of `s` behind some bytes.
  abbrev pub IsSuffix : List A → List A → Type ℓ
  IsSuffix p s = (before : List A) × (s ≡ before ++ p)

  pub length-append : (xs ys : List A) → length (xs ++ ys) ≡ length xs + length ys
  length-append [] ys = omega arith
  length-append (x ∷ xs) ys = omega (arith, length-append xs ys)

  pub back-append : (xs : List A) (y : A) (ys : List A) → back (xs ++ y ∷ ys) ≡ back (y ∷ ys)
  back-append [] y ys = refl
  back-append (x ∷ []) y ys = refl
  back-append (x ∷ z ∷ xs) y ys = back-append (z ∷ xs) y ys

  pub take-append : (xs ys : List A) → take (length xs) (xs ++ ys) ≡ xs
  take-append [] ys = refl
  take-append (x ∷ xs) ys = ap (◌∷◌ x) (take-append xs ys)

  pub drop-append : (xs ys : List A) → drop (length xs) (xs ++ ys) ≡ ys
  drop-append [] ys = refl
  drop-append (x ∷ xs) ys = drop-append xs ys

  pub take-append-drop : (n : ℕ) (xs : List A) → take n xs ++ drop n xs ≡ xs
  take-append-drop zero xs = refl
  take-append-drop (suc n) [] = refl
  take-append-drop (suc n) (x ∷ xs) = ap (◌∷◌ x) (take-append-drop n xs)

module _ {ℓ} {A : Type ℓ} where
  pub IsSuffix-refl : (s : List A) → IsSuffix s s
  IsSuffix-refl s = ([], refl)

  pub IsSuffix-cons : (c : A) {p s : List A} → IsSuffix p s → IsSuffix p (c ∷ s)
  IsSuffix-cons c (before, e) = (c ∷ before, ap (◌∷◌ c) e)

  pub IsSuffix-trans : {p q s : List A} → IsSuffix p q → IsSuffix q s → IsSuffix p s
  IsSuffix-trans {p} (a, e) (b, f) = (b ++ a, f ∙ ap (◌++◌ b) e ∙ sym (append_assoc b a p))

  pub IsSuffix-length : {p s : List A} → IsSuffix p s → length p ≤ length s
  IsSuffix-length {p} {s} (a, e) = omega (arith, ap length e, length-append a p)

  pub IsSuffix-drop : (n : ℕ) (s : List A) → IsSuffix (drop n s) s
  IsSuffix-drop n s = (take n s, sym (take-append-drop n s))

  pub IsSuffix-some : {p q s : List A} → IsSuffix p s → some p ≡ some q → IsSuffix q s
  IsSuffix-some (a, e) h = (a, cc)

-- `x` is an element of the list.
abbrev pub IsElement {ℓ} : {A : Type ℓ} → A → List A → Type ℓ
IsElement x xs = (before : List _) × (after : List _) × (xs ≡ before ++ (x ∷ after))

module _ {ℓ} {A : Type ℓ} where
  pub IsElement-here : (x : A) (xs : List A) → IsElement x (x ∷ xs)
  IsElement-here x xs = ([], xs, refl)

  pub IsElement-there : (y : A) {x : A} {xs : List A} → IsElement x xs → IsElement x (y ∷ xs)
  IsElement-there y (before, after, e) = (y ∷ before, after, ap (◌∷◌ y) e)
