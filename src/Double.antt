-- ===== src/Double.antt =====
-- All that the code does with a `double`.
use mcptoolkit.Prelude.{
  ℕ, ◌+◌, ◌-◌, ◌*◌, ◌/◌, ◌^◌, ◌<◌, ◌≤◌, ◌≡◌, refl, Bool, true, false, ltb, leb, Bytes, [], ℤ, pos,
  pos_part, arith,
}

pub record Double (W : Type 0) : Type 0 where
  -- `static_cast<double>(n)`, also for the constants
  pub of_count : ℕ → W
  -- `milliseconds.count() / 1000.0`
  pub seconds : ℤ → W
  pub add : W → W → W
  pub sub : W → W → W
  pub mul : W → W → W
  pub gt : W → W → Bool
  pub ge : W → W → Bool
  -- `snprintf(buf, 32, "%.15g", value)`
  pub format : W → Bytes

-- What IEEE 754 says of these operations, for NaN and the infinities as well: a value is not greater
-- than itself, taking away one does not make it greater, counts below `2 ^ 53` are exact, and no time at
-- a finite rate adds nothing to a count.
pub record IsIeee (W : Type 0) ⦃d : Double W⦄ : Type 0 where
  pub is_finite : W → Bool
  pub not_gt_self : (x : W) → d.gt x x ≡ false
  pub not_gt-sub_one : (x y : W) → d.gt x y ≡ false → d.gt (d.sub x (d.of_count 1)) y ≡ false
  pub exact_gt : (m n : ℕ) → m ≤ 2 ^ 53 → n ≤ 2 ^ 53 → d.gt (d.of_count m) (d.of_count n) ≡ ltb n m
  pub exact_ge : (m n : ℕ) → m ≤ 2 ^ 53 → n ≤ 2 ^ 53 → d.ge (d.of_count m) (d.of_count n) ≡ leb n m
  pub exact_sub_one :
      (n : ℕ) → n < 2 ^ 53 → d.sub (d.of_count (n + 1)) (d.of_count 1) ≡ d.of_count n
  pub add_nothing :
      (n : ℕ) (rate : W)
      → n ≤ 2 ^ 53
      → is_finite rate ≡ true
      → d.add (d.of_count n) (d.mul (d.seconds (pos 0)) rate) ≡ d.of_count n

-- The laws can be met: thousandths in place of doubles.
abbrev pub Thousandths : Type 0
Thousandths = ℕ

instance abbrev pub thousandths_double : Double Thousandths
thousandths_double = record {
  of_count = λ n. n * 1000;
  seconds = pos_part;
  add = λ x y. x + y;
  sub = λ x y. x - y;
  mul = λ x y. x * y / 1000;
  gt = λ x y. ltb y x;
  ge = λ x y. leb y x;
  format = λ x. [];
}

pub Thousandths-IsIeee : IsIeee Thousandths
Thousandths-IsIeee = record {
  is_finite = λ x. true;
  not_gt_self = λ x. ground arith;
  not_gt-sub_one = λ x y h. ground arith;
  exact_gt = λ m n h k. ground arith;
  exact_ge = λ m n h k. ground arith;
  exact_sub_one = λ n h. omega arith;
  add_nothing = λ n rate h k. omega arith;
}

pub Thousandths-IsIeee_finite : (x : Thousandths) → Thousandths-IsIeee.is_finite x ≡ true
unfolding Thousandths-IsIeee
Thousandths-IsIeee_finite x = refl
