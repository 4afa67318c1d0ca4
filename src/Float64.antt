-- ===== src/Float64.antt =====
-- `float64`: the operations that the program applies, over a type that is a parameter of the model,
-- and the laws of IEEE 754 that some theorems rest on, with numbers that meet them.
use fx_rates.Prelude.{
  ℕ, ◌+◌, ◌-◌, ◌*◌, ◌/◌, ◌≡◌, Bool, true, false, Text, Option, none, some, arith, leb, ◌==◌,
  if◌then◌else◌, codes,
}
use fx_rates.Number.{decimal, parse_nat}

pub record Float64 (F : Type 0) : Type 0 where
  pub nought : F
  pub tenth : F
  pub one : F
  pub hundred : F
  pub le : F → F → Bool
  pub eq : F → F → Bool
  pub is_nan : F → Bool
  pub is_inf : F → Bool
  pub sub : F → F → F
  pub mul : F → F → F
  pub div : F → F → F
  pub abs : F → F
  -- `strconv.ParseFloat(s, 64)`
  pub parse : Text → Option F
  -- `strconv.FormatFloat(v, 'f', -1, 64)`
  pub format : F → Text

-- `==` is reflexive but for NaN. A finite number less itself is +0; zero over another number is +0 or
-- -0, which both equal zero, stay so a hundredfold and are no more than a tenth.
pub record IsIeee {F : Type 0} (fl : Float64 F) : Type 0 where
  pub eq_refl : (x : F) → fl.is_nan x ≡ false → fl.eq x x ≡ true
  pub is_nan-nought : fl.is_nan fl.nought ≡ false
  pub abs-sub_self :
      (x : F) → fl.is_nan x ≡ false → fl.is_inf x ≡ false → fl.abs (fl.sub x x) ≡ fl.nought
  pub nought-div :
      (x : F)
      → fl.is_nan x ≡ false
      → fl.eq x fl.nought ≡ false
      → fl.eq (fl.div fl.nought x) fl.nought ≡ true
  pub mul-hundred :
      (x : F) → fl.eq x fl.nought ≡ true → fl.eq (fl.mul x fl.hundred) fl.nought ≡ true
  pub le-tenth : (x : F) → fl.eq x fl.nought ≡ true → fl.le x fl.tenth ≡ true

-- Sample numbers: thousandths that are never negative, and NaN. A subtraction gives the distance,
-- and a division by zero gives NaN.
pub data Sample : Type 0 where
  nan : Sample
  milli : ℕ → Sample

abbrev on_millis : (ℕ → ℕ → Bool) → Sample → Sample → Bool
on_millis f nan y = false
on_millis f (milli a) nan = false
on_millis f (milli a) (milli b) = f a b

abbrev combine : (ℕ → ℕ → Sample) → Sample → Sample → Sample
combine f nan y = nan
combine f (milli a) nan = nan
combine f (milli a) (milli b) = f a b

abbrev is_sample_nan : Sample → Bool
is_sample_nan nan = true
is_sample_nan (milli _) = false

abbrev format_sample : Sample → Text
format_sample nan = codes "NaN"
format_sample (milli a) = decimal a

abbrev parse_sample : Text → Option Sample
parse_sample t = elim (parse_nat t) [ none ↦ none | some n ↦ some (milli (n * 1000)) ]

instance abbrev pub samples : Float64 Sample
samples = record {
  nought = milli 0;
  tenth = milli 100;
  one = milli 1000;
  hundred = milli 100_000;
  le = on_millis leb;
  eq = on_millis ◌==◌;
  is_nan = is_sample_nan;
  is_inf = λ x. false;
  sub = combine (λ a b. milli (a - b + (b - a)));
  mul = combine (λ a b. milli (a * b / 1000));
  div = combine (λ a b. if b == 0 then nan else milli (a * 1000 / b));
  abs = λ x. x;
  parse = parse_sample;
  format = format_sample;
}

-- The sample numbers meet the laws.
pub samples-IsIeee : IsIeee samples
samples-IsIeee = record {
  eq_refl = λ x h. ground arith;
  abs-sub_self = λ x h i. ground arith;
  is_nan-nought = ground arith;
  nought-div = λ x h i. ground arith;
  mul-hundred = λ x h. ground arith;
  le-tenth = λ x h. ground arith;
}
