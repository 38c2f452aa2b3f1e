-- ===== src/Numbers.antt =====
-- Numbers of the language: 64-bit integers, checked, and the host's doubles, which are a parameter
-- (standalone/src/value.cpp).
pub mod Integers
pub mod Power
use re_poplan.Prelude.{
  ℕ, zero, suc, ◌+◌, ◌-◌, ◌*◌, ◌/◌, ◌%◌, ◌^◌, Bool, true, false, not, ◌&&◌, ◌||◌, List, leb, ◌==◌,
  if◌then◌else◌,
}
use re_poplan.Prelude.Int.{ℤ, pos, negsuc, ◌+ℤ◌, ◌-ℤ◌, ◌*ℤ◌, ltb_ℤ}
use re_poplan.Value.{Value, Result, ok, err, ◌>>=◌, ◌>>◌, throw}

-- The host's arithmetic on `double`, given by bit patterns.
pub record Floats : Type 0 where
  pub is_finite : ℕ → Bool
  pub of_int : ℤ → ℕ
  -- static_cast<std::int64_t>, of a double between the two limits
  pub to_int : ℕ → ℤ
  pub trunc : ℕ → ℕ
  pub lt : ℕ → ℕ → Bool
  pub eq : ℕ → ℕ → Bool
  pub plus : ℕ → ℕ → ℕ
  pub minus : ℕ → ℕ → ℕ
  pub times : ℕ → ℕ → ℕ
  pub divide : ℕ → ℕ → ℕ
  pub power : ℕ → ℕ → ℕ
  pub negate : ℕ → ℕ
  pub floor : ℕ → ℕ
  pub zero_real : ℕ
  -- 9223372036854775808.0 and its negative
  pub upper_limit : ℕ
  pub lower_limit : ℕ

abbrev pub min_int : ℤ
min_int = negsuc (2 ^ 63 - 1)

-- Whether an exact result is an std::int64_t: what the `__builtin_…_overflow` functions test.
abbrev pub fits : ℤ → Bool
fits (pos n) = leb n (2 ^ 63 - 1)
fits (negsuc n) = leb n (2 ^ 63 - 1)

-- integer(v)
unfoldable pub integer : Value → Result ℤ
integer (Value.integer n) = ok n
integer _ = throw "integer required"

-- The operators that the callers of `arithmetic` name; any other text is `other`.
pub data Operator : Type 0 where
  add subtract multiply divide power other : Operator

unfoldable pub checked : ℤ → Result ℤ
checked n = if fits n then ok n else throw "integer overflow"

-- `arithmetic` on two integers, but for `/` and `!`.
unfoldable pub exact : Operator → ℤ → ℤ → Result ℤ
unfolding checked
exact Operator.add x y = checked (x +ℤ y)
exact Operator.subtract x y = checked (x -ℤ y)
exact Operator.multiply x y = checked (x *ℤ y)
exact _ x y = throw "unknown arithmetic operator"

-- `while (exponent)`. Each round halves the exponent, so a fuel above it is enough.
unfoldable pub power_loop : ℕ → ℕ → ℤ → ℤ → Result ℤ
power_loop zero exponent result a = throw "out of fuel"
power_loop (suc fuel) exponent result a = elim (exponent == 0) [
  | true ↦ ok result
  | false ↦ do
    result' ← if exponent % 2 == 1 then exact Operator.multiply result a else ok result
    let half = exponent / 2
    a' ← if half == 0 then ok a else exact Operator.multiply a a
    power_loop fuel half result' a'
]

unfoldable pub int_power : ℤ → ℕ → Result ℤ
unfolding power_loop exact
int_power a exponent = power_loop (suc exponent) exponent (pos 1) a

unfoldable pub eq_ℤ : ℤ → ℤ → Bool
eq_ℤ (pos m) (pos n) = m == n
eq_ℤ (negsuc m) (negsuc n) = m == n
eq_ℤ _ _ = false

module _ (F : Floats) where
  open F use {is_finite, of_int, to_int, trunc, lt, eq}

  -- Value(double): no value holds an infinity or a NaN.
  unfoldable pub make_real : ℕ → Result Value
  make_real n = if is_finite n then ok (Value.real n) else throw "nonfinite real value"

  -- real(v)
  unfoldable pub real : Value → Result ℕ
  real (Value.integer n) = ok (of_int n)
  real (Value.real d) = ok d
  real _ = throw "number required"

  -- equal(a, b): the kinds agree, and then the contents.
  unfoldable pub equal : Value → Value → Bool
  unfolding eq_ℤ
  equal Value.undefined Value.undefined = true
  equal Value.terminator Value.terminator = true
  equal (Value.integer x) (Value.integer y) = eq_ℤ x y
  equal (Value.real x) (Value.real y) = eq x y
  equal (Value.object x) (Value.object y) = x == y
  equal _ _ = false

  -- (x > y) - (x < y)
  abbrev sign_of : Bool → Bool → ℤ
  sign_of true false = pos 1
  sign_of false true = negsuc 0
  sign_of _ _ = pos 0

  -- An integer against a real, without rounding the integer.
  compare_mixed : ℤ → ℕ → ℤ
  compare_mixed i d =
      if not (lt d F.upper_limit)
      then negsuc 0
      else if lt d F.lower_limit
      then pos 1
      else if not (eq_ℤ i (to_int d))
      then (if ltb_ℤ (to_int d) i then pos 1 else negsuc 0)
      else if lt (trunc d) d
      then negsuc 0
      else if lt d (trunc d)
      then pos 1
      else pos 0

  -- compare(a, b)
  unfoldable pub compare : Value → Value → Result ℤ
  unfolding compare_mixed eq_ℤ
  compare (Value.integer x) (Value.integer y) = ok (sign_of (ltb_ℤ y x) (ltb_ℤ x y))
  compare (Value.real x) (Value.real y) = ok (sign_of (lt y x) (lt x y))
  compare (Value.real x) (Value.integer y) = ok (pos 0 -ℤ compare_mixed y x)
  compare (Value.integer x) (Value.real y) = ok (compare_mixed x y)
  compare _ _ = throw "numeric comparison requires numbers"

  -- The operators on two doubles; every operator that is none of the first four is `pow`.
  abbrev on_reals : Operator → ℕ → ℕ → ℕ
  on_reals Operator.add = F.plus
  on_reals Operator.subtract = F.minus
  on_reals Operator.multiply = F.times
  on_reals Operator.divide = F.divide
  on_reals _ = F.power

  abbrev is_divide : Operator → Bool
  is_divide Operator.divide = true
  is_divide _ = false

  inexact : Operator → Value → Value → Result Value
  unfolding make_real real
  inexact op a b = do
    x ← real a
    y ← real b
    if is_divide op && eq y F.zero_real then throw "division by zero" else do
      let n = on_reals op x y
      if is_finite n then make_real n else throw "real domain error or overflow"

  -- arithmetic(op, a, b)
  unfoldable pub arithmetic : Operator → Value → Value → Result Value
  unfolding inexact exact int_power
  arithmetic Operator.power (Value.integer x) (Value.integer (pos n)) = do
    r ← int_power x n
    ok (Value.integer r)
  arithmetic Operator.power a b = inexact Operator.power a b
  arithmetic Operator.divide a b = inexact Operator.divide a b
  arithmetic op (Value.integer x) (Value.integer y) = do r ← exact op x y; ok (Value.integer r)
  arithmetic op a b = inexact op a b
