-- ===== src/Besm/Alu/Operations.antt =====
-- The arithmetic operations on the accumulator (src/machine.cpp): multiplication, addition, division, and
-- the changes of exponent and sign.
use re_poplan.Prelude.{
  ℕ, zero, suc, ◌+◌, ◌-◌, ◌*◌, ◌/◌, ◌%◌, ◌^◌, Bool, true, false, not, ◌&&◌, ◌||◌, ◌==◌, leb, ltb,
  if◌then◌else◌,
}
use re_poplan.Prelude.Int.{ℤ, pos, negsuc, ◌+ℤ◌, ◌-ℤ◌}
use re_poplan.Besm.{Machine, select_alu_group}
use re_poplan.Besm.Alu.{
  Effect, ◌>>◌, change, fail, negated, is_minus, shift_right, shift_left, ones_from, join,
  MantissaExponent, unpacked, denormal, normalize_right, multiply_mantissas, normalize_and_round,
  clear_result,
}

unfoldable pub adjust : MantissaExponent → MantissaExponent
unfolding normalize_right
adjust x = if denormal x.mantissa then normalize_right x else x

-- multiply(value)
unfoldable pub multiply_with : MantissaExponent → MantissaExponent → Effect
multiply_with acc operand =
    let (high, low) = multiply_mantissas acc.mantissa operand.mantissa in
    let product =
      adjust
        (record { mantissa = high; exponent = acc.exponent +ℤ (operand.exponent -ℤ pos 64) }) in
    normalize_and_round product.mantissa product.exponent low (not (low == 0))

unfoldable pub multiply : ℕ → Effect
multiply value = do
  λ m.
      (if m.accumulator == 0 || value == 0
          then change clear_result
          else multiply_with (unpacked m.accumulator) (unpacked value))
        m
  change (select_alu_group 8)

-- A mantissa shifted right to meet the larger exponent: its new bits, the bits that left it, and whether
-- the result is to be rounded.
pub record Aligned : Type 0 where
  pub mantissa : ℕ
  pub low : ℕ
  pub round : Bool

-- The sign bit of 42 bits extended to 64.
abbrev pub sign_extended : ℕ → ℕ
sign_extended x = let bits = x % 2 ^ 42 in if leb (2 ^ 41) bits then bits + ones_from 42 else bits

unfoldable pub align : ℕ → ℕ → Aligned
unfolding join
align difference small =
    let negative = is_minus small in
    if difference == 0
    then record { mantissa = small; low = 0; round = false }
    else if leb difference 40
    then (let low = shift_left small (40 - difference) % 2 ^ 40 in
        record {
          mantissa =
              sign_extended (
                join (small / 2 ^ difference)
                  (if negative then ones_from (40 - difference) else 0));
          low = low;
          round = not (low == 0);
        })
    else if leb difference 80
    then (let rest = difference - 40 in
        record {
          mantissa = if negative then 2 ^ 64 - 1 else 0;
          low = join (small / 2 ^ rest) (if negative then ones_from (40 - rest) else 0) % 2 ^ 40;
          round = not (small == 0);
        })
    else record {
      mantissa = if negative then 2 ^ 64 - 1 else 0;
      low = if negative then 2 ^ 40 - 1 else 0;
      round = not (small == 0);
    }

-- The addition of a number to one whose exponent is not smaller, by `difference`.
unfoldable pub add_aligned : MantissaExponent → Aligned → Effect
add_aligned larger smaller =
    let sum = (smaller.mantissa + larger.mantissa) % 2 ^ 64 in
    if denormal sum
    then normalize_and_round (shift_right sum 1) (larger.exponent +ℤ pos 1)
        (smaller.low / 2 + sum % 2 * 2 ^ 39) (smaller.round || sum % 2 == 1)
    else normalize_and_round sum larger.exponent smaller.low smaller.round

-- The sum of two numbers, by the difference of their exponents.
unfoldable pub add_numbers : MantissaExponent → MantissaExponent → ℤ → Effect
unfolding align
add_numbers acc operand (pos n) = add_aligned acc (align n operand.mantissa)
add_numbers acc operand (negsuc n) = add_aligned operand (align (suc n) acc.mantissa)

-- The signs that the operands of the additions enter with: a + b, a - b, b - a and |a| - |b|.
unfoldable pub signed_operands :
    Bool → Bool → MantissaExponent → MantissaExponent → MantissaExponent × MantissaExponent
signed_operands false false acc operand = (acc, operand)
signed_operands false true acc operand =
    (acc, record operand { mantissa = negated operand.mantissa })
signed_operands true false acc operand = (record acc { mantissa = negated acc.mantissa }, operand)
signed_operands true true acc operand = (
  if is_minus acc.mantissa then record acc { mantissa = negated acc.mantissa } else acc,
  if is_minus operand.mantissa
      then operand
      else record operand { mantissa = negated operand.mantissa },
)

unfoldable pub add_operands : MantissaExponent × MantissaExponent → Effect
add_operands (acc, operand) = add_numbers acc operand (acc.exponent -ℤ operand.exponent)

-- arithmetic_add(value, negate_accumulator, negate_value)
unfoldable pub arithmetic_add : ℕ → Bool → Bool → Effect
unfolding signed_operands
arithmetic_add value negate_accumulator negate_value = do
  λ m.
      add_operands
        (signed_operands negate_accumulator negate_value (unpacked m.accumulator) (unpacked value))
        m
  change (select_alu_group 16)

-- std::llabs, and a test of the sign.
abbrev magnitude : ℕ → ℕ
magnitude x = if is_minus x then negated x else x

abbrev is_plus : ℕ → Bool
is_plus x = not (x == 0) && not (is_minus x)

abbrev same_sign : ℕ → ℕ → Bool
same_sign x y = if is_plus x then is_plus y else not (is_plus y)

-- The loop of `divide`: `rounds` bits of the quotient are left, and `bit` is 2 ^ (rounds - 1).
unfoldable pub divide_loop : ℕ → ℕ → ℕ → ℕ → ℕ
divide_loop zero dividend divisor quotient = quotient
divide_loop (suc rounds) dividend divisor quotient =
    let bit = 2 ^ rounds in
    let twice = dividend * 2 % 2 ^ 64 in
    let small = ltb (magnitude dividend) (2 ^ 39) in
    let same = same_sign dividend divisor in
    let next =
      if small
      then twice
      else if same
      then (twice + negated divisor) % 2 ^ 64
      else (twice + divisor) % 2 ^ 64 in
    let changed =
      if small
      then quotient
      else if same
      then (quotient + bit) % 2 ^ 64
      else (quotient + negated bit) % 2 ^ 64 in
    let result = divide_loop rounds next divisor changed in
    if dividend == 0 then quotient else result

unfoldable pub quotient_of : MantissaExponent → MantissaExponent → MantissaExponent
unfolding normalize_right divide_loop
quotient_of dividend divisor =
    if divisor.mantissa == 2 ^ 39
    then record {
      mantissa = dividend.mantissa;
      exponent = dividend.exponent -ℤ divisor.exponent +ℤ pos 65;
    }
    else (let doubled = record dividend { mantissa = dividend.mantissa * 2 % 2 ^ 64 } in
        let by = divisor.mantissa * 2 % 2 ^ 64 in
        let start =
          if leb (magnitude by) (magnitude doubled.mantissa)
          then normalize_right doubled
          else doubled in
        record {
          mantissa = divide_loop 40 start.mantissa by 0;
          exponent = start.exponent -ℤ divisor.exponent +ℤ pos 64;
        })

-- `normalize_and_round(x.mantissa, x.exponent, 0, false)`, of a number that the accumulator gives.
unfoldable pub renormalize : (ℕ → MantissaExponent) → Effect
renormalize f m = let x = f m.accumulator in normalize_and_round x.mantissa x.exponent 0 false m

-- divide(value): a divisor that is not normalized is refused.
unfoldable pub divide : ℕ → Effect
unfolding quotient_of
divide value =
    if value / 2 ^ 40 % 2 == value / 2 ^ 39 % 2
    then fail "BESM-6 arithmetic division by zero"
    else (do
      renormalize (λ a. quotient_of (unpacked a) (unpacked value))
      change (select_alu_group 8))

unfoldable pub clear_remainder : Machine → Machine
clear_remainder m = record m { remainder = 0 }

-- add_exponent(delta)
unfoldable pub add_exponent : ℤ → Effect
add_exponent delta = do
  change clear_remainder
  renormalize (λ a. let acc = unpacked a in record acc { exponent = acc.exponent +ℤ delta })

abbrev minus_number : Bool → MantissaExponent → MantissaExponent
minus_number true x = adjust (record x { mantissa = negated x.mantissa })
minus_number false x = x

-- change_sign(negate)
unfoldable pub change_sign : Bool → Effect
change_sign negate = do
  change clear_remainder
  renormalize (λ a. minus_number negate (unpacked a))
  change (select_alu_group 16)

-- yta(exponent_delta): in the logical group the remainder alone, else a number with its mantissa.
unfoldable pub take_remainder : Machine → Machine
take_remainder m = record m { accumulator = m.remainder }

unfoldable pub put_remainder : ℕ → Machine → Machine
put_remainder saved m = record m { remainder = saved }

unfoldable pub yta_number : ℤ → ℕ → Effect
yta_number delta saved = do
  change clear_remainder
  renormalize (λ a.
      let acc = unpacked (a / 2 ^ 41 * 2 ^ 41 + saved % 2 ^ 40) in
      record acc { exponent = acc.exponent +ℤ delta })
  change (put_remainder saved)

unfoldable pub yta : ℤ → Effect
yta delta m =
    (if m.alu_mode % 32 / 4 * 4 == 4 then change take_remainder else yta_number delta m.remainder) m
