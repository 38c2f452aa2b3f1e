-- ===== src/Besm/Interpreter/Arithmetic.antt =====
-- The widths under the arithmetic operations.
use re_poplan.Prelude.{ℕ, ◌^◌, ◌<◌, ◌≤◌, Bool, ◌||◌, ◌==◌, arith}
use re_poplan.Prelude.Int.{ℤ, pos, negsuc}
use re_poplan.Besm.{select_alu_group}
use re_poplan.Besm.Alu.{◌>>◌, change, fail, MantissaExponent, clear_result, normalize_and_round}
use re_poplan.Besm.Alu.Operations.{
  multiply, multiply_with, arithmetic_add, add_numbers, add_aligned, Aligned, divide, add_exponent,
  change_sign, yta, add_operands, renormalize, clear_remainder, take_remainder, put_remainder,
  yta_number,
}
use re_poplan.Besm.Interpreter.Widths.{
  Keeps, >>-Keeps, if-Keeps, normalize_and_round-Keeps, clear_result-IsMachine,
  select_alu_group-IsMachine,
}

pub select-Keeps : (g : ℕ) → g ≤ 28 → Keeps (change (select_alu_group g))
select-Keeps g l m w = select_alu_group-IsMachine g m l w

pub multiply-Keeps : (x : ℕ) → Keeps (multiply x)
unfolding multiply multiply_with
multiply-Keeps x =
    >>-Keeps _ _
      (λ m.
        if-Keeps (m.accumulator == 0 || x == 0) (change clear_result) (multiply_with _ _)
          clear_result-IsMachine (normalize_and_round-Keeps _ _ _ _) m)
      (select-Keeps 8 (omega arith))

add_aligned-Keeps :
    (larger : MantissaExponent) (smaller : Aligned) → Keeps (add_aligned larger smaller)
unfolding add_aligned
add_aligned-Keeps larger smaller =
    if-Keeps _ (normalize_and_round _ _ _ _) (normalize_and_round _ _ _ _)
      (normalize_and_round-Keeps _ _ _ _) (normalize_and_round-Keeps _ _ _ _)

add_numbers-Keeps : (acc operand : MantissaExponent) (d : ℤ) → Keeps (add_numbers acc operand d)
unfolding add_numbers
add_numbers-Keeps acc operand (pos n) = add_aligned-Keeps acc _
add_numbers-Keeps acc operand (negsuc n) = add_aligned-Keeps operand _

add_operands-Keeps : (p : MantissaExponent × MantissaExponent) → Keeps (add_operands p)
unfolding add_operands
add_operands-Keeps (acc, operand) = add_numbers-Keeps acc operand _

pub arithmetic_add-Keeps : (x : ℕ) (a b : Bool) → Keeps (arithmetic_add x a b)
unfolding arithmetic_add
arithmetic_add-Keeps x a b =
    >>-Keeps _ _ (λ m. add_operands-Keeps _ m) (select-Keeps 16 (omega arith))

renormalize-Keeps : (f : ℕ → MantissaExponent) → Keeps (renormalize f)
unfolding renormalize
renormalize-Keeps f m = normalize_and_round-Keeps _ _ _ _ m

clear_remainder-Keeps : Keeps (change clear_remainder)
unfolding clear_remainder
clear_remainder-Keeps m w = omega arith

pub divide-Keeps : (x : ℕ) → Keeps (divide x)
unfolding divide
divide-Keeps x =
    if-Keeps _ (fail "BESM-6 arithmetic division by zero") (renormalize _ >> change _) (λ n v. v)
      (>>-Keeps _ _ (renormalize-Keeps _) (select-Keeps 8 (omega arith)))

pub add_exponent-Keeps : (d : ℤ) → Keeps (add_exponent d)
unfolding add_exponent
add_exponent-Keeps d = >>-Keeps _ _ clear_remainder-Keeps (renormalize-Keeps _)

pub change_sign-Keeps : (n : Bool) → Keeps (change_sign n)
unfolding change_sign
change_sign-Keeps n =
    >>-Keeps _ _ clear_remainder-Keeps
      (>>-Keeps _ _ (renormalize-Keeps _) (select-Keeps 16 (omega arith)))

take_remainder-Keeps : Keeps (change take_remainder)
unfolding take_remainder
take_remainder-Keeps m w = omega arith

put_remainder-Keeps : (r : ℕ) → r < 2 ^ 48 → Keeps (change (put_remainder r))
unfolding put_remainder
put_remainder-Keeps r l m w = omega arith

yta_number-Keeps : (d : ℤ) (r : ℕ) → r < 2 ^ 48 → Keeps (yta_number d r)
unfolding yta_number
yta_number-Keeps d r l =
    >>-Keeps _ _ clear_remainder-Keeps
      (>>-Keeps _ _ (renormalize-Keeps _) (put_remainder-Keeps r l))

pub yta-Keeps : (d : ℤ) → Keeps (yta d)
unfolding yta
yta-Keeps d m w =
    if-Keeps _ (change take_remainder) (yta_number d m.remainder) take_remainder-Keeps
      (yta_number-Keeps d m.remainder w.remainder_lt) m w
