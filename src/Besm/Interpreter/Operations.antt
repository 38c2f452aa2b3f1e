-- ===== src/Besm/Interpreter/Operations.antt =====
-- The widths under the operations of the arithmetic unit and those on an address.
use re_poplan.Prelude.{◌&◌, ℕ, ◌%◌, ◌*◌, ◌^◌, ◌<◌, true, false, List, [], ◌∷◌, ◌==◌, arith}
use re_poplan.Bitwise.{
  bitwise, bit_and, bit_or, bit_xor, bitwise_lt, bit_and_le, bit_or_le, bit_xor_le,
}
use re_poplan.Besm.Words.{cyclic_add_lt}
use re_poplan.Besm.Decode.{Instruction}
use re_poplan.Besm.Shift.{pack_bits, unpack_bits}
use re_poplan.Besm.Alu.{Effect, ◌>>◌, change, highest_bit}
use re_poplan.Besm.Interpreter.{with_operand, count_bits, highest_place}
use re_poplan.Besm.Interpreter.Step.{exclusive_or, alu_operations, address_operations, on_address}
use re_poplan.Besm.Interpreter.Widths.{Keeps, >>-Keeps, if-Keeps, register_value_lt}
use re_poplan.Besm.Interpreter.Arithmetic.{
  select-Keeps, multiply-Keeps, arithmetic_add-Keeps, divide-Keeps, add_exponent-Keeps,
  change_sign-Keeps, yta-Keeps,
}
use re_poplan.Besm.Interpreter.Safe.{
  effective_address_lt, logical-Keeps, with_operand-Keeps, accumulator-Keeps, remainder-Keeps,
  register-Keeps, branch-Keeps, shift-Keeps, mode-Keeps, modifier-Keeps, combine-Keeps, AllKeep,
}

and48_lt : (a x : ℕ) → bitwise 48 bit_and a x < 2 ^ 48
and48_lt a x = bitwise_lt 48 bit_and a x bit_and_le

or48_lt : (a x : ℕ) → bitwise 48 bit_or a x < 2 ^ 48
or48_lt a x = bitwise_lt 48 bit_or a x bit_or_le

xor48_lt : (a x : ℕ) → bitwise 48 bit_xor a x < 2 ^ 48
xor48_lt a x = bitwise_lt 48 bit_xor a x bit_xor_le

pack_bits_lt : (a x : ℕ) → pack_bits a x < 2 ^ 48
unfolding pack_bits
pack_bits_lt a x = omega arith

unpack_bits_lt : (a x : ℕ) → unpack_bits a x < 2 ^ 48
unfolding unpack_bits
unpack_bits_lt a x = omega arith

exclusive_or-Keeps : (i : Instruction) → Keeps (exclusive_or i)
unfolding exclusive_or
exclusive_or-Keeps i = with_operand-Keeps i _ (λ x lx m w.
    >>-Keeps _ _ (accumulator-Keeps _ (xor48_lt m.accumulator x))
      (>>-Keeps _ _ (remainder-Keeps m.accumulator w.accumulator_lt) logical-Keeps) m w)

highest_place-Keeps : (i : Instruction) → Keeps (highest_place i)
unfolding highest_place
highest_place-Keeps i m =
    if-Keeps (m.accumulator == 0) (change _ >> with_operand i _) (change _ >> with_operand i _)
      (>>-Keeps _ _ (remainder-Keeps 0 (omega arith))
        (with_operand-Keeps i _ (λ x lx. accumulator-Keeps x lx)))
      (>>-Keeps _ _ (shift-Keeps _) (
        with_operand-Keeps i _
          (λ x lx. accumulator-Keeps _ (cyclic_add_lt (highest_bit m.accumulator) x))))
      m

pub alu_operations-AllKeep : (i : Instruction) → AllKeep (alu_operations i)
unfolding alu_operations
alu_operations-AllKeep i =
    let operand = with_operand-Keeps i in
    (operand _ (λ x l. arithmetic_add-Keeps x false false))
    & (operand _ (λ x l. arithmetic_add-Keeps x false true))
    & (operand _ (λ x l. arithmetic_add-Keeps x true false))
    & (operand _ (λ x l. arithmetic_add-Keeps x true true))
    & (>>-Keeps _ _ (operand _ accumulator-Keeps) logical-Keeps)
    & (combine-Keeps _ 4 i (omega arith) and48_lt)
    & (exclusive_or-Keeps i)
    & (combine-Keeps _ 8 i (omega arith) cyclic_add_lt)
    & (operand _ (λ x l. change_sign-Keeps _))
    & (combine-Keeps _ 4 i (omega arith) or48_lt)
    & (operand _ (λ x l. divide-Keeps x))
    & (operand _ (λ x l. multiply-Keeps x))
    & (combine-Keeps _ 4 i (omega arith) pack_bits_lt)
    & (combine-Keeps _ 4 i (omega arith) unpack_bits_lt)
    & (combine-Keeps _ 4 i (omega arith) (λ a x. cyclic_add_lt (count_bits 48 a) x))
    & (>>-Keeps _ _ (highest_place-Keeps i) logical-Keeps)
    & (>>-Keeps _ _ (operand _ (λ x l. add_exponent-Keeps _)) (select-Keeps 8 (omega arith)))
    & (>>-Keeps _ _ (operand _ (λ x l. add_exponent-Keeps _)) (select-Keeps 8 (omega arith)))
    & (operand _ (λ x l. shift-Keeps _))
    & (operand _ (λ x l. mode-Keeps _ (omega arith)))
    & tt

-- The operations on the effective address.
abbrev AllKeepAt : List (ℕ × (ℕ → Effect)) → Type 0
AllKeepAt [] = Unit
AllKeepAt ((k, f) ∷ cases) = ((a : ℕ) → a < 2 ^ 15 → Keeps (f a)) × AllKeepAt cases

pub on_address-AllKeep :
    (i : Instruction) (cases : List (ℕ × (ℕ → Effect)))
    → AllKeepAt cases
    → AllKeep (on_address i cases)
unfolding on_address
on_address-AllKeep i [] k = tt
on_address-AllKeep i ((code, f) ∷ cases) (kf, k) =
    (λ m. kf _ (effective_address_lt i m) m, on_address-AllKeep i cases k)

masked_lt : (x : ℕ) → x < 2 ^ 7 → x * 2 ^ 41 < 2 ^ 48
masked_lt x l = omega arith

pub address_operations-AllKeepAt : (i : Instruction) → AllKeepAt (address_operations i)
unfolding address_operations
address_operations-AllKeepAt i =
    (λ a l m.
      >>-Keeps _ _
        (accumulator-Keeps _ (masked_lt _ (bitwise_lt 7 bit_and m.alu_mode a bit_and_le)))
        logical-Keeps m)
    & (λ a l. yta-Keeps _)
    & (λ a l. >>-Keeps _ _ (add_exponent-Keeps _) (select-Keeps 8 (omega arith)))
    & (λ a l. >>-Keeps _ _ (add_exponent-Keeps _) (select-Keeps 8 (omega arith)))
    & (λ a l. shift-Keeps _)
    & (λ a l. mode-Keeps _ (omega arith))
    & (λ a l m. register-Keeps _ _ (omega arith) m)
    & (λ a l m w.
        let b = register_value_lt m (a % 16) w in
        >>-Keeps _ _ (accumulator-Keeps _ (omega arith)) logical-Keeps m w)
    & (λ a l. modifier-Keeps a l)
    & (λ a l. register-Keeps _ a l)
    & (λ a l. branch-Keeps a l)
    & tt
