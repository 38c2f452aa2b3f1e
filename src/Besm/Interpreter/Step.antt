-- ===== src/Besm/Interpreter/Step.antt =====
-- The operations of the machine by their codes, and a step (`Machine::step` of src/machine_cpu.cpp). A
-- step that throws or waits is told by its status.
use re_poplan.Prelude.{
  ℕ, zero, suc, ◌+◌, ◌*◌, ◌/◌, ◌%◌, ◌^◌, Bool, true, false, not, List, [], ◌∷◌, ◌++◌, ◌==◌,
  if◌then◌else◌,
}
use re_poplan.Prelude.Int.{pos, sub_ℕ}
use re_poplan.Bitwise.{bitwise, bit_and, bit_or, bit_xor}
use re_poplan.Value.{bytes}
use re_poplan.Besm.{
  Machine, cyclic_add, address_add, register_value, set_register, set_memory, hardware_push_acc,
  hardware_pop_acc, select_alu_group,
}
use re_poplan.Besm.Decode.{Instruction, decode_instruction}
use re_poplan.Besm.Shift.{pack_bits, unpack_bits, shift_accumulator}
use re_poplan.Besm.Alu.{Status, Effect, ◌>>◌, change, fail}
use re_poplan.Besm.Alu.Operations.{multiply, arithmetic_add, divide, add_exponent, change_sign, yta}
use re_poplan.Besm.Interpreter.{
  low_address, effective_address, is_stack, with_operand, set_accumulator, set_remainder, set_mode,
  set_modifier, branch, logical, combine, count_bits, highest_place, exponent_of, count_of,
  store_register_pop, jump_if, Host, halt, count_instruction, switch, when, perform_extracode,
}

unfoldable pub raise_pointer : Effect
raise_pointer m = change (set_register 15 (address_add (m.registers 15) (pos 1))) m

-- The operations 000, 001 and 003.
unfoldable pub store_top : Instruction → Effect
store_top i m = when (is_stack i) raise_pointer (set_memory (effective_address i m) m.accumulator m)

unfoldable pub store_pop : Instruction → Effect
store_pop i m =
    (do change hardware_pop_acc; logical) (set_memory (effective_address i m) m.accumulator m)

unfoldable pub push_load : Instruction → Effect
push_load i = do
  change hardware_push_acc
  λ m. change (set_accumulator (m.memory (effective_address i m))) m
  logical

-- Operation 012
unfoldable pub exclusive_or : Instruction → Effect
exclusive_or i = with_operand i (λ x m.
    (do
      change (set_accumulator (bitwise 48 bit_xor m.accumulator x))
      change (set_remainder m.accumulator)
      logical)
      m)

unfoldable pub alu_operations : Instruction → List (ℕ × Effect)
alu_operations i =
    (4, with_operand i (λ x. arithmetic_add x false false))
    ∷ (5, with_operand i (λ x. arithmetic_add x false true))
    ∷ (6, with_operand i (λ x. arithmetic_add x true false))
    ∷ (7, with_operand i (λ x. arithmetic_add x true true))
    ∷ (8, do with_operand i (λ x. change (set_accumulator x)); logical)
    ∷ (9, combine (bitwise 48 bit_and) 4 i)
    ∷ (10, exclusive_or i)
    ∷ (11, combine cyclic_add 8 i)
    ∷ (12, with_operand i (λ x. change_sign (x / 2 ^ 40 % 2 == 1)))
    ∷ (13, combine (bitwise 48 bit_or) 4 i)
    ∷ (14, with_operand i divide)
    ∷ (15, with_operand i multiply)
    ∷ (16, combine pack_bits 4 i)
    ∷ (17, combine unpack_bits 4 i)
    ∷ (18, combine (λ a x. cyclic_add (count_bits 48 a) x) 4 i)
    ∷ (19, do highest_place i; logical)
    ∷ (20, do with_operand i (λ x. add_exponent (exponent_of x)); change (select_alu_group 8))
    ∷ (
      21,
      do
        with_operand i (λ x. add_exponent (sub_ℕ 64 (x / 2 ^ 41 % 128)))
        change (select_alu_group 8),
    )
    ∷ (22, with_operand i (λ x. change (shift_accumulator (exponent_of x))))
    ∷ (23, with_operand i (λ x. change (set_mode (x / 2 ^ 41 % 64))))
    ∷ []

-- The operations whose operand is the effective address.
unfoldable pub address_operations : Instruction → List (ℕ × (ℕ → Effect))
address_operations i =
    (24, λ a m. (do change (set_accumulator (bitwise 7 bit_and m.alu_mode a * 2 ^ 41)); logical) m)
    ∷ (25, λ a. yta (count_of a))
    ∷ (28, λ a. do add_exponent (count_of a); change (select_alu_group 8))
    ∷ (29, λ a. do add_exponent (sub_ℕ 64 (a % 128)); change (select_alu_group 8))
    ∷ (30, λ a. change (shift_accumulator (count_of a)))
    ∷ (31, λ a. change (set_mode (a % 64)))
    ∷ (32, λ a m. change (set_register (a % 16) (low_address m.accumulator)) m)
    ∷ (34, λ a m. (do change (set_accumulator (register_value m (a % 16))); logical) m)
    ∷ (144, λ a. change (set_modifier a))
    ∷ (168, λ a. change (set_register i.reg a))
    ∷ (192, λ a. change (branch a))
    ∷ []

unfoldable pub on_address : Instruction → List (ℕ × (ℕ → Effect)) → List (ℕ × Effect)
on_address i [] = []
on_address i ((code, f) ∷ cases) = (code, λ m. f (effective_address i m) m) ∷ on_address i cases

-- A jump if a register is, or is not, zero.
unfoldable pub jump_if_zero : Bool → Instruction → Effect
jump_if_zero wanted i m =
    let zero_now = register_value m i.reg == 0 in
    when (if wanted then zero_now else not zero_now) (change (branch i.address)) m

-- Operation 0370
unfoldable pub count_up : Instruction → Effect
count_up i m =
    when (not (register_value m i.reg == 0))
      (do
        change (set_register i.reg (address_add (register_value m i.reg) (pos 1)))
        change (branch i.address))
      m

-- Operation 045
unfoldable pub add_register : Instruction → Effect
add_register i m =
    let target = i.address % 16 in
    change
      (set_register target (address_add (register_value m target) (pos (register_value m i.reg)))) m

-- Operation 074
unfoldable pub finish : Instruction → Effect
finish i m =
    let address = effective_address i m in
    (do
      change (set_register 14 address)
      logical
      if address == 0 then halt else fail "E74 nonzero exit operation is unsupported")
      m

-- The other operations; `next_word` is the address behind the instruction's word.
unfoldable pub control_operations : ℕ → Instruction → List (ℕ × Effect)
control_operations next_word i =
    (0, store_top i)
    ∷ (1, store_pop i)
    ∷ (3, push_load i)
    ∷ (33, store_register_pop i)
    ∷ (
      35,
      do
        change hardware_push_acc
        λ m. change (set_accumulator (register_value m (effective_address i m % 16))) m
        logical,
    )
    ∷ (36, λ m. change (set_register (i.address % 16) (register_value m i.reg)) m)
    ∷ (37, add_register i)
    ∷ (60, finish i)
    ∷ (152, with_operand i (λ x. change (set_modifier (low_address x))))
    ∷ (160, change (set_register i.reg i.address))
    ∷ (176, jump_if false i)
    ∷ (184, jump_if true i)
    ∷ (200, do change (set_register i.reg next_word); change (branch i.address))
    ∷ (216, halt)
    ∷ (224, jump_if_zero true i)
    ∷ (232, jump_if_zero false i)
    ∷ (240, jump_if_zero true i)
    ∷ (248, count_up i)
    ∷ []

abbrev pub extracodes : List ℕ
extracodes = 40 ∷ 43 ∷ 51 ∷ 52 ∷ 55 ∷ 56 ∷ 57 ∷ 58 ∷ 61 ∷ []

unfoldable pub each : List ℕ → Effect → List (ℕ × Effect)
each [] e = []
each (code ∷ codes) e = (code, e) ∷ each codes e

-- The octal digits of a number, of which it has no more than `fuel`.
unfoldable pub octal : ℕ → ℕ → List ℕ
octal zero n = []
octal (suc fuel) n =
    let rest = octal fuel (n / 8) in (if n / 8 == 0 then [] else rest) ++ (b'0' + n % 8) ∷ []

-- unsupported_instruction(pc, opcode)
unfoldable pub unsupported : ℕ → ℕ → Effect
unfolding octal
unsupported pc opcode m = (
  Status.failed
      (bytes "BESM-6 instruction " ++ octal 6 opcode ++ bytes " is unsupported at " ++ octal 6 pc),
  m,
)

-- The switch of `step`; `before` is the state before the instruction was fetched.
unfoldable pub execute : Host → Machine → ℕ → Instruction → Effect
execute H before next_word i =
    switch i.opcode
      (alu_operations i
        ++ (on_address i (address_operations i)
            ++ (control_operations next_word i ++ each extracodes (perform_extracode H before i))))
      (unsupported before.program_counter i.opcode)

-- The half of the word that `right` chooses.
abbrev pub half_of : ℕ → Bool → ℕ
half_of word true = word % 2 ^ 24
half_of word false = word / 2 ^ 24

unfoldable pub fetched : Machine → Machine
fetched m = record m {
  program_counter =
      if m.right_half then address_add m.program_counter (pos 1) else m.program_counter;
  right_half = not m.right_half;
  instruction_modifier = 0;
}

-- The instruction at the program counter, its address changed by the modifier.
unfoldable pub instruction_at : Machine → Instruction
instruction_at m =
    let i = decode_instruction (half_of (m.memory m.program_counter) m.right_half) in
    record i { address = address_add i.address (pos m.instruction_modifier) }

unfoldable pub step : Host → Effect
step H m =
    (do
      execute H m (address_add m.program_counter (pos 1)) (instruction_at m)
      change count_instruction)
      (fetched m)
