-- ===== src/Besm/Interpreter.antt =====
-- The interpreter of the machine: `Machine::step` (src/machine_cpu.cpp), behind the dispatch of routines
-- that the program translates. Codes of operations are octal in the source and decimal here.
pub mod Step
pub mod Widths
pub mod Arithmetic
pub mod Safe
pub mod Operations
pub mod Control
pub mod Invariant
use re_poplan.Prelude.{
  ℕ, zero, suc, ◌+◌, ◌-◌, ◌*◌, ◌/◌, ◌%◌, ◌^◌, Bool, true, false, not, ◌&&◌, ◌||◌, List, [], ◌∷◌,
  ◌==◌, leb, if◌then◌else◌,
}
use re_poplan.Prelude.Int.{ℤ, pos, negsuc, sub_ℕ}
use re_poplan.Bitwise.{bitwise, bit_and, bit_or, bit_xor}
use re_poplan.Besm.{
  Machine, word48, cyclic_add, address_add, register_value, set_register, set_memory,
  hardware_push_acc, hardware_pop_acc, select_alu_group,
}
use re_poplan.Besm.Decode.{Instruction, decode_instruction}
use re_poplan.Besm.Shift.{pack_bits, unpack_bits, shift_accumulator, accumulator_condition}
use re_poplan.Besm.Alu.{Status, Effect, ◌>>◌, change, fail, highest_bit}
use re_poplan.Besm.Alu.Operations.{multiply, arithmetic_add, divide, add_exponent, change_sign, yta}

abbrev pub running : Effect
running m = (Status.running, m)

abbrev pub when : Bool → Effect → Effect
when c e = if c then e else running

-- Word48::address()
abbrev pub low_address : ℕ → ℕ
low_address word = word % 2 ^ 15

-- effective_address()
unfoldable pub effective_address : Instruction → Machine → ℕ
effective_address i m = address_add i.address (pos (register_value m i.reg))

abbrev pub is_stack : Instruction → Bool
is_stack i = i.address == 0 && i.reg == 15

-- stack_operand(): from the hardware stack the operand is popped.
unfoldable pub with_operand : Instruction → (ℕ → Effect) → Effect
with_operand i f m =
    let n = if is_stack i then set_register 15 (address_add (m.registers 15) (negsuc 0)) m else m in
    f (n.memory (effective_address i n)) n

unfoldable pub set_accumulator : ℕ → Machine → Machine
set_accumulator v m = record m { accumulator = v }

unfoldable pub set_remainder : ℕ → Machine → Machine
set_remainder v m = record m { remainder = v }

unfoldable pub set_mode : ℕ → Machine → Machine
set_mode v m = record m { alu_mode = v }

unfoldable pub set_modifier : ℕ → Machine → Machine
set_modifier v m = record m { instruction_modifier = v }

-- branch(address)
unfoldable pub branch : ℕ → Machine → Machine
branch address m = record m { program_counter = address; right_half = false }

abbrev logical : Effect
logical = change (select_alu_group 4)

-- An operation that gives the accumulator, from the one there was and the operand, clears the remainder
-- and selects a group.
unfoldable pub combine : (ℕ → ℕ → ℕ) → ℕ → Instruction → Effect
combine f group i = with_operand i (λ x m.
    (do
      change (set_accumulator (f m.accumulator x))
      change (set_remainder 0)
      change (select_alu_group group))
      m)

-- The bits that are set in a word; the loop of the source takes them one by one.
unfoldable pub count_bits : ℕ → ℕ → ℕ
count_bits zero value = 0
count_bits (suc n) value = value % 2 + count_bits n (value / 2)

-- Operation 023
unfoldable pub highest_place : Instruction → Effect
highest_place i m =
    (if m.accumulator == 0
        then (do change (set_remainder 0); with_operand i (λ x. change (set_accumulator x)))
        else (let position = highest_bit m.accumulator in
            do
              change (shift_accumulator (sub_ℕ 48 position))
              with_operand i (λ x. change (set_accumulator (cyclic_add position x)))))
      m

-- `(word >> 41) & 0177`, and `address & 0177`, less 64.
abbrev exponent_of : ℕ → ℤ
exponent_of word = sub_ℕ (word / 2 ^ 41 % 128) 64

abbrev count_of : ℕ → ℤ
count_of address = sub_ℕ (address % 128) 64

-- Operation 041
unfoldable pub store_register_pop : Instruction → Effect
store_register_pop i m =
    let target = effective_address i m % 16 in
    let value = low_address m.accumulator in
    (do
      if target == 15
          then (λ n. change (set_accumulator (n.memory value)) n)
          else change hardware_pop_acc
      change (set_register target value)
      logical)
      m

-- A conditional jump on the accumulator.
unfoldable pub jump_if : Bool → Instruction → Effect
jump_if wanted i m =
    let n = set_remainder m.accumulator m in
    when (if wanted then accumulator_condition n else not (accumulator_condition n))
      (change (branch (effective_address i n))) n

-- The extracodes that the interpreter does not perform itself: elementary functions, the disk, the
-- terminal and the clock, which answer for an address.
pub record Host : Type 0 where
  pub elementary_function : ℕ → Effect
  pub emulate_e70 : ℕ → Effect
  pub emulate_e71 : ℕ → Effect
  pub jiffies_since_midnight : ℕ
  pub elapsed : ℕ

unfoldable pub count_instruction : Machine → Machine
count_instruction m = record m { instruction_count = suc m.instruction_count }

abbrev pub halt : Effect
halt m = (Status.halted, count_instruction m)

-- The switch of a number: the first entry with it, or else the default.
unfoldable pub switch : ℕ → List (ℕ × Effect) → Effect → Effect
switch code [] other = other
switch code ((k, e) ∷ cases) other = if code == k then e else switch code cases other

-- Operation 067
unfoldable pub continue_at : ℕ → Effect
continue_at address m =
    let continuation = m.memory address / 2 ^ 24 % 2 ^ 15 in
    (if continuation == 0
        then fail "E67 control word has no continuation"
        else change (branch continuation))
      m

-- The extracodes 050 to 075, on their address.
unfoldable pub extracode : Host → ℕ → ℕ → Effect
extracode H code address =
    switch code
      ((
        40,
        if leb address 6
            then Host.elementary_function H address
            else when (address == 128) (change (set_accumulator 0)),
      )
        ∷ (
          43,
          when (address == 8) (change (set_accumulator (word48 (Host.jiffies_since_midnight H)))),
        )
        ∷ (51, when (address == 4) (change (set_accumulator (word48 (Host.elapsed H / 20)))))
        ∷ (57, Host.emulate_e71 H address)
        ∷ (56, Host.emulate_e70 H address)
        ∷ (55, continue_at address)
        ∷ (61, when (not (address == 0)) (λ m. change (set_memory address m.accumulator) m))
        ∷ [])
      running

-- The state of the control that a wait for input restores.
unfoldable pub control_of : Machine → Machine → Machine
control_of before m = record m {
  program_counter = before.program_counter;
  right_half = before.right_half;
  instruction_modifier = before.instruction_modifier;
}

unfoldable pub restore_if_waiting : Machine → Status → Machine → Status × Machine
restore_if_waiting before Status.input_required m = (Status.input_required, control_of before m)
restore_if_waiting before s m = (s, m)

unfoldable pub restore_control : Machine → Effect → Effect
unfolding restore_if_waiting
restore_control before e m = let (s, n) = e m in restore_if_waiting before s n

unfoldable pub perform_extracode : Host → Machine → Instruction → Effect
perform_extracode H before i m =
    let address = effective_address i m in
    (do
      restore_control before (do change (set_register 14 address); extracode H i.opcode address)
      logical)
      m
