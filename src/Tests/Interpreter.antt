-- ===== src/Tests/Interpreter.antt =====
-- The interpreter and the arithmetic unit on concrete words.
use re_poplan.Prelude.{ℕ, ◌+◌, ◌*◌, ◌^◌, ◌<◌, ◌≡◌, arith, ◌==◌, if◌then◌else◌, false}
use re_poplan.Prelude.Int.{◌*ℤ◌}
use re_poplan.Primitives.{of_bits}
use re_poplan.Besm.{Machine}
use re_poplan.Besm.Alu.{Status, unpacked, multiply_mantissas}
use re_poplan.Besm.Alu.Product.{value_of, multiply_mantissas-unpacked}
use re_poplan.Besm.Interpreter.{Host}
use re_poplan.Besm.Interpreter.Step.{step}
use re_poplan.Besm.Interpreter.Widths.{IsMachine}
use re_poplan.Besm.Interpreter.Invariant.{KeepsWidths, step-IsMachine}

-- The words of 2 and of -3.
abbrev two : ℕ
two = 66 * 2 ^ 41 + 2 ^ 39

abbrev minus_three : ℕ
minus_three = 66 * 2 ^ 41 + 2 ^ 40 + 2 ^ 38

multiply_mantissas-unpacked_example :
    (value_of (multiply_mantissas (unpacked two).mantissa (unpacked minus_three).mantissa)
      ≡ of_bits (unpacked two).mantissa *ℤ of_bits (unpacked minus_three).mantissa)
    × ((multiply_mantissas (unpacked two).mantissa (unpacked minus_three).mantissa).1 < 2 ^ 40)
multiply_mantissas-unpacked_example = multiply_mantissas-unpacked two minus_three

-- A host whose devices do nothing.
abbrev idle : Host
idle = record {
  elementary_function = λ a m. (Status.running, m);
  emulate_e70 = λ a m. (Status.running, m);
  emulate_e71 = λ a m. (Status.running, m);
  jiffies_since_midnight = 1000;
  elapsed = 40;
}

-- At 512, a multiplication by the word at 600 and a jump to 512.
abbrev loop : Machine
loop = record {
  accumulator = two;
  remainder = 0;
  alu_mode = 4;
  memory = λ a.
      if a == 512
      then (15 * 2 ^ 12 + 600) * 2 ^ 24 + 2 ^ 19 + 16 * 2 ^ 15 + 512
      else if a == 600
      then minus_three
      else 0;
  registers = λ r. 0;
  program_counter = 512;
  right_half = false;
  instruction_modifier = 0;
  instruction_count = 0;
}

idle-KeepsWidths : KeepsWidths idle
idle-KeepsWidths = record { elementary = λ a m w. w; disk = λ a m w. w; terminal = λ a m w. w }

loop-IsMachine : IsMachine loop
loop-IsMachine = record {
  accumulator_lt = omega arith;
  remainder_lt = omega arith;
  mode_lt = omega arith;
  memory_lt = λ a. ground arith;
  registers_lt = λ r. omega arith;
  counter_lt = omega arith;
  modifier_lt = omega arith;
}

step-IsMachine_example : IsMachine (step idle loop).1
step-IsMachine_example = step-IsMachine idle loop idle-KeepsWidths loop-IsMachine
