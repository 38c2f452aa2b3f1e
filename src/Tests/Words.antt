-- ===== src/Tests/Words.antt =====
-- The BESM-6 machine on concrete words.
use re_poplan.Prelude.{◌*◌, ◌+◌, ◌%◌, ◌^◌, ◌-◌, ◌<◌, ◌≡◌, ◌&&◌, arith, ◌==◌, if◌then◌else◌}
use re_poplan.Prelude.{false}
use re_poplan.Besm.{
  Machine, cyclic_add, memory_byte, set_memory_byte, byte_address, address_add, hardware_push_acc,
  hardware_pop_acc, value_stack_push, value_stack_pop,
}
use re_poplan.Prelude.Int.{pos, negsuc}
use re_poplan.Besm.Shift.{shift_accumulator}
use re_poplan.Besm.Shift.Whole.{shift_accumulator_whole}
use re_poplan.Besm.Words.{cyclic_add_mod}
use re_poplan.Besm.Memory.{memory_byte-set_memory_byte}
use re_poplan.Besm.Stacks.{hardware_pop_acc-hardware_push_acc, value_stack_pop-value_stack_push}

abbrev machine : Machine
machine = record {
  accumulator = 77;
  remainder = 0;
  alu_mode = 4;
  memory = λ a. a + 1000;
  registers = λ r. if r == 15 then 2 ^ 15 - 1 else 0;
  program_counter = 512;
  right_half = false;
  instruction_modifier = 0;
  instruction_count = 0;
}

cyclic_add_mod_example : cyclic_add (2 ^ 48 - 1) 5 % (2 ^ 48 - 1) ≡ (2 ^ 48 - 1 + 5) % (2 ^ 48 - 1)
cyclic_add_mod_example = cyclic_add_mod (2 ^ 48 - 1) 5 (omega arith) (omega arith)

place_fits : machine.memory (byte_address 32767 8) < 2 ^ 48
unfolding address_add
place_fits = omega arith

-- The byte 8 from address 32767 is in the word 0, like the byte 2 from there.
memory_byte-set_memory_byte_example : memory_byte 0 2 (set_memory_byte 32767 8 200 machine) ≡ (
    if byte_address 32767 8 == byte_address 0 2 && 8 % 6 == 2 % 6
    then 200
    else memory_byte 0 2 machine)
memory_byte-set_memory_byte_example =
    memory_byte-set_memory_byte machine 32767 8 200 0 2 (omega arith) place_fits

hardware_pop_acc-hardware_push_acc_example :
    let n = hardware_pop_acc (hardware_push_acc machine) in
    (n.accumulator ≡ 77)
    × (n.registers 15 ≡ machine.registers 15)
    × (n.memory 15 ≡ (if machine.registers 15 == 15 then 77 else machine.memory 15))
hardware_pop_acc-hardware_push_acc_example =
    hardware_pop_acc-hardware_push_acc machine 15 (omega arith)

value_stack_pop-value_stack_push_example :
    let (w, n) = value_stack_pop (value_stack_push 9 machine) in
    (w ≡ 9) × (n.registers 6 ≡ machine.registers 6) × (n.accumulator ≡ 77)
value_stack_pop-value_stack_push_example =
    value_stack_pop-value_stack_push 9 machine 6 (omega arith)

shift_accumulator_whole_example :
    (let t = shift_accumulator (pos 3) machine in
      t.accumulator * 2 ^ 48 + t.remainder ≡ machine.accumulator * 2 ^ 45)
    × (let t = shift_accumulator (negsuc 2) machine in
        t.remainder * 2 ^ 48 + t.accumulator ≡ machine.accumulator * 2 ^ 3)
shift_accumulator_whole_example = shift_accumulator_whole machine 2 (omega arith) (omega arith)
