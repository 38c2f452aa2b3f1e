-- ===== src/Besm.antt =====
-- The BESM-6 machine: 48-bit words, bytes in memory, the two stacks and the instruction format
-- (include/poplan/word48.hpp, src/machine.cpp and src/machine_cpu.cpp). A word is a number below 2 ^ 48.
pub mod Words
pub mod Memory
pub mod Stacks
pub mod Decode
pub mod Shift
pub mod Alu
pub mod Interpreter
use re_poplan.Prelude.{
  ℕ, zero, suc, ◌+◌, ◌-◌, ◌*◌, ◌/◌, ◌%◌, ◌^◌, Bool, true, false, not, ◌&&◌, ◌||◌, ◌==◌, leb, ltb,
  if◌then◌else◌,
}
use re_poplan.Prelude.Int.{ℤ, pos, negsuc}

-- Word48(value)
abbrev pub word48 : ℕ → ℕ
word48 value = value % 2 ^ 48

unfoldable pub cyclic_add : ℕ → ℕ → ℕ
cyclic_add left right = let sum = left + right in word48 (sum % 2 ^ 48 + sum / 2 ^ 48)

-- The shift of an std::uint64_t to the left loses the bits from 2 ^ 64 on, which `word48` does too.
unfoldable pub logical_shift : ℕ → ℤ → ℕ
logical_shift value (pos n) = if leb 48 n then 0 else value / 2 ^ n
logical_shift value (negsuc n) = if leb 47 n then 0 else word48 (value * 2 ^ suc n)

-- address_add(value, delta): `& 077777` of a two's complement sum.
unfoldable pub address_add : ℕ → ℤ → ℕ
address_add value (pos n) = (value + n) % 2 ^ 15
address_add value (negsuc n) = (value + (2 ^ 15 - suc n % 2 ^ 15)) % 2 ^ 15

-- The registers and the core memory. Registers are numbered from 0; their names in the source are octal.
pub record Machine : Type 0 where
  pub accumulator : ℕ
  pub remainder : ℕ
  pub alu_mode : ℕ
  pub memory : ℕ → ℕ
  pub registers : ℕ → ℕ
  pub program_counter : ℕ
  pub right_half : Bool
  pub instruction_modifier : ℕ
  pub instruction_count : ℕ

abbrev pub updated : (ℕ → ℕ) → ℕ → ℕ → ℕ → ℕ
updated f k v j = if k == j then v else f j

-- register_value(index): register 0 reads as 0.
unfoldable pub register_value : Machine → ℕ → ℕ
register_value m index = if index == 0 then 0 else m.registers index

-- set_register(index, value): register 0 is not written.
unfoldable pub set_register : ℕ → ℕ → Machine → Machine
set_register index v m =
    if index == 0 then m else record m { registers = updated m.registers index v }

unfoldable pub set_memory : ℕ → ℕ → Machine → Machine
set_memory address v m = record m { memory = updated m.memory address v }

-- The places of a byte: the word, and the weight of the byte in it.
abbrev pub byte_address : ℕ → ℕ → ℕ
byte_address address byte_index = address_add address (pos (byte_index / 6))

-- `(raw >> 8 * k) & 0377`, and the word with that byte replaced.
unfoldable pub byte_at : ℕ → ℕ → ℕ
byte_at k raw = raw / 256 ^ k % 256

unfoldable pub with_byte : ℕ → ℕ → ℕ → ℕ
with_byte k value raw = word48 (raw / 256 ^ suc k * 256 ^ suc k + value * 256 ^ k + raw % 256 ^ k)

unfoldable pub memory_byte : ℕ → ℕ → Machine → ℕ
unfolding byte_at
memory_byte address byte_index m =
    byte_at (5 - byte_index % 6) (m.memory (byte_address address byte_index))

unfoldable pub set_memory_byte : ℕ → ℕ → ℕ → Machine → Machine
unfolding with_byte
set_memory_byte address byte_index value m =
    let word_address = byte_address address byte_index in
    record m {
      memory =
          updated m.memory word_address
            (with_byte (5 - byte_index % 6) value (m.memory word_address));
    }

-- The hardware stack, whose pointer is register 017.
unfoldable pub hardware_push_acc : Machine → Machine
unfolding address_add
hardware_push_acc m = record m {
  memory = updated m.memory (m.registers 15) m.accumulator;
  registers = updated m.registers 15 (address_add (m.registers 15) (pos 1));
}

unfoldable pub hardware_pop_acc : Machine → Machine
unfolding address_add
hardware_pop_acc m =
    let top = address_add (m.registers 15) (negsuc 0) in
    record m { registers = updated m.registers 15 top; accumulator = m.memory top }

-- The value stack, whose pointer is register 6; it grows towards lower addresses.
unfoldable pub value_stack_push : ℕ → Machine → Machine
unfolding address_add
value_stack_push value m =
    let address = address_add (m.registers 6) (negsuc 0) in
    record m { memory = updated m.memory address value; registers = updated m.registers 6 address }

unfoldable pub value_stack_drop : ℕ → Machine → Machine
unfolding address_add
value_stack_drop count m = record m {
  registers = updated m.registers 6 (address_add (m.registers 6) (pos (count % 2 ^ 15)));
}

unfoldable pub value_stack_pop : Machine → ℕ × Machine
unfolding address_add value_stack_drop
value_stack_pop m = (m.memory (address_add (m.registers 6) (pos 0)), value_stack_drop 1 m)

-- select_alu_group(group): the bits of `rau_group_mask` are replaced.
abbrev pub group_mask_low : ℕ
group_mask_low = 4

unfoldable pub select_alu_group : ℕ → Machine → Machine
select_alu_group group m = record m {
  alu_mode = m.alu_mode / 32 * 32 + m.alu_mode % group_mask_low + group;
}
