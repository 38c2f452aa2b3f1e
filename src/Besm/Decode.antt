-- ===== src/Besm/Decode.antt =====
-- The instruction format: `decode_instruction` of src/machine_cpu.cpp.
use re_poplan.Prelude.{ℕ, ◌+◌, ◌*◌, ◌/◌, ◌%◌, ◌^◌, ◌<◌, arith, ◌==◌, if◌then◌else◌}

pub record Instruction : Type 0 where
  pub reg : ℕ
  pub opcode : ℕ
  pub address : ℕ

-- Bit 19 chooses between the long address of 15 bits and the short one of 12, which bit 18 extends.
-- `(half >> 12) & 0370` is the bits 15 to 19 of the half in their places.
unfoldable pub decode_instruction : ℕ → Instruction
decode_instruction half =
    if half / 2 ^ 19 % 2 == 1
    then record {
      reg = half / 2 ^ 20 % 16;
      opcode = half / 2 ^ 15 % 32 * 8;
      address = half % 2 ^ 15;
    }
    else record {
      reg = half / 2 ^ 20 % 16;
      opcode = half / 2 ^ 12 % 64;
      address = if half / 2 ^ 18 % 2 == 1 then half % 2 ^ 12 + 7 * 2 ^ 12 else half % 2 ^ 12;
    }

-- The half of a word that an instruction comes from.
unfoldable pub encoded : Instruction → ℕ
encoded i =
    i.reg * 2 ^ 20
    + (if i.opcode / 128 == 1
        then i.opcode * 2 ^ 12 + i.address
        else i.opcode * 2 ^ 12 + i.address / 2 ^ 14 * 2 ^ 18 + i.address % 2 ^ 12)

-- A half decodes to a register below 16, an operation code below 256 and an address below 2 ^ 15.
pub decode_instruction-bounds :
    (half : ℕ)
    → ((decode_instruction half).reg < 16)
      × ((decode_instruction half).opcode < 256)
      × ((decode_instruction half).address < 2 ^ 15)
unfolding decode_instruction
decode_instruction-bounds half = ground arith
