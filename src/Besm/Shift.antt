-- ===== src/Besm/Shift.antt =====
-- Packing, unpacking and shifting words, and the condition of the conditional jumps (src/machine.cpp).
pub mod Whole
use re_poplan.Prelude.{
  ℕ, zero, suc, ◌+◌, ◌-◌, ◌*◌, ◌/◌, ◌%◌, ◌^◌, Bool, true, not, ◌==◌, leb, if◌then◌else◌,
}
use re_poplan.Prelude.Int.{ℤ, pos, negsuc}
use re_poplan.Besm.{word48, Machine, select_alu_group}

-- The loop of `pack_bits`, while a bit of the mask is left: 48 rounds are enough for a word. A selected
-- bit enters the result from above.
unfoldable pub pack_loop : ℕ → ℕ → ℕ → ℕ → ℕ
pack_loop zero selected source result = result
pack_loop (suc fuel) selected source result =
    let entered = result / 2 + source % 2 * 2 ^ 47 in
    if selected == 0
    then result
    else pack_loop fuel (selected / 2) (source / 2) (if selected % 2 == 1 then entered else result)

unfoldable pub pack_bits : ℕ → ℕ → ℕ
pack_bits value mask = word48 (pack_loop 48 mask value 0)

-- The loop of `unpack_bits`, for the rounds that are left: from the highest bit of the mask on, a
-- selected place takes the highest bit of the source. The shifts lose the bits from 2 ^ 64 on.
unfoldable pub unpack_loop : ℕ → ℕ → ℕ → ℕ → ℕ
unpack_loop zero selected source result = result
unpack_loop (suc rounds) selected source result =
    let taken = source / 2 ^ 47 % 2 in
    let chosen = selected / 2 ^ 47 % 2 == 1 in
    unpack_loop rounds (selected * 2 % 2 ^ 64) (if chosen then source * 2 % 2 ^ 64 else source)
      (result * 2 % 2 ^ 64 + (if chosen then taken else 0))

unfoldable pub unpack_bits : ℕ → ℕ → ℕ
unpack_bits value mask = word48 (unpack_loop 48 mask value 0)

-- shift_accumulator(count): the bits that leave the accumulator go to the remainder.
unfoldable pub shift_accumulator : ℤ → Machine → Machine
unfolding select_alu_group
shift_accumulator (pos zero) m = select_alu_group 4 (record m { remainder = 0 })
shift_accumulator (pos n) m = select_alu_group 4 (
    if leb 48 n
    then record m { remainder = word48 (m.accumulator / 2 ^ (n - 48)); accumulator = 0 }
    else record m {
      remainder = word48 (m.accumulator * 2 ^ (48 - n));
      accumulator = word48 (m.accumulator / 2 ^ n);
    })
shift_accumulator (negsuc k) m =
    let n = suc k in
    select_alu_group 4 (
      if leb 48 n
      then record m { remainder = word48 (m.accumulator * 2 ^ (n - 48)); accumulator = 0 }
      else record m {
        remainder = word48 (m.accumulator / 2 ^ (48 - n));
        accumulator = word48 (m.accumulator * 2 ^ n);
      })

-- accumulator_condition(): the group is bits 2 to 4 of the mode.
unfoldable pub accumulator_condition : Machine → Bool
accumulator_condition m =
    let group = m.alu_mode % 32 / 4 * 4 in
    if group == 16
    then m.accumulator / 2 ^ 40 % 2 == 1
    else if group == 8
    then m.accumulator / 2 ^ 47 % 2 == 0
    else if group == 4
    then not (m.accumulator == 0)
    else true
