-- ===== src/Besm/Interpreter/Widths.antt =====
-- The widths of the machine's registers and words.
use re_poplan.Prelude.{
  ℕ, zero, suc, ◌+◌, ◌*◌, ◌%◌, ◌^◌, ◌<◌, ◌≤◌, arith, Bool, true, false, not, ◌&&◌, if◌then◌else◌,
  none, some, Option,
}
use re_poplan.Prelude.Int.{ℤ, pos, negsuc, ltb_ℤ}
use re_poplan.Besm.{
  Machine, updated, address_add, register_value, set_register, set_memory, hardware_push_acc,
  hardware_pop_acc, select_alu_group,
}
use re_poplan.Besm.Shift.{shift_accumulator}
use re_poplan.Besm.Interpreter.{
  set_accumulator, set_remainder, set_mode, set_modifier, branch, count_instruction,
}
use re_poplan.Besm.Alu.{
  Status, Effect, ◌>>◌, change, fail, after, clear_result, pack_result, normalize_and_round, Normal,
  flag, exponent_bits, store_result, pack_or_clear,
}

-- Words of 48 bits, addresses of 15 and a mode of 6.
pub record IsMachine (m : Machine) : Type 0 where
  pub accumulator_lt : m.accumulator < 2 ^ 48
  pub remainder_lt : m.remainder < 2 ^ 48
  pub mode_lt : m.alu_mode < 64
  pub memory_lt : (a : ℕ) → m.memory a < 2 ^ 48
  pub registers_lt : (i : ℕ) → m.registers i < 2 ^ 15
  pub counter_lt : m.program_counter < 2 ^ 15
  pub modifier_lt : m.instruction_modifier < 2 ^ 15

-- An operation that keeps the widths, however it ends.
abbrev pub Keeps : Effect → Type 0
Keeps e = (m : Machine) → IsMachine m → IsMachine (e m).1

after-Keeps :
    (s : Status) (g : Effect) (m : Machine) → IsMachine m → Keeps g → IsMachine (after s m g).1
after-Keeps Status.running g m w k = k m w
after-Keeps Status.halted g m w k = w
after-Keeps Status.input_required g m w k = w
after-Keeps (Status.failed t) g m w k = w

pub >>-Keeps : (f g : Effect) → Keeps f → Keeps g → Keeps (f >> g)
unfolding ◌>>◌
>>-Keeps f g kf kg m w = after-Keeps (f m).0 g (f m).1 (kf m w) kg

pub if-Keeps : (c : Bool) (f g : Effect) → Keeps f → Keeps g → Keeps (λ m. (if c then f else g) m)
if-Keeps true f g kf kg = kf
if-Keeps false f g kf kg = kg

pub address_add_lt : (a : ℕ) (d : ℤ) → address_add a d < 2 ^ 15
unfolding address_add
address_add_lt a (pos n) = omega arith
address_add_lt a (negsuc n) = omega arith

pub register_value_lt : (m : Machine) (i : ℕ) → IsMachine m → register_value m i < 2 ^ 15
unfolding register_value
register_value_lt m i w = ground (arith, w.registers_lt i)

updated_lt : (f : ℕ → ℕ) (k v n : ℕ) → ((i : ℕ) → f i < n) → v < n → (i : ℕ) → updated f k v i < n
updated_lt f k v n h l i = ground (arith, h i)

pub set_register-IsMachine :
    (i v : ℕ) (m : Machine) → v < 2 ^ 15 → IsMachine m → IsMachine (set_register i v m)
unfolding set_register
set_register-IsMachine i v m l w =
    ground (arith, updated_lt m.registers i v (2 ^ 15) w.registers_lt l)

pub set_memory-IsMachine :
    (a v : ℕ) (m : Machine) → v < 2 ^ 48 → IsMachine m → IsMachine (set_memory a v m)
unfolding set_memory
set_memory-IsMachine a v m l w = omega (arith, updated_lt m.memory a v (2 ^ 48) w.memory_lt l)

pub select_alu_group-IsMachine :
    (g : ℕ) (m : Machine) → g ≤ 28 → IsMachine m → IsMachine (select_alu_group g m)
unfolding select_alu_group
select_alu_group-IsMachine g m l w = omega arith

pub set_accumulator-IsMachine :
    (v : ℕ) (m : Machine) → v < 2 ^ 48 → IsMachine m → IsMachine (set_accumulator v m)
unfolding set_accumulator
set_accumulator-IsMachine v m l w = omega arith

pub set_remainder-IsMachine :
    (v : ℕ) (m : Machine) → v < 2 ^ 48 → IsMachine m → IsMachine (set_remainder v m)
unfolding set_remainder
set_remainder-IsMachine v m l w = omega arith

pub set_mode-IsMachine : (v : ℕ) (m : Machine) → v < 64 → IsMachine m → IsMachine (set_mode v m)
unfolding set_mode
set_mode-IsMachine v m l w = omega arith

pub set_modifier-IsMachine :
    (v : ℕ) (m : Machine) → v < 2 ^ 15 → IsMachine m → IsMachine (set_modifier v m)
unfolding set_modifier
set_modifier-IsMachine v m l w = omega arith

pub branch-IsMachine : (v : ℕ) (m : Machine) → v < 2 ^ 15 → IsMachine m → IsMachine (branch v m)
unfolding branch
branch-IsMachine v m l w = omega arith

pub count_instruction-IsMachine : (m : Machine) → IsMachine m → IsMachine (count_instruction m)
unfolding count_instruction
count_instruction-IsMachine m w = omega arith

pub hardware_push_acc-IsMachine : (m : Machine) → IsMachine m → IsMachine (hardware_push_acc m)
unfolding hardware_push_acc
hardware_push_acc-IsMachine m w =
    let top = m.registers 15 in
    omega (
      arith,
      updated_lt m.memory top m.accumulator (2 ^ 48) w.memory_lt w.accumulator_lt,
      updated_lt m.registers 15 (address_add top (pos 1)) (2 ^ 15) w.registers_lt
          (address_add_lt top (pos 1)),
    )

pub hardware_pop_acc-IsMachine : (m : Machine) → IsMachine m → IsMachine (hardware_pop_acc m)
unfolding hardware_pop_acc
hardware_pop_acc-IsMachine m w =
    let top = address_add (m.registers 15) (negsuc 0) in
    omega (
      arith,
      w.memory_lt top,
      updated_lt m.registers 15 top (2 ^ 15) w.registers_lt
          (address_add_lt (m.registers 15) (negsuc 0)),
    )

pub shift_accumulator-IsMachine :
    (count : ℤ) (m : Machine) → IsMachine m → IsMachine (shift_accumulator count m)
unfolding shift_accumulator
shift_accumulator-IsMachine (pos zero) m w =
    select_alu_group-IsMachine 4 _ (omega arith) (omega arith)
shift_accumulator-IsMachine (pos (suc n)) m w =
    select_alu_group-IsMachine 4 _ (omega arith) (ground arith)
shift_accumulator-IsMachine (negsuc n) m w =
    select_alu_group-IsMachine 4 _ (omega arith) (ground arith)

-- The arithmetic unit.
pub clear_result-IsMachine : (m : Machine) → IsMachine m → IsMachine (clear_result m)
unfolding clear_result
clear_result-IsMachine m w = omega arith

exponent_bits_lt : (e : ℤ) → exponent_bits e < 128
unfolding exponent_bits
exponent_bits_lt (pos n) = omega arith
exponent_bits_lt (negsuc n) = omega arith

stored-IsMachine :
    (m : Machine) (e x l : ℕ)
    → e < 128
    → IsMachine m
    → IsMachine (record m { accumulator = e * 2 ^ 41 + x % 2 ^ 41; remainder = l % 2 ^ 40 })
stored-IsMachine m e x l b w = omega arith

store_result-Keeps : (x : Normal) (mantissa : ℕ) → Keeps (store_result x mantissa)
unfolding store_result
store_result-Keeps x mantissa =
    >>-Keeps _ _ (λ m. stored-IsMachine m _ mantissa x.low (exponent_bits_lt x.exponent))
      (λ m.
        if-Keeps (ltb_ℤ (pos 127) x.exponent && not (flag m.alu_mode 32))
          (fail "BESM-6 arithmetic overflow") (change (λ k. k)) (λ k v. v) (λ k v. v) m)

pack_result-Keeps : (x : Normal) (round : Bool) → Keeps (pack_result x round)
unfolding pack_result
pack_result-Keeps x round m w =
    if-Keeps _ (change clear_result) (store_result x _) clear_result-IsMachine
      (store_result-Keeps x _) m w

pack_or_clear-Keeps : (x : Option Normal) (round : Bool) → Keeps (pack_or_clear x round)
unfolding pack_or_clear
pack_or_clear-Keeps none round = clear_result-IsMachine
pack_or_clear-Keeps (some x) round = pack_result-Keeps x round

pub normalize_and_round-Keeps :
    (mantissa : ℕ) (exponent : ℤ) (low : ℕ) (round : Bool)
    → Keeps (normalize_and_round mantissa exponent low round)
unfolding normalize_and_round
normalize_and_round-Keeps mantissa exponent low round m = pack_or_clear-Keeps _ round m
