-- ===== src/Besm/Interpreter/Control.antt =====
-- The widths under the other operations.
use re_poplan.Prelude.{◌&◌, ℕ, ◌%◌, ◌^◌, ◌<◌, Bool, true, false, arith}
use re_poplan.Besm.{register_value, hardware_pop_acc}
use re_poplan.Besm.Decode.{Instruction}
use re_poplan.Besm.Alu.{◌>>◌, change, fail}
use re_poplan.Besm.Interpreter.{
  effective_address, is_stack, set_accumulator, set_remainder, branch, store_register_pop, jump_if,
  halt,
}
use re_poplan.Besm.Interpreter.Step.{
  raise_pointer, store_top, store_pop, push_load, jump_if_zero, count_up, add_register, finish,
  control_operations,
}
use re_poplan.Besm.Interpreter.Widths.{
  Keeps, >>-Keeps, if-Keeps, address_add_lt, register_value_lt, set_memory-IsMachine,
  set_remainder-IsMachine, count_instruction-IsMachine,
}
use re_poplan.Besm.Interpreter.Safe.{
  effective_address_lt, logical-Keeps, when-Keeps, with_operand-Keeps, accumulator-Keeps,
  register-Keeps, branch-Keeps, push-Keeps, pop-Keeps, modifier-Keeps, AllKeep,
}

raise_pointer-Keeps : Keeps raise_pointer
unfolding raise_pointer
raise_pointer-Keeps m = register-Keeps 15 _ (address_add_lt _ _) m

store_top-Keeps : (i : Instruction) → Keeps (store_top i)
unfolding store_top
store_top-Keeps i m w =
    when-Keeps (is_stack i) raise_pointer raise_pointer-Keeps _
      (set_memory-IsMachine (effective_address i m) m.accumulator m w.accumulator_lt w)

store_pop-Keeps : (i : Instruction) → Keeps (store_pop i)
unfolding store_pop
store_pop-Keeps i m w =
    >>-Keeps _ _ pop-Keeps logical-Keeps _
      (set_memory-IsMachine (effective_address i m) m.accumulator m w.accumulator_lt w)

push_load-Keeps : (i : Instruction) → Keeps (push_load i)
unfolding push_load
push_load-Keeps i = >>-Keeps _ _ push-Keeps (
    >>-Keeps _ _ (λ m w. accumulator-Keeps _ (w.memory_lt (effective_address i m)) m w)
      logical-Keeps)

read_register-Keeps :
    (i : Instruction)
    → Keeps (λ m. change (set_accumulator (register_value m (effective_address i m % 16))) m)
read_register-Keeps i m w =
    let b = register_value_lt m (effective_address i m % 16) w in
    accumulator-Keeps _ (omega arith) m w

store_register_pop-Keeps : (i : Instruction) → Keeps (store_register_pop i)
unfolding store_register_pop
store_register_pop-Keeps i m =
    >>-Keeps _ _
      (if-Keeps _ (λ n. change (set_accumulator (n.memory _)) n) (change hardware_pop_acc)
        (λ n v. accumulator-Keeps _ (v.memory_lt _) n v) pop-Keeps)
      (>>-Keeps _ _ (register-Keeps _ _ (omega arith)) logical-Keeps) m

jump_if-Keeps : (c : Bool) (i : Instruction) → Keeps (jump_if c i)
unfolding jump_if
jump_if-Keeps c i m w =
    let n = set_remainder m.accumulator m in
    when-Keeps _ (change (branch (effective_address i n)))
      (branch-Keeps _ (effective_address_lt i n)) n (set_remainder-IsMachine _ m w.accumulator_lt w)

pub halt-Keeps : Keeps halt
halt-Keeps m w = count_instruction-IsMachine m w

finish-Keeps : (i : Instruction) → Keeps (finish i)
unfolding finish
finish-Keeps i m =
    >>-Keeps _ _ (register-Keeps 14 _ (effective_address_lt i m))
      (>>-Keeps _ _ logical-Keeps
        (if-Keeps _ halt (fail "E74 nonzero exit operation is unsupported") halt-Keeps (λ k v. v)))
      m

-- The address of an instruction has 15 bits.
abbrev pub IsNarrow : Instruction → Type 0
IsNarrow i = i.address < 2 ^ 15

jump_if_zero-Keeps : (c : Bool) (i : Instruction) → IsNarrow i → Keeps (jump_if_zero c i)
unfolding jump_if_zero
jump_if_zero-Keeps c i l m = when-Keeps _ (change (branch i.address)) (branch-Keeps _ l) m

count_up-Keeps : (i : Instruction) → IsNarrow i → Keeps (count_up i)
unfolding count_up
count_up-Keeps i l m =
    when-Keeps _ (change _ >> change _)
      (>>-Keeps _ _ (register-Keeps _ _ (address_add_lt _ _)) (branch-Keeps _ l)) m

add_register-Keeps : (i : Instruction) → Keeps (add_register i)
unfolding add_register
add_register-Keeps i m = register-Keeps _ _ (address_add_lt _ _) m

pub control_operations-AllKeep :
    (next : ℕ) (i : Instruction) → next < 2 ^ 15 → IsNarrow i → AllKeep (control_operations next i)
unfolding control_operations
control_operations-AllKeep next i ln l =
    (store_top-Keeps i)
    & (store_pop-Keeps i)
    & (push_load-Keeps i)
    & (store_register_pop-Keeps i)
    & (>>-Keeps _ _ push-Keeps (>>-Keeps _ _ (read_register-Keeps i) logical-Keeps))
    & (λ m w. register-Keeps _ _ (register_value_lt m i.reg w) m w)
    & (add_register-Keeps i)
    & (finish-Keeps i)
    & (with_operand-Keeps i _ (λ x lx. modifier-Keeps _ (omega arith)))
    & (register-Keeps _ _ l)
    & (jump_if-Keeps false i)
    & (jump_if-Keeps true i)
    & (>>-Keeps _ _ (register-Keeps _ _ ln) (branch-Keeps _ l))
    & halt-Keeps
    & (jump_if_zero-Keeps true i l)
    & (jump_if_zero-Keeps false i l)
    & (jump_if_zero-Keeps true i l)
    & (count_up-Keeps i l)
    & tt
