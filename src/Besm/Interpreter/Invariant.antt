-- ===== src/Besm/Interpreter/Invariant.antt =====
-- The widths under the extracodes and a whole step of the interpreter.
use re_poplan.Prelude.{◌&◌, ℕ, ◌^◌, ◌<◌, List, [], ◌∷◌, ◌==◌, leb, arith}
use re_poplan.Prelude.Int.{pos}
use re_poplan.Besm.{Machine, set_memory}
use re_poplan.Besm.Decode.{Instruction}
use re_poplan.Besm.Alu.{Status, Effect, change, fail}
use re_poplan.Besm.Interpreter.{
  running, set_accumulator, branch, Host, when, perform_extracode, extracode, restore_control,
  restore_if_waiting, control_of, continue_at,
}
use re_poplan.Besm.Interpreter.Step.{
  alu_operations, address_operations, on_address, control_operations, extracodes, each, unsupported,
  execute, fetched, instruction_at, step,
}
use re_poplan.Besm.Interpreter.Widths.{
  IsMachine, Keeps, >>-Keeps, if-Keeps, address_add_lt, set_memory-IsMachine,
  count_instruction-IsMachine,
}
use re_poplan.Besm.Interpreter.Safe.{
  effective_address_lt, logical-Keeps, when-Keeps, accumulator-Keeps, register-Keeps, branch-Keeps,
  AllKeep, switch-Keeps, append-AllKeep,
}
use re_poplan.Besm.Interpreter.Operations.{
  alu_operations-AllKeep, on_address-AllKeep, address_operations-AllKeepAt,
}
use re_poplan.Besm.Interpreter.Control.{control_operations-AllKeep, IsNarrow}

-- What is asked of the extracodes that are not modelled: they keep the widths.
pub record KeepsWidths (H : Host) : Type 0 where
  pub elementary : (a : ℕ) → Keeps (Host.elementary_function H a)
  pub disk : (a : ℕ) → Keeps (Host.emulate_e70 H a)
  pub terminal : (a : ℕ) → Keeps (Host.emulate_e71 H a)

continue_at-Keeps : (a : ℕ) → Keeps (continue_at a)
unfolding continue_at
continue_at-Keeps a m =
    if-Keeps _ (fail "E67 control word has no continuation") (change (branch _)) (λ n v. v)
      (branch-Keeps _ (omega arith)) m

extracode-Keeps : (H : Host) (code a : ℕ) → KeepsWidths H → Keeps (extracode H code a)
unfolding extracode
extracode-Keeps H code a k =
    switch-Keeps code _ running
      ((if-Keeps (leb a 6) (Host.elementary_function H a)
          (when (a == 128) (change (set_accumulator 0))) (k.elementary a)
          (when-Keeps (a == 128) (change (set_accumulator 0)) (accumulator-Keeps 0 (omega arith))))
        & (when-Keeps _ (change (set_accumulator _)) (accumulator-Keeps _ (omega arith)))
        & (when-Keeps _ (change (set_accumulator _)) (accumulator-Keeps _ (omega arith)))
        & (k.terminal a)
        & (k.disk a)
        & (continue_at-Keeps a)
        & (when-Keeps _ (λ m. change (set_memory a m.accumulator) m)
            (λ m w. set_memory-IsMachine a m.accumulator m w.accumulator_lt w))
        & tt)
      (λ m w. w)

control_of-IsMachine : (b m : Machine) → IsMachine b → IsMachine m → IsMachine (control_of b m)
unfolding control_of
control_of-IsMachine b m v w = omega arith

restore_if_waiting-Keeps :
    (b : Machine) (s : Status) (m : Machine)
    → IsMachine b
    → IsMachine m
    → IsMachine (restore_if_waiting b s m).1
unfolding restore_if_waiting
restore_if_waiting-Keeps b Status.running m v w = w
restore_if_waiting-Keeps b Status.halted m v w = w
restore_if_waiting-Keeps b Status.input_required m v w = control_of-IsMachine b m v w
restore_if_waiting-Keeps b (Status.failed t) m v w = w

restore_control-Keeps :
    (b : Machine) (e : Effect) → IsMachine b → Keeps e → Keeps (restore_control b e)
unfolding restore_control
restore_control-Keeps b e v k m w = restore_if_waiting-Keeps b _ _ v (k m w)

perform_extracode-Keeps :
    (H : Host) (b : Machine) (i : Instruction)
    → KeepsWidths H
    → IsMachine b
    → Keeps (perform_extracode H b i)
unfolding perform_extracode
perform_extracode-Keeps H b i k v m =
    let a = effective_address_lt i m in
    >>-Keeps _ _
      (restore_control-Keeps b _ v
        (>>-Keeps _ _ (register-Keeps 14 _ a) (extracode-Keeps H i.opcode _ k)))
      logical-Keeps m

each-AllKeep : (codes : List ℕ) (e : Effect) → Keeps e → AllKeep (each codes e)
unfolding each
each-AllKeep [] e k = tt
each-AllKeep (c ∷ codes) e k = (k, each-AllKeep codes e k)

unsupported-Keeps : (pc code : ℕ) → Keeps (unsupported pc code)
unfolding unsupported
unsupported-Keeps pc code m w = w

execute-Keeps :
    (H : Host) (b : Machine) (next : ℕ) (i : Instruction)
    → KeepsWidths H
    → IsMachine b
    → next < 2 ^ 15
    → IsNarrow i
    → Keeps (execute H b next i)
unfolding execute
execute-Keeps H b next i k v ln l =
    switch-Keeps i.opcode _ (unsupported b.program_counter i.opcode)
      (append-AllKeep (alu_operations i) _ (alu_operations-AllKeep i) (
        append-AllKeep (on_address i (address_operations i)) _
          (on_address-AllKeep i _ (address_operations-AllKeepAt i))
          (append-AllKeep (control_operations next i) _ (control_operations-AllKeep next i ln l) (
            each-AllKeep extracodes (perform_extracode H b i)
              (perform_extracode-Keeps H b i k v)))))
      (unsupported-Keeps b.program_counter i.opcode)

fetched-IsMachine : (m : Machine) → IsMachine m → IsMachine (fetched m)
unfolding fetched
fetched-IsMachine m w = let l = address_add_lt m.program_counter (pos 1) in ground arith

-- If the elementary functions and the extracodes of the disk and the terminal keep words in 48
-- bits, addresses and registers in 15 and the mode in 6, then so does a step, with whatever
-- instruction, and however it ends: running, halted, waiting for input or with an error.
pub step-IsMachine : (H : Host) (m : Machine) → KeepsWidths H → IsMachine m → IsMachine (step H m).1
unfolding step instruction_at
step-IsMachine H m k w =
    >>-Keeps _ _ (execute-Keeps H m _ _ k w (address_add_lt _ _) (address_add_lt _ _))
      (λ n v. count_instruction-IsMachine n v) _ (fetched-IsMachine m w)
