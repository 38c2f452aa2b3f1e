-- ===== src/Besm/Interpreter/Safe.antt =====
-- The widths under the effects that the operations are made of, and under a switch.
use re_poplan.Prelude.{
  ℕ, ◌^◌, ◌<◌, ◌≤◌, Bool, List, [], ◌∷◌, ◌++◌, ◌==◌, if◌then◌else◌, arith, Bool-cases, inl, inr,
}
use re_poplan.Prelude.Int.{ℤ, negsuc}
use re_poplan.Besm.{Machine, address_add, set_register, hardware_push_acc, hardware_pop_acc}
use re_poplan.Besm.Decode.{Instruction}
use re_poplan.Besm.Shift.{shift_accumulator}
use re_poplan.Besm.Alu.{Effect, change}
use re_poplan.Besm.Interpreter.{
  running, effective_address, is_stack, with_operand, set_accumulator, set_remainder, set_mode,
  set_modifier, branch, logical, combine, switch, when,
}
use re_poplan.Besm.Interpreter.Widths.{
  IsMachine, Keeps, >>-Keeps, if-Keeps, address_add_lt, set_register-IsMachine,
  set_accumulator-IsMachine, set_remainder-IsMachine, set_mode-IsMachine, set_modifier-IsMachine,
  branch-IsMachine, hardware_push_acc-IsMachine, hardware_pop_acc-IsMachine,
  shift_accumulator-IsMachine,
}
use re_poplan.Besm.Interpreter.Arithmetic.{select-Keeps}

pub effective_address_lt : (i : Instruction) (m : Machine) → effective_address i m < 2 ^ 15
unfolding effective_address
effective_address_lt i m = address_add_lt _ _

pub logical-Keeps : Keeps logical
logical-Keeps = select-Keeps 4 (omega arith)

pub when-Keeps : (c : Bool) (e : Effect) → Keeps e → Keeps (when c e)
when-Keeps c e k = if-Keeps c e running k (λ m w. w)

pub with_operand-Keeps :
    (i : Instruction) (f : ℕ → Effect)
    → ((x : ℕ) → x < 2 ^ 48 → Keeps (f x))
    → Keeps (with_operand i f)
unfolding with_operand
with_operand-Keeps i f k m w = let n = popped i m w in k _ (n.memory_lt _) _ n
  where
    popped :
        (i : Instruction) (m : Machine)
        → IsMachine m
        → IsMachine
            (if is_stack i then set_register 15 (address_add (m.registers 15) (negsuc 0)) m else m)
    popped i m w = elim (Bool-cases (is_stack i)) [
      | inl y ↦ rw y (set_register-IsMachine 15 _ m (address_add_lt _ _) w)
      | inr n ↦ rw n w
    ]

pub accumulator-Keeps : (x : ℕ) → x < 2 ^ 48 → Keeps (change (set_accumulator x))
accumulator-Keeps x l m w = set_accumulator-IsMachine x m l w

pub remainder-Keeps : (x : ℕ) → x < 2 ^ 48 → Keeps (change (set_remainder x))
remainder-Keeps x l m w = set_remainder-IsMachine x m l w

pub register-Keeps : (i x : ℕ) → x < 2 ^ 15 → Keeps (change (set_register i x))
register-Keeps i x l m w = set_register-IsMachine i x m l w

pub branch-Keeps : (x : ℕ) → x < 2 ^ 15 → Keeps (change (branch x))
branch-Keeps x l m w = branch-IsMachine x m l w

pub push-Keeps : Keeps (change hardware_push_acc)
push-Keeps m w = hardware_push_acc-IsMachine m w

pub pop-Keeps : Keeps (change hardware_pop_acc)
pop-Keeps m w = hardware_pop_acc-IsMachine m w

pub shift-Keeps : (c : ℤ) → Keeps (change (shift_accumulator c))
shift-Keeps c m w = shift_accumulator-IsMachine c m w

pub mode-Keeps : (x : ℕ) → x < 64 → Keeps (change (set_mode x))
mode-Keeps x l m w = set_mode-IsMachine x m l w

pub modifier-Keeps : (x : ℕ) → x < 2 ^ 15 → Keeps (change (set_modifier x))
modifier-Keeps x l m w = set_modifier-IsMachine x m l w

pub combine-Keeps :
    (f : ℕ → ℕ → ℕ) (g : ℕ) (i : Instruction)
    → g ≤ 28
    → ((a x : ℕ) → f a x < 2 ^ 48)
    → Keeps (combine f g i)
unfolding combine
combine-Keeps f g i l b = with_operand-Keeps i _ (λ x lx m w.
    >>-Keeps _ _ (accumulator-Keeps (f m.accumulator x) (b m.accumulator x))
      (>>-Keeps _ _ (remainder-Keeps 0 (omega arith)) (select-Keeps g l)) m w)

-- The entries of a switch.
abbrev pub AllKeep : List (ℕ × Effect) → Type 0
AllKeep [] = Unit
AllKeep ((k, e) ∷ cases) = Keeps e × AllKeep cases

pub switch-Keeps :
    (code : ℕ) (cases : List (ℕ × Effect)) (other : Effect)
    → AllKeep cases
    → Keeps other
    → Keeps (switch code cases other)
unfolding switch
switch-Keeps code [] other a k = k
switch-Keeps code ((c, e) ∷ cases) other (ke, a) k =
    if-Keeps (code == c) e (switch code cases other) ke (switch-Keeps code cases other a k)

pub append-AllKeep : (a b : List (ℕ × Effect)) → AllKeep a → AllKeep b → AllKeep (a ++ b)
append-AllKeep [] b ka kb = kb
append-AllKeep ((c, e) ∷ a) b (ke, ka) kb = (ke, append-AllKeep a b ka kb)
