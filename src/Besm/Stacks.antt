-- ===== src/Besm/Stacks.antt =====
-- The two stacks of the machine.
use re_poplan.Prelude.{ℕ, ◌<◌, ◌^◌, ◌≡◌, arith, ◌==◌, if◌then◌else◌}
use re_poplan.Prelude.Int.{pos, negsuc}
use re_poplan.Besm.{
  Machine, address_add, hardware_push_acc, hardware_pop_acc, value_stack_push, value_stack_pop,
}

up_down : (a : ℕ) → a < 2 ^ 15 → address_add (address_add a (pos 1)) (negsuc 0) ≡ a
unfolding address_add
up_down a l = omega arith

down_up : (a : ℕ) → a < 2 ^ 15 → address_add (address_add a (negsuc 0)) (pos 1) ≡ a
unfolding address_add
down_up a l = omega arith

address_add_zero :
    (a : ℕ) (n : ℕ) → address_add (address_add a (negsuc n)) (pos 0) ≡ address_add a (negsuc n)
unfolding address_add
address_add_zero a n = omega arith

-- With a pointer of 15 bits, popping the hardware stack after a push leaves the accumulator and
-- every register as they were; memory changes at the pointer alone, which holds the accumulator.
pub hardware_pop_acc-hardware_push_acc :
    (m : Machine) (j : ℕ)
    → m.registers 15 < 2 ^ 15
    → let n = hardware_pop_acc (hardware_push_acc m) in
      (n.accumulator ≡ m.accumulator)
      × (n.registers j ≡ m.registers j)
      × (n.memory j ≡ (if m.registers 15 == j then m.accumulator else m.memory j))
unfolding hardware_push_acc hardware_pop_acc
hardware_pop_acc-hardware_push_acc m j l = let e = up_down (m.registers 15) l in ground arith

-- With a pointer of 15 bits, popping the value stack after a push returns the value that was
-- pushed, and leaves every register and the accumulator as they were before the push.
pub value_stack_pop-value_stack_push :
    (v : ℕ) (m : Machine) (j : ℕ)
    → m.registers 6 < 2 ^ 15
    → let (w, n) = value_stack_pop (value_stack_push v m) in
      (w ≡ v) × (n.registers j ≡ m.registers j) × (n.accumulator ≡ m.accumulator)
unfolding value_stack_push value_stack_pop
value_stack_pop-value_stack_push v m j l =
    let e = down_up (m.registers 6) l in let z = address_add_zero (m.registers 6) 0 in ground arith
