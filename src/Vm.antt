-- ===== src/Vm.antt =====
-- The virtual machine: one round of the loop of `Runtime::run` (standalone/src/runtime.cpp).
-- `invoke`, which runs a function that is not a user's, `next_print`, which advances the printer of the
-- frame on top, and `collect`, the garbage collector, are parameters, and so are the host's doubles.
-- A fault ends the round; what `run` does with it is not modelled.
pub mod Step
pub mod Brackets
use re_poplan.Prelude.{
  ℕ, zero, suc, ◌+◌, ◌-◌, ◌%◌, Bool, true, false, not, ◌&&◌, ◌||◌, List, [], ◌∷◌, ◌++◌, reverse,
  map, Option, none, some, ◌==◌, leb, ltb, if◌then◌else◌, get_elem?, set, take, drop, length,
}
use re_poplan.Prelude.Int.{ℤ, pos, negsuc, ltb_ℤ}
use re_poplan.Value.{
  Value, is_object, truth, Result, ok, err, Exception, need_input, need_list, bytes,
}
use re_poplan.Numbers.{Floats, real, equal, compare, arithmetic, Operator}
use re_poplan.Utf8.{decode}
use re_poplan.State.{
  Text, Object, FunctionKind, Runtime, Frame, Loop, Operation, OperationKind, Program, PrintKind,
  PrintTask, PrintState, plain_frame, Exec, ◌>>=◌, ◌>>◌, pure, done, raise, throw, lift, gets,
  modify, at, lookup_text, text_eq, Location,
}
use re_poplan.Store.{object, modify_object, list}
use re_poplan.Bindings.{
  pop, push, binding, bind, assign, cell, function, cancel_word, primitive, identifier_of,
  erase_text,
}
use re_poplan.Calls.{
  call, schedule, push_frame, leave, force_list, plain_operation, plain_program, function_kind_eq,
}

-- `auto &f = frames.back()`, and assignments to its members.
unfoldable pub top_frame : Exec Frame
top_frame s = at (get_elem? s.frames 0) s

abbrev pub map_top : (Frame → Frame) → List Frame → List Frame
map_top g [] = []
map_top g (f ∷ fs) = g f ∷ fs

unfoldable pub modify_top : (Frame → Frame) → Exec (Unit {0})
modify_top g = modify (λ s. record s { frames = map_top g s.frames })

unfoldable pub jump_to : ℕ → Exec (Unit {0})
jump_to n = modify_top (λ f. record f { pc = n })

-- `macros[name] = v`
unfoldable pub set_macro : Text → Value → Exec (Unit {0})
set_macro name v = modify (λ s. record s { macros = (name, v) ∷ erase_text name s.macros })

-- Catches a `NeedInput`, puts v back on the stack, and throws it again.
unfoldable pub put_back : Value → Result (Unit {0}) → Exec (Unit {0})
put_back v (err need_input) = do push v; raise need_input
put_back v (err e) = raise e
put_back v (ok u) = done

-- `frames.at(index).callees.pop_back()`, where the index counts from the bottom.
abbrev without_first {ℓ} : {A : Type ℓ} → List A → List A
without_first [] = []
without_first (x ∷ xs) = xs

unfoldable pub drop_callee : ℕ → Exec (Unit {0})
drop_callee index = do
  place ← gets (λ s. length s.frames - suc index)
  f ← (λ s. at (get_elem? s.frames place) s)
  modify (λ s. record s {
    frames = set s.frames place (record f { callees = without_first f.callees });
  })

-- The values above the marker n of a stack, in the order of the pushes, and the stack below it.
unfoldable pub above_mark : ℕ → List Value → List Value
above_mark n stack = reverse (take (length stack - n) stack)

unfoldable pub below_mark : ℕ → List Value → List Value
below_mark n stack = drop (length stack - n) stack

unfoldable pub begin_list : Exec (Unit {0})
unfolding modify_top
begin_list = do
  n ← gets (λ s. length s.stack)
  modify_top (λ f. record f { list_bases = n ∷ f.list_bases })

-- The last part of `end_list`, for the marker n.
unfoldable pub collect_list : ℕ → Exec (Unit {0})
unfolding above_mark below_mark
collect_list n = do
  stack ← gets (λ s. s.stack)
  if ltb (length stack) n then throw "list construction consumed preceding values" else do
    modify (λ s. record s { stack = below_mark n s.stack })
    v ← list (above_mark n stack)
    push v

unfoldable pub end_list : Exec (Unit {0})
unfolding top_frame modify_top
end_list = do
  f ← top_frame
  elim f.list_bases [
    | [] ↦ throw "missing list construction marker"
    | n ∷ bases ↦ do modify_top (λ g. record g { list_bases = bases }); collect_list n
  ]

abbrev text_task : Text → PrintTask
text_task t = record {
  kind = PrintKind.text;
  item = Value.undefined;
  text = t;
  index = 0;
  limit = 0;
}

abbrev value_task : Value → PrintTask
value_task v = record { kind = PrintKind.value; item = v; text = []; index = 0; limit = 0 }

-- The tasks that print values, of which the first is the top of the stack and is printed last.
unfoldable pub print_tasks : List Value → List PrintTask → List PrintTask
print_tasks [] tasks = tasks
print_tasks (v ∷ []) tasks = text_task (bytes " ") ∷ value_task v ∷ tasks
print_tasks (v ∷ w ∷ vs) tasks =
    print_tasks (w ∷ vs) (text_task (bytes ", ") ∷ value_task v ∷ tasks)

-- start_print(state)
unfoldable pub start_print : PrintState → Exec (Unit {0})
unfolding push_frame
start_print state =
    push_frame
      (record (plain_frame
        (plain_program (plain_operation OperationKind.print_step Value.undefined 0 ∷ []))) {
          printer = some state;
        })

-- A print arrow prints the top of the stack in a function, and all of it outside.
abbrev shown : Bool → List Value → List Value
shown true (v ∷ vs) = v ∷ []
shown _ vs = vs

abbrev not_shown : Bool → List Value → List Value
not_shown true (v ∷ vs) = vs
not_shown _ vs = []

unfoldable pub print_stack : Bool → Exec (Unit {0})
unfolding print_tasks
print_stack in_function = do
  stack ← gets (λ s. s.stack)
  modify (λ s. record s { stack = not_shown in_function s.stack })
  start_print (record {
    tasks =
        text_task (bytes "**") ∷ print_tasks (shown in_function stack) (text_task (10 ∷ []) ∷ []);
    visiting = [];
    raw = false;
  })

-- The program of `output_text` that hands each character to the consumer.
unfoldable pub output_code : Value → List ℕ → List Operation
output_code symbol [] = []
output_code symbol (c ∷ cs) =
    plain_operation OperationKind.push (Value.integer (pos c)) 0
    ∷ record (plain_operation OperationKind.load Value.undefined 0) {
      name = bytes "CUCHOU";
      symbol = symbol;
    }
    ∷ plain_operation OperationKind.call_value Value.undefined 0
    ∷ output_code symbol cs

-- output_text(text)
unfoldable pub output_text : Text → Exec (Unit {0})
unfolding output_code
output_text text = do
  name ← identifier_of (bytes "CUCHOUT")
  consumer ← binding name
  o ← object consumer
  if function_kind_eq o.function_kind FunctionKind.primitive && text_eq o.text (bytes "CUCHOU")
      then modify (λ s. record s { out = text ∷ s.out })
      else (do
        symbol ← identifier_of (bytes "CUCHOUT")
        chars ← lift (decode text)
        push_frame (plain_frame (plain_program (output_code symbol chars))))
