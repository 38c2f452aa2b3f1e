-- ===== src/Tests/Activation.antt =====
-- The call and the return of a function with an argument and a result.
use re_poplan.Prelude.{◌≡◌, refl, true, [], ◌∷◌, none, some, ◌==◌, if◌then◌else◌, ◌||◌}
use re_poplan.Prelude.Int.{pos}
use re_poplan.Value.{Value}
use re_poplan.State.{
  Object, ObjectKind, new_object, Runtime, Program, Text, Frame, plain_frame, lookup_text,
}
use re_poplan.Bindings.{symbol_cell, new_cell, pop, push, binding, cell, identifier}
use re_poplan.Calls.{
  enter, activate, install, install_all, add_locals, add_arguments, add_variable, put,
  push_activation, leave, push_results,
}
use re_poplan.Store.{object}
use re_poplan.Tests.Heap.{small}

-- FUNCTION F X => X; END, where X, the identifier 3, has the cell 10. As a result X gets the cell 20,
-- and as an argument, after that, the cell 21. The closure captured the cell 12 of the identifier 5, which
-- has the cell 11 when it is called.
abbrev x_name : Text
x_name = 88 ∷ []

abbrev pub program : Program
program = record {
  code = [];
  args = x_name ∷ [];
  locals = [];
  results = x_name ∷ [];
  symbols = (x_name, Value.object 3) ∷ [];
  is_function = true;
}

abbrev function_object : Object
function_object = record (new_object ObjectKind.function) {
  program = some program;
  environment = (5, 12) ∷ [];
}

abbrev before : Runtime
before = record small {
  objects =
      λ h. if 3 == h || 5 == h then some (new_object ObjectKind.identifier) else small.objects h;
  cells = λ c. if 10 == c then some (Value.integer (pos 1)) else none;
  active = λ h. if 3 == h then some 10 else if 5 == h then some 11 else none;
  stack = Value.integer (pos 7) ∷ [];
  next = 20;
}

abbrev called : Runtime
called = (enter (Value.object 4) function_object program before).1

abbrev frame : Frame
frame = record (plain_frame program) {
  function = Value.object 4;
  environment = (3, 21) ∷ (5, 12) ∷ [];
  saved = (5, 11) ∷ (3, 10) ∷ (3, 20) ∷ [];
}

abbrev returned : Runtime
returned = (leave frame called).1

-- The result is the argument's value.
result_pushed : returned.stack ≡ Value.integer (pos 7) ∷ []
unfolding enter activate install_all add_locals add_arguments add_variable pop new_cell install cell
    identifier symbol_cell object lookup_text push_activation leave push_results binding push
result_pushed = refl

closure_bound : called.active 5 ≡ some 12
unfolding enter activate install_all add_locals add_arguments add_variable pop new_cell install cell
    identifier symbol_cell object lookup_text push_activation put
closure_bound = refl
