-- ===== src/Vm/Step.antt =====
-- The operations of the virtual machine, and a round of its loop (`Runtime::run` of
-- standalone/src/runtime.cpp). The members of the section are the parts that are not modelled.
use re_poplan.Prelude.{
  ℕ, suc, ◌-◌, ◌%◌, Bool, true, false, not, ◌&&◌, List, [], ◌∷◌, Option, none, some, ◌==◌, leb,
  if◌then◌else◌, get_elem?, length,
}
use re_poplan.Prelude.Int.{ℤ, pos, ltb_ℤ}
use re_poplan.Value.{Value, is_object, truth, Result, ok, err, need_input, need_list, bytes}
use re_poplan.Numbers.{Floats, real, equal, compare, arithmetic, Operator}
use re_poplan.State.{
  Text, Object, Loop, Operation, OperationKind, PrintState, Exec, ◌>>=◌, ◌>>◌, pure, done, raise,
  throw, lift, gets, modify, at, lookup_text,
}
use re_poplan.Store.{object, modify_object}
use re_poplan.Bindings.{pop, push, binding, bind, assign, cell, function, cancel_word, primitive}
use re_poplan.Calls.{call, schedule, leave, force_list}
use re_poplan.Primitives.{is_zero}
use re_poplan.Vm.{
  top_frame, modify_top, jump_to, set_macro, put_back, drop_callee, begin_list, end_list,
  print_stack, output_text,
}

-- The operation `store`: the macro of the same name follows its variable.
unfoldable pub is_macro_variable : Floats → Text → Value → Exec Bool
unfolding lookup_text object
is_macro_variable F name symbol = do
  has_macro ← gets (λ s. lookup_text name s.macros)
  has_word ← gets (λ s. lookup_text name s.words)
  elim has_macro [
    | none ↦ pure false
    | some _ ↦ elim has_word [
      | none ↦ pure false
      | some w ↦ do o ← object w; pure (equal F o.binding_record symbol)
    ]
  ]

unfoldable pub top_loop : Exec Loop
unfolding top_frame
top_loop = do f ← top_frame; elim f.loops [ [] ↦ throw "missing loop context" | l ∷ ls ↦ pure l ]

abbrev rest_of_loops : List Loop → List Loop
rest_of_loops [] = []
rest_of_loops (l ∷ ls) = ls

-- The operation `closure`
unfoldable pub make_closure : Value → Exec (Unit {0})
make_closure value = do
  o ← object value
  p ← at o.program
  v ← function p
  f ← top_frame
  modify_object v (λ c. record c { environment = f.environment })
  source ← object value
  modify_object v (λ c. record c { is_macro = source.is_macro })
  push v

module _ (F : Floats) (invoke : Value → Object → Bool → Exec (Unit {0})) (next_print : Exec Text)
    (collect : Exec (Unit {0})) where
  -- The operation `for_setup`
  unfoldable pub for_setup : Value → Exec (Unit {0})
  unfolding pop bind modify_top
  for_setup symbol = do
    limit ← pop
    step ← pop
    start ← pop
    _ ← lift (real F limit)
    _ ← lift (real F start)
    c ← lift (compare F step (Value.integer (pos 0)))
    if is_zero c then throw "zero loop increment" else do
      bind symbol start
      modify_top (λ f. record f {
        loops = record { symbol = symbol; step = step; limit = limit } ∷ f.loops;
      })

  -- Whether n is past the limit of a loop.
  unfoldable pub is_past : Loop → Value → Result Bool
  is_past l n = past (real F l.step) (compare F n l.limit)
    where
      past : Result ℕ → Result ℤ → Result Bool
      past (err e) c = err e
      past (ok d) (err e) = err e
      past (ok d) (ok c) =
          ok (if Floats.lt F (Floats.zero_real F) d then ltb_ℤ (pos 0) c else ltb_ℤ c (pos 0))

  -- The operation `for_test`
  unfoldable pub for_test : ℕ → Exec (Unit {0})
  for_test target = do
    l ← top_loop
    n ← binding l.symbol
    ended ← lift (is_past l n)
    if ended
        then modify_top (λ f. record f { pc = target; loops = rest_of_loops f.loops })
        else done

  -- The operation `for_next`
  unfoldable pub for_next : ℕ → Exec (Unit {0})
  for_next target = do
    l ← top_loop
    before ← binding l.symbol
    after ← lift (arithmetic F Operator.add before l.step)
    c ← lift (compare F before after)
    if is_zero c
        then throw "loop increment makes no progress"
        else do bind l.symbol after; jump_to target

  -- The operation `print_step`
  unfoldable pub print_step : Exec (Unit {0})
  unfolding top_frame
  print_step = do
    text ← next_print
    f ← top_frame
    more ← pure (unfinished f.printer)
    if more then modify_top (λ g. record g { pc = g.pc - 1 }) else done
    written text
    where
      unfinished : Option PrintState → Bool
      unfinished none = false
      unfinished (some p) = elim p.tasks [ [] ↦ false | t ∷ ts ↦ true ]

      written : Text → Exec (Unit {0})
      written [] = done
      written text = output_text text

  -- The switch of `run`
  unfoldable pub perform : OperationKind → Operation → Exec (Unit {0})
  perform OperationKind.push op = push op.value
  perform OperationKind.load op = do v ← binding op.symbol; push v
  perform OperationKind.store op = do
    v ← pop
    assign op.symbol v
    follows ← is_macro_variable F op.name op.symbol
    if follows then (do b ← binding op.symbol; set_macro op.name b) else done
  perform OperationKind.call op = do v ← binding op.symbol; call invoke v false
  perform OperationKind.call_value op = do
    callee ← pop
    λ s. let (r, t) = call invoke callee (not (op.target == 0)) s in put_back callee r t
  perform OperationKind.save_callable op = do
    v ← pop
    modify_top (λ f. record f { callees = v ∷ f.callees })
  perform OperationKind.call_saved op = do
    f ← top_frame
    index ← gets (λ s. length s.frames - 1)
    elim f.callees [
      | [] ↦ throw "missing computed function"
      | callee ∷ callees ↦ do call invoke callee false; drop_callee index
    ]
  perform OperationKind.update op = do v ← binding op.symbol; call invoke v true
  perform OperationKind.jump op = jump_to op.target
  perform OperationKind.branch_false op = do v ← pop; if truth v then done else jump_to op.target
  perform OperationKind.branch_true op = do v ← pop; if truth v then jump_to op.target else done
  perform OperationKind.closure op = make_closure op.value
  perform OperationKind.define op = do
    v ← pop
    assign op.symbol v
    if op.target == 0 then done else set_macro op.name v
  perform OperationKind.ret op = modify_top (λ f. record f { pc = length f.program.code })
  perform OperationKind.print op = do f ← top_frame; print_stack f.program.is_function
  perform OperationKind.print_step op = print_step
  perform OperationKind.begin_list op = begin_list
  perform OperationKind.end_list op = end_list
  perform OperationKind.partial op = throw "invalid partial operation"
  perform OperationKind.label op = done
  perform OperationKind.go op = throw "unresolved label"
  perform OperationKind.cancel op = cancel_word op.symbol
  perform OperationKind.declare op = do
    _ ← cell op.symbol
    if op.target == 0 then done else (do b ← binding op.symbol; set_macro op.name b)
  perform OperationKind.for_setup op = for_setup op.symbol
  perform OperationKind.for_test op = for_test op.target
  perform OperationKind.for_next op = for_next op.target

  -- The operation under `pc`, counted, or the end of the activation.
  unfoldable pub round : Exec (Unit {0})
  round = do
    s ← gets (λ s. s)
    if not (s.operations == 0) && s.operations % 4096 == 0 then collect else done
    f ← top_frame
    elim (get_elem? f.program.code f.pc) [
      | none ↦ leave f
      | some op ↦ do
        modify_top (λ g. record g { pc = suc g.pc })
        if not (s.max_operations == 0) && leb s.max_operations s.operations
            then throw "operation limit exceeded"
            else (do modify (λ t. record t { operations = suc t.operations }); perform op.kind op)
    ]

  -- The handlers of `NeedList` and `NeedInput`: the operation is to run again.
  unfoldable pub handle_need : Result (Unit {0}) → Exec (Unit {0})
  handle_need (err (need_list v)) = do modify_top (λ f. record f { pc = f.pc - 1 }); force_list v
  handle_need (err need_input) = do
    modify (λ s. record s { operations = s.operations - 1 })
    modify_top (λ f. record f { pc = f.pc - 1 })
    supplier ← gets (λ s. s.source_supplier)
    if is_object supplier
        then (do
          feed ← primitive (bytes "@FEED")
          schedule feed [] false
          schedule supplier [] false)
        else raise need_input
  handle_need (err e) = raise e
  handle_need (ok u) = done

  unfoldable pub step : Exec (Unit {0})
  step s = let (r, t) = round s in handle_need r t
