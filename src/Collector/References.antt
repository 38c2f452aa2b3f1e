-- ===== src/Collector/References.antt =====
-- What a program, an environment, an object and a frame refer to, case by case.
pub mod Listed
pub mod Roots
use mathlib.Core.List.{Memᴰ}
use mathlib.Core.List.Memᴰ
use mathlib.Core.Path.{subst}
use re_poplan.Prelude.{
  ℕ, ◌≡◌, ◌⊎◌, ◌↔◌, inl, inr, refl, sym, Bool, true, false, List, [], ◌∷◌, ◌++◌, Option, none, some,
  reverse, Option-cases, ap,
}
use re_poplan.Value.{Value, nil}
use re_poplan.State.{
  Text, Token, Operation, Program, Object, ObjectKind, PrintTask, PrintState, Frame, Runtime,
}
use re_poplan.Store.{kind_eq}
use re_poplan.Collector.{
  Reader, InputContext, Item, each, values, program_items, shared_items, token_items,
  environment_items, source_items, slots, printer_items, frame_items, root_items, active_items,
  object_items,
}

-- The operands and the symbols of a program.
pub data ProgramRefers (p : Program) : Item → Type 0 where
  operand : {o : Operation} → Memᴰ o p.code → ProgramRefers p (Item.value (Operation.value o))
  name : {o : Operation} → Memᴰ o p.code → ProgramRefers p (Item.value (Operation.symbol o))
  symbol : {e : List ℕ × Value} → Memᴰ e p.symbols → ProgramRefers p (Item.value e.1)

-- The variables of an environment and their cells.
pub data VariableOf (env : List (ℕ × ℕ)) : Item → Type 0 where
  variable : {e : ℕ × ℕ} → Memᴰ e env → VariableOf env (Item.value (Value.object e.0))
  variable_cell : {e : ℕ × ℕ} → Memᴰ e env → VariableOf env (Item.cell e.1)

-- The members of the object at a handle, and the cell that it is bound to.
pub data Refers (s : Runtime) (h : ℕ) (o : Object) : Item → Type 0 where
  bound :
      {id : ℕ} → o.kind ≡ ObjectKind.identifier → s.active h ≡ some id → Refers s h o (Item.cell id)
  field : {v : Value} → Memᴰ v o.fields → Refers s h o (Item.value v)
  slot :
      {v : Value}
      → Memᴰ v (
          o.binding_record ∷ o.referent ∷ o.binding_reference ∷ o.source_forward ∷ o.property
          ∷ o.updater ∷ o.type ∷ [])
      → Refers s h o (Item.value v)
  program : {p : Program} {i : Item} → o.program ≡ some p → ProgramRefers p i → Refers s h o i
  environment : {i : Item} → VariableOf o.environment i → Refers s h o i

-- The members of a frame.
pub data FrameRefers (f : Frame) : Item → Type 0 where
  callable : FrameRefers f (Item.value f.function)
  task :
      {p : PrintState} {t : PrintTask}
      → f.printer ≡ some p
      → Memᴰ t p.tasks
      → FrameRefers f (Item.value t.item)
  visiting :
      {p : PrintState} {h : ℕ}
      → f.printer ≡ some p
      → Memᴰ h p.visiting
      → FrameRefers f (Item.value (Value.object h))
  callee : {v : Value} → Memᴰ v f.callees → FrameRefers f (Item.value v)
  code : {i : Item} → ProgramRefers f.program i → FrameRefers f i
  captured : {i : Item} → VariableOf f.environment i → FrameRefers f i
  saved : {i : Item} → VariableOf f.saved i → FrameRefers f i

-- The roots besides the stack: NIL, the reader, the words, the macros and the frames.
pub data Root (r : Reader) (s : Runtime) : Item → Type 0 where
  nil_root : Root r s (Item.value nil)
  input : {t : Token} {v : Value} → Memᴰ t r.input → t.value ≡ some v → Root r s (Item.value v)
  expansion :
      {t : Token} {v : Value}
      → Memᴰ t r.macro_expansion
      → t.value ≡ some v
      → Root r s (Item.value v)
  supplier : Root r s (Item.value s.source_supplier)
  empty_function : Root r s (Item.value s.empty_source_function)
  source_token :
      {c : InputContext} {t : Token} {v : Value}
      → Memᴰ c r.sources
      → Memᴰ t c.tokens
      → t.value ≡ some v
      → Root r s (Item.value v)
  source_value :
      {c : InputContext} {v : Value}
      → Memᴰ c r.sources
      → Memᴰ v (c.supplier ∷ c.proglist ∷ c.nextch ∷ [])
      → Root r s (Item.value v)
  compiled : {p : Program} {i : Item} → Memᴰ (some p) r.compiling → ProgramRefers p i → Root r s i
  word : {e : Text × Value} → Memᴰ e s.words → Root r s (Item.value e.1)
  macro : {e : Text × Value} → Memᴰ e s.macros → Root r s (Item.value e.1)
  frame : {f : Frame} {i : Item} → Memᴰ f s.frames → FrameRefers f i → Root r s i
