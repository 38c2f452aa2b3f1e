-- ===== src/Collector.antt =====
-- The garbage collector, `Runtime::collect` of standalone/src/runtime.cpp: marks what the roots reach,
-- then erases the rest. A program is marked wherever it is met, where the source remembers the ones it
-- met; that changes how often a value is pending, not which values are.
pub mod References
pub mod Reach
pub mod Marks
pub mod Loop
pub mod Kept
pub mod Closed
use re_poplan.Prelude.{
  ℕ, zero, suc, Bool, true, false, List, [], ◌∷◌, ◌++◌, map, reverse, Option, none, some, ◌==◌,
  if◌then◌else◌,
}
use re_poplan.Value.{Value, Result, ok, err, nil, out_of_range, fault, bytes, ◌>>=◌}
use re_poplan.State.{
  Text, Token, Operation, Program, Object, PrintTask, PrintState, Frame, Runtime, Exec, raise, pure,
  ObjectKind,
}
use re_poplan.Store.{kind_eq}

-- The members of Runtime that only the reader and the collector use; a program that is being compiled is
-- `none` once its compiler has dropped it.
pub record InputContext : Type 0 where
  pub tokens : List Token
  pub supplier : Value
  pub proglist : Value
  pub nextch : Value

pub record Reader : Type 0 where
  pub input : List Token
  pub macro_expansion : List Token
  pub sources : List InputContext
  pub compiling : List (Option Program)

-- What there is to mark: a value, which is put on the pending ones, or a cell.
pub data Item : Type 0 where
  value : Value → Item
  cell : ℕ → Item

-- The items that a list of anything has, in its order.
abbrev pub each {ℓ} : {A : Type ℓ} → (A → List Item) → List A → List Item
each f [] = []
each f (a ∷ rest) = f a ++ each f rest

-- Lists one after the other.
abbrev pub joined : List (List Item) → List Item
joined [] = []
joined (items ∷ rest) = items ++ joined rest

abbrev pub value_item : Value → List Item
value_item v = value v ∷ []

abbrev pub values : List Value → List Item
values = each value_item

abbrev pub operation_items : Operation → List Item
operation_items o = value o.value ∷ value o.symbol ∷ []

-- An entry of a map from names.
abbrev pub entry_items : Text × Value → List Item
entry_items e = value e.1 ∷ []

abbrev pub token_value : Option Value → List Item
token_value none = []
token_value (some v) = value v ∷ []

abbrev pub variable_items : ℕ × ℕ → List Item
variable_items e = value (Value.object e.0) ∷ cell e.1 ∷ []

abbrev pub task_items : PrintTask → List Item
task_items t = value t.item ∷ []

abbrev pub handle_items : ℕ → List Item
handle_items h = value (Value.object h) ∷ []

-- mark_program
unfoldable pub program_items : Program → List Item
program_items p = each operation_items p.code ++ each entry_items p.symbols

abbrev pub shared_items : Option Program → List Item
shared_items none = []
shared_items (some p) = program_items p

-- mark_tokens
unfoldable pub token_items : List Token → List Item
token_items = each (λ t. token_value (Token.value t))

-- A map of variables to their cells.
unfoldable pub environment_items : List (ℕ × ℕ) → List Item
environment_items = each variable_items

unfoldable pub source_items : InputContext → List Item
unfolding token_items
source_items c = token_items c.tokens ++ values (c.supplier ∷ c.proglist ∷ c.nextch ∷ [])

unfoldable pub printer_items : Option PrintState → List Item
printer_items none = []
printer_items (some p) = each task_items (reverse p.tasks) ++ each handle_items p.visiting

abbrev pub frame_lists : Frame → List (List Item)
frame_lists f =
    value_item f.function
    ∷ printer_items f.printer
    ∷ values (reverse f.callees)
    ∷ program_items f.program
    ∷ environment_items f.environment
    ∷ environment_items f.saved
    ∷ []

unfoldable pub frame_items : Frame → List Item
unfolding program_items environment_items printer_items
frame_items f = joined (frame_lists f)

-- The roots besides the stack.
abbrev pub root_lists : Reader → Runtime → List (List Item)
root_lists r s =
    value_item nil
    ∷ token_items r.input
    ∷ token_items r.macro_expansion
    ∷ value_item s.source_supplier
    ∷ value_item s.empty_source_function
    ∷ each source_items r.sources
    ∷ each shared_items r.compiling
    ∷ each entry_items s.words
    ∷ each entry_items s.macros
    ∷ each frame_items (reverse s.frames)
    ∷ []

unfoldable pub root_items : Reader → Runtime → List Item
unfolding token_items source_items program_items frame_items
root_items r s = joined (root_lists r s)

-- The cell of an identifier that is bound.
abbrev pub active_items : Option ℕ → Bool → List Item
active_items (some id) true = cell id ∷ []
active_items _ _ = []

-- The members of an object that hold one value.
abbrev pub slots : Object → List Value
slots o =
    o.binding_record ∷ o.referent ∷ o.binding_reference ∷ o.source_forward ∷ o.property ∷ o.updater
    ∷ o.type ∷ []

-- The members of an object.
abbrev pub object_lists : Runtime → ℕ → Object → List (List Item)
object_lists s h o =
    active_items (s.active h) (kind_eq o.kind ObjectKind.identifier)
    ∷ values o.fields
    ∷ values (slots o)
    ∷ shared_items o.program
    ∷ environment_items o.environment
    ∷ []

unfoldable pub object_items : Runtime → ℕ → Object → List Item
unfolding program_items environment_items
object_items s h o = joined (object_lists s h o)

-- The back of `pending` is the head of the list.
pub record Marking : Type 0 where
  pub pending : List Value
  pub marked : ℕ → Bool
  pub marked_cells : ℕ → Bool

abbrev pub insert : (ℕ → Bool) → ℕ → ℕ → Bool
insert f k j = if j == k then true else f j

unfoldable pub push_content : Option Value → ℕ → Marking → Result Marking
push_content none id m = err out_of_range
push_content (some v) id m =
    ok (record m { pending = v ∷ m.pending; marked_cells = insert m.marked_cells id })

-- `pending.push_back` and mark_cell
unfoldable pub mark : Runtime → Item → Marking → Result Marking
unfolding push_content
mark s (value v) m = ok (record m { pending = v ∷ m.pending })
mark s (cell id) m = if m.marked_cells id then ok m else push_content (s.cells id) id m

unfoldable pub mark_all : Runtime → List Item → Marking → Result Marking
unfolding mark
mark_all s [] m = ok m
mark_all s (i ∷ items) m = do m' ← mark s i m; mark_all s items m'

-- The first pending object that is not marked, and what is pending below it.
unfoldable pub next_fresh : (ℕ → Bool) → List Value → Option (ℕ × List Value)
next_fresh marked [] = none
next_fresh marked (Value.object h ∷ vs) =
    let rest = next_fresh marked vs in if marked h then rest else some (h, vs)
next_fresh marked (_ ∷ vs) = next_fresh marked vs

-- The object at a handle, by `object`.
unfoldable pub mark_object : Runtime → Option Object → ℕ → Marking → Result Marking
unfolding mark_all object_items
mark_object s none h m = err (fault (bytes "compound value required"))
mark_object s (some o) h m = mark_all s (object_items s h o) m

-- One round of the loop that marks an object, with the rest of the pending values.
unfoldable pub visit : Runtime → ℕ × List Value → Marking → Result Marking
unfolding mark_object
visit s (h, rest) m =
    mark_object s (s.objects h) h (record m { pending = rest; marked = insert m.marked h })

-- `fuel` bounds the objects that are still to be marked.
unfoldable pub mark_loop : ℕ → Runtime → Marking → Result Marking
unfolding next_fresh visit
mark_loop zero s m = ok m
mark_loop (suc fuel) s m = elim (next_fresh m.marked m.pending) [
  | none ↦ ok m
  | some p ↦ (do m' ← visit s p m; mark_loop fuel s m')
]

abbrev pub only {ℓ} : {A : Type ℓ} → (ℕ → Bool) → (ℕ → Option A) → ℕ → Option A
only marked f k = if marked k then f k else none

-- The loops that erase what is not marked.
unfoldable pub sweep : Marking → Runtime → Runtime
sweep m s = record s {
  objects = only m.marked s.objects;
  active = only m.marked s.active;
  cells = only m.marked_cells s.cells;
}

abbrev pub unmarked : Runtime → Marking
unmarked s = record { pending = s.stack; marked = λ h. false; marked_cells = λ id. false }

-- The programs that are still compiled.
unfoldable pub live : List (Option Program) → List (Option Program)
live [] = []
live (none ∷ programs) = live programs
live (some p ∷ programs) = some p ∷ live programs

-- The marking of a whole state. A handle is below s.next, so that many objects can be marked; one round
-- more finds nothing left to mark, or a handle without an object.
unfoldable pub marking : Reader → Runtime → Result Marking
unfolding mark_all mark_loop root_items
marking r s = do m ← mark_all s (root_items r s) (unmarked s); mark_loop (suc s.next) s m

-- Where an exception ends a collection, the entries of `compiling` that are erased by then are not told.
unfoldable pub sweep_marked : Reader → Result Marking → Exec Reader
unfolding sweep live
sweep_marked r (ok m) s = pure (record r { compiling = live r.compiling }) (sweep m s)
sweep_marked r (err e) s = raise e s

unfoldable pub collect : Reader → Exec Reader
unfolding marking sweep_marked
collect r s = sweep_marked r (marking r s) s
