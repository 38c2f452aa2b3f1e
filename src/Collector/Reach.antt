-- ===== src/Collector/Reach.antt =====
-- What the roots of the state reach, and how a marking may end.
use mathlib.Core.List.{Memᴰ}
use re_poplan.Prelude.{ℕ, ◌≡◌, none, some}
use re_poplan.Value.{Value, Result, ok, err}
use re_poplan.State.{Object, Runtime}
use re_poplan.Collector.{Reader, Item, Marking}
use re_poplan.Collector.References.{Refers, Root}

-- The values and cells that the stack, the reader, the frames, the words and the macros reach through
-- the members of objects, the cells of variables and what the cells hold.
pub data Reaches (r : Reader) (s : Runtime) : Item → Type 0 where
  on_stack : {v : Value} → Memᴰ v s.stack → Reaches r s (Item.value v)
  root : {i : Item} → Root r s i → Reaches r s i
  member :
      {h : ℕ} {o : Object} {i : Item}
      → Reaches r s (Item.value (Value.object h))
      → s.objects h ≡ some o
      → Refers s h o i
      → Reaches r s i
  content :
      {id : ℕ} {v : Value}
      → Reaches r s (Item.cell id)
      → s.cells id ≡ some v
      → Reaches r s (Item.value v)

-- A handle or a cell that is reached and is not there.
pub data Dangling (r : Reader) (s : Runtime) : Type 0 where
  no_object :
      {h : ℕ} → Reaches r s (Item.value (Value.object h)) → s.objects h ≡ none → Dangling r s
  no_cell : {id : ℕ} → Reaches r s (Item.cell id) → s.cells id ≡ none → Dangling r s

module _ (r : Reader) (s : Runtime) where
  -- A property of the marking that results; a report of an error is explained by a dangling reference.
  abbrev pub Outcome : Result Marking → (Marking → Type 0) → Type 0
  Outcome (ok m) P = P m
  Outcome (err e) P = Dangling r s
