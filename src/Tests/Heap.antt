-- ===== src/Tests/Heap.antt =====
-- A small heap, and lists on it.
use re_poplan.Prelude.{
  ℕ, ◌+◌, ◌<◌, ◌≡◌, refl, false, List, [], ◌∷◌, none, some, ◌==◌, if◌then◌else◌, length, arith,
}
use re_poplan.Prelude.Int.{pos}
use re_poplan.Value.{Value, ok}
use re_poplan.State.{Object, ObjectKind, new_object, Runtime, Text}
use re_poplan.Store.{list, items, word}
use re_poplan.Bindings.{bind, binding}
use re_poplan.Bindings.Bound.{binding-bind}
use re_poplan.Store.Lists.{IsHeap, items-list}

abbrev pub nil_object : Object
nil_object = record (new_object ObjectKind.word) { text = 78 ∷ 73 ∷ 76 ∷ [] }

-- The state with the word NIL alone.
abbrev pub small : Runtime
small = record {
  stack = [];
  operators = [];
  macros = [];
  words = (78 ∷ 73 ∷ 76 ∷ [], Value.object 1) ∷ [];
  objects = λ h. if 1 == h then some nil_object else none;
  cells = λ _. none;
  active = λ _. none;
  frames = [];
  next = 2;
  operations = 0;
  max_frames = 0;
  max_operations = 0;
  max_depth = 0;
  empty_source_function = Value.undefined;
  source_supplier = Value.undefined;
  resetting = false;
  handling_error = false;
  out = [];
  errors = [];
}

pub small-IsHeap : IsHeap small
small-IsHeap = record {
  has_nil = record { nil_word = nil_object; stored = refl; is_word = refl; settled = refl };
  fresh = λ h l. ground arith;
}

abbrev three : List Value
three = Value.integer (pos 1) ∷ Value.terminator ∷ Value.object 1 ∷ []

items-list_example :
    (v : Value) × (t : Runtime) × (list three small ≡ (ok v, t))
    × (items v t ≡ (ok three, t))
    × IsHeap t
    × (t ≡ record small { objects = t.objects; next = small.next + length three })
    × ((h : ℕ) → h < small.next → t.objects h ≡ small.objects h)
items-list_example = items-list three small small-IsHeap (omega arith)

-- The word SUM, from "sum" and from "SUM".
abbrev lower_sum : Text
lower_sum = 115 ∷ 117 ∷ 109 ∷ []

abbrev upper_sum : Text
upper_sum = 83 ∷ 85 ∷ 77 ∷ []

abbrev with_sum : Runtime
with_sum = (word lower_sum small).1

-- An identifier without a cell.
abbrev with_identifier : Runtime
with_identifier = record small {
  objects = λ h. if 3 == h then some (new_object ObjectKind.identifier) else small.objects h;
}

binding-bind_example :
    (t : Runtime) × (bind (Value.object 3) Value.terminator with_identifier ≡ (ok tt, t))
    × (binding (Value.object 3) t ≡ (ok Value.terminator, t))
binding-bind_example =
    binding-bind 3 (new_object ObjectKind.identifier) Value.terminator with_identifier refl refl
