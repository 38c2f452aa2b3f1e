-- ===== src/Tests/Collector.antt =====
-- A heap with a pair, an identifier and its cell, and with garbage.
use mathlib.Core.List.{Memᴰ}
use mathlib.Core.List.Memᴰ
use mathlib.Core.Path.{subst}
use re_poplan.Prelude.{
  some_injective, ℕ, zero, suc, ◌≤◌, ◌≡◌, refl, sym, ap, ◌∙◌, arith, List, [], ◌∷◌, none, some,
  ◌==◌, if◌then◌else◌, ◌&◌,
}
use re_poplan.Prelude.Int.{pos}
use re_poplan.Value.{Value}
use re_poplan.State.{Object, ObjectKind, new_object, Runtime}
use re_poplan.Collector.{
  Reader, Item, root_items, object_items, program_items, token_items, environment_items,
  source_items, frame_items, collect, live, marking, mark_all, mark_loop, mark, push_content,
  next_fresh, visit, mark_object, sweep_marked, sweep,
}
use re_poplan.Collector.Reach.{Reaches, Dangling}
use re_poplan.Collector.Kept.{collect-Reaches, collect_unreached}
use re_poplan.Collector.Closed.{collect-Dangling}
use re_poplan.Collector.References.Listed.{object_in}
use re_poplan.Collector.References.Roots.{root_in}
use re_poplan.Tests.Heap.{small, nil_object}

abbrev node : Object
node = record (new_object ObjectKind.pair) { fields = Value.object 3 ∷ Value.object 1 ∷ [] }

abbrev variable : Object
variable = new_object ObjectKind.identifier

-- The stack has the pair 2, of the identifier 3, whose cell is 7, and NIL. The pair 4 and the cell 8
-- are garbage.
abbrev heap : Runtime
heap = record small {
  stack = Value.object 2 ∷ [];
  objects = λ h.
      if h == 1
      then some nil_object
      else if h == 2
      then some node
      else if h == 3
      then some variable
      else if h == 4
      then some node
      else none;
  active = λ h. if h == 3 then some 7 else none;
  cells = λ id.
      if id == 7
      then some (Value.integer (pos 5))
      else if id == 8
      then some (Value.object 4)
      else none;
  next = 9;
}

abbrev no_reader : Reader
no_reader = record { input = []; macro_expansion = []; sources = []; compiling = none ∷ [] }

abbrev All {ℓ κ} : {A : Type ℓ} → (A → Type κ) → List A → Type κ
All P [] = Unit
All P (a ∷ rest) = P a × All P rest

all_of {ℓ κ} : {A : Type ℓ} (P : A → Type κ) {a : A} (xs : List A) → All P xs → Memᴰ a xs → P a
all_of P (x ∷ xs) (p, k) (Memᴰ.head e) = rw e p
all_of P (x ∷ xs) (p, k) (Memᴰ.tail q) = all_of P xs k q
all_of P [] k p = absurd (Memᴰ.not-nil p)

abbrev IsKnown : Item → Type 0
IsKnown (Item.value (Value.object h)) = (1 ≤ h) × (h ≤ 3)
IsKnown (Item.value _) = Unit
IsKnown (Item.cell id) = id ≡ 7

nil-IsKnown : IsKnown (Item.value (Value.object 1))
nil-IsKnown = (omega arith, omega arith)

roots-IsKnown : All IsKnown (root_items no_reader heap)
unfolding root_items program_items token_items frame_items source_items
roots-IsKnown = nil-IsKnown & tt & tt & nil-IsKnown & tt

node-IsKnown : All IsKnown (object_items heap 2 node)
unfolding object_items program_items environment_items
node-IsKnown = (omega arith, omega arith) & nil-IsKnown & tt & tt & tt & tt & tt & tt & tt & tt

variable-IsKnown : All IsKnown (object_items heap 3 variable)
unfolding object_items program_items environment_items
variable-IsKnown = refl & tt & tt & tt & tt & tt & tt & tt & tt

nil_items-IsKnown : All IsKnown (object_items heap 1 nil_object)
unfolding object_items program_items environment_items
nil_items-IsKnown = tt & tt & tt & tt & tt & tt & tt & tt

members-IsKnown :
    (h : ℕ) (o : Object) (i : Item)
    → 1 ≤ h
    → h ≤ 3
    → heap.objects h ≡ some o
    → Memᴰ i (object_items heap h o)
    → IsKnown i
members-IsKnown zero o i l b e p = elim l [ ]
members-IsKnown (suc zero) o i l b e p =
    all_of IsKnown _ nil_items-IsKnown
      (subst (λ x. Memᴰ i (object_items heap 1 x)) (sym (some_injective e)) p)
members-IsKnown (suc (suc zero)) o i l b e p =
    all_of IsKnown _ node-IsKnown
      (subst (λ x. Memᴰ i (object_items heap 2 x)) (sym (some_injective e)) p)
members-IsKnown (suc (suc (suc zero))) o i l b e p =
    all_of IsKnown _ variable-IsKnown
      (subst (λ x. Memᴰ i (object_items heap 3 x)) (sym (some_injective e)) p)
members-IsKnown (suc (suc (suc (suc h)))) o i l b e p = absurd (omega arith)

content-IsKnown : (id : ℕ) (v : Value) → id ≡ 7 → heap.cells id ≡ some v → IsKnown (Item.value v)
content-IsKnown id v q e =
    subst (λ x. IsKnown (Item.value x)) (some_injective (sym (ap heap.cells q) ∙ e)) tt

reached-IsKnown : (i : Item) → Reaches no_reader heap i → IsKnown i
reached-IsKnown i (Reaches.on_stack p) =
    all_of (λ v. IsKnown (Item.value v)) (Value.object 2 ∷ []) ((omega arith, omega arith), tt) p
reached-IsKnown i (Reaches.root p) = all_of IsKnown _ roots-IsKnown (root_in no_reader heap p)
reached-IsKnown i (Reaches.member {h} {o} a e p) =
    let (l, b) = reached-IsKnown _ a in members-IsKnown h o i l b e (object_in heap h o p)
reached-IsKnown i (Reaches.content {id} {v} a e) = content-IsKnown id v (reached-IsKnown _ a) e

object_there : (h : ℕ) → 1 ≤ h → h ≤ 3 → heap.objects h ≡ none → ⊥
object_there h l b e = ground arith

sound_heap : ¬ Dangling no_reader heap
sound_heap (Dangling.no_object {h} a e) = let (l, b) = reached-IsKnown _ a in object_there h l b e
sound_heap (Dangling.no_cell {id} a e) =
    (let q : id ≡ 7 = reached-IsKnown _ a in
      let k : heap.cells 7 ≡ none = sym (ap heap.cells q) ∙ e in cc)

heap_bound : (h : ℕ) → heap.next ≤ h → heap.objects h ≡ none
heap_bound h l = ground arith

abbrev live_reader : Reader
live_reader = record no_reader { compiling = live no_reader.compiling }

collect-Reaches_example :
    let t = (collect no_reader heap).1 in
    ((h : ℕ)
      → Reaches no_reader heap (Item.value (Value.object h))
      → (t.objects h ≡ heap.objects h) × (t.active h ≡ heap.active h))
    × ((id : ℕ) → Reaches no_reader heap (Item.cell id) → t.cells id ≡ heap.cells id)
    × (t ≡ record heap { objects = t.objects; active = t.active; cells = t.cells })
collect-Reaches_example = collect-Reaches no_reader heap heap_bound sound_heap

collect_unreached_example :
    let t = (collect no_reader heap).1 in
    ((h : ℕ)
      → ¬ Reaches no_reader heap (Item.value (Value.object h))
      → (t.objects h ≡ none) × (t.active h ≡ none))
    × ((id : ℕ) → ¬ Reaches no_reader heap (Item.cell id) → t.cells id ≡ none)
collect_unreached_example = collect_unreached no_reader heap heap_bound sound_heap

collect-Dangling_example : ¬ Dangling live_reader (collect no_reader heap).1
collect-Dangling_example = collect-Dangling no_reader heap heap_bound sound_heap

-- The garbage is erased, the rest stays.
garbage_erased : ((collect no_reader heap).1).objects 4 ≡ none
unfolding collect marking mark_all mark_loop mark push_content next_fresh visit mark_object
    root_items object_items program_items token_items frame_items source_items environment_items
    sweep_marked sweep
garbage_erased = refl
