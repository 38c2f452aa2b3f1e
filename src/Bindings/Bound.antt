-- ===== src/Bindings/Bound.antt =====
-- A binding reads back what was bound: `bind` and `binding` of standalone/src/runtime.cpp.
use re_poplan.Prelude.{ℕ, ◌+◌, ◌^◌, ◌%◌, ◌≡◌, refl, none, some, arith, Option-cases, inl, inr}
use re_poplan.Value.{Value, ok}
use re_poplan.State.{Object, ObjectKind, Runtime, update_map}
use re_poplan.Store.{object}
use re_poplan.Bindings.{identifier, cell, symbol_cell, new_cell, set_active, bind, binding}

pub identifier_itself :
    (h : ℕ) (o : Object) (s : Runtime)
    → s.objects h ≡ some o
    → o.kind ≡ ObjectKind.identifier
    → identifier (Value.object h) s ≡ (ok (Value.object h), s)
unfolding identifier object
identifier_itself h o s e k = rw (e, object) (rw k refl)

-- The state in which h has the cell c.
cell_found :
    (h c : ℕ) (o : Object) (s : Runtime)
    → s.objects h ≡ some o
    → o.kind ≡ ObjectKind.identifier
    → s.active h ≡ some c
    → cell (Value.object h) s ≡ (ok c, s)
unfolding cell symbol_cell
cell_found h c o s e k a = rw (identifier_itself h o s e k, a) refl

binding_found :
    (h c : ℕ) (o : Object) (v : Value) (s : Runtime)
    → s.objects h ≡ some o
    → o.kind ≡ ObjectKind.identifier
    → s.active h ≡ some c
    → s.cells c ≡ some v
    → binding (Value.object h) s ≡ (ok v, s)
unfolding binding
binding_found h c o v s e k a w = rw (cell_found h c o s e k a, w) refl

bind_found :
    (h c : ℕ) (o : Object) (v : Value) (s : Runtime)
    → s.objects h ≡ some o
    → o.kind ≡ ObjectKind.identifier
    → s.active h ≡ some c
    → bind (Value.object h) v s ≡ (ok tt, record s { cells = update_map s.cells c v })
unfolding bind
bind_found h c o v s e k a = rw (cell_found h c o s e k a) refl

-- The state with a fresh cell for h.
abbrev with_cell : ℕ → Runtime → Runtime
with_cell h s = record s {
  next = (s.next + 1) % 2 ^ 64;
  cells = update_map s.cells s.next Value.undefined;
  active = update_map s.active h s.next;
}

bind_new :
    (h : ℕ) (o : Object) (v : Value) (s : Runtime)
    → s.objects h ≡ some o
    → o.kind ≡ ObjectKind.identifier
    → s.active h ≡ none
    → bind (Value.object h) v s
      ≡ (ok tt, record (with_cell h s) { cells = update_map (with_cell h s).cells s.next v })
unfolding bind cell symbol_cell new_cell set_active
bind_new h o v s e k a = rw (identifier_itself h o s e k, a) refl

-- Binding an identifier object on the heap succeeds, whether or not it has a cell, and then its
-- binding is the value, which reading does not change.
pub binding-bind :
    (h : ℕ) (o : Object) (v : Value) (s : Runtime)
    → s.objects h ≡ some o
    → o.kind ≡ ObjectKind.identifier
    → (t : Runtime) × (bind (Value.object h) v s ≡ (ok tt, t))
      × (binding (Value.object h) t ≡ (ok v, t))
binding-bind h o v s e k = elim (Option-cases (s.active h)) [
  | inl absent ↦
      let t = record (with_cell h s) { cells = update_map (with_cell h s).cells s.next v } in
      (
        t,
        bind_new h o v s e k absent,
        binding_found h s.next o v t e k (ground arith) (ground arith),
      )
  | inr (c, found) ↦
      let t = record s { cells = update_map s.cells c v } in
      (t, bind_found h c o v s e k found, binding_found h c o v t e k found (ground arith))
]
