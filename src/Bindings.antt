-- ===== src/Bindings.antt =====
-- Identifiers, their cells, and the dynamic bindings of the standalone runtime
-- (standalone/src/runtime.cpp).
pub mod Bound
use re_poplan.Prelude.{
  ℕ, ◌+◌, ◌^◌, ◌%◌, Bool, true, false, not, List, [], ◌∷◌, none, some, ◌==◌, if◌then◌else◌,
}
use re_poplan.Value.{Value, is_object}
use re_poplan.State.{
  Text, ObjectKind, FunctionKind, update_map, Exec, ◌>>=◌, ◌>>◌, pure, done, throw, gets, modify,
  at, lookup_text, text_eq, Program, lift,
}
use re_poplan.Store.{make, object, modify_object, kind_eq, handle, word}
use re_poplan.Names.{canonical}

-- The record of a word's current binding; an identifier stands for itself.
unfoldable pub identifier : Value → Exec Value
unfolding object make modify_object
identifier value = do
  w ← object value
  if kind_eq w.kind ObjectKind.identifier
      then pure value
      else if not (kind_eq w.kind ObjectKind.word)
      then throw "word required"
      else if is_object w.binding_record
      then pure w.binding_record
      else (do
        r ← make ObjectKind.identifier
        modify_object value (λ o. record o { binding_record = r })
        modify_object r (λ o. record o { text = w.text })
        pure r)

unfoldable pub identifier_of : Text → Exec Value
identifier_of name = do w ← word name; identifier w

-- `auto id = next_++; cells[id] = v;` The counter is an std::uint64_t, and is not tested here.
unfoldable pub new_cell : Value → Exec ℕ
new_cell v s =
    pure s.next (record s { next = (s.next + 1) % 2 ^ 64; cells = update_map s.cells s.next v })

unfoldable pub set_active : ℕ → ℕ → Exec (Unit {0})
set_active symbol id s = pure tt (record s { active = update_map s.active symbol id })

-- cell(value), behind the call of `identifier`.
unfoldable pub symbol_cell : ℕ → Exec ℕ
unfolding new_cell set_active
symbol_cell symbol = do
  found ← gets (λ s. s.active symbol)
  elim found [
    | some id ↦ pure id
    | none ↦ do id ← new_cell Value.undefined; set_active symbol id; pure id
  ]

unfoldable pub cell : Value → Exec ℕ
cell value = do symbol ← identifier value; symbol_cell (handle symbol)

-- binding(symbol)
unfoldable pub binding : Value → Exec Value
binding symbol = do id ← cell symbol; found ← gets (λ s. s.cells id); at found

-- bind(symbol, v)
unfoldable pub bind : Value → Value → Exec (Unit {0})
bind symbol v = do id ← cell symbol; modify (λ s. record s { cells = update_map s.cells id v })

unfoldable pub protected_binding : Value → Exec Bool
protected_binding value = do
  symbol ← identifier value
  o ← object symbol
  if o.protected_cell == 0 then pure false else (do id ← cell symbol; pure (id == o.protected_cell))

-- assign(symbol, value)
unfoldable pub assign : Value → Value → Exec (Unit {0})
assign symbol v = do
  guarded ← protected_binding symbol
  if guarded then throw "assignment to protected identifier" else bind symbol v

unfoldable pub erase_text {ℓ} : {A : Type ℓ} → Text → List (Text × A) → List (Text × A)
erase_text k [] = []
erase_text k ((j, a) ∷ m) = let rest = erase_text k m in if text_eq k j then rest else (j, a) ∷ rest

-- equal(a, b) of two members that are undefined or name an object.
abbrev same_object : Value → Value → Bool
same_object (Value.object a) (Value.object b) = a == b
same_object Value.undefined Value.undefined = true
same_object _ _ = false

-- cancel_word(symbol): the word forgets its identifier, which keeps its cell.
unfoldable pub cancel_word : Value → Exec (Unit {0})
unfolding lookup_text erase_text
cancel_word symbol = do
  o ← object symbol
  found ← gets (λ s. lookup_text o.text s.words)
  elim found [
    | none ↦ done
    | some w ↦ do
      entry ← object w
      if same_object entry.binding_record symbol
          then (do
            modify_object w (λ e. record e { binding_record = Value.undefined })
            modify (λ s. record s {
              operators = erase_text o.text s.operators;
              macros = erase_text o.text s.macros;
            }))
          else done
  ]

-- pop()
unfoldable pub pop : Exec Value
pop s = elim s.stack [
  | [] ↦ throw "value stack underflow" s
  | v ∷ rest ↦ pure v (record s { stack = rest })
]

unfoldable pub push : Value → Exec (Unit {0})
push v s = pure tt (record s { stack = v ∷ s.stack })

-- `map::emplace` on an ordered map keeps an entry that is there.
unfoldable pub emplace_text {ℓ} : {A : Type ℓ} → Text → A → List (Text × A) → List (Text × A)
unfolding lookup_text
emplace_text k a m = elim (lookup_text k m) [ some _ ↦ m | none ↦ (k, a) ∷ m ]

unfoldable pub emplace_symbols : List Text → List (Text × Value) → Exec (List (Text × Value))
emplace_symbols [] m = pure m
emplace_symbols (name ∷ names) m = do
  symbol ← identifier_of name
  emplace_symbols names (emplace_text name symbol m)

-- function(p)
unfoldable pub function : Program → Exec Value
function p = do
  m₁ ← emplace_symbols p.args p.symbols
  m₂ ← emplace_symbols p.locals m₁
  m₃ ← emplace_symbols p.results m₂
  v ← make ObjectKind.function
  modify_object v (λ o. record o { program = some (record p { symbols = m₃ }) })
  pure v

-- primitive(name)
unfoldable pub primitive : Text → Exec Value
primitive name = do
  v ← make ObjectKind.function
  modify_object v (λ o. record o { function_kind = FunctionKind.primitive })
  key ← lift (canonical name)
  modify_object v (λ o. record o { text = key })
  pure v
