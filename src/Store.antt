-- ===== src/Store.antt =====
-- The heap of the standalone runtime: objects, interned words, pairs and lists
-- (standalone/src/runtime.cpp).
pub mod Lists
pub mod Words
use re_poplan.Prelude.{
  ℕ, zero, suc, ◌+◌, ◌-◌, ◌^◌, Bool, true, false, not, ◌&&◌, ◌||◌, List, [], ◌∷◌, ◌++◌, Option,
  none, some, ◌==◌, leb, if◌then◌else◌, get_elem?,
}
use re_poplan.Prelude.Int.{pos}
use re_poplan.Value.{Value, nil, is_object, is_nil, truth, need_list}
use re_poplan.Names.{canonical}
use re_poplan.State.{
  Text, Object, ObjectKind, new_object, Runtime, update_map, Exec, ◌>>=◌, ◌>>◌, pure, done, raise,
  throw, lift, gets, modify, at, member, lookup_text, FunctionKind,
}

abbrev pub kind_code : ObjectKind → ℕ
kind_code ObjectKind.word = 0
kind_code ObjectKind.string = 1
kind_code ObjectKind.pair = 2
kind_code ObjectKind.reference = 3
kind_code ObjectKind.record_kind = 4
kind_code ObjectKind.strip = 5
kind_code ObjectKind.function = 6
kind_code ObjectKind.identifier = 7

abbrev pub kind_eq : ObjectKind → ObjectKind → Bool
kind_eq j k = kind_code j == kind_code k

-- make(kind)
unfoldable pub make : ObjectKind → Exec Value
make kind s =
    if s.next == 2 ^ 64 - 1
    then throw "object identifier exhausted" s
    else pure (Value.object s.next)
        (record s { next = s.next + 1; objects = update_map s.objects s.next (new_object kind) })

-- object(v)
unfoldable pub object : Value → Exec Object
object (Value.object h) s = elim (s.objects h) [
  | some o ↦ (pure o s)
  | none ↦ throw "compound value required" s
]
object _ s = throw "compound value required" s

-- Assignments to members of *objects.at(h).
unfoldable pub set_object : ℕ → Object → Exec (Unit {0})
set_object h o s = pure tt (record s { objects = update_map s.objects h o })

-- `object(v).member = …;`
unfoldable pub modify_object : Value → (Object → Object) → Exec (Unit {0})
unfolding object set_object
modify_object (Value.object h) f = do o ← object (Value.object h); set_object h (f o)
modify_object _ f = throw "compound value required"

-- word(name)
unfoldable pub intern : Text → Exec Value
unfolding make modify_object
intern key = do
  v ← make ObjectKind.word
  modify_object v (λ o. record o { text = key })
  modify (λ s. record s { words = (key, v) ∷ s.words })
  pure v

unfoldable pub word : Text → Exec Value
unfolding intern lookup_text canonical
word name = do
  key ← lift (canonical name)
  found ← gets (λ s. lookup_text key s.words)
  elim found [ some v ↦ pure v | none ↦ intern key ]

-- string(s)
unfoldable pub string : Text → Exec Value
unfolding make modify_object
string t = do v ← make ObjectKind.string; modify_object v (λ o. record o { text = t }); pure v

-- pair(a, b)
unfoldable pub pair : Value → Value → Exec Value
unfolding make modify_object
pair a b = do
  v ← make ObjectKind.pair
  modify_object v (λ o. record o { fields = a ∷ b ∷ [] })
  pure v

-- list(vs), which builds from the last element.
unfoldable pub list : List Value → Exec Value
unfolding pair
list [] = pure nil
list (v ∷ vs) = do t ← list vs; pair v t

-- The first loop of `empty_list`: follow deferred source cursors. `pending` has the last one first.
-- A handle repeats before the number of handles is used up, so that number is fuel enough.
unfoldable pub forward_chain : ℕ → List ℕ → Value → List Value → Exec (Value × List Value)
unfolding object member
forward_chain zero seen current pending = throw "cyclic source cursor"
forward_chain (suc fuel) seen (Value.object h) pending = do
  o ← object (Value.object h)
  let rest = forward_chain fuel (h ∷ seen) o.source_forward (Value.object h ∷ pending)
  if not (is_object o.source_forward)
      then pure (Value.object h, pending)
      else if member h seen
      then throw "cyclic source cursor"
      else rest
forward_chain (suc fuel) seen v pending = pure (v, pending)

-- Whether a node ends a list; a lazy tail asks for its forcing.
unfoldable pub lazy_end : Value → Object → Exec Bool
lazy_end current node = do
  head ← at (get_elem? node.fields 0)
  if not (truth head)
      then pure true
      else if node.forcing
      then throw "recursive forcing of a dynamic list"
      else raise (need_list current)

unfoldable pub node_end : Value → Object → Exec Bool
unfolding object lazy_end
node_end current node =
    if kind_eq node.kind ObjectKind.pair && not node.plain_pair
    then (do
      tail ← at (get_elem? node.fields 1)
      if is_object tail
          then (do
            t ← object tail
            if kind_eq t.kind ObjectKind.function then lazy_end current node else pure false)
          else pure false)
    else pure false

unfoldable pub list_end : Value → Exec Bool
unfolding object node_end
list_end current =
    if is_nil current
    then pure true
    else if is_object current
    then (do node ← object current; node_end current node)
    else pure false

-- The last loop of `empty_list`: each deferred cursor becomes a copy of what follows it.
unfoldable pub settle : Value → List Value → Exec (Unit {0})
unfolding object modify_object
settle current [] = done
settle current (v ∷ pending) = do
  at_end ← pure (is_nil current)
  source ← gets (λ s. s.empty_source_function)
  if at_end
      then modify_object v (λ o. record o {
        fields = Value.integer (pos 0) ∷ source ∷ [];
        source_token = none;
        source_forward = Value.undefined;
      })
      else (do
        node ← object current
        modify_object v (λ o. record o {
          fields = node.fields;
          source_token = node.source_token;
          source_forward = Value.undefined;
        }))
  settle v pending

-- handle(), of an object.
abbrev pub handle : Value → ℕ
handle (Value.object h) = h
handle _ = 0

abbrev no_pending : List Value → Bool
no_pending [] = true
no_pending (_ ∷ _) = false

-- `!current.object() || object(current).kind != Object::Kind::pair`
is_pair : Value → Exec Bool
unfolding object
is_pair current =
    if is_object current
    then (do o ← object current; pure (kind_eq o.kind ObjectKind.pair))
    else pure false

-- empty_list(v)
unfoldable pub empty_list : Value → Exec Bool
unfolding forward_chain list_end settle is_pair
empty_list v = do
  fuel ← gets (λ s. suc s.next)
  (current, pending) ← forward_chain fuel [] v []
  empty ← list_end current
  proper ← if no_pending pending || is_nil current then pure true else is_pair current
  if proper then (do settle current pending; pure empty) else throw "source tail requires a list"

-- The loop of `items`: the handles seen so far, and the list that is left. A cell of a proper list
-- has a handle below `next`, so one more than that is fuel enough.
unfoldable pub items_loop : ℕ → List ℕ → Value → Exec (List Value)
unfolding object
items_loop zero seen v = throw "finite proper list required"
items_loop (suc fuel) seen v = do
  empty ← empty_list v
  if empty then pure [] else do
    o ← object v
    if not (kind_eq o.kind ObjectKind.pair) || o.plain_pair || member (handle v) seen
        then throw "finite proper list required"
        else do
          x ← at (get_elem? o.fields 0)
          t ← at (get_elem? o.fields 1)
          xs ← items_loop fuel (handle v ∷ seen) t
          pure (x ∷ xs)

unfoldable pub items : Value → Exec (List Value)
items v = do fuel ← gets (λ s. suc s.next); items_loop fuel [] v
