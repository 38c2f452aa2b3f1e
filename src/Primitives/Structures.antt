-- ===== src/Primitives/Structures.antt =====
-- The primitives on pairs, lists, references and strips: branches of `Runtime::invoke`
-- (standalone/src/primitives.cpp), with the lambda `get` that they share.
pub mod Append
use re_poplan.Prelude.{
  ◌++◌, ℕ, zero, suc, ◌+◌, ◌-◌, Bool, true, false, not, ◌&&◌, ◌||◌, List, [], ◌∷◌, reverse, ◌++◌,
  none, some, ◌==◌, if◌then◌else◌, get_elem?, set, length,
}
use re_poplan.Prelude.Int.{ℤ, pos, negsuc}
use re_poplan.Value.{Value, is_object, fault, bytes}
use re_poplan.State.{
  Object, ObjectKind, Runtime, Exec, ◌>>=◌, ◌>>◌, pure, done, throw, raise, at, Text,
}
use re_poplan.Store.{make, object, modify_object, kind_eq, handle, pair, list, items, empty_list}
use re_poplan.Bindings.{pop, push, identifier, cell, binding, assign, protected_binding}
use re_poplan.Primitives.{boolean}
use Prim.Native.String.{String}

-- `if (v.object() && object(v).source_forward.object()) empty_list(v);`
unfoldable pub follow_cursor : Value → Exec (Unit {0})
unfolding object
follow_cursor v =
    if is_object v
    then (do o ← object v; if is_object o.source_forward then (do _ ← empty_list v; done) else done)
    else done

-- `get(v, k)`, in the primitive `name`
unfoldable pub get : Text → Value → ObjectKind → Exec Object
unfolding object follow_cursor
get name v k = do
  follow_cursor v
  o ← object v
  if kind_eq o.kind k then pure o else raise (fault (bytes "wrong argument type for " ++ name))

-- "REFOF"
unfoldable pub refer : Value → Exec Value
refer symbol = do
  o ← object symbol
  if is_object o.binding_reference then pure o.binding_reference else do
    r ← make ObjectKind.reference
    modify_object symbol (λ w. record w { binding_reference = r })
    modify_object r (λ w. record w { referent = symbol })
    pure r

unfoldable pub reference_of_top : Exec (Unit {0})
reference_of_top = do
  value ← pop
  _ ← get (bytes "REFOF") value ObjectKind.word
  symbol ← identifier value
  guarded ← protected_binding symbol
  if guarded
      then throw "REFOF of protected identifier"
      else do _ ← cell symbol; r ← refer symbol; push r

-- "CONSRE"
unfoldable pub construct_reference : Exec (Unit {0})
construct_reference = do
  value ← pop
  v ← make ObjectKind.reference
  modify_object v (λ o. record o { fields = value ∷ [] })
  push v

-- `o.fields[i] = pop()` and `push(o.fields[i])`, of the object at v, which has such a field
unfoldable pub access_field : Value → ℕ → Bool → Exec (Unit {0})
unfolding object
access_field v i true = do x ← pop; modify_object v (λ o. record o { fields = set o.fields i x })
access_field v i false = do o ← object v; x ← at (get_elem? o.fields i); push x

-- "CONT" and "DESTRE"
unfoldable pub contents : Text → Bool → Exec (Unit {0})
contents name update = do
  v ← pop
  o ← get name v ObjectKind.reference
  if is_object o.referent
      then (if update
          then (do x ← pop; assign o.referent x)
          else (do x ← binding o.referent; push x))
      else access_field v 0 update

-- "CONS" and "::", and "CONSPA" for which `plain` is true
unfoldable pub cons : Bool → Exec (Unit {0})
cons plain = do
  b ← pop
  a ← pop
  v ← pair a b
  modify_object v (λ o. record o { plain_pair = plain })
  push v

-- `empty_list(v)`, asked for the list forms of a primitive alone
unfoldable pub refuse_empty : Bool → Value → Exec (Unit {0})
refuse_empty false v = done
refuse_empty true v = do
  empty ← empty_list v
  if empty then throw "nonempty list required" else done

-- "HD" and "TL" with `of_list`, else "FRONT" and "BACK"; i is 0 for the first of each, and 1.
unfoldable pub part : Text → Bool → ℕ → Bool → Exec (Unit {0})
part name of_list i update = do
  v ← pop
  refuse_empty of_list v
  _ ← get name v ObjectKind.pair
  access_field v i update

-- "DEST" with `of_list`, else "DESTPA"
unfoldable pub destruct : Text → Bool → Exec (Unit {0})
destruct name of_list = do
  v ← pop
  refuse_empty of_list v
  o ← get name v ObjectKind.pair
  a ← at (get_elem? o.fields 0)
  b ← at (get_elem? o.fields 1)
  push a
  push b

-- "NULL"
unfoldable pub null : Exec (Unit {0})
null = do v ← pop; empty ← empty_list v; boolean empty

-- `for (auto it = values.rbegin(); …) b = pair(*it, b);`
unfoldable pub prepend : List Value → Value → Exec Value
prepend [] b = pure b
prepend (v ∷ vs) b = do t ← prepend vs b; pair v t

-- "<>"
unfoldable pub append : Exec (Unit {0})
append = do b ← pop; a ← pop; values ← items a; r ← prepend values b; push r

-- "REV", and "COPYLI" for which `backwards` is false
unfoldable pub copy_list : Bool → Exec (Unit {0})
copy_list backwards = do
  v ← pop
  values ← items v
  r ← list (if backwards then reverse values else values)
  push r

-- "LENGTH"
unfoldable pub count_items : Exec (Unit {0})
count_items = do v ← pop; values ← items v; push (Value.integer (pos (length values)))
