-- ===== src/Calls.antt =====
-- Calls of functions: `schedule`, `call`, and the return of an activation in `run`
-- (standalone/src/runtime.cpp). `invoke`, which runs a function that is not a user's, is a parameter.
pub mod Undoes
pub mod Variables
pub mod Undone
pub mod Restore
use re_poplan.Prelude.{
  ℕ, zero, suc, ◌+◌, ◌-◌, ◌^◌, ◌%◌, Bool, true, false, not, ◌&&◌, ◌||◌, List, [], ◌∷◌, ◌++◌,
  reverse, map, Option, none, some, ◌==◌, leb, ltb, if◌then◌else◌, get_elem?, length,
}
use Prim.Native.Nat.{max}
use re_poplan.Value.{
  Value, is_object, is_nil, need_list, bytes, Result, ok, err, Exception, fault, need_input,
  out_of_range,
}
use re_poplan.State.{
  Text, Object, ObjectKind, FunctionKind, Runtime, Frame, Operation, OperationKind, Program,
  Location, plain_frame, update_map, Exec, ◌>>=◌, ◌>>◌, pure, done, raise, throw, gets, modify, at,
  lookup_text, text_eq, member,
}
use re_poplan.Store.{object, modify_object, kind_eq, handle}
use re_poplan.Bindings.{new_cell, set_active, binding, pop, push, primitive, cell}

abbrev pub function_code : FunctionKind → ℕ
function_code FunctionKind.user = 0
function_code FunctionKind.primitive = 1
function_code FunctionKind.partial = 2
function_code FunctionKind.composition = 3
function_code FunctionKind.accessor = 4
function_code FunctionKind.constructor = 5
function_code FunctionKind.destructor = 6
function_code FunctionKind.strip_init = 7
function_code FunctionKind.strip_get = 8
function_code FunctionKind.array = 9
function_code FunctionKind.stream = 10
function_code FunctionKind.reader = 11
function_code FunctionKind.output = 12

abbrev pub function_kind_eq : FunctionKind → FunctionKind → Bool
function_kind_eq j k = function_code j == function_code k

abbrev pub nowhere : Location
nowhere = record { file = []; line = 0; column = 0 }

-- The operation `{kind, value, {}, target, {}}`.
abbrev pub plain_operation : OperationKind → Value → ℕ → Operation
plain_operation k v n = record {
  kind = k;
  value = v;
  name = [];
  target = n;
  place = nowhere;
  symbol = Value.undefined;
}

abbrev pub plain_program : List Operation → Program
plain_program code = record {
  code = code;
  args = [];
  locals = [];
  results = [];
  symbols = [];
  is_function = false;
}

unfoldable pub push_frame : Frame → Exec (Unit {0})
push_frame f s = pure tt (record s { frames = f ∷ s.frames })

-- schedule(f, args, update)
unfoldable pub schedule : Value → List Value → Bool → Exec (Unit {0})
unfolding push_frame
schedule f args update = push_frame (
    plain_frame (
      plain_program (
        map (λ v. plain_operation OperationKind.push v 0) args
        ++ plain_operation OperationKind.push f 0
          ∷ plain_operation OperationKind.call_value Value.undefined (if update then 1 else 0)
          ∷ [])))

-- The primitives that come with an updater; the list is `paired` of `has_updater`.
abbrev pub paired : List Text
paired =
    bytes "CONT"
    ∷ bytes "FRONT"
    ∷ bytes "BACK"
    ∷ bytes "HD"
    ∷ bytes "TL"
    ∷ bytes "SUBSCR"
    ∷ bytes "SUBSCC"
    ∷ bytes "DATAWO"
    ∷ bytes "BOUNDS"
    ∷ bytes "FNPART"
    ∷ bytes "FROZVA"
    ∷ bytes "FNPROP"
    ∷ bytes "UPDATE"
    ∷ bytes "MEANIN"
    ∷ bytes "VALOF"
    ∷ bytes "@FIELD"
    ∷ bytes "@SGET"
    ∷ []

unfoldable pub member_text : Text → List Text → Bool
unfolding text_eq
member_text t [] = false
member_text t (u ∷ us) = text_eq t u || member_text t us

-- The loop of `has_updater`: from an array to the function that reads its storage. A handle repeats
-- before the number of handles is used up.
unfoldable pub has_updater_loop : ℕ → List ℕ → Value → Exec Bool
unfolding object member member_text
has_updater_loop zero seen v = pure false
has_updater_loop (suc fuel) seen (Value.object h) = if member h seen then pure false else do
  f ← object (Value.object h)
  if not (kind_eq f.kind ObjectKind.function)
      then pure false
      else if f.updater_assigned || is_object f.updater
      then (if is_object f.updater
          then (do u ← object f.updater; pure (kind_eq u.kind ObjectKind.function))
          else pure false)
      else if function_kind_eq f.function_kind FunctionKind.array
      then (do next ← at (get_elem? f.fields 1); has_updater_loop fuel (h ∷ seen) next)
      else if not (function_kind_eq f.function_kind FunctionKind.primitive)
      then pure false
      else pure (member_text f.text paired)
has_updater_loop (suc fuel) seen v = pure false

unfoldable pub has_updater : Value → Exec Bool
has_updater v = do fuel ← gets (λ s. suc s.next); has_updater_loop fuel [] v

-- updater(value)
unfoldable pub updater : Value → Exec Value
updater value = do
  f ← object value
  if f.updater_assigned || is_object f.updater then pure f.updater else do
    paired_one ← has_updater value
    if paired_one
        then (do
          wrapper ← primitive (bytes "@UPDAT")
          modify_object wrapper (λ o. record o { fields = value ∷ [] })
          modify_object value (λ o. record o { updater = wrapper })
          pure wrapper)
        else pure f.updater

-- `frame.saved.emplace_back(symbol, cell(Value::object(symbol))); active[symbol] = id;`. The saved cells of the frame under construction are passed along, the last one first.
unfoldable pub install : ℕ → ℕ → List (ℕ × ℕ) → Exec (List (ℕ × ℕ))
unfolding cell set_active
install symbol id saved = do
  old ← cell (Value.object symbol)
  set_active symbol id
  pure ((symbol, old) ∷ saved)

-- `for (auto &[name, id] : f.environment) install(name, id);`
unfoldable pub install_all : List (ℕ × ℕ) → List (ℕ × ℕ) → Exec (List (ℕ × ℕ))
install_all [] saved = pure saved
install_all ((symbol, id) ∷ env) saved = do saved' ← install symbol id saved; install_all env saved'

-- `map[k] = v` on a map that is a list in the order of its keys.
unfoldable pub put : ℕ → ℕ → List (ℕ × ℕ) → List (ℕ × ℕ)
put k v [] = (k, v) ∷ []
put k v ((j, w) ∷ m) =
    if k == j then (k, v) ∷ m else if ltb k j then (k, v) ∷ (j, w) ∷ m else (j, w) ∷ put k v m

-- The part of a frame that `call` builds step by step.
pub record Build : Type 0 where
  pub environment : List (ℕ × ℕ)
  pub saved : List (ℕ × ℕ)

-- One fresh cell, with the value v, for the variable `name` of the program.
unfoldable pub add_variable : Program → Text → Value → Build → Exec Build
add_variable p name v b = do
  id ← new_cell v
  symbol ← at (lookup_text name p.symbols)
  saved ← install (handle symbol) id b.saved
  pure (record { environment = put (handle symbol) id b.environment; saved = saved })

-- `for (auto &name : locals)`
unfoldable pub add_locals : Program → List Text → Build → Exec Build
add_locals p [] b = pure b
add_locals p (name ∷ names) b = do b' ← add_variable p name Value.undefined b; add_locals p names b'

-- The loop over the arguments, of which the last is on top of the stack.
unfoldable pub add_arguments : Program → List Text → Build → Exec Build
add_arguments p [] b = pure b
add_arguments p (name ∷ names) b = do
  v ← pop
  b' ← add_variable p name v b
  add_arguments p names b'

-- What `call` does once its limits are tested: the frame, and the record of the greatest depth.
unfoldable pub push_activation : Value → Program → Build → Exec (Unit {0})
push_activation v p b s = pure tt (record s {
  frames =
      record (plain_frame p) { function = v; environment = b.environment; saved = reverse b.saved }
      ∷ s.frames;
  max_depth = max s.max_depth (length s.frames);
})

unfoldable pub activate : Value → Object → Program → Exec (Unit {0})
activate v f p = do
  saved ← install_all f.environment []
  b ← add_locals p (p.locals ++ p.results) (record { environment = f.environment; saved = saved })
  b' ← add_arguments p (reverse p.args) b
  push_activation v p b'

-- The part of `call` for a user's function.
unfoldable pub enter : Value → Object → Program → Exec (Unit {0})
enter v f p s =
    if not (s.max_frames == 0) && leb (s.max_frames + 1) (length s.frames)
    then throw "native frame limit exceeded" s
    else if ltb (length s.stack) (length p.args)
    then throw "value stack underflow" s
    else activate v f p s

-- `for (auto &name : f.program->results) push(binding(symbols.at(name)));`
unfoldable pub push_results : Program → List Text → Exec (Unit {0})
push_results p [] = done
push_results p (name ∷ names) = do
  symbol ← at (lookup_text name p.symbols)
  v ← binding symbol
  push v
  push_results p names

-- `for (auto it = saved.rbegin(); …) active[it->first] = it->second;`, on the reversed list.
unfoldable pub restore : List (ℕ × ℕ) → (ℕ → Option ℕ) → ℕ → Option ℕ
restore [] active = active
restore ((symbol, id) ∷ saved) active = restore saved (update_map active symbol id)

abbrev rest_of : List Frame → List Frame
rest_of [] = []
rest_of (f ∷ fs) = fs

-- The end of an activation, in `run`.
unfoldable pub leave : Frame → Exec (Unit {0})
unfolding restore
leave f = do
  push_results f.program f.program.results
  modify (λ s. record s { active = restore (reverse f.saved) s.active; frames = rest_of s.frames })

-- A function that is not a user's runs at once. If it finds a lazy list, the arguments are put back, and
-- the call is made again when the list has been forced.
unfoldable pub force_list : Value → Exec (Unit {0})
force_list v = do
  p ← object v
  supplier ← at (get_elem? p.fields 1)
  continuation ← primitive (bytes "@FORCD")
  modify_object continuation (λ o. record o { fields = v ∷ supplier ∷ [] })
  modify_object v (λ o. record o { forcing = true })
  schedule continuation [] false
  schedule supplier [] false

unfoldable pub retry : Value → Bool → List Value → Result (Unit {0}) → Exec (Unit {0})
retry v update arguments (err (need_list l)) = do
  modify (λ s. record s { stack = arguments })
  schedule v [] update
  force_list l
retry v update arguments r = λ s. (r, s)

unfoldable pub call_function :
    (Value → Object → Bool → Exec (Unit {0})) → Value → Object → Bool → Exec (Unit {0})
call_function invoke v f update =
    if not (function_kind_eq f.function_kind FunctionKind.user)
    then (λ s. let (r, t) = invoke v f update s in retry v update s.stack r t)
    else (do p ← at f.program; enter v f p)

-- `has_updater`, which is asked for an updating call alone.
unfoldable pub lacks_updater : Bool → Value → Exec Bool
lacks_updater false v = pure false
lacks_updater true v = do has ← has_updater v; pure (not has)

unfoldable pub callable_updater : Value → Exec Object
callable_updater u =
    if is_object u
    then (do
      o ← object u
      if kind_eq o.kind ObjectKind.function
          then pure o
          else throw "function has no callable updater")
    else throw "function has no callable updater"

-- `v` has to be a function, and an updating call one with an updater.
unfoldable pub call : (Value → Object → Bool → Exec (Unit {0})) → Value → Bool → Exec (Unit {0})
call invoke v update = do
  f ← object v
  if not (kind_eq f.kind ObjectKind.function)
      then throw "function required"
      else if update && (f.updater_assigned || is_object f.updater)
      then (do target ← callable_updater f.updater; call_function invoke f.updater target false)
      else (do
        missing ← lacks_updater update v
        if missing
            then throw "function has no callable updater"
            else call_function invoke v f update)
