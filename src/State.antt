-- ===== src/State.antt =====
-- The state of the standalone runtime (standalone/include/pop/runtime.hpp), and the monad of the
-- functions that change it and may throw.
use re_poplan.Prelude.{
  ℕ, ◌≡◌, refl, ap, Bool, true, false, List, [], ◌∷◌, Option, none, some, ◌==◌, if◌then◌else◌, ◌&&◌,
  ◌||◌,
}
use re_poplan.Prelude.Int.{ℤ}
use re_poplan.Value.{Value, Exception, fault, out_of_range, Result, ok, err, bytes}
use Prim.Native.String.{String}

-- std::string
abbrev pub Text : Type 0
Text = List ℕ

unfoldable pub text_eq : Text → Text → Bool
text_eq [] [] = true
text_eq (a ∷ s) (b ∷ t) = a == b && text_eq s t
text_eq _ _ = false

pub record Location : Type 0 where
  pub file : Text
  pub line : ℕ
  pub column : ℕ

pub data TokenKind : Type 0 where
  word number string quoted symbol end : TokenKind

pub record Token : Type 0 where
  pub kind : TokenKind
  pub text : Text
  pub place : Location
  pub value : Option Value

pub data OperationKind : Type 0 where
  push load store call call_value save_callable call_saved update jump branch_false branch_true
        closure define ret print print_step begin_list end_list partial label go cancel declare
        for_setup for_test for_next :
      OperationKind

pub record Operation : Type 0 where
  pub kind : OperationKind
  pub value : Value
  pub name : Text
  pub target : ℕ
  pub place : Location
  pub symbol : Value

-- A program is not changed once it runs, so the frames and functions that share one hold copies.
-- `symbols` lists the entries of the map.
pub record Program : Type 0 where
  pub code : List Operation
  pub args : List Text
  pub locals : List Text
  pub results : List Text
  pub symbols : List (Text × Value)
  pub is_function : Bool

pub data ObjectKind : Type 0 where
  word string pair reference record_kind strip function identifier : ObjectKind

pub data FunctionKind : Type 0 where
  user primitive partial composition accessor constructor destructor strip_init strip_get array
        stream reader output :
      FunctionKind

-- A heap object, without its host file stream.
pub record Object : Type 0 where
  pub kind : ObjectKind
  pub text : Text
  pub fields : List Value
  pub program : Option Program
  pub environment : List (ℕ × ℕ)
  pub function_kind : FunctionKind
  pub property : Value
  pub updater : Value
  pub type : Value
  pub referent : Value
  pub binding_reference : Value
  pub binding_record : Value
  pub source_token : Option Token
  pub source_forward : Value
  pub bounds : List ℤ
  pub index : ℕ
  pub width : ℕ
  pub is_macro : Bool
  pub closed : Bool
  pub forcing : Bool
  pub protected_function : Bool
  pub updater_assigned : Bool
  pub plain_pair : Bool
  pub protected_cell : ℕ

-- Object(kind): every other member is default-initialised.
abbrev pub new_object : ObjectKind → Object
new_object k = record {
  kind = k;
  text = [];
  fields = [];
  program = none;
  environment = [];
  function_kind = FunctionKind.user;
  property = Value.undefined;
  updater = Value.undefined;
  type = Value.undefined;
  referent = Value.undefined;
  binding_reference = Value.undefined;
  binding_record = Value.undefined;
  source_token = none;
  source_forward = Value.undefined;
  bounds = [];
  index = 0;
  width = 0;
  is_macro = false;
  closed = false;
  forcing = false;
  protected_function = false;
  updater_assigned = false;
  plain_pair = false;
  protected_cell = 0;
}

pub data PrintKind : Type 0 where
  value list_node list_read text leave characters : PrintKind

pub record PrintTask : Type 0 where
  pub kind : PrintKind
  pub item : Value
  pub text : Text
  pub index : ℕ
  pub limit : ℕ

-- The back of `tasks` is the head of the list.
pub record PrintState : Type 0 where
  pub tasks : List PrintTask
  pub visiting : List ℕ
  pub raw : Bool

pub record Loop : Type 0 where
  pub symbol : Value
  pub step : Value
  pub limit : Value

-- An activation. The back of each vector that grows and shrinks is the head of its list; `saved` is
-- in the order of its construction.
pub record Frame : Type 0 where
  pub program : Program
  pub pc : ℕ
  pub function : Value
  pub environment : List (ℕ × ℕ)
  pub saved : List (ℕ × ℕ)
  pub list_bases : List ℕ
  pub loops : List Loop
  pub callees : List Value
  pub printer : Option PrintState

abbrev pub plain_frame : Program → Frame
plain_frame p = record {
  program = p;
  pc = 0;
  function = Value.undefined;
  environment = [];
  saved = [];
  list_bases = [];
  loops = [];
  callees = [];
  printer = none;
}

-- The members that the modelled functions use. The top of the stack and of `frames` is the head of
-- the list. A map with handles for keys is a function of the handle, and `words` and `macros` list
-- their entries. `out` and `errors` are what was written, the last text first.
pub record Runtime : Type 0 where
  pub stack : List Value
  pub operators : List (Text × ℕ)
  pub macros : List (Text × Value)
  pub words : List (Text × Value)
  pub objects : ℕ → Option Object
  pub cells : ℕ → Option Value
  pub active : ℕ → Option ℕ
  pub frames : List Frame
  pub next : ℕ
  pub operations : ℕ
  pub max_frames : ℕ
  pub max_operations : ℕ
  pub max_depth : ℕ
  pub empty_source_function : Value
  pub source_supplier : Value
  pub resetting : Bool
  pub handling_error : Bool
  pub out : List Text
  pub errors : List Text

abbrev pub update_map {ℓ} : {A : Type ℓ} → (ℕ → Option A) → ℕ → A → ℕ → Option A
update_map f k a j = if k == j then some a else f j

-- Methods: what was done before a throw stays done.
abbrev pub Exec : Type 0 → Type 0
Exec A = Runtime → Result A × Runtime

abbrev pub after_result : {A B : Type 0} → Result A → Runtime → (A → Exec B) → Result B × Runtime
after_result (ok a) s f = f a s
after_result (err e) s f = (err e, s)

infixl 5 ◌>>=◌ ◌>>◌
abbrev pub ◌>>=◌ : {A B : Type 0} → Exec A → (A → Exec B) → Exec B
◌>>=◌ m f s = let (r, s') = m s in after_result r s' f

abbrev pub ◌>>◌ : {B : Type 0} → Exec (Unit {0}) → Exec B → Exec B
m >> k = m >>= λ _. k

abbrev pub pure : {A : Type 0} → A → Exec A
pure a s = (ok a, s)

abbrev pub done : Exec (Unit {0})
done = pure tt

abbrev pub raise : {A : Type 0} → Exception → Exec A
raise e s = (err e, s)

abbrev pub throw : {A : Type 0} → String → Exec A
throw message = raise (fault (bytes message))

abbrev pub lift : {A : Type 0} → Result A → Exec A
lift r s = (r, s)

abbrev pub gets : {A : Type 0} → (Runtime → A) → Exec A
gets f s = (ok (f s), s)

abbrev pub modify : (Runtime → Runtime) → Exec (Unit {0})
modify f s = (ok tt, f s)

-- `std::find`, and the `insert` of a set, on the elements of a container.
unfoldable pub member : ℕ → List ℕ → Bool
member k [] = false
member k (j ∷ ks) = k == j || member k ks

unfoldable pub lookup_text {ℓ} : {A : Type ℓ} → Text → List (Text × A) → Option A
unfolding text_eq
lookup_text k [] = none
lookup_text k ((j, a) ∷ m) = if text_eq k j then some a else lookup_text k m

-- container.at(k)
abbrev pub at : {A : Type 0} → Option A → Exec A
at (some a) s = (ok a, s)
at none s = (err out_of_range, s)

after_result-eq-ok :
    {A B : Type 0} (r : Result A) (s : Runtime) (f : A → Exec B) {b : B} {t : Runtime}
    → after_result r s f ≡ (ok b, t)
    → (a : A) × (r ≡ ok a) × (f a s ≡ (ok b, t))
after_result-eq-ok (ok a) s f h = (a, refl, h)
after_result-eq-ok (err e) s f h = cc (ap (λ p. p.0) h)

-- Inversion of a bind that returns: its first part returned.
pub bind-eq-ok :
    {A B : Type 0} (m : Exec A) (f : A → Exec B) (s : Runtime) {b : B} {t : Runtime}
    → (m >>= f) s ≡ (ok b, t)
    → (a : A) × (u : Runtime) × (m s ≡ (ok a, u)) × (f a u ≡ (ok b, t))
bind-eq-ok m f s h =
    let (a, e, k) = after_result-eq-ok (m s).0 (m s).1 f h in (a, (m s).1, λ i. (e i, (m s).1), k)

pub pure-eq-ok :
    {A : Type 0} (a b : A) (s t : Runtime)
    → ◌≡◌ {A = Result A × Runtime} (ok a, s) (ok b, t)
    → (a ≡ b) × (s ≡ t)
pure-eq-ok a b s t h = let e = ap (λ p. p.0) h in (cc, ap (λ p. p.1) h)
