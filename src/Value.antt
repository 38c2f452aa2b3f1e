-- ===== src/Value.antt =====
-- The tagged values of the standalone runtime and the exceptions its functions throw
-- (standalone/include/pop/runtime.hpp).
use Prim.Native.Char.{code}
use Prim.Native.String.{String}
use re_poplan.Prelude.{
  ℕ, zero, ◌==◌, ◌≡◌, sym, ap, ◌⊎◌, inl, inr, refl, Bool, true, false, List, [], ◌∷◌,
}
use re_poplan.Prelude.Int.{ℤ, pos}

-- A std::string is the list of its bytes. This is the byte list of an ASCII literal.
unfoldable pub bytes : String → List ℕ
bytes String.[] = []
bytes (String.◌∷◌ c s) = code c ∷ bytes s

-- `double` values are known by their bit pattern alone. What the host's floating point does with a
-- pattern is a parameter of the functions that need it.
pub data Value : Type 0 where
  undefined terminator : Value
  integer : ℤ → Value
  real : ℕ → Value
  object : ℕ → Value

abbrev pub nil : Value
nil = object 1

abbrev pub is_object : Value → Bool
is_object (object _) = true
is_object _ = false

-- nil_value()
abbrev pub is_nil : Value → Bool
is_nil (object h) = h == 1
is_nil _ = false

-- truth(): only the integer 0 is false.
abbrev pub truth : Value → Bool
truth (integer (pos zero)) = false
truth _ = true

-- What a function throws instead of returning.
pub data Exception : Type 0 where
  fault : List ℕ → Exception
  need_input : Exception
  need_list : Value → Exception
  -- std::out_of_range of a container's `at`, which no handler of the runtime catches
  out_of_range : Exception

-- What a function that may throw comes to.
pub data Result {ℓ} (A : Type ℓ) : Type ℓ where
  err : Exception → Result A
  ok : A → Result A

infixl 5 ◌>>=◌ ◌>>◌
abbrev pub ◌>>=◌ : {A B : Type 0} → Result A → (A → Result B) → Result B
err thrown >>= next = err thrown
ok result >>= next = next result

abbrev pub ◌>>◌ : {B : Type 0} → Result (Unit {0}) → Result B → Result B
err thrown >> next = err thrown
ok _ >> next = next

abbrev pub throw {ℓ} : {A : Type ℓ} → String → Result A
throw message = err (fault (bytes message))

pub Result-cases {ℓ} :
    {A : Type ℓ} (r : Result A) → ((a : A) × (r ≡ ok a)) ⊎ ((e : Exception) × (r ≡ err e))
Result-cases (err e) = inr (e, refl)
Result-cases (ok a) = inl (a, refl)

-- Inversion of a bind that returns.
pub >>=-eq-ok :
    {A B : Type 0} (r : Result A) (next : A → Result B) {b : B}
    → (r >>= next) ≡ ok b
    → (a : A) × (r ≡ ok a) × (next a ≡ ok b)
>>=-eq-ok r next h = elim (Result-cases r) [
  | inl (a, e) ↦ (a, e, rw (sym (ap (λ q. q >>= next) e)) h)
  | inr (thrown, e) ↦ cc (ap (λ q. q >>= next) e)
]
