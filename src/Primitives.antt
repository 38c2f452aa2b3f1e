-- ===== src/Primitives.antt =====
-- Primitives on numbers, truth values and lists: the branches of `Runtime::invoke`
-- (standalone/src/primitives.cpp) that need the stack and the heap alone, each as a function. The
-- `update` of a call is their argument where they read it.
pub mod Division
pub mod Bits
pub mod Logical
pub mod Numeric
pub mod Structures
use re_poplan.Prelude.{
  ℕ, zero, suc, ◌+◌, ◌-◌, ◌*◌, ◌/◌, ◌%◌, ◌^◌, Bool, true, false, not, ◌&&◌, ◌||◌, List, [], ◌∷◌,
  reverse, Option, none, some, ◌==◌, leb, ltb, if◌then◌else◌, get_elem?, length,
}
use re_poplan.Prelude.Int.{ℤ, pos, negsuc, ◌+ℤ◌, ◌-ℤ◌, ltb_ℤ}
use re_poplan.Value.{Value, is_object, truth, Result, ok, err}
use re_poplan.Bitwise.{bitwise, bit_and, bit_or}
use re_poplan.Numbers.{
  Floats, integer, real, make_real, equal, compare, arithmetic, Operator, min_int, eq_ℤ,
}
use re_poplan.State.{
  Object, ObjectKind, Runtime, Exec, ◌>>=◌, ◌>>◌, pure, done, throw, gets, modify, at, lift,
}
use re_poplan.Store.{make, object, modify_object, kind_eq, handle, pair, list, items, empty_list}
use re_poplan.Bindings.{pop, push, identifier, cell, binding, assign, protected_binding}

-- `boolean`
abbrev pub of_bool : Bool → ℤ
of_bool true = pos 1
of_bool false = pos 0

unfoldable pub boolean : Bool → Exec (Unit {0})
unfolding push
boolean b = push (Value.integer (of_bool b))

-- `integer(pop())`
unfoldable pub pop_integer : Exec ℤ
unfolding pop integer
pop_integer = do v ← pop; lift (integer v)

-- C++'s `a / b` and `a % b` on integers: the quotient is cut towards zero, and the remainder has the
-- sign of a.
abbrev pub signed : Bool → ℕ → ℤ
signed false n = pos n
signed true zero = pos 0
signed true (suc n) = negsuc n

unfoldable pub quotient : ℤ → ℤ → ℤ
quotient (pos m) (pos n) = pos (m / n)
quotient (pos m) (negsuc n) = signed true (m / suc n)
quotient (negsuc m) (pos n) = signed true (suc m / n)
quotient (negsuc m) (negsuc n) = pos (suc m / suc n)

unfoldable pub remainder : ℤ → ℤ → ℤ
remainder (pos m) (pos n) = pos (m % n)
remainder (pos m) (negsuc n) = pos (m % suc n)
remainder (negsuc m) (pos n) = signed true (suc m % n)
remainder (negsuc m) (negsuc n) = signed true (suc m % suc n)

abbrev pub is_zero : ℤ → Bool
is_zero (pos zero) = true
is_zero _ = false

abbrev pub is_negative : ℤ → Bool
is_negative (pos n) = false
is_negative (negsuc n) = true

-- `if (r && ((r < 0) != (b < 0))) { --q; r += b; }`
unfoldable pub floored : ℤ → ℤ → ℤ → ℤ × ℤ
floored q r b =
    if not (is_zero r) && not (if is_negative r then is_negative b else not (is_negative b))
    then (q -ℤ pos 1, r +ℤ b)
    else (q, r)

unfoldable pub floor_divide : ℤ → ℤ → Exec (ℤ × ℤ)
unfolding quotient remainder floored
floor_divide a b =
    if is_zero b
    then throw "division by zero"
    else if eq_ℤ a min_int && eq_ℤ b (negsuc 0)
    then throw "integer overflow"
    else pure (floored (quotient a b) (remainder a b) b)

-- name == "//"
unfoldable pub divide : Exec (Unit {0})
unfolding pop_integer push
divide = do
  b ← pop_integer
  a ← pop_integer
  (q, r) ← floor_divide a b
  push (Value.integer r)
  push (Value.integer q)

-- Two's complement: the conversions between std::int64_t and std::uint64_t.
unfoldable pub to_bits : ℤ → ℕ
to_bits (pos n) = n
to_bits (negsuc n) = 2 ^ 64 - 1 - n

unfoldable pub of_bits : ℕ → ℤ
of_bits x = if ltb x (2 ^ 63) then pos x else negsuc (2 ^ 64 - 1 - x)

abbrev pub complement : ℕ → ℕ
complement x = 2 ^ 64 - 1 - x

unfoldable pub log_and : ℤ → ℤ → ℤ
unfolding to_bits of_bits
log_and x y = of_bits (bitwise 64 bit_and (to_bits x) (to_bits y))

unfoldable pub log_or : ℤ → ℤ → ℤ
unfolding to_bits of_bits
log_or x y = of_bits (bitwise 64 bit_or (to_bits x) (to_bits y))

unfoldable pub log_not : ℤ → ℤ
unfolding to_bits of_bits
log_not x = of_bits (complement (to_bits x))

-- `x >> -y` for a negative y and `x << y` for one that is not, with the bits that leave the word lost.
unfoldable pub log_shift : ℤ → ℤ → ℤ
unfolding to_bits of_bits
log_shift x (pos k) = if leb 64 k then pos 0 else of_bits (to_bits x * 2 ^ k % 2 ^ 64)
log_shift x (negsuc k) = if leb 63 k then pos 0 else of_bits (to_bits x / 2 ^ suc k)

unfoldable pub on_two : (ℤ → ℤ → ℤ) → Exec (Unit {0})
unfolding pop_integer push
on_two f = do y ← pop_integer; x ← pop_integer; push (Value.integer (f x y))

-- The names "LOGAND", "LOGOR", "LOGSHI" and "LOGNOT".
unfoldable pub logand : Exec (Unit {0})
logand = on_two log_and

unfoldable pub logor : Exec (Unit {0})
logor = on_two log_or

unfoldable pub logshift : Exec (Unit {0})
logshift = on_two log_shift

unfoldable pub lognot : Exec (Unit {0})
unfolding pop_integer push
lognot = do x ← pop_integer; push (Value.integer (log_not x))
