-- ===== src/Primitives/Numeric.antt =====
-- The primitives that read numbers and truth values off the stack: the branches of `Runtime::invoke`
-- (standalone/src/primitives.cpp) for arithmetic, comparison and conversion.
use re_poplan.Prelude.{Bool, not, ◌&&◌, ◌||◌, if◌then◌else◌}
use re_poplan.Prelude.Int.{ℤ, pos, ltb_ℤ}
use re_poplan.Value.{Value, truth}
use re_poplan.Numbers.{Floats, integer, real, make_real, equal, compare, arithmetic, Operator}
use re_poplan.State.{Exec, ◌>>=◌, pure, throw, lift}
use re_poplan.Bindings.{pop, push}
use re_poplan.Primitives.{boolean}

-- The names "<", ">", "=<" and ">=".
pub data Relation : Type 0 where
  less greater at_most at_least : Relation

-- The test of the sign of `compare`.
unfoldable pub holds : Relation → ℤ → Bool
holds Relation.less c = ltb_ℤ c (pos 0)
holds Relation.greater c = ltb_ℤ (pos 0) c
holds Relation.at_most c = not (ltb_ℤ (pos 0) c)
holds Relation.at_least c = not (ltb_ℤ c (pos 0))

module _ (F : Floats) where
  open F use {lt, floor, negate, to_int, upper_limit, lower_limit}

  -- "@NEG"
  unfoldable pub negative : Value → Exec Value
  unfolding real arithmetic
  negative (Value.real d) = lift (make_real F (negate d))
  negative v = lift (arithmetic F Operator.subtract (Value.integer (pos 0)) v)

  unfoldable pub negate_top : Exec (Unit {0})
  unfolding pop push
  negate_top = do v ← pop; n ← negative v; push n

  -- "+", "-", "*", "/" and "!"
  unfoldable pub operate : Operator → Exec (Unit {0})
  unfolding pop push
  operate op = do b ← pop; a ← pop; r ← lift (arithmetic F op a b); push r

  -- "=", and "/=" for which `wanted` is false
  unfoldable pub equality : Bool → Exec (Unit {0})
  unfolding pop
  equality wanted = do b ← pop; a ← pop; boolean (if wanted then equal F a b else not (equal F a b))

  unfoldable pub order : Relation → Exec (Unit {0})
  unfolding pop holds
  order r = do b ← pop; a ← pop; c ← lift (compare F a b); boolean (holds r c)

  -- "INTOF"
  unfoldable pub truncated : Value → Exec Value
  truncated (Value.real d) =
      if lt (floor d) lower_limit || not (lt (floor d) upper_limit)
      then throw "integer conversion overflow"
      else pure (Value.integer (to_int (floor d)))
  truncated v = throw "INTOF requires real"

  unfoldable pub int_of_top : Exec (Unit {0})
  unfolding pop push
  int_of_top = do v ← pop; n ← truncated v; push n

  -- "REALOF"
  unfoldable pub real_of_top : Exec (Unit {0})
  unfolding pop push
  real_of_top = do
    v ← pop
    _ ← lift (integer v)
    d ← lift (real F v)
    r ← lift (make_real F d)
    push r

  -- "SIGN"
  unfoldable pub sign_top : Exec (Unit {0})
  unfolding pop push
  sign_top = do v ← pop; c ← lift (compare F v (Value.integer (pos 0))); push (Value.integer c)

-- "NOT"
unfoldable pub not_top : Exec (Unit {0})
unfolding pop
not_top = do v ← pop; boolean (not (truth v))

-- "BOOLAN", and "BOOLOR" for which `both` is false
unfoldable pub connect : Bool → Exec (Unit {0})
unfolding pop
connect both = do
  b ← pop
  a ← pop
  boolean (if both then truth a && truth b else (truth a || truth b))
