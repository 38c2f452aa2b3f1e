-- ===== src/Tests/Operations.antt =====
-- Primitives on a small state.
use re_poplan.Prelude.{◌≡◌, ◌⊎◌, refl, true, [], ◌∷◌, ◌^◌, ◌/◌, ◌+◌, ◌*◌, ◌-◌}
use re_poplan.Prelude.Int.{ℤ, pos, negsuc, ◌+ℤ◌, ◌*ℤ◌}
use re_poplan.Value.{Value, nil, ok, err, fault, bytes}
use re_poplan.Numbers.{fits, min_int}
use re_poplan.State.{Runtime}
use re_poplan.Store.Lists.{with_pair}
use re_poplan.Primitives.{divide, logand, logor, lognot, log_shift}
use re_poplan.Primitives.Logical.{integer_bit, LeavesBits, logical_bits}
use re_poplan.Primitives.Division.{divide_lem, Within}
use re_poplan.Primitives.Bits.{log_shift_left, log_shift_right}
use re_poplan.Tests.Heap.{small}

-- -7 // 2
abbrev dividing : Runtime
dividing = record small { stack = Value.integer (pos 2) ∷ Value.integer (negsuc 6) ∷ [] }

divide_lem_example :
    ((pos 2 ≡ pos 0) × ((divide dividing).0 ≡ err (fault (bytes "division by zero"))))
    ⊎ (((negsuc 6 ≡ min_int)
          × (pos 2 ≡ negsuc 0)
          × ((divide dividing).0 ≡ err (fault (bytes "integer overflow"))))
        ⊎ ((q : ℤ) × (r : ℤ) × (divide dividing
              ≡ (ok tt, record small { stack = Value.integer q ∷ Value.integer r ∷ [] }))
            × (fits q ≡ true)
            × (negsuc 6 ≡ q *ℤ pos 2 +ℤ r)
            × Within r (pos 2)))
divide_lem_example = divide_lem dividing (negsuc 6) (pos 2) [] refl refl

-- 12 and -6
abbrev masking : Runtime
masking = record small { stack = Value.integer (negsuc 5) ∷ Value.integer (pos 12) ∷ [] }

logical_bits_example :
    LeavesBits (λ i. integer_bit (pos 12) i * integer_bit (negsuc 5) i) logand masking []
    × LeavesBits
        (λ i.
          integer_bit (pos 12) i
          + integer_bit (negsuc 5) i
          - integer_bit (pos 12) i * integer_bit (negsuc 5) i)
        logor
        masking
        []
    × LeavesBits (λ i. 1 - integer_bit (negsuc 5) i) lognot masking (Value.integer (pos 12) ∷ [])
logical_bits_example = logical_bits masking (pos 12) (negsuc 5) [] refl refl refl

log_shift_left_example : log_shift (negsuc 4) (pos 3) ≡ negsuc 4 *ℤ pos (2 ^ 3)
unfolding ◌*ℤ◌
log_shift_left_example = log_shift_left (negsuc 4) 3 refl refl

log_shift_right_example : log_shift (pos 1000) (negsuc 2) ≡ pos (1000 / 2 ^ 3)
log_shift_right_example = log_shift_right 1000 2 refl

-- A list of 7, twice on the stack.
abbrev seven : Value
seven = Value.integer (pos 7)

abbrev with_seven : Runtime
with_seven = with_pair seven nil small

abbrev doubled : Runtime
doubled = record with_seven { stack = Value.object 2 ∷ Value.object 2 ∷ [] }
