-- ===== src/Tests/Numeric.antt =====
-- Integer arithmetic on concrete values.
use re_poplan.Prelude.{◌≡◌, refl}
use re_poplan.Prelude.Int.{pos, negsuc, ◌*ℤ◌}
use re_poplan.Value.{ok, throw}
use re_poplan.Numbers.{checked, int_power, min_int}
use re_poplan.Numbers.Integers.{◌^ℤ◌}
use re_poplan.Numbers.Power.{int_power-eq}

-- (-2) ! 63 is the least integer, and is no overflow.
power_least : int_power (negsuc 1) 63 ≡ ok min_int
unfolding int_power ◌*ℤ◌
power_least = refl

power_overflow : int_power (pos 2) 63 ≡ throw "integer overflow"
unfolding int_power ◌*ℤ◌
power_overflow = refl

int_power-eq_example : int_power (negsuc 1) 63 ≡ checked (negsuc 1 ^ℤ 63)
int_power-eq_example = int_power-eq (negsuc 1) 63 refl
