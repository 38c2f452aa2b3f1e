-- ===== src/Besm/Words.antt =====
-- Sums and shifts of words.
use re_poplan.Prelude.{ℕ, ◌<◌, ◌^◌, ◌≡◌, arith, ◌+◌, ◌%◌, ◌-◌}
use re_poplan.Besm.{cyclic_add}

pub cyclic_add_lt : (x y : ℕ) → cyclic_add x y < 2 ^ 48
unfolding cyclic_add
cyclic_add_lt x y = omega arith

-- The sum with end-around carry of two words of 48 bits is their sum modulo 2 ^ 48 - 1.
pub cyclic_add_mod :
    (x y : ℕ) → x < 2 ^ 48 → y < 2 ^ 48 → cyclic_add x y % (2 ^ 48 - 1) ≡ (x + y) % (2 ^ 48 - 1)
unfolding cyclic_add
cyclic_add_mod x y a b = omega arith
