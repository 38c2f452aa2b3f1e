-- ===== src/Primitives/Division.antt =====
-- Floor division, the primitive `//`.
use native.Mathlib.Nat.{div-add-mod, mod-lt}
use re_poplan.Prelude.{
  ℕ, zero, suc, ◌+◌, ◌-◌, ◌*◌, ◌%◌, ◌<◌, ◌≤◌, ◌≡◌, ◌⊎◌, refl, arith, Bool, true, false, ◌&&◌, List,
  ◌∷◌, inl, inr, Bool-cases,
}
use re_poplan.Prelude.Int.{ℤ, pos, negsuc, ◌*ℤ◌, ◌+ℤ◌, ◌-ℤ◌}
use re_poplan.Primitives.{
  quotient, remainder, floored, signed, is_zero, floor_divide, divide, pop_integer,
}
use re_poplan.Numbers.{fits, eq_ℤ, min_int, integer}
use re_poplan.Bindings.{pop, push}
use re_poplan.Value.{Value, ok, err, fault, bytes}
use re_poplan.State.{Runtime}

-- r is between 0 and b, and is not b.
abbrev pub Within : ℤ → ℤ → Type 0
Within (pos r) (pos b) = r < b
Within (pos r) (negsuc b) = r ≡ 0
Within (negsuc r) (pos b) = ⊥
Within (negsuc r) (negsuc b) = r < b

abbrev pub Divides : ℤ → ℤ → ℤ × ℤ → Type 0
Divides a b (q, r) = (a ≡ q *ℤ b +ℤ r) × Within r b

remainder_lt : (m n : ℕ) → m % suc n < suc n
remainder_lt m n = mod-lt m (omega arith)

-- The three cases in which a sign is changed, for the quotient q and the remainder r of the absolute
-- values.
below_lem :
    (m n q r : ℕ)
    → suc n * q + r ≡ m
    → r < suc n
    → Divides (pos m) (negsuc n) (floored (signed true q) (pos r) (negsuc n))
unfolding floored ◌*ℤ◌ ◌+ℤ◌ ◌-ℤ◌
below_lem m n zero zero e l = ground arith
below_lem m n zero (suc r) e l = ground arith
below_lem m n (suc q) zero e l = ground arith
below_lem m n (suc q) (suc r) e l =
    let low : negsuc q -ℤ pos 1 ≡ negsuc (suc q) = ground arith in
    let up : pos (suc r) +ℤ negsuc n ≡ negsuc (n - suc r) = ground arith in
    rw (low, up) (ground arith)

above_lem :
    (m n q r : ℕ)
    → suc n * q + r ≡ suc m
    → r < suc n
    → Divides (negsuc m) (pos (suc n)) (floored (signed true q) (signed true r) (pos (suc n)))
unfolding floored ◌*ℤ◌ ◌+ℤ◌ ◌-ℤ◌
above_lem m n zero zero e l = ground arith
above_lem m n zero (suc r) e l = ground arith
above_lem m n (suc q) zero e l = ground arith
above_lem m n (suc q) (suc r) e l =
    let low : negsuc q -ℤ pos 1 ≡ negsuc (suc q) = ground arith in
    let up : negsuc r +ℤ pos (suc n) ≡ pos (n - r) = ground arith in rw (low, up) (ground arith)

both_lem :
    (m n q r : ℕ)
    → suc n * q + r ≡ suc m
    → r < suc n
    → Divides (negsuc m) (negsuc n) (floored (pos q) (signed true r) (negsuc n))
unfolding floored ◌*ℤ◌ ◌+ℤ◌ ◌-ℤ◌
both_lem m n q zero e l = ground arith
both_lem m n q (suc r) e l = ground arith

pub floored-Divides :
    (a b : ℤ) → is_zero b ≡ false → Divides a b (floored (quotient a b) (remainder a b) b)
unfolding quotient remainder floored ◌*ℤ◌ ◌+ℤ◌ ◌-ℤ◌
floored-Divides (pos m) (pos zero) z = cc
floored-Divides (pos m) (pos (suc n)) z = ground (arith, div-add-mod m (suc n), remainder_lt m n)
floored-Divides (pos m) (negsuc n) z = below_lem m n _ _ (div-add-mod m (suc n)) (remainder_lt m n)
floored-Divides (negsuc m) (pos zero) z = cc
floored-Divides (negsuc m) (pos (suc n)) z =
    above_lem m n _ _ (div-add-mod (suc m) (suc n)) (remainder_lt (suc m) n)
floored-Divides (negsuc m) (negsuc n) z =
    both_lem m n _ _ (div-add-mod (suc m) (suc n)) (remainder_lt (suc m) n)

-- What the code tests before it divides.
abbrev pub overflows : ℤ → ℤ → Bool
overflows a b = eq_ℤ a min_int && eq_ℤ b (negsuc 0)

le_quotient : (m n q r : ℕ) → suc n * q + r ≡ m → q + r ≤ m
le_quotient m n q r e = ground arith

half_quotient : (m n q r : ℕ) → suc (suc n) * q + r ≡ m → q + q ≤ m
half_quotient m n q r e = ground arith

fits-floored :
    (a b : ℤ)
    → is_zero b ≡ false
    → fits a ≡ true
    → overflows a b ≡ false
    → fits (floored (quotient a b) (remainder a b) b).0 ≡ true
unfolding quotient remainder floored ◌+ℤ◌ ◌-ℤ◌ eq_ℤ
fits-floored (pos m) (pos zero) z f o = cc
fits-floored (pos m) (pos (suc n)) z f o =
    ground (arith, le_quotient m n _ _ (div-add-mod m (suc n)))
fits-floored (pos m) (negsuc n) z f o = ground (arith, le_quotient m n _ _ (div-add-mod m (suc n)))
fits-floored (negsuc m) (pos zero) z f o = cc
fits-floored (negsuc m) (pos (suc n)) z f o =
    ground (arith, le_quotient (suc m) n _ _ (div-add-mod (suc m) (suc n)))
fits-floored (negsuc m) (negsuc zero) z f o =
    ground (arith, le_quotient (suc m) 0 _ _ (div-add-mod (suc m) 1))
fits-floored (negsuc m) (negsuc (suc n)) z f o =
    ground (arith, half_quotient (suc m) n _ _ (div-add-mod (suc m) (suc (suc n))))

divide_run :
    (s : Runtime) (a b : ℤ) (rest : List Value)
    → s.stack ≡ Value.integer b ∷ Value.integer a ∷ rest
    → is_zero b ≡ false
    → overflows a b ≡ false
    → let (q, r) = floored (quotient a b) (remainder a b) b in
      divide s ≡ (ok tt, record s { stack = Value.integer q ∷ Value.integer r ∷ rest })
unfolding divide pop_integer pop integer floor_divide push
divide_run s a b rest e z o = rw (e, z, o) refl

zero_only : (b : ℤ) → is_zero b ≡ true → b ≡ pos 0
zero_only b z = ground arith

only_overflow : (a b : ℤ) → overflows a b ≡ true → (a ≡ min_int) × (b ≡ negsuc 0)
unfolding eq_ℤ
only_overflow a b o = ground arith

divide_zero :
    (s : Runtime) (a b : ℤ) (rest : List Value)
    → s.stack ≡ Value.integer b ∷ Value.integer a ∷ rest
    → is_zero b ≡ true
    → (divide s).0 ≡ err (fault (bytes "division by zero"))
unfolding divide pop_integer pop integer floor_divide
divide_zero s a b rest e z = rw (e, z) refl

divide_overflow :
    (s : Runtime) (a b : ℤ) (rest : List Value)
    → s.stack ≡ Value.integer b ∷ Value.integer a ∷ rest
    → is_zero b ≡ false
    → overflows a b ≡ true
    → (divide s).0 ≡ err (fault (bytes "integer overflow"))
unfolding divide pop_integer pop integer floor_divide
divide_overflow s a b rest e z o = rw (e, z, o) refl

-- With two integers on the stack, the upper one any divisor and the lower one of 64 bits, //
-- reports a divisor 0, and the quotient of the least integer by -1 as an overflow; else it
-- replaces them by a quotient of 64 bits, on top, and a remainder that is 0 or has the sign of the
-- divisor and is smaller, which together make up the dividend.
pub divide_lem :
    (s : Runtime) (a b : ℤ) (rest : List Value)
    → s.stack ≡ Value.integer b ∷ Value.integer a ∷ rest
    → fits a ≡ true
    → ((b ≡ pos 0) × ((divide s).0 ≡ err (fault (bytes "division by zero"))))
      ⊎ (((a ≡ min_int) × (b ≡ negsuc 0) × ((divide s).0 ≡ err (fault (bytes "integer overflow"))))
          ⊎ ((q : ℤ) × (r : ℤ) × (divide s
                ≡ (ok tt, record s { stack = Value.integer q ∷ Value.integer r ∷ rest }))
              × (fits q ≡ true)
              × (a ≡ q *ℤ b +ℤ r)
              × Within r b))
divide_lem s a b rest e f = elim (Bool-cases (is_zero b)) [
  | inl z ↦ inl (zero_only b z, divide_zero s a b rest e z)
  | inr z ↦ elim (Bool-cases (overflows a b)) [
    | inl o ↦ let (m, n) = only_overflow a b o in inr (inl (m, n, divide_overflow s a b rest e z o))
    | inr o ↦
        let d = floored-Divides a b z in
        inr (inr (_, _, divide_run s a b rest e z o, fits-floored a b z f o, d.0, d.1))
  ]
]
