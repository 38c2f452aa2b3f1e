-- ===== src/Primitives/Bits.antt =====
-- The bitwise primitives on two's complement words.
use native.Mathlib.Nat.{pow-le-pow_right, add-mul-mod_self_left, div-eq_of_lt, div-le_self}
use re_poplan.Prelude.{
  ℕ, zero, suc, ◌+◌, ◌-◌, ◌*◌, ◌/◌, ◌%◌, ◌^◌, ◌<◌, ◌≤◌, ◌≡◌, refl, sym, ap, arith, true, Bool-cases,
  inl, inr, leb, ltb,
}
use re_poplan.Prelude.Int.{ℤ, pos, negsuc, ◌*ℤ◌}
use re_poplan.Numbers.{fits}
use re_poplan.Primitives.{to_bits, of_bits, log_shift}

pub of_bits-to_bits : (x : ℤ) → fits x ≡ true → of_bits (to_bits x) ≡ x
unfolding of_bits to_bits
of_bits-to_bits x f = ground arith

pub to_bits-of_bits : (b : ℕ) → b < 2 ^ 64 → to_bits (of_bits b) ≡ b
unfolding of_bits to_bits
to_bits-of_bits b l = ground arith

pub to_bits_lt : (x : ℤ) → fits x ≡ true → to_bits x < 2 ^ 64
unfolding to_bits
to_bits_lt x f = ground arith

one_le_pow : (k : ℕ) → 1 ≤ 2 ^ k
one_le_pow k = pow-le-pow_right {n = 2} (omega arith) {i = 0} (omega arith)

wrapped :
    (m p : ℕ)
    → 1 ≤ p
    → m < 2 ^ 64
    → suc m * p ≤ 2 ^ 64
    → (2 ^ 64 - 1 - m) * p ≡ 2 ^ 64 - suc m * p + 2 ^ 64 * (p - 1)
wrapped m p l b c =
    let whole : 2 ^ 64 - 1 - m + suc m ≡ 2 ^ 64 = omega arith in
    let all = ap (λ (t : ℕ). t * p) whole in omega arith

-- A multiplication modulo 2 ^ 64 is right on two's complement words if the product fits.
shifted :
    (x : ℤ) (p : ℕ)
    → 1 ≤ p
    → fits x ≡ true
    → fits (x *ℤ pos p) ≡ true
    → of_bits (to_bits x * p % 2 ^ 64) ≡ x *ℤ pos p
unfolding to_bits ◌*ℤ◌ of_bits
shifted (pos m) p l f g = ground arith
shifted (negsuc m) p l f g =
    let small : suc m * p ≤ 2 ^ 63 = ground arith in
    let some_p : 1 ≤ suc m * p = ground arith in
    let e = wrapped m p l (ground arith) (omega arith) in
    rw (e, add-mul-mod_self_left) (ground arith)

too_far : (x : ℤ) (p : ℕ) → 2 ^ 64 ≤ p → fits (x *ℤ pos p) ≡ true → x *ℤ pos p ≡ pos 0
unfolding ◌*ℤ◌
too_far (pos zero) p l f = ground arith
too_far (pos (suc m)) p l f = ground arith
too_far (negsuc m) p l f = ground arith

-- Shifting an integer of 64 bits to the left is the multiplication by the power of 2, if the
-- product fits in 64 bits.
pub log_shift_left :
    (x : ℤ) (k : ℕ)
    → fits x ≡ true
    → fits (x *ℤ pos (2 ^ k)) ≡ true
    → log_shift x (pos k) ≡ x *ℤ pos (2 ^ k)
unfolding log_shift
log_shift_left x k f g = elim (Bool-cases (leb 64 k)) [
  | inl far ↦
      let l : 64 ≤ k = ground arith in
      let big : 2 ^ 64 ≤ 2 ^ k = pow-le-pow_right {n = 2} (omega arith) l in
      rw far (sym (too_far x (2 ^ k) big g))
  | inr near ↦ rw near (shifted x (2 ^ k) (one_le_pow k) f g)
]

-- Shifting an integer of 64 bits that is not negative to the right, by any number of places, is
-- the division by the power of 2.
pub log_shift_right :
    (m k : ℕ) → fits (pos m) ≡ true → log_shift (pos m) (negsuc k) ≡ pos (m / 2 ^ suc k)
unfolding log_shift to_bits of_bits
log_shift_right m k f = elim (Bool-cases (leb 63 k)) [
  | inl far ↦
      let l : 63 ≤ suc k = ground arith in
      let big : 2 ^ 63 ≤ 2 ^ suc k = pow-le-pow_right {n = 2} (omega arith) l in
      let none_left : m / 2 ^ suc k ≡ 0 = div-eq_of_lt (ground arith) in rw (far, none_left) refl
  | inr near ↦
      let less = div-le_self m (2 ^ suc k) in
      let small : ltb (m / 2 ^ suc k) (2 ^ 63) ≡ true = ground arith in rw (near, small) refl
]
