-- ===== src/Numbers/Integers.antt =====
-- Products and powers of integers: the algebra that the checked operations are specified by.
use re_poplan.Prelude.{ℕ, zero, suc, ◌+◌, ◌*◌, ◌^◌, ◌≤◌, ◌<◌, ◌≡◌, ◌∙◌, sym, refl, ap, arith, false}
use re_poplan.Prelude.Int.{ℤ, pos, negsuc, pos_part, neg_part, ◌*ℤ◌, eq_of_parts}
use native.Mathlib.Nat.{pow-zero, pow-succ'}
use native.Mathlib.Decide.{dec_le}
use re_poplan.Numbers.{fits}

pub *ℤ_parts :
    (a b : ℤ)
    → pos_part (a *ℤ b) + (pos_part a * neg_part b + neg_part a * pos_part b)
      ≡ neg_part (a *ℤ b) + (pos_part a * pos_part b + neg_part a * neg_part b)
unfolding ◌*ℤ◌
*ℤ_parts a b = ground arith

pub *ℤ_comm : (a b : ℤ) → a *ℤ b ≡ b *ℤ a
*ℤ_comm a b = eq_of_parts _ _ (omega (arith, *ℤ_parts a b, *ℤ_parts b a))

abbrev scaled : (k : ℕ) {m n : ℕ} → m ≡ n → m * k ≡ n * k
scaled k e = ap (λ (t : ℕ). t * k) e

pub *ℤ_assoc : (a b c : ℤ) → a *ℤ b *ℤ c ≡ a *ℤ (b *ℤ c)
*ℤ_assoc a b c = eq_of_parts _ _ (
    omega (
      arith,
      *ℤ_parts (a *ℤ b) c,
      *ℤ_parts a (b *ℤ c),
      scaled (pos_part c) (*ℤ_parts a b),
      scaled (neg_part c) (*ℤ_parts a b),
      scaled (pos_part a) (*ℤ_parts b c),
      scaled (neg_part a) (*ℤ_parts b c),
    ))

pub *ℤ_one : (a : ℤ) → a *ℤ pos 1 ≡ a
*ℤ_one a = eq_of_parts _ _ (omega (arith, *ℤ_parts a (pos 1)))

pub one_*ℤ : (a : ℤ) → pos 1 *ℤ a ≡ a
one_*ℤ a = eq_of_parts _ _ (omega (arith, *ℤ_parts (pos 1) a))

-- a to the power n.
infixl 75 ◌^ℤ◌
unfoldable pub ◌^ℤ◌ : ℤ → ℕ → ℤ
a ^ℤ zero = pos 1
a ^ℤ suc n = a *ℤ a ^ℤ n

-- The even and the odd power, by squaring.
pub ^ℤ_even : (a : ℤ) (k : ℕ) → a ^ℤ (k + k) ≡ (a *ℤ a) ^ℤ k
unfolding ◌^ℤ◌
^ℤ_even a zero = refl
^ℤ_even a (suc k) =
    let e : suc k + suc k ≡ suc (suc (k + k)) = omega arith in
    rw e (sym (*ℤ_assoc a a (a ^ℤ (k + k))) ∙ ap (◌*ℤ◌ (a *ℤ a)) (^ℤ_even a k))

-- |a|
unfoldable pub abs : ℤ → ℕ
abs a = pos_part a + neg_part a

pub abs-*ℤ : (a b : ℤ) → abs (a *ℤ b) ≡ abs a * abs b
unfolding abs ◌*ℤ◌
abs-*ℤ a b = ground arith

pub abs-zero : (a : ℤ) → abs a ≡ 0 → a ≡ pos 0
unfolding abs
abs-zero a h = ground arith

pub square_lem : (a : ℤ) → a *ℤ a ≡ pos (abs a * abs a)
unfolding abs ◌*ℤ◌
square_lem (pos n) = ground arith
square_lem (negsuc n) = ground arith

pub pos-*ℤ : (m n : ℕ) → pos m *ℤ pos n ≡ pos (m * n)
unfolding ◌*ℤ◌
pos-*ℤ m n = ground arith

pub pos-^ℤ : (m k : ℕ) → pos m ^ℤ k ≡ pos (m ^ k)
unfolding ◌^ℤ◌
pos-^ℤ m zero = ap pos (sym (pow-zero m))
pos-^ℤ m (suc k) = rw (pos-^ℤ m k, pos-*ℤ) (ap pos (sym (pow-succ' m k)))

-- A product of an integer that does not fit by one or more does not fit.
pub unfit-*ℤ : (p : ℤ) (s : ℕ) → fits p ≡ false → 1 ≤ s → fits (p *ℤ pos s) ≡ false
unfolding ◌*ℤ◌
unfit-*ℤ (pos n) s h l = let m : n ≤ n * s = grind arith in ground arith
unfit-*ℤ (negsuc n) s h l = let m : suc n ≤ suc n * s = grind arith in ground arith

pub unfit_big : (z : ℤ) → 2 ^ 63 < abs z → fits z ≡ false
unfolding abs
unfit_big z h = ground arith

-- 2 ^ 63 is no square.
pub square_gap : (m : ℕ) → 2 ^ 63 ≤ m * m → 2 ^ 63 < m * m
square_gap m h = elim (dec_le m 3037000499) [
  | yes small ↦ let s : m * m ≤ 3037000499 * 3037000499 = grind arith in absurd (omega arith)
  | no large ↦
      let l : 3037000500 ≤ m = omega arith in
      let s : 3037000500 * 3037000500 ≤ m * m = grind arith in omega arith
]
