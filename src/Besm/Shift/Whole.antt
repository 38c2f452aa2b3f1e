-- ===== src/Besm/Shift/Whole.antt =====
-- The accumulator and the remainder after a shift (`shift_accumulator` of src/machine.cpp).
use native.Mathlib.Nat.{
  div-add-mod', add-mul-mod_self_right, two-pow-succ, add-mul, mul_assoc, mod-lt, mod-eq_of_lt,
  mul-lt-mul_of_pos_right, one-le-pow, div-le_self, mul_comm,
}
use re_poplan.Prelude.{
  ℕ, zero, suc, ◌+◌, ◌-◌, ◌*◌, ◌/◌, ◌%◌, ◌^◌, ◌<◌, ◌≤◌, ◌≡◌, ◌∙◌, refl, sym, ap, arith, leb, false,
}
use re_poplan.Prelude.Int.{pos, negsuc}
use re_poplan.Besm.{Machine, select_alu_group}
use re_poplan.Besm.Shift.{shift_accumulator}

pow_split : (m n : ℕ) → 2 ^ m * 2 ^ n ≡ 2 ^ (m + n)
pow_split zero n = ground arith
pow_split (suc m) n =
    let next : suc m + n ≡ suc (m + n) = omega arith in
    let e = pow_split m n in
    rw (next, two-pow-succ m, two-pow-succ (m + n), add-mul (2 ^ m) (2 ^ m) (2 ^ n), e) refl

pow_whole : (n : ℕ) → n < 48 → 2 ^ n * 2 ^ (48 - n) ≡ 2 ^ 48
pow_whole n l =
    let e : n + (48 - n) ≡ 48 = omega arith in pow_split n (48 - n) ∙ ap (λ (k : ℕ). 2 ^ k) e

whole_of : (a p q d r w : ℕ) → d * p + r ≡ a → p * q ≡ w → r * q + d * w ≡ a * q
whole_of a p q d r w e f =
    let g : r + d * p ≡ a = omega arith in
    ap (λ (x : ℕ). r * q + d * x) (sym f)
    ∙ ap (λ (x : ℕ). r * q + x) (sym (mul_assoc d p q))
    ∙ sym (add-mul r (d * p) q)
    ∙ ap (λ (x : ℕ). x * q) g

-- The quotient by p and what the product with q leaves below w = p * q.
split_lem : (a p q w : ℕ) → p * q ≡ w → 0 < p → 0 < q → a / p * w + a * q % w ≡ a * q
split_lem a p q w f lp lq =
    let whole = whole_of a p q (a / p) (a % p) w (div-add-mod' a p) f in
    let below : a % p * q < p * q = mul-lt-mul_of_pos_right (mod-lt a lp) lq in
    let below_w : a % p * q < w = omega arith in
    let low : a * q % w ≡ a % p * q =
      ap (λ (x : ℕ). x % w) (sym whole)
      ∙ add-mul-mod_self_right (a % p * q) (a / p) w
      ∙ mod-eq_of_lt below_w in
    omega arith

small_lem : (k : ℕ) → k < 48 → leb 48 k ≡ false
small_lem k l = ground arith

quotient_lt : (a p : ℕ) → a < 2 ^ 48 → a / p % 2 ^ 48 ≡ a / p
quotient_lt a p l = let e : a / p ≤ a = div-le_self a p in omega arith

right_lem :
    (m : Machine) (k : ℕ)
    → m.accumulator < 2 ^ 48
    → suc k < 48
    → let t = shift_accumulator (pos (suc k)) m in
      t.accumulator * 2 ^ 48 + t.remainder ≡ m.accumulator * 2 ^ (48 - suc k)
unfolding shift_accumulator select_alu_group
right_lem m k l b =
    rw (small_lem (suc k) b, quotient_lt m.accumulator (2 ^ suc k) l)
      (split_lem m.accumulator (2 ^ suc k) (2 ^ (48 - suc k)) (2 ^ 48) (pow_whole (suc k) b)
        (one-le-pow (suc k) 2 (omega arith)) (one-le-pow (48 - suc k) 2 (omega arith)))

left_lem :
    (m : Machine) (k : ℕ)
    → m.accumulator < 2 ^ 48
    → suc k < 48
    → let t = shift_accumulator (negsuc k) m in
      t.remainder * 2 ^ 48 + t.accumulator ≡ m.accumulator * 2 ^ suc k
unfolding shift_accumulator select_alu_group
left_lem m k l b =
    let e : 2 ^ (48 - suc k) * 2 ^ suc k ≡ 2 ^ 48 =
      mul_comm (2 ^ (48 - suc k)) (2 ^ suc k) ∙ pow_whole (suc k) b in
    rw (small_lem (suc k) b, quotient_lt m.accumulator (2 ^ (48 - suc k)) l)
      (split_lem m.accumulator (2 ^ (48 - suc k)) (2 ^ suc k) (2 ^ 48) e
        (one-le-pow (48 - suc k) 2 (omega arith)) (one-le-pow (suc k) 2 (omega arith)))

-- A shift of a word of 48 bits in the accumulator by 1 to 47 places loses no bit: to the right,
-- the accumulator and the remainder behind it are the word times 2 ^ 48 over 2 ^ count; to the
-- left, the remainder and the accumulator behind it are the word times 2 ^ count.
pub shift_accumulator_whole :
    (m : Machine) (k : ℕ)
    → m.accumulator < 2 ^ 48
    → suc k < 48
    → (let t = shift_accumulator (pos (suc k)) m in
        t.accumulator * 2 ^ 48 + t.remainder ≡ m.accumulator * 2 ^ (48 - suc k))
      × (let t = shift_accumulator (negsuc k) m in
          t.remainder * 2 ^ 48 + t.accumulator ≡ m.accumulator * 2 ^ suc k)
shift_accumulator_whole m k l b = (right_lem m k l b, left_lem m k l b)
