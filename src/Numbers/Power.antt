-- ===== src/Numbers/Power.antt =====
-- Integer powers by squaring: the result, and the overflow report, are exact.
use native.Mathlib.Nat.{pow-le-pow_right, one-le-pow, mul-le-mul, pow-zero, pow-succ'}
use re_poplan.Prelude.{
  ℕ, zero, suc, ◌+◌, ◌*◌, ◌/◌, ◌%◌, ◌^◌, ◌≤◌, ◌<◌, ◌≡◌, ◌≢◌, ◌∙◌, sym, refl, ap, arith, true, false,
  ◌⊎◌, inl, inr, ◌==◌, Bool-cases, if◌then◌else◌, ==_iff,
}
use re_poplan.Prelude.Int.{ℤ, pos, ◌*ℤ◌}
use re_poplan.Value.{Result, ok, ◌>>=◌, throw}
use re_poplan.Numbers.{Operator, fits, checked, exact, power_loop, int_power}
use re_poplan.Numbers.Integers.{
  ◌^ℤ◌, ^ℤ_even, abs, abs-*ℤ, abs-zero, square_lem, pos-^ℤ, unfit-*ℤ, unfit_big, square_gap, *ℤ_one,
  one_*ℤ, *ℤ_assoc,
}

-- The rounds of the loop, once for each parity and each outcome of the two products.
checked-fits : (z : ℤ) → fits z ≡ true → checked z ≡ ok z
unfolding checked
checked-fits z h = rw h

checked_unfit : (z : ℤ) → fits z ≡ false → checked z ≡ throw "integer overflow"
unfolding checked
checked_unfit z h = rw h

-- A base of which only 0 has the accumulator 0.
abbrev Apart : ℤ → ℤ → Type 0
Apart r a = abs r ≡ 0 → abs a ≡ 0

Apart-*ℤ : (r a : ℤ) → Apart r a → Apart (r *ℤ a) a
Apart-*ℤ r a h e = elim (Bool-cases (abs a == 0)) [
  | inl z ↦ (==_iff _ _).0 z
  | inr n ↦
      let product : abs r * abs a ≡ 0 = sym (abs-*ℤ r a) ∙ e in
      let l : 1 ≤ abs a = ground arith in
      let m : abs r ≤ abs r * abs a = grind arith in h (omega arith)
]

Apart-square : (r a : ℤ) → Apart r a → Apart r (a *ℤ a)
Apart-square r a h e = let z = h e in let s : abs (a *ℤ a) ≡ abs a * abs a = abs-*ℤ a a in s ∙ rw z

square_pow : (a : ℤ) (k : ℕ) → (a *ℤ a) ^ℤ k ≡ pos ((abs a * abs a) ^ k)
square_pow a k = rw (square_lem a) (pos-^ℤ (abs a * abs a) k)

-- A power of a square of an integer that is not 0 is 1 or more.
square_pow_pos : (a : ℤ) (k : ℕ) → abs a ≢ 0 → 1 ≤ (abs a * abs a) ^ k
square_pow_pos a k h =
    let l : 1 ≤ abs a = omega arith in
    let m : 0 < abs a * abs a = mul-le-mul l l in one-le-pow k _ m

-- An accumulator that does not fit stays so: the whole power does not fit.
unfit_accumulator :
    (p a : ℤ) (k : ℕ) → abs a ≢ 0 → fits p ≡ false → fits (p *ℤ (a *ℤ a) ^ℤ k) ≡ false
unfit_accumulator p a k na h = rw (square_pow a k) (unfit-*ℤ p _ h (square_pow_pos a k na))

unfit_pos : (n : ℕ) → fits (pos n) ≡ false → 2 ^ 63 ≤ n
unfit_pos n h = ground arith

abs-pos : (n : ℕ) → abs (pos n) ≡ n
unfolding abs
abs-pos n = omega arith

-- A square that does not fit is still to be multiplied in.
unfit_square :
    (r a : ℤ) (k : ℕ)
    → abs r ≢ 0
    → 1 ≤ k
    → fits (a *ℤ a) ≡ false
    → fits (r *ℤ (a *ℤ a) ^ℤ k) ≡ false
unfit_square r a k nr hk h =
    let q : 2 ^ 63 ≤ abs a * abs a = unfit_pos _ (rw square_lem at h) in
    let big = square_gap (abs a) q in
    let one = pow-succ' (abs a * abs a) 0 in
    let zeroth = pow-zero (abs a * abs a) in
    let up : (abs a * abs a) ^ 1 ≤ (abs a * abs a) ^ k = pow-le-pow_right (omega arith) hk in
    let same : (abs a * abs a) ^ 1 ≡ abs a * abs a = one ∙ rw zeroth (omega arith) in
    let l : 1 ≤ abs r = omega arith in
    let grown : (abs a * abs a) ^ k ≤ abs r * (abs a * abs a) ^ k = grind arith in
    unfit_big (r *ℤ (a *ℤ a) ^ℤ k) (rw (abs-*ℤ, square_pow a k, abs-pos) (omega arith))

-- What is left to multiply in after a round, for either parity of the exponent.
halved : (r a : ℤ) (k : ℕ) → r *ℤ a ^ℤ (k + k) ≡ r *ℤ (a *ℤ a) ^ℤ k
halved r a k = ap (◌*ℤ◌ r) (^ℤ_even a k)

halved_odd : (r a : ℤ) (k : ℕ) → r *ℤ a ^ℤ suc (k + k) ≡ r *ℤ a *ℤ (a *ℤ a) ^ℤ k
unfolding ◌^ℤ◌
halved_odd r a k = sym (*ℤ_assoc r a (a ^ℤ (k + k))) ∙ ap (◌*ℤ◌ (r *ℤ a)) (^ℤ_even a k)

-- The second half of a round: the base is squared if the exponent is not used up.
square_next : ℕ → ℤ → Result ℤ
square_next k a = if k == 0 then ok a else exact Operator.multiply a a

square_next_ok : (k : ℕ) (a : ℤ) → fits (a *ℤ a) ≡ true → square_next (suc k) a ≡ ok (a *ℤ a)
unfolding square_next exact
square_next_ok k a f = ground arith

square_next_err :
    (k : ℕ) (a : ℤ) → fits (a *ℤ a) ≡ false → square_next (suc k) a ≡ throw "integer overflow"
unfolding square_next exact
square_next_err k a f = ground arith

no_zero : (r a : ℤ) → Apart r a → fits (a *ℤ a) ≡ false → abs r ≢ 0
no_zero r a h u z = let s : abs a * abs a ≡ 0 = rw (h z) in cc (ap fits (square_lem a ∙ ap pos s))

exact-fits : (r a : ℤ) → fits (r *ℤ a) ≡ true → exact Operator.multiply r a ≡ ok (r *ℤ a)
unfolding exact
exact-fits r a f = ground arith

exact_unfit :
    (r a : ℤ) → fits (r *ℤ a) ≡ false → exact Operator.multiply r a ≡ throw "integer overflow"
unfolding exact
exact_unfit r a f = ground arith

unfit_nonzero : (r a : ℤ) → fits (r *ℤ a) ≡ false → abs a ≢ 0
unfit_nonzero r a u z =
    let s : abs (r *ℤ a) ≡ 0 = abs-*ℤ r a ∙ rw z (omega arith) in cc (ap fits (abs-zero (r *ℤ a) s))

abbrev finish_round : ℕ → ℕ → ℤ → ℤ → Result ℤ
finish_round fuel k a r = do a' ← square_next k a; power_loop fuel k r a'

-- What the loop is to return.
abbrev Exact : ℕ → Type 0
Exact fuel =
    (e : ℕ) (r a : ℤ)
    → e < fuel
    → fits r ≡ true
    → fits a ≡ true
    → Apart r a
    → power_loop fuel e r a ≡ checked (r *ℤ a ^ℤ e)

finish_round-eq :
    (fuel k : ℕ) (a r : ℤ)
    → Exact fuel
    → k < fuel
    → fits r ≡ true
    → fits a ≡ true
    → Apart r a
    → finish_round fuel k a r ≡ checked (r *ℤ (a *ℤ a) ^ℤ k)
unfolding square_next ◌^ℤ◌
finish_round-eq fuel zero a r ih l hr ha ap' = ih zero r a l hr ha ap'
finish_round-eq fuel (suc k) a r ih l hr ha ap' = elim (Bool-cases (fits (a *ℤ a))) [
  | inl f ↦ rw (square_next_ok k a f) (ih (suc k) r (a *ℤ a) l hr f (Apart-square r a ap'))
  | inr u ↦
      let big = unfit_square r a (suc k) (no_zero r a ap' u) (omega arith) u in
      rw (square_next_err k a u) (sym (checked_unfit _ big))
]

-- One round, by the parity of the exponent.
round_even :
    (fuel k : ℕ) (r a : ℤ) → 1 ≤ k → power_loop (suc fuel) (k + k) r a ≡ finish_round fuel k a r
unfolding power_loop square_next
round_even fuel k r a h =
    let half : (k + k) / 2 ≡ k = omega arith in
    let parity : (k + k) % 2 ≡ 0 = omega arith in
    let some_left : ((k + k) == 0) ≡ false = ground arith in
    rw (some_left, power_loop) (rw (half, parity) refl)

round_odd :
    (fuel k : ℕ) (r a : ℤ)
    → power_loop (suc fuel) (suc (k + k)) r a
      ≡ (do r' ← exact Operator.multiply r a; finish_round fuel k a r')
unfolding power_loop square_next
round_odd fuel k r a =
    let half : suc (k + k) / 2 ≡ k = omega arith in
    let parity : suc (k + k) % 2 ≡ 1 = omega arith in
    let some_left : (suc (k + k) == 0) ≡ false = ground arith in
    rw (some_left, power_loop) (rw (half, parity) refl)

halves : (e : ℕ) → (e ≡ e / 2 + e / 2) ⊎ (e ≡ suc (e / 2 + e / 2))
halves e = omega arith

power_loop-Exact : (fuel : ℕ) → Exact fuel
power_loop-Exact zero e r a l hr ha ap' = absurd (omega arith)
power_loop-Exact (suc fuel) zero r a l hr ha ap' =
    unfold power_loop ◌^ℤ◌ in rw *ℤ_one (sym (checked-fits r hr))
power_loop-Exact (suc fuel) (suc e') r a l hr ha ap' =
    let e = suc e' in
    let k = e / 2 in
    let ih = power_loop-Exact fuel in
    elim (halves e) [
      | inl even ↦ rw even (
          round_even fuel k r a (omega arith)
          ∙ finish_round-eq fuel k a r ih (omega arith) hr ha ap'
          ∙ ap checked (sym (halved r a k)))
      | inr odd ↦ rw odd (
          round_odd fuel k r a ∙ elim (Bool-cases (fits (r *ℤ a))) [
            | inl f ↦ rw (exact-fits r a f) (
                finish_round-eq fuel k a (r *ℤ a) ih (omega arith) f ha (Apart-*ℤ r a ap')
                ∙ ap checked (sym (halved_odd r a k)))
            | inr u ↦
                let out = unfit_accumulator (r *ℤ a) a k (unfit_nonzero r a u) u in
                rw (exact_unfit r a u) (sym (checked_unfit _ (rw (halved_odd r a k) out)))
          ])
    ]

-- The power by squaring of an integer of 64 bits and an exponent that is not negative is the true
-- power if that fits in 64 bits, and the report of an overflow if not.
pub int_power-eq : (a : ℤ) (n : ℕ) → fits a ≡ true → int_power a n ≡ checked (a ^ℤ n)
unfolding int_power
int_power-eq a n h =
    power_loop-Exact (suc n) n (pos 1) a (omega arith) refl h (λ z. cc (sym (abs-pos 1) ∙ z))
    ∙ ap checked (one_*ℤ _)
