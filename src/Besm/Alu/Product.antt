-- ===== src/Besm/Alu/Product.antt =====
-- The product of two mantissas (`multiply_mantissas` of src/machine.cpp).
use re_poplan.Prelude.{
  ℕ, ◌+◌, ◌-◌, ◌*◌, ◌/◌, ◌%◌, ◌^◌, ◌<◌, ◌≤◌, ◌≡◌, ◌⊎◌, inl, inr, sym, ap, ◌∙◌, arith, true, false,
  Bool-cases,
}
use native.Mathlib.Nat.{mul-le-mul}
use re_poplan.Prelude.Int.{ℤ, pos, ◌+ℤ◌, ◌-ℤ◌, ◌*ℤ◌}
use re_poplan.Primitives.{of_bits}
use re_poplan.Besm.Alu.{
  multiply_magnitudes, multiply_mantissas, negated_product, negated, is_minus, unpacked,
}

-- The bits of a signed number of 41 bits.
abbrev pub IsMantissa : ℕ → Type 0
IsMantissa x = (x < 2 ^ 40) ⊎ ((2 ^ 64 - 2 ^ 40 ≤ x) × (x < 2 ^ 64))

-- The parts l * high and l * low of a product are small, and make it up.
record Parts (l r : ℕ) : Type 0 where
  high_le : l * (r / 2 ^ 20) ≤ 2 ^ 40 * 2 ^ 20
  low_le : l * (r % 2 ^ 20) ≤ 2 ^ 40 * 2 ^ 20
  whole : l * (r / 2 ^ 20) * 2 ^ 20 + l * (r % 2 ^ 20) ≡ l * r

parts : (l r : ℕ) → l ≤ 2 ^ 40 → r ≤ 2 ^ 40 → Parts l r
parts l r a b = record {
  high_le = (let h : r / 2 ^ 20 ≤ 2 ^ 20 = omega arith in mul-le-mul a h);
  low_le = (let h : r % 2 ^ 20 ≤ 2 ^ 20 = omega arith in mul-le-mul a h);
  whole =
      (let e : r / 2 ^ 20 * 2 ^ 20 + r % 2 ^ 20 ≡ r = omega arith in
        let f = ap (λ (t : ℕ). l * t) e in omega arith);
}

magnitudes_lem :
    (l r : ℕ)
    → l ≤ 2 ^ 40
    → r ≤ 2 ^ 40
    → let (h, w) = multiply_magnitudes l r in (h * 2 ^ 40 + w ≡ l * r) × (w < 2 ^ 40) × (h ≤ 2 ^ 40)
unfolding multiply_magnitudes
magnitudes_lem l r a b =
    let p = parts l r a b in
    let e = p.high_le in
    let f = p.low_le in
    let g = p.whole in let m : l * r ≤ 2 ^ 40 * 2 ^ 40 = mul-le-mul a b in ground arith

-- The sign and the absolute value.
minus_lem :
    (x : ℕ)
    → IsMantissa x
    → is_minus x ≡ true
    → (of_bits x ≡ pos 0 -ℤ pos (negated x)) × (negated x ≤ 2 ^ 40)
unfolding of_bits ◌-ℤ◌
minus_lem x a m = ground arith

plus_lem : (x : ℕ) → IsMantissa x → is_minus x ≡ false → (of_bits x ≡ pos x) × (x ≤ 2 ^ 40)
unfolding of_bits
plus_lem x a m = ground arith

-- The high part, with its sign, and the low part of a product.
abbrev pub value_of : ℕ × ℕ → ℤ
value_of (h, w) = of_bits h *ℤ pos (2 ^ 40) +ℤ pos w

value_of-magnitudes :
    (h w n : ℕ) → h * 2 ^ 40 + w ≡ n → h ≤ 2 ^ 40 → w < 2 ^ 40 → value_of (h, w) ≡ pos n
unfolding of_bits ◌*ℤ◌ ◌+ℤ◌
value_of-magnitudes h w n e l b = ground arith

value_of-negated :
    (h w n : ℕ)
    → h * 2 ^ 40 + w ≡ n
    → h ≤ 2 ^ 40
    → w < 2 ^ 40
    → (value_of (negated_product (h, w)) ≡ pos 0 -ℤ pos n) × ((negated_product (h, w)).1 < 2 ^ 40)
unfolding of_bits ◌*ℤ◌ ◌+ℤ◌ ◌-ℤ◌ negated_product
value_of-negated h w n e l b = ground arith

times_same : (a b : ℕ) → (pos 0 -ℤ pos a) *ℤ (pos 0 -ℤ pos b) ≡ pos (a * b)
unfolding ◌*ℤ◌ ◌-ℤ◌
times_same a b = ground arith

times_left : (a b : ℕ) → (pos 0 -ℤ pos a) *ℤ pos b ≡ pos 0 -ℤ pos (a * b)
unfolding ◌*ℤ◌ ◌-ℤ◌
times_left a b = ground arith

times_right : (a b : ℕ) → pos a *ℤ (pos 0 -ℤ pos b) ≡ pos 0 -ℤ pos (a * b)
unfolding ◌*ℤ◌ ◌-ℤ◌
times_right a b = ground arith

times_plus : (a b : ℕ) → pos a *ℤ pos b ≡ pos (a * b)
unfolding ◌*ℤ◌
times_plus a b = ground arith

-- For two mantissas, the high part that multiply_mantissas leaves, times 2 ^ 40, and the low part of 40
-- bits add up to the product of the two signed numbers.
pub multiply_mantissas_lem :
    (l r : ℕ)
    → IsMantissa l
    → IsMantissa r
    → (value_of (multiply_mantissas l r) ≡ of_bits l *ℤ of_bits r)
      × ((multiply_mantissas l r).1 < 2 ^ 40)
unfolding multiply_mantissas
multiply_mantissas_lem l r a b = elim (Bool-cases (is_minus l)) [
  | inl ml ↦
      let (el, bl) = minus_lem l a ml in
      elim (Bool-cases (is_minus r)) [
        | inl mr ↦
            let (er, br) = minus_lem r b mr in
            let (e, w, h) = magnitudes_lem (negated l) (negated r) bl br in
            rw (ml, mr)
              (
                value_of-magnitudes _ _ _ e h w
                    ∙ sym (rw (el, er) (times_same (negated l) (negated r))),
                w,
              )
        | inr mr ↦
            let (er, br) = plus_lem r b mr in
            let (e, w, h) = magnitudes_lem (negated l) r bl br in
            let (v, k) = value_of-negated _ _ _ e h w in
            rw (ml, mr) (v ∙ sym (rw (el, er) (times_left (negated l) r)), k)
      ]
  | inr ml ↦
      let (el, bl) = plus_lem l a ml in
      elim (Bool-cases (is_minus r)) [
        | inl mr ↦
            let (er, br) = minus_lem r b mr in
            let (e, w, h) = magnitudes_lem l (negated r) bl br in
            let (v, k) = value_of-negated _ _ _ e h w in
            rw (ml, mr) (v ∙ sym (rw (el, er) (times_right l (negated r))), k)
        | inr mr ↦
            let (er, br) = plus_lem r b mr in
            let (e, w, h) = magnitudes_lem l r bl br in
            rw (ml, mr) (value_of-magnitudes _ _ _ e h w ∙ sym (rw (el, er) (times_plus l r)), w)
      ]
]

unpacked-IsMantissa : (x : ℕ) → IsMantissa (unpacked x).mantissa
unfolding unpacked
unpacked-IsMantissa x = ground arith

-- For the mantissas of any two words, the high part that multiply_mantissas leaves, times 2 ^ 40,
-- and the low part, which is below 2 ^ 40, add up to the product of the two signed mantissas.
pub multiply_mantissas-unpacked :
    (x y : ℕ)
    → (value_of (multiply_mantissas (unpacked x).mantissa (unpacked y).mantissa)
        ≡ of_bits (unpacked x).mantissa *ℤ of_bits (unpacked y).mantissa)
      × ((multiply_mantissas (unpacked x).mantissa (unpacked y).mantissa).1 < 2 ^ 40)
multiply_mantissas-unpacked x y =
    multiply_mantissas_lem _ _ (unpacked-IsMantissa x) (unpacked-IsMantissa y)
