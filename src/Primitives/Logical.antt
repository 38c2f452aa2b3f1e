-- ===== src/Primitives/Logical.antt =====
-- The bits of integers in two's complement, and the primitives LOGAND, LOGOR and LOGNOT.
use re_poplan.Prelude.{
  ℕ, zero, suc, ◌+◌, ◌-◌, ◌*◌, ◌/◌, ◌%◌, ◌^◌, ◌<◌, ◌≤◌, ◌≡◌, ◌∙◌, refl, sym, ap, arith, true, List,
  ◌∷◌,
}
use re_poplan.Prelude.Int.{ℤ, pos, negsuc}
use re_poplan.Bitwise.{bitwise, bit_and, bit_or, bitwise_lt, bit_and_le, bit_or_le, double_pow}
use re_poplan.Value.{Value, ok, integer}
use re_poplan.Numbers.{fits}
use re_poplan.State.{Runtime, Exec}
use re_poplan.Bindings.{pop}
use re_poplan.Primitives.{
  to_bits, of_bits, complement, log_and, log_or, log_not, on_two, logand, logor, lognot,
}
use re_poplan.Primitives.Bits.{to_bits-of_bits, to_bits_lt}

-- Bit i of a number: whether the i-th half, rounded down, is odd. -1 - n has the bits that n has not.
abbrev pub natural_bit : ℕ → ℕ → ℕ
natural_bit n zero = n % 2
natural_bit n (suc i) = natural_bit (n / 2) i

abbrev pub integer_bit : ℤ → ℕ → ℕ
integer_bit (pos n) i = natural_bit n i
integer_bit (negsuc n) i = 1 - natural_bit n i

natural_bit_complement :
    (w n i : ℕ) → n < 2 ^ w → i < w → natural_bit (2 ^ w - 1 - n) i ≡ 1 - natural_bit n i
natural_bit_complement zero n i l h = absurd (omega arith)
natural_bit_complement (suc w) n zero l h = omega (arith, double_pow w)
natural_bit_complement (suc w) n (suc i) l h =
    let half : (2 ^ suc w - 1 - n) / 2 ≡ 2 ^ w - 1 - n / 2 = omega (arith, double_pow w) in
    rw half (natural_bit_complement w (n / 2) i (omega (arith, double_pow w)) (omega arith))

natural_bit-bitwise :
    (w : ℕ) (f : ℕ → ℕ → ℕ) (x y i : ℕ)
    → ((a b : ℕ) → a ≤ 1 → b ≤ 1 → f a b ≤ 1)
    → i < w
    → natural_bit (bitwise w f x y) i ≡ f (natural_bit x i) (natural_bit y i)
unfolding bitwise
natural_bit-bitwise zero f x y i b h = absurd (omega arith)
natural_bit-bitwise (suc w) f x y zero b h =
    omega (arith, b (x % 2) (y % 2) (omega arith) (omega arith))
natural_bit-bitwise (suc w) f x y (suc i) b h =
    let half : (f (x % 2) (y % 2) + 2 * bitwise w f (x / 2) (y / 2)) / 2
        ≡ bitwise w f (x / 2) (y / 2) =
      omega (arith, b (x % 2) (y % 2) (omega arith) (omega arith)) in
    rw half (natural_bit-bitwise w f (x / 2) (y / 2) i b (omega arith))

to_bits-integer_bit :
    (x : ℤ) (i : ℕ) → fits x ≡ true → i < 64 → natural_bit (to_bits x) i ≡ integer_bit x i
unfolding to_bits
to_bits-integer_bit (pos n) i f h = refl
to_bits-integer_bit (negsuc n) i f h = natural_bit_complement 64 n i (ground arith) h

of_bits-fits : (b : ℕ) → b < 2 ^ 64 → fits (of_bits b) ≡ true
unfolding of_bits
of_bits-fits b l = ground arith

of_bits-integer_bit : (b i : ℕ) → b < 2 ^ 64 → i < 64 → integer_bit (of_bits b) i ≡ natural_bit b i
of_bits-integer_bit b i l h =
    sym (to_bits-integer_bit (of_bits b) i (of_bits-fits b l) h)
    ∙ ap (λ n. natural_bit n i) (to_bits-of_bits b l)

-- A result of 64 bits, each of which is the given one.
pub record HasBits (bit : ℕ → ℕ) (r : ℤ) : Type 0 where
  pub in_range : fits r ≡ true
  pub bits : (i : ℕ) → i < 64 → integer_bit r i ≡ bit i

both-HasBits :
    (f : ℕ → ℕ → ℕ) (x y : ℤ)
    → ((a b : ℕ) → a ≤ 1 → b ≤ 1 → f a b ≤ 1)
    → fits x ≡ true
    → fits y ≡ true
    → HasBits
        (λ i. f (integer_bit x i) (integer_bit y i))
        (of_bits (bitwise 64 f (to_bits x) (to_bits y)))
both-HasBits f x y b p q =
    let l = bitwise_lt 64 f (to_bits x) (to_bits y) b in
    record {
      in_range = of_bits-fits _ l;
      bits = λ i h.
          of_bits-integer_bit _ i l h
          ∙ natural_bit-bitwise 64 f (to_bits x) (to_bits y) i b h
          ∙ ap (λ a. f a (natural_bit (to_bits y) i)) (to_bits-integer_bit x i p h)
          ∙ ap (f (integer_bit x i)) (to_bits-integer_bit y i q h);
    }

not-HasBits : (x : ℤ) → fits x ≡ true → HasBits (λ i. 1 - integer_bit x i) (log_not x)
unfolding log_not
not-HasBits x p =
    let l = to_bits_lt x p in
    let m : complement (to_bits x) < 2 ^ 64 = omega arith in
    record {
      in_range = of_bits-fits _ m;
      bits = λ i h.
          of_bits-integer_bit _ i m h
          ∙ natural_bit_complement 64 (to_bits x) i l h
          ∙ ap (λ a. 1 - a) (to_bits-integer_bit x i p h);
    }

-- The primitive succeeds from s, and leaves on the stack `rest` an integer with the given bits.
abbrev pub LeavesBits : (ℕ → ℕ) → Exec (Unit {0}) → Runtime → List Value → Type 0
LeavesBits bit primitive s rest =
    (r : ℤ) × (primitive s ≡ (ok tt, record s { stack = integer r ∷ rest })) × HasBits bit r

two_popped :
    (f : ℤ → ℤ → ℤ) (s : Runtime) (x y : ℤ) (rest : List Value)
    → s.stack ≡ integer y ∷ integer x ∷ rest
    → on_two f s ≡ (ok tt, record s { stack = integer (f x y) ∷ rest })
unfolding on_two pop
two_popped f s x y rest h = rw h refl

one_popped :
    (s : Runtime) (x : ℤ) (rest : List Value)
    → s.stack ≡ integer x ∷ rest
    → lognot s ≡ (ok tt, record s { stack = integer (log_not x) ∷ rest })
unfolding lognot pop
one_popped s x rest h = rw h refl

-- With two integers of 64 bits on top of the stack, LOGAND and LOGOR replace them by an integer of
-- 64 bits, of which each bit in two's complement is the conjunction, or the disjunction, of their
-- bits in that place; LOGNOT replaces the upper one by an integer of 64 bits with each of its bits
-- inverted. The rest of the state is as it was.
pub logical_bits :
    (s : Runtime) (x y : ℤ) (rest : List Value)
    → s.stack ≡ integer y ∷ integer x ∷ rest
    → fits x ≡ true
    → fits y ≡ true
    → LeavesBits (λ i. integer_bit x i * integer_bit y i) logand s rest
      × LeavesBits
          (λ i. integer_bit x i + integer_bit y i - integer_bit x i * integer_bit y i)
          logor
          s
          rest
      × LeavesBits (λ i. 1 - integer_bit y i) lognot s (integer x ∷ rest)
unfolding logand logor log_and log_or
logical_bits s x y rest h p q = (
  (log_and x y, two_popped log_and s x y rest h, both-HasBits bit_and x y bit_and_le p q),
  (log_or x y, two_popped log_or s x y rest h, both-HasBits bit_or x y bit_or_le p q),
  (log_not y, one_popped s y (integer x ∷ rest) h, not-HasBits y q),
)
