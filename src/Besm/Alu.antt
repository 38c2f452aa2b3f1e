-- ===== src/Besm/Alu.antt =====
-- The floating arithmetic of the machine (src/machine.cpp). A mantissa is an std::int64_t, held as its 64
-- bits; a word has its exponent, plus 64, in bits 41 to 47 and its signed mantissa in bits 0 to 40.
pub mod Product
pub mod Operations
use Prim.Native.String.{String}
use re_poplan.Prelude.{
  ℕ, zero, suc, ◌+◌, ◌-◌, ◌*◌, ◌/◌, ◌%◌, ◌^◌, Bool, true, false, not, ◌&&◌, ◌||◌, List, [], ◌∷◌,
  Option, none, some, ◌==◌, leb, ltb, if◌then◌else◌,
}
use re_poplan.Prelude.Int.{ℤ, pos, negsuc, ◌+ℤ◌, ◌-ℤ◌, ltb_ℤ}
use re_poplan.Bitwise.{bitwise, bit_or, bit_xor}
use re_poplan.Value.{bytes}
use re_poplan.Besm.{Machine, word48, select_alu_group}

-- How an operation ends. MachineError is `failed` with its message, E71InputRequired is
-- `input_required`, and the other two are those of ExecutionStatus.
pub data Status : Type 0 where
  running halted input_required : Status
  failed : List ℕ → Status

-- An operation, which keeps what it has changed when it throws.
abbrev pub Effect : Type 0
Effect = Machine → Status × Machine

abbrev pub after : Status → Machine → Effect → Status × Machine
after Status.running m g = g m
after s m g = (s, m)

infixl 5 ◌>>◌
unfoldable pub ◌>>◌ : Effect → Effect → Effect
◌>>◌ f g m = let (s, n) = f m in after s n g

abbrev pub change : (Machine → Machine) → Effect
change f m = (Status.running, f m)

abbrev pub fail : String → Effect
fail message m = (Status.failed (bytes message), m)

-- The bits of std::int64_t and std::uint64_t: negation, `>>` of a signed and `<<` of an unsigned number.
abbrev pub negated : ℕ → ℕ
negated x = (2 ^ 64 - x) % 2 ^ 64

abbrev pub inverted : ℕ → ℕ
inverted x = 2 ^ 64 - 1 - x

abbrev pub is_minus : ℕ → Bool
is_minus x = leb (2 ^ 63) x

abbrev pub shift_right : ℕ → ℕ → ℕ
shift_right x k = if is_minus x then inverted (inverted x / 2 ^ k) else x / 2 ^ k

abbrev pub shift_left : ℕ → ℕ → ℕ
shift_left x k = x * 2 ^ k % 2 ^ 64

-- `~std::uint64_t{0} << k`
abbrev pub ones_from : ℕ → ℕ
ones_from k = 2 ^ 64 - 2 ^ k

-- `x | y` of 64 bits
unfoldable pub join : ℕ → ℕ → ℕ
unfolding bitwise
join x y = bitwise 64 bit_or x y

-- MantissaExponent
pub record MantissaExponent : Type 0 where
  pub mantissa : ℕ
  pub exponent : ℤ

unfoldable pub unpacked : ℕ → MantissaExponent
unpacked value =
    let raw = value % 2 ^ 41 in
    record {
      mantissa = if leb (2 ^ 40) raw then raw + ones_from 41 else raw;
      exponent = pos (value / 2 ^ 41 % 128);
    }

abbrev pub denormal : ℕ → Bool
denormal mantissa = not (mantissa / 2 ^ 40 % 2 == mantissa / 2 ^ 41 % 2)

unfoldable pub normalize_right : MantissaExponent → MantissaExponent
normalize_right x = record { mantissa = shift_right x.mantissa 1; exponent = x.exponent +ℤ pos 1 }

-- The place of the highest bit of a word, counted from 1 at bit 47. `width` is 32, 16, 8, 4, 2 and 1.
unfoldable pub highest_loop : List ℕ → ℕ → ℕ → ℕ
highest_loop [] value index = index
highest_loop (width ∷ widths) value index =
    let high = value / 2 ^ width in
    highest_loop widths (if high == 0 then value else high)
      (if high == 0 then index else index + width)

unfoldable pub highest_bit : ℕ → ℕ
unfolding highest_loop
highest_bit value = 48 - highest_loop (32 ∷ 16 ∷ 8 ∷ 4 ∷ 2 ∷ 1 ∷ []) value 0

-- multiply_mantissas(left, right): the high part, which the source leaves in `left`, and the low part.
unfoldable pub multiply_magnitudes : ℕ → ℕ → ℕ × ℕ
multiply_magnitudes left right =
    let high = right / 2 ^ 20 in
    let low = right % 2 ^ 20 in
    let remainder = left * low % 2 ^ 64 in
    let product = left * high % 2 ^ 64 in
    let total = (remainder + product % 2 ^ 20 * 2 ^ 20) % 2 ^ 64 in
    (shift_right product 20 + total / 2 ^ 40, total % 2 ^ 40)

-- `left = ~left; remainder ^= bits40; ++remainder; …`, on a remainder of 40 bits.
unfoldable pub negated_product : ℕ × ℕ → ℕ × ℕ
negated_product (left, remainder) =
    let next = 2 ^ 40 - 1 - remainder + 1 in
    ((inverted left + next / 2 ^ 40) % 2 ^ 64, next % 2 ^ 40)

unfoldable pub multiply_mantissas : ℕ → ℕ → ℕ × ℕ
unfolding multiply_magnitudes negated_product
multiply_mantissas left right =
    let magnitude =
      multiply_magnitudes (if is_minus left then negated left else left)
        (if is_minus right then negated right else right) in
    if (is_minus left && not (is_minus right)) || (not (is_minus left) && is_minus right)
    then negated_product magnitude
    else magnitude

-- What `normalize_and_round` packs, and the bits it shifted into the mantissa.
pub record Normal : Type 0 where
  pub mantissa : ℕ
  pub exponent : ℤ
  pub low : ℕ
  pub shifted_out : ℕ

-- The branch for a mantissa with two leading zeros; `none` is zero.
unfoldable pub normalize_plus : ℕ → ℤ → ℕ → Option Normal
unfolding highest_bit join
normalize_plus mantissa exponent low =
    let value = mantissa % 2 ^ 40 in
    if not (value == 0)
    then (let count = highest_bit value - 9 in
        let shifted_out = low / 2 ^ (40 - count) in
        some (record {
          mantissa = join (shift_left value count) shifted_out;
          exponent = exponent -ℤ pos count;
          low = shift_left low count;
          shifted_out = shifted_out;
        }))
    else if not (low % 2 ^ 40 == 0)
    then (let count = highest_bit (low % 2 ^ 40) - 9 in
        some (record {
          mantissa = shift_left low count;
          exponent = exponent -ℤ pos (40 + count);
          low = 0;
          shifted_out = low;
        }))
    else none

-- The branch for two leading ones.
unfoldable pub normalize_minus : ℕ → ℤ → ℕ → Normal
unfolding highest_bit join
normalize_minus mantissa exponent low =
    let value = inverted mantissa % 2 ^ 40 in
    let rest = inverted low % 2 ^ 40 in
    if not (value == 0)
    then (let count = highest_bit value - 9 in
        let shifted_out = low / 2 ^ (40 - count) in
        let moved = join (shift_left value count) (2 ^ count - 1) in
        record {
          mantissa = join (2 ^ 40 + inverted moved % 2 ^ 40) shifted_out;
          exponent = exponent -ℤ pos count;
          low = shift_left low count;
          shifted_out = shifted_out;
        })
    else if not (rest == 0)
    then (let count = highest_bit rest - 9 in
        let moved = join (shift_left rest count) (2 ^ count - 1) in
        record {
          mantissa = 2 ^ 40 + inverted moved % 2 ^ 40;
          exponent = exponent -ℤ pos (40 + count);
          low = 0;
          shifted_out = low;
        })
    else record { mantissa = 2 ^ 40; exponent = exponent -ℤ pos 80; low = 0; shifted_out = 1 }

unfoldable pub normalize : Bool → ℕ → ℤ → ℕ → Option Normal
normalize disabled mantissa exponent low =
    let leading = mantissa / 2 ^ 39 % 4 in
    if disabled || leading == 1 || leading == 2
    then some (record { mantissa = mantissa; exponent = exponent; low = low; shifted_out = 0 })
    else if leading == 0
    then normalize_plus mantissa exponent low
    else some (normalize_minus mantissa exponent low)

-- `accumulator_ = Word48(); remainder_ = Word48(remainder_.raw() & ~bits40);`
unfoldable pub clear_result : Machine → Machine
clear_result m = record m { accumulator = 0; remainder = m.remainder / 2 ^ 40 * 2 ^ 40 }

abbrev pub flag : ℕ → ℕ → Bool
flag mode bit = mode / bit % 2 == 1

-- `exponent & 0177`
unfoldable pub exponent_bits : ℤ → ℕ
exponent_bits (pos n) = n % 128
exponent_bits (negsuc n) = 127 - n % 128

-- The new accumulator and remainder, and the report of an exponent that is too large.
unfoldable pub store_result : Normal → ℕ → Effect
unfolding exponent_bits
store_result x mantissa = do
  change (λ m. record m {
    accumulator = exponent_bits x.exponent * 2 ^ 41 + mantissa % 2 ^ 41;
    remainder = x.low % 2 ^ 40;
  })
  λ m.
      (if ltb_ℤ (pos 127) x.exponent && not (flag m.alu_mode 32)
          then fail "BESM-6 arithmetic overflow"
          else change (λ n. n))
        m

-- The part of `normalize_and_round` behind the normalization.
unfoldable pub pack_result : Normal → Bool → Effect
unfolding join
pack_result x round m =
    let rounded =
      if not (flag m.alu_mode 2) && (round && x.shifted_out == 0)
      then join x.mantissa 1
      else x.mantissa in
    (if ltb_ℤ x.exponent (pos 0) || (rounded == 0 && not (flag m.alu_mode 1))
        then change clear_result
        else store_result x rounded)
      m

unfoldable pub pack_or_clear : Option Normal → Bool → Effect
unfolding pack_result
pack_or_clear none round = change clear_result
pack_or_clear (some x) round = pack_result x round

unfoldable pub normalize_and_round : ℕ → ℤ → ℕ → Bool → Effect
normalize_and_round mantissa exponent low round m =
    pack_or_clear (normalize (flag m.alu_mode 1) mantissa exponent low) round m
