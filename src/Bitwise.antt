-- ===== src/Bitwise.antt =====
-- The operators `&`, `|` and `^` on words: one function on the w lowest bits of two numbers, from the
-- lowest bit on.
use native.Mathlib.Nat.{pow-succ'}
use re_poplan.Prelude.{ℕ, zero, suc, ◌+◌, ◌-◌, ◌*◌, ◌/◌, ◌%◌, ◌^◌, ◌<◌, ◌≤◌, ◌≡◌, arith}

-- A bitwise operator on the w lowest bits of two words.
unfoldable pub bitwise : ℕ → (ℕ → ℕ → ℕ) → ℕ → ℕ → ℕ
bitwise zero f x y = 0
bitwise (suc w) f x y = f (x % 2) (y % 2) + 2 * bitwise w f (x / 2) (y / 2)

-- `x & y`, `x | y` and `x ^ y` of single bits.
abbrev pub bit_and : ℕ → ℕ → ℕ
bit_and x y = x * y

abbrev pub bit_or : ℕ → ℕ → ℕ
bit_or x y = x + y - x * y

abbrev pub bit_xor : ℕ → ℕ → ℕ
bit_xor x y = (x + y) % 2

pub double_pow : (w : ℕ) → 2 ^ suc w ≡ 2 * 2 ^ w
double_pow w = pow-succ' 2 w

pub bitwise_lt :
    (w : ℕ) (f : ℕ → ℕ → ℕ) (x y : ℕ)
    → ((i j : ℕ) → i ≤ 1 → j ≤ 1 → f i j ≤ 1)
    → bitwise w f x y < 2 ^ w
unfolding bitwise
bitwise_lt zero f x y b = omega arith
bitwise_lt (suc w) f x y b =
    rw (double_pow w) (
      omega
        (arith, bitwise_lt w f (x / 2) (y / 2) b, b (x % 2) (y % 2) (omega arith) (omega arith)))

pub bit_and_le : (i j : ℕ) → i ≤ 1 → j ≤ 1 → bit_and i j ≤ 1
bit_and_le zero j b c = ground arith
bit_and_le (suc zero) j b c = ground arith
bit_and_le (suc (suc i)) j b c = absurd (omega arith)

pub bit_or_le : (i j : ℕ) → i ≤ 1 → j ≤ 1 → bit_or i j ≤ 1
bit_or_le zero j b c = ground arith
bit_or_le (suc zero) j b c = ground arith
bit_or_le (suc (suc i)) j b c = absurd (omega arith)

pub bit_xor_le : (i j : ℕ) → i ≤ 1 → j ≤ 1 → bit_xor i j ≤ 1
bit_xor_le i j b c = omega arith
