-- ===== src/Besm/Memory.antt =====
-- Bytes in memory.
use re_poplan.Prelude.{
  ℕ, zero, suc, ◌-◌, ◌%◌, ◌^◌, ◌<◌, ◌≡◌, refl, ap, arith, ◌==◌, ◌&&◌, if◌then◌else◌, Bool-cases,
  inl, inr,
}
use re_poplan.Besm.{byte_at, with_byte, Machine, memory_byte, set_memory_byte, byte_address}

-- A statement on the six bytes of a word.
below_six : (P : ℕ → Type 0) → P 0 → P 1 → P 2 → P 3 → P 4 → P 5 → (k : ℕ) → k < 6 → P k
below_six P a b c d e f zero l = a
below_six P a b c d e f (suc zero) l = b
below_six P a b c d e f (suc (suc zero)) l = c
below_six P a b c d e f (suc (suc (suc zero))) l = d
below_six P a b c d e f (suc (suc (suc (suc zero)))) l = e
below_six P a b c d e f (suc (suc (suc (suc (suc zero))))) l = f
below_six P a b c d e f (suc (suc (suc (suc (suc (suc k)))))) l = absurd (omega arith)

module _ (v raw : ℕ) (a : v < 256) (b : raw < 2 ^ 48) where
  abbrev Replaced : ℕ → ℕ → Type 0
  Replaced k j = byte_at j (with_byte k v raw) ≡ (if k == j then v else byte_at j raw)

  abbrev Row : ℕ → Type 0
  Row k = (j : ℕ) → j < 6 → Replaced k j

  byte_at-with_byte : (k : ℕ) → k < 6 → Row k
  unfolding byte_at with_byte
  byte_at-with_byte =
      below_six Row
        (below_six (Replaced 0) (omega arith) (omega arith) (omega arith) (omega arith)
          (omega arith) (omega arith))
        (below_six (Replaced 1) (omega arith) (omega arith) (omega arith) (omega arith)
          (omega arith) (omega arith))
        (below_six (Replaced 2) (omega arith) (omega arith) (omega arith) (omega arith)
          (omega arith) (omega arith))
        (below_six (Replaced 3) (omega arith) (omega arith) (omega arith) (omega arith)
          (omega arith) (omega arith))
        (below_six (Replaced 4) (omega arith) (omega arith) (omega arith) (omega arith)
          (omega arith) (omega arith))
        (below_six (Replaced 5) (omega arith) (omega arith) (omega arith) (omega arith)
          (omega arith) (omega arith))

same_byte : (i j : ℕ) → (5 - i % 6 == 5 - j % 6) ≡ (i % 6 == j % 6)
same_byte i j = ground arith

-- After a byte below 256 is written into a word of 48 bits, reading a byte gives the new value
-- where the two places are the same word, whichever addresses name it, and the same byte of it,
-- and what was there before anywhere else.
pub memory_byte-set_memory_byte :
    (m : Machine) (address i value address' j : ℕ)
    → value < 256
    → m.memory (byte_address address i) < 2 ^ 48
    → memory_byte address' j (set_memory_byte address i value m) ≡ (
        if byte_address address i == byte_address address' j && i % 6 == j % 6
        then value
        else memory_byte address' j m)
unfolding memory_byte set_memory_byte
memory_byte-set_memory_byte m address i value address' j l w =
    elim (Bool-cases (byte_address address i == byte_address address' j)) [
      | inl same ↦
          let e : byte_address address i ≡ byte_address address' j = ground arith in
          let flags : (5 - i % 6 == 5 - j % 6) ≡ (i % 6 == j % 6) = same_byte i j in
          rw (same, ← ap m.memory e, ← flags)
            (byte_at-with_byte value (m.memory (byte_address address i)) l w (5 - i % 6)
              (omega arith) (5 - j % 6) (omega arith))
      | inr other ↦ rw other refl
    ]
