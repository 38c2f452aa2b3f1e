-- ===== src/Utf8/Encoded.antt =====
-- What `decode_scalar` reads from the bytes that `encode` wrote, range by range.
use re_poplan.Prelude.{
  ℕ, ◌+◌, ◌/◌, ◌%◌, ◌≤◌, ◌<◌, ◌≡◌, false, List, [], ◌∷◌, ◌++◌, arith, Bool-cases, ltb, inl, inr,
}
use re_poplan.Value.{ok}
use re_poplan.Utf8.{invalid_scalar, encode, decode_scalar}

one : (c : ℕ) (rest : List ℕ) → c < 0x80 → decode_scalar c rest ≡ ok (c, rest)
unfolding decode_scalar
one c rest h = ground arith

two :
    (c : ℕ) (rest : List ℕ)
    → 0x80 ≤ c
    → c < 0x800
    → decode_scalar (0xc0 + c / 64) ((0x80 + c % 64) ∷ rest) ≡ ok (c, rest)
unfolding decode_scalar
two c rest l h = ground arith

three :
    (c : ℕ) (rest : List ℕ)
    → 0x800 ≤ c
    → c < 0x10000
    → invalid_scalar c ≡ false
    → decode_scalar (0xe0 + c / 4096) ((0x80 + c / 64 % 64) ∷ (0x80 + c % 64) ∷ rest) ≡ ok (c, rest)
unfolding decode_scalar
three c rest l h v = ground arith

four :
    (c : ℕ) (rest : List ℕ)
    → 0x10000 ≤ c
    → c < 0x110000
    → decode_scalar
        (0xf0 + c / 262144)
        ((0x80 + c / 4096 % 64) ∷ (0x80 + c / 64 % 64) ∷ (0x80 + c % 64) ∷ rest)
      ≡ ok (c, rest)
unfolding decode_scalar
four c rest l h = ground arith

-- The bytes of a scalar, with the lead byte apart.
module _ (c : ℕ) (rest : List ℕ) (valid : invalid_scalar c ≡ false) where
  pub record Written : Type 0 where
    pub first : ℕ
    pub others : List ℕ
    pub written : encode c ≡ ok (first ∷ others)
    pub read : decode_scalar first (others ++ rest) ≡ ok (c, rest)

  below : c < 0x110000
  below = ground arith

  pub encode-Written : Written
  unfolding encode
  encode-Written = elim (Bool-cases (ltb c 0x80)) [
    | inl a ↦ record {
      first = c;
      others = [];
      written = ground arith;
      read = one c rest (ground arith);
    }
    | inr a ↦ elim (Bool-cases (ltb c 0x800)) [
      | inl b ↦ record {
        first = 0xc0 + c / 64;
        others = (0x80 + c % 64) ∷ [];
        written = ground arith;
        read = two c rest (ground arith) (ground arith);
      }
      | inr b ↦ elim (Bool-cases (ltb c 0x10000)) [
        | inl d ↦ record {
          first = 0xe0 + c / 4096;
          others = (0x80 + c / 64 % 64) ∷ (0x80 + c % 64) ∷ [];
          written = ground arith;
          read = three c rest (ground arith) (ground arith) valid;
        }
        | inr d ↦ record {
          first = 0xf0 + c / 262144;
          others = (0x80 + c / 4096 % 64) ∷ (0x80 + c / 64 % 64) ∷ (0x80 + c % 64) ∷ [];
          written = ground arith;
          read = four c rest (ground arith) below;
        }
      ]
    ]
  ]
