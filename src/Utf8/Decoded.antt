-- ===== src/Utf8/Decoded.antt =====
-- What `decode_scalar` accepts: a scalar, from exactly the bytes that `encode` writes for it.
use re_poplan.Prelude.{
  ℕ, ◌/◌, ◌<◌, ◌≡◌, false, List, [], ◌∷◌, ◌++◌, arith, Bool-cases, ltb, inl, inr, ◌==◌,
}
use mathlib.Core.Path.{subst}
use re_poplan.Value.{ok}
use re_poplan.Utf8.{invalid_scalar, encode, decode_scalar}

abbrev pub AreBytes : List ℕ → Type 0
AreBytes [] = Unit
AreBytes (b ∷ s) = (b < 256) × AreBytes s

pub record Spelled (b : ℕ) (s : List ℕ) (c : ℕ) (rest : List ℕ) : Type 0 where
  pub others : List ℕ
  pub written : encode c ≡ ok (b ∷ others)
  pub split : s ≡ others ++ rest
  pub valid : invalid_scalar c ≡ false
  pub left_bytes : AreBytes rest

module _ (b c : ℕ) (rest : List ℕ) (byte : b < 256) where
  one : (s : List ℕ) → AreBytes s → b < 0x80 → decode_scalar b s ≡ ok (c, rest) → Spelled b s c rest
  unfolding decode_scalar encode
  one s bs l h =
      let es : s ≡ rest = ground arith in
      record {
        others = [];
        written = ground arith;
        split = es;
        valid = ground arith;
        left_bytes = subst AreBytes es bs;
      }

  two :
      (s : List ℕ) → AreBytes s → b / 32 ≡ 6 → decode_scalar b s ≡ ok (c, rest) → Spelled b s c rest
  unfolding decode_scalar encode
  two [] bs l h = ground arith
  two (d ∷ s) (bd, bs) l h =
      let es : s ≡ rest = ground arith in
      record {
        others = d ∷ [];
        written = ground arith;
        split = ground arith;
        valid = ground arith;
        left_bytes = subst AreBytes es bs;
      }

  three :
      (s : List ℕ)
      → AreBytes s
      → b / 16 ≡ 14
      → decode_scalar b s ≡ ok (c, rest)
      → Spelled b s c rest
  unfolding decode_scalar encode
  three [] bs l h = ground arith
  three (d ∷ []) bs l h = ground arith
  three (d ∷ e ∷ s) (bd, (be, bs)) l h =
      let es : s ≡ rest = ground arith in
      record {
        others = d ∷ e ∷ [];
        written = ground arith;
        split = ground arith;
        valid = ground arith;
        left_bytes = subst AreBytes es bs;
      }

  four :
      (s : List ℕ) → AreBytes s → b / 8 ≡ 30 → decode_scalar b s ≡ ok (c, rest) → Spelled b s c rest
  unfolding decode_scalar encode
  four [] bs l h = ground arith
  four (d ∷ []) bs l h = ground arith
  four (d ∷ e ∷ []) bs l h = ground arith
  four (d ∷ e ∷ f ∷ s) (bd, (be, (bf, bs))) l h =
      let es : s ≡ rest = ground arith in
      record {
        others = d ∷ e ∷ f ∷ [];
        written = ground arith;
        split = ground arith;
        valid = ground arith;
        left_bytes = subst AreBytes es bs;
      }

  pub decode_scalar-Spelled :
      (s : List ℕ) → AreBytes s → decode_scalar b s ≡ ok (c, rest) → Spelled b s c rest
  unfolding decode_scalar
  decode_scalar-Spelled s bs h = elim (Bool-cases (ltb b 0x80)) [
    | inl l ↦ one s bs (ground arith) h
    | inr l ↦ elim (Bool-cases (b / 32 == 6)) [
      | inl m ↦ two s bs (ground arith) h
      | inr m ↦ elim (Bool-cases (b / 16 == 14)) [
        | inl n ↦ three s bs (ground arith) h
        | inr n ↦ elim (Bool-cases (b / 8 == 30)) [
          | inl o ↦ four s bs (ground arith) h
          | inr o ↦ ground arith
        ]
      ]
    ]
  ]
