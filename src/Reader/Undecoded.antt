-- ===== src/Reader/Undecoded.antt =====
-- Why a byte is not decoded.
use re_poplan.Prelude.{
  ℕ, zero, suc, ◌+◌, ◌*◌, ◌/◌, ◌%◌, ◌≡◌, refl, Bool, true, false, not, ◌&&◌, ◌||◌, List, [], ◌∷◌,
  ltb, ◌==◌, if◌then◌else◌, length, Option, none, some, inl, inr,
}
use mathlib.Core.Path.{subst}
use re_poplan.Value.{
  Exception, Result, ok, err, ◌>>=◌, need_input, need_list, out_of_range, fault, Result-cases,
  throw, bytes,
}
use re_poplan.Utf8.{invalid_scalar, decoding, decode_loop, decode_scalar, lead, continuation, least}
use re_poplan.Reader.{is_empty, decoding_error, incomplete_utf8}

-- What is thrown has a message at the end of the input.
unfoldable Speaks {ℓ} : {A : Type ℓ} → Result A → Type 0
Speaks (ok a) = Unit
Speaks (err e) = is_empty (decoding_error true (some e)) ≡ false

bind-Speaks :
    {A B : Type 0} (x : Result A) (f : A → Result B)
    → Speaks x
    → ((a : A) → Speaks (f a))
    → Speaks (x >>= f)
unfolding Speaks
bind-Speaks (ok a) f h k = k a
bind-Speaks (err e) f h k = h

if-Speaks :
    {A : Type 0} (b : Bool) (x y : Result A) → Speaks x → Speaks y → Speaks (if b then x else y)
if-Speaks true x y h k = h
if-Speaks false x y h k = k

returns : {A : Type 0} (a : A) → Speaks (ok a)
unfolding Speaks
returns a = tt

lead-Speaks : (b : ℕ) → Speaks (lead b)
unfolding lead Speaks bytes
lead-Speaks b = if-Speaks (ltb b 0x80) _ _ tt (
    if-Speaks (b / 32 == 6) _ _ tt
      (if-Speaks (b / 16 == 14) _ _ tt (if-Speaks (b / 8 == 30) _ _ tt refl)))

continuation-Speaks : (n c : ℕ) (s : List ℕ) → Speaks (continuation n c s)
unfolding continuation Speaks bytes
continuation-Speaks zero c s = tt
continuation-Speaks (suc n) c [] = refl
continuation-Speaks (suc n) c (d ∷ s) =
    if-Speaks (d / 64 == 2) _ _ (continuation-Speaks n (c * 64 + d % 64) s) refl

waiting : (A : Type 0) → Speaks {A = A} (err need_input)
unfolding Speaks bytes
waiting A = refl

bad_scalar : (A : Type 0) → Speaks {A = A} (throw "invalid UTF-8 scalar")
unfolding Speaks bytes
bad_scalar A = refl

decode_scalar-Speaks : (b : ℕ) (s : List ℕ) → Speaks (decode_scalar b s)
unfolding decode_scalar
decode_scalar-Speaks b s = bind-Speaks (lead b) _ (lead-Speaks b) (λ (c₀, n).
    if-Speaks (n == 0) _ _ (returns _) (
      if-Speaks (ltb (length s) n) _ _ (waiting _) (
        bind-Speaks (continuation n c₀ s) _ (continuation-Speaks n c₀ s) (λ (c, rest).
          if-Speaks (invalid_scalar c || ltb c (least n)) _ _ (bad_scalar _) (returns _)))))

err-Speaks :
    (x : Exception)
    → Speaks {A = ℕ × List ℕ} (err x)
    → is_empty (decoding_error true (some x)) ≡ false
unfolding Speaks
err-Speaks x h = h

-- Bytes of which none is decoded are not, for a reason.
pub no_scalar :
    (b : ℕ) (s : List ℕ)
    → (decoding (b ∷ s)).out ≡ []
    → is_empty (decoding_error true (decoding (b ∷ s)).stop) ≡ false
unfolding decoding decode_loop
no_scalar b s h = elim (Result-cases (decode_scalar b s)) [
  | inl ((c, rest), e) ↦ absurd (cc (rw (e, decode_loop) at h))
  | inr (x, e) ↦ rw (e, decode_loop) (err-Speaks x (subst Speaks e (decode_scalar-Speaks b s)))
]

-- The test of the end of the source fails at the end of the input only where there is a message.
pub message_said :
    (stop : Option Exception)
    → (true && not (incomplete_utf8 stop) && is_empty (decoding_error true stop)) ≡ false
    → is_empty (decoding_error true stop) ≡ false
unfolding bytes
message_said none h = absurd (cc h)
message_said (some need_input) h = refl
message_said (some (fault [])) h = absurd (cc h)
message_said (some (fault (c ∷ m))) h = refl
message_said (some (need_list v)) h = refl
message_said (some out_of_range) h = refl
