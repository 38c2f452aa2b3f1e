-- ===== src/Tokenizer/Append.antt =====
-- Reading with more characters behind.
use re_poplan.Prelude.{
  ℕ, ◌≡◌, refl, arith, Bool, true, false, ◌&&◌, ◌||◌, List, [], ◌∷◌, ◌++◌, ◌==◌, if◌then◌else◌,
  Bool-cases, inl, inr,
}
use re_poplan.Value.{Result, ok, err, ◌>>=◌}
use re_poplan.Tokenizer.Places.{Place, Cursor, moved, digit, span}
use re_poplan.Tokenizer.Number.{
  exponent_of_digits, exponent_digits, exponent_sign, exponent, fraction_digits, fraction,
  radix_digits, is_radix, number_rest,
}

-- `y` reads what `x` did, and leaves `r` behind; nothing is said where `x` throws, or (for `Grows`) where
-- it leaves no character.
unfoldable pub Same {ℓ} : {A : Type ℓ} → Result (A × Cursor) → Result (A × Cursor) → List ℕ → Type ℓ
Same (err e) y r = Unit
Same (ok (a, (cs, w))) y r = y ≡ ok (a, (cs ++ r, w))

unfoldable pub Grows {ℓ} :
    {A : Type ℓ} → Result (A × Cursor) → Result (A × Cursor) → List ℕ → Type ℓ
Grows (err e) y r = Unit
Grows (ok (a, ([], w))) y r = Unit
Grows (ok (a, (c ∷ cs, w))) y r = y ≡ ok (a, (c ∷ (cs ++ r), w))

unfoldable pub ExtendsTo : List ℕ × Cursor → List ℕ × Cursor → List ℕ → Type 0
ExtendsTo (t, ([], w)) y r = Unit
ExtendsTo (t, (c ∷ cs, w)) y r = y ≡ (t, (c ∷ (cs ++ r), w))

prefix_ExtendsTo :
    (c : ℕ) (x y : List ℕ × Cursor) (r : List ℕ)
    → ExtendsTo x y r
    → ExtendsTo (c ∷ x.0, x.1) (c ∷ y.0, y.1) r
unfolding ExtendsTo
prefix_ExtendsTo c (t, ([], w)) y r h = tt
prefix_ExtendsTo c (t, (d ∷ cs, w)) y r h = rw h refl

pub span-append :
    (p : ℕ → Bool) (cs r : List ℕ) (w : Place) → ExtendsTo (span p cs w) (span p (cs ++ r) w) r
unfolding span ExtendsTo
span-append p [] r w = tt
span-append p (c ∷ cs) r w = elim (Bool-cases (p c)) [
  | inl y ↦ rw y (prefix_ExtendsTo c _ _ r (span-append p cs r (moved c w)))
  | inr n ↦ rw n refl
]

Grows-map :
    {A B : Type 0} (f : A → B) (x y : Result (A × Cursor)) (r : List ℕ)
    → Grows x y r
    → Grows (do (a, k) ← x; ok (f a, k)) (do (a, k) ← y; ok (f a, k)) r
unfolding Grows
Grows-map f (err e) y r h = tt
Grows-map f (ok (a, ([], w))) y r h = tt
Grows-map f (ok (a, (c ∷ cs, w))) y r h = rw h refl

-- Nothing is left, or an error.
unfoldable pub Ends {ℓ} : {A : Type ℓ} → Result (A × Cursor) → Type 0
Ends (err e) = Unit
Ends (ok (a, ([], w))) = Unit
Ends (ok (a, (c ∷ cs, w))) = ⊥

pub Ends-Grows : {A : Type 0} (x y : Result (A × Cursor)) (r : List ℕ) → Ends x → Grows x y r
unfolding Ends Grows
Ends-Grows (err e) y r h = tt
Ends-Grows (ok (a, ([], w))) y r h = tt
Ends-Grows (ok (a, (c ∷ cs, w))) y r h = absurd h

-- Reading that goes on where a span ends.
pub after_span :
    {A : Type 0} (f g : List ℕ → Cursor → Result (A × Cursor)) (x y : List ℕ × Cursor) (r : List ℕ)
    → ExtendsTo x y r
    → ((t : List ℕ) (w : Place) → Ends (f t ([], w)))
    → ((t cs : List ℕ) (c : ℕ) (w : Place) → Grows (f t (c ∷ cs, w)) (g t (c ∷ (cs ++ r), w)) r)
    → Grows (f x.0 x.1) (g y.0 y.1) r
unfolding ExtendsTo
after_span f g (t, ([], w)) y r h a b = Ends-Grows (f t ([], w)) (g y.0 y.1) r (a t w)
after_span f g (t, (c ∷ cs, w)) y r h a b = rw h (b t cs c w)

digits-Ends : (text t : List ℕ) (w : Place) → Ends (exponent_of_digits false text t ([], w))
unfolding exponent_of_digits Ends
digits-Ends text [] w = tt
digits-Ends text (d ∷ t) w = tt

digits-Grows :
    (e : Bool) (text r t cs : List ℕ) (c : ℕ) (w : Place)
    → Grows
        (exponent_of_digits false text t (c ∷ cs, w))
        (exponent_of_digits e text t (c ∷ (cs ++ r), w))
        r
unfolding exponent_of_digits Grows
digits-Grows e text r [] cs c w = tt
digits-Grows e text r (d ∷ t) cs c w = refl

exponent_digits-Grows :
    (e : Bool) (text cs r : List ℕ) (w : Place)
    → Grows (exponent_digits false text cs w) (exponent_digits e text (cs ++ r) w) r
unfolding exponent_digits
exponent_digits-Grows e text cs r w =
    after_span (exponent_of_digits false text) (exponent_of_digits e text) (span digit cs w)
      (span digit (cs ++ r) w) r (span-append digit cs r w) (digits-Ends text)
      (digits-Grows e text r)

exponent_sign-Ends : (text : List ℕ) (w : Place) → Ends (exponent_sign false text [] w)
unfolding exponent_sign exponent_digits exponent_of_digits span Ends
exponent_sign-Ends text w = tt

pub same-Grows :
    {A : Type 0} (a : A) (c : ℕ) (cs r : List ℕ) (w : Place)
    → Grows (ok (a, (c ∷ cs, w))) (ok (a, (c ∷ (cs ++ r), w))) r
unfolding Grows
same-Grows a c cs r w = refl

pub all-Ends : {A : Type 0} (a : A) (w : Place) → Ends (ok (a, ([], w)))
unfolding Ends
all-Ends a w = tt

pub if-Grows :
    {A : Type 0} (b : Bool) (x x' y y' : Result (A × Cursor)) (r : List ℕ)
    → Grows x y r
    → Grows x' y' r
    → Grows (if b then x else x') (if b then y else y') r
if-Grows true x x' y y' r h k = h
if-Grows false x x' y y' r h k = k

exponent_sign-Grows :
    (e : Bool) (text cs r : List ℕ) (w : Place)
    → Grows (exponent_sign false text cs w) (exponent_sign e text (cs ++ r) w) r
unfolding exponent_sign
exponent_sign-Grows e text [] r w = Ends-Grows _ _ r (exponent_sign-Ends text w)
exponent_sign-Grows e text (c ∷ cs) r w =
    if-Grows (c == b'+' || c == b'-') _ _ _ _ r
      (exponent_digits-Grows e (text ++ c ∷ []) cs r (moved c w))
      (exponent_digits-Grows e text (c ∷ cs) r w)

exponent-Ends : (text : List ℕ) (w : Place) → Ends (exponent false text [] w)
unfolding exponent Ends
exponent-Ends text w = tt

exponent-Grows :
    (e : Bool) (text cs r : List ℕ) (w : Place)
    → Grows (exponent false text cs w) (exponent e text (cs ++ r) w) r
unfolding exponent
exponent-Grows e text [] r w = Ends-Grows _ _ r (exponent-Ends text w)
exponent-Grows e text (c ∷ cs) r w =
    if-Grows (c == b'$' || c == b'&') _ _ _ _ r
      (exponent_sign-Grows e (text ++ b'e' ∷ []) cs r (moved c w)) (same-Grows text c cs r w)

fraction-Ends : (text : List ℕ) (w : Place) → Ends (fraction false text [] w)
unfolding fraction exponent Ends
fraction-Ends text w = tt

fraction_digits-Grows :
    (e : Bool) (text cs r : List ℕ) (w : Place)
    → Grows (fraction_digits false text cs w) (fraction_digits e text (cs ++ r) w) r
unfolding fraction_digits
fraction_digits-Grows e text cs r w =
    after_span (λ t k. exponent false (text ++ b'.' ∷ t) k.0 k.1)
      (λ t k. exponent e (text ++ b'.' ∷ t) k.0 k.1) (span digit cs w) (span digit (cs ++ r) w) r
      (span-append digit cs r w) (λ t v. exponent-Ends (text ++ b'.' ∷ t) v)
      (λ t ds c v. exponent-Grows e (text ++ b'.' ∷ t) (c ∷ ds) r v)

-- Where there is no point.
fraction_other :
    (e : Bool) (text : List ℕ) (c : ℕ) (r : List ℕ) (w : Place)
    → (c == b'.') ≡ false
    → fraction e text (c ∷ r) w ≡ exponent e text (c ∷ r) w
unfolding fraction
fraction_other e text c [] w h = ground arith
fraction_other e text c (d ∷ r) w h = rw h refl

point-Ends :
    (text : List ℕ) (c : ℕ) (w : Place) → (c == b'.') ≡ true → Ends (fraction false text (c ∷ []) w)
unfolding fraction Ends
point-Ends text c w h = rw h tt

fraction_last :
    (e : Bool) (text : List ℕ) (c : ℕ) (r : List ℕ) (w : Place)
    → Grows (fraction false text (c ∷ []) w) (fraction e text (c ∷ r) w) r
fraction_last e text c r w = elim (Bool-cases (c == b'.')) [
  | inl y ↦ Ends-Grows _ _ r (point-Ends text c w y)
  | inr n ↦
      rw (fraction_other false text c [] w n, fraction_other e text c r w n)
        (exponent-Grows e text (c ∷ []) r w)
]

fraction-Grows :
    (e : Bool) (text cs r : List ℕ) (w : Place)
    → Grows (fraction false text cs w) (fraction e text (cs ++ r) w) r
unfolding fraction
fraction-Grows e text [] r w = Ends-Grows _ _ r (fraction-Ends text w)
fraction-Grows e text (c ∷ []) r w = fraction_last e text c r w
fraction-Grows e text (c ∷ d ∷ cs) r w =
    if-Grows (c == b'.' && digit d) _ _ _ _ r (fraction_digits-Grows e text (d ∷ cs) r (moved c w))
      (exponent-Grows e text (c ∷ d ∷ cs) r w)

radix_digits-Grows :
    (text cs r : List ℕ) (w : Place)
    → Grows (radix_digits text cs w) (radix_digits text (cs ++ r) w) r
unfolding radix_digits
radix_digits-Grows text cs r w =
    after_span (λ t k. ok (text ++ b':' ∷ t, k)) (λ t k. ok (text ++ b':' ∷ t, k)) (span digit cs w)
      (span digit (cs ++ r) w) r (span-append digit cs r w) (λ t v. all-Ends (text ++ b':' ∷ t) v)
      (λ t ds c v. same-Grows (text ++ b':' ∷ t) c ds r v)

pub number_rest-Ends : (text : List ℕ) (w : Place) → Ends (number_rest false text [] w)
unfolding number_rest fraction exponent Ends
number_rest-Ends text w = tt

pub number_rest-Grows :
    (e : Bool) (text cs r : List ℕ) (w : Place)
    → Grows (number_rest false text cs w) (number_rest e text (cs ++ r) w) r
unfolding number_rest
number_rest-Grows e text [] r w = Ends-Grows _ _ r (number_rest-Ends text w)
number_rest-Grows e text (c ∷ cs) r w =
    if-Grows (c == b':' && is_radix text) _ _ _ _ r (radix_digits-Grows text cs r (moved c w))
      (fraction-Grows e text (c ∷ cs) r w)
