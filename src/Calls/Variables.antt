-- ===== src/Calls/Variables.antt =====
-- The variables of a function.
use mathlib.Core.List.{reverse-reverse, reverse-cons}
use mathlib.Core.Path.{subst}
use re_poplan.Prelude.{
  ℕ, ◌≡◌, ◌∙◌, sym, ap, true, List, [], ◌∷◌, ◌++◌, reverse, some, ◌⊎◌, inl, inr, some_injective,
}
use re_poplan.Value.{Value}
use re_poplan.State.{Text, Object, ObjectKind, Runtime, Program, lookup_text}
use re_poplan.Store.{handle}
use re_poplan.Calls.Undoes.{has_key}

abbrev pub IsIdentifier : Runtime → ℕ → Type 0
IsIdentifier s j = (o : Object) × (s.objects j ≡ some o) × (o.kind ≡ ObjectKind.identifier)

abbrev pub OneOf : Text → List Text → Type 0
OneOf name [] = ⊥
OneOf name (n ∷ names) = (name ≡ n) ⊎ OneOf name names

-- The symbol of one of the names.
abbrev pub Names : Program → List Text → ℕ → Type 0
Names p names j =
    (name : Text) × (symbol : Value) × OneOf name names
    × (lookup_text name p.symbols ≡ some symbol)
    × (handle symbol ≡ j)

-- The variables of a function with the object f and the program p: those that its closure captured, its
-- own locals and results, and its arguments.
abbrev pub IsVariable : Object → Program → ℕ → Type 0
IsVariable f p j =
    (has_key j f.environment ≡ true) ⊎ (Names p (p.locals ++ p.results) j ⊎ Names p p.args j)

pub the_symbol :
    (p : Program) (name : Text) (symbol : Value) (j : ℕ)
    → lookup_text name p.symbols ≡ some symbol
    → Names p (name ∷ []) j
    → j ≡ handle symbol
the_symbol p name symbol j h (n, y, inl e, l, w) =
    let same : some y ≡ some symbol = sym l ∙ ap (λ t. lookup_text t p.symbols) e ∙ h in
    sym w ∙ ap handle (some_injective same)
the_symbol p name symbol j h (n, y, inr f, l, w) = absurd f

pub Names-cons :
    (p : Program) (name : Text) (names : List Text) (j : ℕ)
    → Names p (name ∷ names) j
    → Names p (name ∷ []) j ⊎ Names p names j
Names-cons p name names j (n, y, inl e, l, w) = inl (n, y, inl e, l, w)
Names-cons p name names j (n, y, inr o, l, w) = inr (n, y, o, l, w)

pub Names-tail :
    (p : Program) (name : Text) (names : List Text) (j : ℕ)
    → Names p names j
    → Names p (name ∷ names) j
Names-tail p name names j (n, y, o, l, w) = (n, y, inr o, l, w)

pub Names-head :
    (p : Program) (name : Text) (names : List Text) (j : ℕ)
    → Names p (name ∷ []) j
    → Names p (name ∷ names) j
Names-head p name names j (n, y, inl e, l, w) = (n, y, inl e, l, w)
Names-head p name names j (n, y, inr f, l, w) = absurd f

OneOf-append_left : (name : Text) (ms ns : List Text) → OneOf name ms → OneOf name (ms ++ ns)
OneOf-append_left name [] ns h = absurd h
OneOf-append_left name (m ∷ ms) ns (inl e) = inl e
OneOf-append_left name (m ∷ ms) ns (inr h) = inr (OneOf-append_left name ms ns h)

OneOf-append_right : (name : Text) (ms ns : List Text) → OneOf name ns → OneOf name (ms ++ ns)
OneOf-append_right name [] ns h = h
OneOf-append_right name (m ∷ ms) ns h = inr (OneOf-append_right name ms ns h)

OneOf-reverse : (name : Text) (names : List Text) → OneOf name names → OneOf name (reverse names)
OneOf-reverse name [] h = absurd h
OneOf-reverse name (n ∷ names) (inl e) =
    subst (OneOf name) (sym (reverse-cons n names))
      (OneOf-append_right name (reverse names) (n ∷ []) (inl e))
OneOf-reverse name (n ∷ names) (inr h) =
    subst (OneOf name) (sym (reverse-cons n names))
      (OneOf-append_left name (reverse names) (n ∷ []) (OneOf-reverse name names h))

pub Names-reverse :
    (p : Program) (names : List Text) (j : ℕ) → Names p names j → Names p (reverse names) j
Names-reverse p names j (n, y, o, l, w) = (n, y, OneOf-reverse n names o, l, w)

pub Names-unreverse :
    (p : Program) (names : List Text) (j : ℕ) → Names p (reverse names) j → Names p names j
Names-unreverse p names j h =
    subst (λ x. Names p x j) (reverse-reverse names) (Names-reverse p (reverse names) j h)
