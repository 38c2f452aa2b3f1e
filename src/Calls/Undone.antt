-- ===== src/Calls/Undone.antt =====
-- Dynamic binding: what the call of a user's function binds anew, and the cells that its frame saves.
use mathlib.Core.List.{reverse-reverse}
use mathlib.Core.Path.{subst, subst₂}
use re_poplan.Prelude.{
  ℕ, ◌≡◌, ◌∙◌, sym, ap, refl, true, false, List, [], ◌∷◌, ◌++◌, reverse, Option, none, some, ◌==◌,
  ◌⊎◌, inl, inr, arith, Bool-cases, Option-cases,
}
use re_poplan.Value.{Value, Result, ok}
use re_poplan.State.{
  Text, Object, Runtime, Frame, Program, update_map, Exec, ◌>>=◌, at, lookup_text, plain_frame,
  bind-eq-ok, pure-eq-ok,
}
use re_poplan.Store.{handle}
use re_poplan.Bindings.{cell, symbol_cell, set_active, new_cell, pop}
use re_poplan.Bindings.Bound.{identifier_itself}
use re_poplan.Calls.{
  install, install_all, add_variable, add_locals, add_arguments, Build, put, push_activation,
  activate, enter,
}
use re_poplan.Calls.Undoes.{Undoes, Undoes-nothing, Undoes-add, has_key}
use re_poplan.Calls.Variables.{
  IsIdentifier, Names, IsVariable, the_symbol, Names-cons, Names-tail, Names-head, Names-reverse,
  Names-unreverse,
}

-- What is saved, for the call from s₀ that has come to s: the symbols of `now` as well as those that
-- `before` had.
record Undone (s₀ : Runtime) (now : ℕ → Type 0) (before saved : List (ℕ × ℕ)) (s : Runtime)
    : Type 0 where
  undoes : Undoes s₀.active s.active saved
  frames_kept : s.frames ≡ s₀.frames
  objects_kept : s.objects ≡ s₀.objects
  keeps : (j : ℕ) → has_key j before ≡ true → has_key j saved ≡ true
  adds : (j : ℕ) → now j → has_key j saved ≡ true

abbrev Nothing : ℕ → Type 0
Nothing j = ⊥

-- The same with nothing new, and with the symbols of two steps.
again :
    (s₀ : Runtime) (now : ℕ → Type 0) (before saved : List (ℕ × ℕ)) (s : Runtime)
    → Undone s₀ now before saved s
    → Undone s₀ Nothing saved saved s
again s₀ now before saved s u = record {
  undoes = u.undoes;
  frames_kept = u.frames_kept;
  objects_kept = u.objects_kept;
  keeps = λ j h. h;
  adds = λ j h. absurd h;
}

both :
    (s₀ : Runtime) (one two all : ℕ → Type 0) (a b c : List (ℕ × ℕ)) (s t : Runtime)
    → Undone s₀ one a b s
    → Undone s₀ two b c t
    → ((j : ℕ) → all j → one j ⊎ two j)
    → Undone s₀ all a c t
both s₀ one two all a b c s t u v split = record {
  undoes = v.undoes;
  frames_kept = v.frames_kept;
  objects_kept = v.objects_kept;
  keeps = λ j h. v.keeps j (u.keeps j h);
  adds = λ j h. elim (split j h) [ inl x ↦ v.keeps j (u.adds j x) | inr y ↦ v.adds j y ];
}

record Installed (symbol id : ℕ) (saved saved' : List (ℕ × ℕ)) (s t : Runtime) : Type 0 where
  old : ℕ
  kept : saved' ≡ (symbol, old) ∷ saved
  new : (j : ℕ) → t.active j ≡ update_map s.active symbol id j
  was : (k : ℕ) → s.active symbol ≡ some k → k ≡ old
  same_frames : t.frames ≡ s.frames
  same_objects : t.objects ≡ s.objects

-- An identifier stands for itself.
install_symbol : ℕ → ℕ → List (ℕ × ℕ) → Exec (List (ℕ × ℕ))
install_symbol symbol id saved =
    symbol_cell symbol >>= λ old. set_active symbol id >>= λ _. λ s. (ok ((symbol, old) ∷ saved), s)

install_itself :
    (symbol id : ℕ) (saved : List (ℕ × ℕ)) (s : Runtime)
    → IsIdentifier s symbol
    → install symbol id saved s ≡ install_symbol symbol id saved s
unfolding install cell install_symbol
install_itself symbol id saved s (o, e, k) = rw (identifier_itself symbol o s e k) refl

install_symbol-Installed :
    (symbol id : ℕ) (saved saved' : List (ℕ × ℕ)) (s t : Runtime)
    → install_symbol symbol id saved s ≡ (ok saved', t)
    → Installed symbol id saved saved' s t
unfolding install_symbol symbol_cell new_cell set_active
install_symbol-Installed symbol id saved saved' s t h = elim (Option-cases (s.active symbol)) [
  | inl absent ↦ record {
    old = s.next;
    kept = ground arith;
    new = λ j. ground arith;
    was = λ k e. cc;
    same_frames = ground arith;
    same_objects = ground arith;
  }
  | inr (old, found) ↦ record {
    old = old;
    kept = ground arith;
    new = λ j. ground arith;
    was = λ k e. cc;
    same_frames = ground arith;
    same_objects = ground arith;
  }
]

IsIdentifier-still :
    (s₀ s : Runtime) (j : ℕ) → s.objects ≡ s₀.objects → IsIdentifier s₀ j → IsIdentifier s j
IsIdentifier-still s₀ s j e (o, f, k) = (o, ap (λ g. g j) e ∙ f, k)

install-Undone :
    (s₀ : Runtime) (now : ℕ → Type 0) (symbol id : ℕ) (before saved saved' : List (ℕ × ℕ))
    (s t : Runtime)
    → IsIdentifier s₀ symbol
    → Undone s₀ now before saved s
    → install symbol id saved s ≡ (ok saved', t)
    → Undone s₀ (λ j. j ≡ symbol) saved saved' t
unfolding has_key
install-Undone s₀ now symbol id before saved saved' s t q u h =
    let i = install_symbol-Installed symbol id saved saved' s t (
      sym (install_itself symbol id saved s (IsIdentifier-still s₀ s symbol u.objects_kept q))
      ∙ h) in
    subst (λ l. Undone s₀ (λ j. j ≡ symbol) saved l t) (sym i.kept)
      (record {
        undoes = Undoes-add s₀.active s.active t.active saved symbol id i.old u.undoes i.new i.was;
        frames_kept = i.same_frames ∙ u.frames_kept;
        objects_kept = i.same_objects ∙ u.objects_kept;
        keeps = λ j e. ground arith;
        adds = λ j e. ground arith;
      })

at-eq-ok :
    {A : Type 0} (o : Option A) (a : A) (s t : Runtime)
    → at o s ≡ (ok a, t)
    → (o ≡ some a) × (t ≡ s)
at-eq-ok none a s t h = absurd (cc (ap (λ p. p.0) h))
at-eq-ok (some b) a s t h = (cc (ap (λ p. p.0) h), sym (ap (λ p. p.1) h))

-- A step that changes neither bindings nor frames nor objects.
unchanged :
    (s₀ : Runtime) (now : ℕ → Type 0) (before saved : List (ℕ × ℕ)) (s t : Runtime)
    → Undone s₀ now before saved s
    → t.active ≡ s.active
    → t.frames ≡ s.frames
    → t.objects ≡ s.objects
    → Undone s₀ now before saved t
unchanged s₀ now before saved s t u a f o = record {
  undoes = subst (λ x. Undoes s₀.active x saved) (sym a) u.undoes;
  frames_kept = f ∙ u.frames_kept;
  objects_kept = o ∙ u.objects_kept;
  keeps = u.keeps;
  adds = u.adds;
}

new_cell-Undone :
    (s₀ : Runtime) (now : ℕ → Type 0) (before saved : List (ℕ × ℕ)) (v : Value) (id : ℕ)
    (s t : Runtime)
    → Undone s₀ now before saved s
    → new_cell v s ≡ (ok id, t)
    → Undone s₀ now before saved t
unfolding new_cell
new_cell-Undone s₀ now before saved v id s t u h =
    unchanged s₀ now before saved s t u (ground arith) (ground arith) (ground arith)

pop-Undone :
    (s₀ : Runtime) (now : ℕ → Type 0) (before saved : List (ℕ × ℕ)) (v : Value) (s t : Runtime)
    → Undone s₀ now before saved s
    → pop s ≡ (ok v, t)
    → Undone s₀ now before saved t
unfolding pop
pop-Undone s₀ now before saved v s t u h =
    unchanged s₀ now before saved s t u (ground arith) (ground arith) (ground arith)

abbrev Known : Runtime → (ℕ → Type 0) → Type 0
Known s₀ now = (j : ℕ) → now j → IsIdentifier s₀ j

module _ (s₀ : Runtime) where
  install_all-Undone :
      (env saved saved' : List (ℕ × ℕ)) (s t : Runtime)
      → Known s₀ (λ j. has_key j env ≡ true)
      → Undone s₀ Nothing saved saved s
      → install_all env saved s ≡ (ok saved', t)
      → Undone s₀ (λ j. has_key j env ≡ true) saved saved' t
  unfolding install_all has_key
  install_all-Undone [] saved saved' s t q u h =
      let (e, k) = pure-eq-ok saved saved' s t h in
      subst₂ (λ l x. Undone s₀ (λ j. false ≡ true) saved l x) e k
        (both s₀ Nothing Nothing (λ j. false ≡ true) saved saved saved s s u u
          (λ j f. absurd (cc f)))
  install_all-Undone ((symbol, id) ∷ env) saved saved' s t q u h =
      let (mid, m, e, k) = bind-eq-ok (install symbol id saved) _ s h in
      let one =
        install-Undone s₀ Nothing symbol id saved saved mid s m (q symbol (ground arith)) u e in
      let others =
        install_all-Undone env mid saved' m t (λ j f. q j (ground arith))
          (again s₀ (λ j. j ≡ symbol) saved mid m one) k in
      both s₀ (λ j. j ≡ symbol) (λ j. has_key j env ≡ true)
        (λ j. has_key j ((symbol, id) ∷ env) ≡ true) saved mid saved' m t one others
        (λ j f. elim (Bool-cases (j == symbol)) [
          | inl y ↦ inl (ground arith)
          | inr n ↦ inr (ground arith)
        ])

  abbrev OneName : Program → Text → ℕ → Type 0
  OneName p name = Names p (name ∷ [])

  add_variable-Undone :
      (p : Program) (name : Text) (v : Value) (b b' : Build) (s t : Runtime)
      → Known s₀ (OneName p name)
      → Undone s₀ Nothing b.saved b.saved s
      → add_variable p name v b s ≡ (ok b', t)
      → Undone s₀ (OneName p name) b.saved b'.saved t
  unfolding add_variable
  add_variable-Undone p name v b b' s t q u h =
      let (id, m₁, e₁, k₁) = bind-eq-ok (new_cell v) _ s h in
      let (symbol, m₂, e₂, k₂) = bind-eq-ok (at (lookup_text name p.symbols)) _ m₁ k₁ in
      let (saved, m₃, e₃, k₃) = bind-eq-ok (install (handle symbol) id b.saved) _ m₂ k₂ in
      let started = new_cell-Undone s₀ Nothing b.saved b.saved v id s m₁ u e₁ in
      let (there, here) = at-eq-ok (lookup_text name p.symbols) symbol m₁ m₂ e₂ in
      let (f, g) =
        pure-eq-ok (record { environment = put (handle symbol) id b.environment; saved = saved }) b'
          m₃ t k₃ in
      let known = q (handle symbol) (name, symbol, inl refl, there, refl) in
      let got =
        install-Undone s₀ Nothing (handle symbol) id b.saved b.saved saved m₂ m₃ known
          (subst (Undone s₀ Nothing b.saved b.saved) (sym here) started) e₃ in
      let named =
        both s₀ Nothing (λ j. j ≡ handle symbol) (OneName p name) b.saved b.saved saved m₁ m₃
          started got (λ j o. inr (the_symbol p name symbol j there o)) in
      subst₂ (λ (x : Build) y. Undone s₀ (OneName p name) b.saved x.saved y) f g named

  none_named :
      (p : Program) (b : List (ℕ × ℕ)) (s : Runtime)
      → Undone s₀ Nothing b b s
      → Undone s₀ (Names p []) b b s
  none_named p b s u =
      both s₀ Nothing Nothing (Names p []) b b b s s u u (λ j (n, y, o, l, w). absurd o)

  add_locals-Undone :
      (p : Program) (names : List Text) (b b' : Build) (s t : Runtime)
      → Known s₀ (Names p names)
      → Undone s₀ Nothing b.saved b.saved s
      → add_locals p names b s ≡ (ok b', t)
      → Undone s₀ (Names p names) b.saved b'.saved t
  unfolding add_locals
  add_locals-Undone p [] b b' s t q u h =
      let (f, g) = pure-eq-ok b b' s t h in
      subst₂ (λ (x : Build) y. Undone s₀ (Names p []) b.saved x.saved y) f g
        (none_named p b.saved s u)
  add_locals-Undone p (name ∷ names) b b' s t q u h =
      let (c, m, e, k) = bind-eq-ok (add_variable p name Value.undefined b) _ s h in
      let one =
        add_variable-Undone p name Value.undefined b c s m
          (λ j n. q j (Names-head p name names j n)) u e in
      let others =
        add_locals-Undone p names c b' m t (λ j n. q j (Names-tail p name names j n))
          (again s₀ (OneName p name) b.saved c.saved m one) k in
      both s₀ (OneName p name) (Names p names) (Names p (name ∷ names)) b.saved c.saved b'.saved m t
        one others (Names-cons p name names)

  add_arguments-Undone :
      (p : Program) (names : List Text) (b b' : Build) (s t : Runtime)
      → Known s₀ (Names p names)
      → Undone s₀ Nothing b.saved b.saved s
      → add_arguments p names b s ≡ (ok b', t)
      → Undone s₀ (Names p names) b.saved b'.saved t
  unfolding add_arguments
  add_arguments-Undone p [] b b' s t q u h =
      let (f, g) = pure-eq-ok b b' s t h in
      subst₂ (λ (x : Build) y. Undone s₀ (Names p []) b.saved x.saved y) f g
        (none_named p b.saved s u)
  add_arguments-Undone p (name ∷ names) b b' s t q u h =
      let (v, m₁, e₁, k₁) = bind-eq-ok pop _ s h in
      let (c, m, e, k) = bind-eq-ok (add_variable p name v b) _ m₁ k₁ in
      let popped = pop-Undone s₀ Nothing b.saved b.saved v s m₁ u e₁ in
      let one =
        add_variable-Undone p name v b c m₁ m (λ j n. q j (Names-head p name names j n)) popped e in
      let others =
        add_arguments-Undone p names c b' m t (λ j n. q j (Names-tail p name names j n))
          (again s₀ (OneName p name) b.saved c.saved m one) k in
      both s₀ (OneName p name) (Names p names) (Names p (name ∷ names)) b.saved c.saved b'.saved m t
        one others (Names-cons p name names)

-- The frame that a call of a user's function pushes.
pub record Entered (f : Object) (p : Program) (s t : Runtime) : Type 0 where
  pub frame : Frame
  pub pushed : t.frames ≡ frame ∷ s.frames
  pub of_program : frame.program ≡ p
  pub undoes : Undoes s.active t.active (reverse frame.saved)
  pub variables_saved : (j : ℕ) → IsVariable f p j → has_key j (reverse frame.saved) ≡ true

activate-Entered :
    (v : Value) (f : Object) (p : Program) (s t : Runtime)
    → ((j : ℕ) → IsVariable f p j → IsIdentifier s j)
    → activate v f p s ≡ (ok tt, t)
    → Entered f p s t
unfolding activate push_activation has_key
activate-Entered v f p s t q h =
    let (saved, m₁, e₁, k₁) = bind-eq-ok (install_all f.environment []) _ s h in
    let start : Build = record { environment = f.environment; saved = saved } in
    let (b, m₂, e₂, k₂) = bind-eq-ok (add_locals p (p.locals ++ p.results) start) _ m₁ k₁ in
    let (b', m₃, e₃, k₃) =
      bind-eq-ok (add_arguments p (reverse p.args) b) (push_activation v p) m₂ k₂ in
    let u₀ : Undone s Nothing [] [] s = record {
      undoes = Undoes-nothing s.active;
      frames_kept = refl;
      objects_kept = refl;
      keeps = λ j e. e;
      adds = λ j e. absurd e;
    } in
    let closure = λ (j : ℕ). has_key j f.environment ≡ true in
    let local = Names p (p.locals ++ p.results) in
    let argument = Names p (reverse p.args) in
    let u₁ = install_all-Undone s f.environment [] saved s m₁ (λ j e. q j (inl e)) u₀ e₁ in
    let u₂ =
      add_locals-Undone s p (p.locals ++ p.results) start b m₁ m₂ (λ j e. q j (inr (inl e)))
        (again s closure [] saved m₁ u₁) e₂ in
    let u₃ =
      add_arguments-Undone s p (reverse p.args) b b' m₂ m₃
        (λ j e. q j (inr (inr (Names-unreverse p p.args j e)))) (again s local saved b.saved m₂ u₂)
        e₃ in
    let state = ap (λ (x : Result (Unit {0}) × Runtime). x.1) k₃ in
    let fr : Frame = record (plain_frame p) {
      function = v;
      environment = b'.environment;
      saved = reverse b'.saved;
    } in
    let all : (j : ℕ) → IsVariable f p j → has_key j b'.saved ≡ true = λ j e. elim e [
      | inl c ↦ u₃.keeps j (u₂.keeps j (u₁.adds j c))
      | inr (inl l) ↦ u₃.keeps j (u₂.adds j l)
      | inr (inr a) ↦ u₃.adds j (Names-reverse p p.args j a)
    ] in
    record {
      frame = fr;
      pushed = sym (ap (λ x. x.frames) state) ∙ ap (◌∷◌ fr) u₃.frames_kept;
      of_program = refl;
      undoes =
          subst₂ (Undoes s.active) (ap (λ x. x.active) state) (sym (reverse-reverse b'.saved))
            u₃.undoes;
      variables_saved = λ j e. ap (has_key j) (reverse-reverse b'.saved) ∙ all j e;
    }

pub enter-Entered :
    (v : Value) (f : Object) (p : Program) (s t : Runtime)
    → ((j : ℕ) → IsVariable f p j → IsIdentifier s j)
    → enter v f p s ≡ (ok tt, t)
    → Entered f p s t
unfolding enter
enter-Entered v f p s t q h = activate-Entered v f p s t q (ground arith)
