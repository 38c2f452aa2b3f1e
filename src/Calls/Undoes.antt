-- ===== src/Calls/Undoes.antt =====
-- Saved cells that undo bindings.
use mathlib.Core.Path.{subst}
use re_poplan.Prelude.{
  ℕ, ◌≡◌, Bool, true, false, ◌||◌, List, [], ◌∷◌, Option, some, ◌==◌, ◌⊎◌, inl, inr, arith,
  Bool-cases,
}
use re_poplan.State.{update_map}
use re_poplan.Calls.{restore}

abbrev pub ActiveMap : Type 0
ActiveMap = ℕ → Option ℕ

-- Whether j is one of the symbols of the list.
unfoldable pub has_key : ℕ → List (ℕ × ℕ) → Bool
has_key j [] = false
has_key j ((symbol, id) ∷ saved) = j == symbol || has_key j saved

-- `saved`, the last entry first, undoes what turned `a₀` into `a`: whatever the saved symbols are bound
-- to by then, every symbol that had a cell in `a₀` gets that cell back.
pub record Undoes (a₀ a : ActiveMap) (saved : List (ℕ × ℕ)) : Type 0 where
  pub bound : (j id : ℕ) → a₀ j ≡ some id → (i : ℕ) × (a j ≡ some i)
  pub undone :
      (b : ActiveMap) (j id : ℕ)
      → a₀ j ≡ some id
      → ((has_key j saved ≡ true) ⊎ (b j ≡ a j))
      → restore saved b j ≡ some id

pub Undoes-nothing : (a : ActiveMap) → Undoes a a []
unfolding restore has_key
Undoes-nothing a = record { bound = λ j id h. (id, h); undone = λ b j id h e. ground arith }

pub Undoes-add :
    (a₀ a a' : ActiveMap) (saved : List (ℕ × ℕ)) (symbol id old : ℕ)
    → Undoes a₀ a saved
    → ((j : ℕ) → a' j ≡ update_map a symbol id j)
    → ((k : ℕ) → a symbol ≡ some k → k ≡ old)
    → Undoes a₀ a' ((symbol, old) ∷ saved)
unfolding restore has_key
Undoes-add a₀ a a' saved symbol id old u same was = record {
  bound = λ j k h.
      let (i, e) = u.bound j k h in
      elim (Bool-cases (symbol == j)) [
        | inl y ↦ (id, ground (arith, same j))
        | inr n ↦ (i, ground (arith, same j))
      ];
  undone = λ b j k h e.
      let (i, was_bound) = u.bound j k h in
      u.undone (update_map b symbol old) j k h (elim (Bool-cases (symbol == j)) [
        | inl y ↦ inr (
            let m : j ≡ symbol = ground arith in
            ground (arith, was i (subst (λ x. a x ≡ some i) m was_bound)))
        | inr n ↦ ground (arith, same j)
      ]);
}
