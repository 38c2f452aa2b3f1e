-- ===== src/Tests/Compiler.antt =====
-- A program with two labels of one name and jumps in both directions.
use mathlib.Core.Path.{subst}
use re_poplan.Prelude.{
  some_injective, ℕ, zero, suc, ◌≡◌, refl, ap, true, false, List, [], ◌∷◌, some, get_elem?,
}
use re_poplan.Value.{Value, ok}
use re_poplan.State.{Text, text_eq, Operation, OperationKind}
use re_poplan.Compiler.{resolve, is_go}
use re_poplan.Compiler.Labels.{IsLabel, ResolvesTo, resolve-ResolvesTo, resolve_ok}

abbrev operation : OperationKind → Text → Operation
operation k name = record {
  kind = k;
  value = Value.undefined;
  name = name;
  target = 0;
  place = record { file = []; line = 1; column = 1 };
  symbol = Value.undefined;
}

abbrev program : List Operation
program =
    operation OperationKind.label (65 ∷ [])
    ∷ operation OperationKind.go (66 ∷ [])
    ∷ operation OperationKind.label (65 ∷ [])
    ∷ operation OperationKind.go (65 ∷ [])
    ∷ operation OperationKind.label (66 ∷ [])
    ∷ []

not_go :
    (o op : Operation)
    → some o ≡ some op
    → is_go o.kind ≡ false
    → is_go op.kind ≡ true
    → (j : ℕ) × IsLabel program op.name j
not_go o op e f g = let q = ap (λ (x : Operation). is_go x.kind) (some_injective e) in cc

go-IsLabel :
    (o op : Operation) (j : ℕ)
    → some o ≡ some op
    → IsLabel program o.name j
    → (k : ℕ) × IsLabel program op.name k
go-IsLabel o op j e l =
    (j, subst (λ (x : Operation). IsLabel program x.name j) (some_injective e) l)

-- The labels that the GOTOs look for.
IsLabel-go :
    (k : ℕ) (op : Operation)
    → get_elem? program k ≡ some op
    → is_go op.kind ≡ true
    → (j : ℕ) × IsLabel program op.name j
unfolding text_eq
IsLabel-go zero op e g = not_go _ op e refl g
IsLabel-go (suc zero) op e g =
    go-IsLabel _ op 4 e
      (record { op = operation OperationKind.label (66 ∷ []); here = refl; labels = refl })
IsLabel-go (suc (suc zero)) op e g = not_go _ op e refl g
IsLabel-go (suc (suc (suc zero))) op e g =
    go-IsLabel _ op 0 e
      (record { op = operation OperationKind.label (65 ∷ []); here = refl; labels = refl })
IsLabel-go (suc (suc (suc (suc zero)))) op e g = not_go _ op e refl g
IsLabel-go (suc (suc (suc (suc (suc k))))) op e g = cc

resolve-ResolvesTo_example : ResolvesTo program program (resolve program)
resolve-ResolvesTo_example = resolve-ResolvesTo program

resolve_ok_example :
    ((resolve program).0 ≡ ok tt)
    × ((k : ℕ) (op : Operation) → get_elem? (resolve program).1 k ≡ some op → is_go op.kind ≡ false)
resolve_ok_example = resolve_ok program IsLabel-go
