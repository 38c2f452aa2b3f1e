-- ===== src/Collector/References/Listed.antt =====
-- The collector's lists of items, compared with what the members of an object refer to.
use mathlib.Core.List.{Memᴰ, reverse_aux}
use mathlib.Core.List.Memᴰ
use mathlib.Core.Path.{subst}
use re_poplan.Prelude.{
  ℕ, ◌≡◌, ◌⊎◌, inl, inr, refl, sym, Bool, true, false, List, [], ◌∷◌, Option, none, some, reverse,
  ◌&◌,
}
use re_poplan.Value.{Value}
use re_poplan.State.{Program, Object, ObjectKind, Runtime}
use re_poplan.Store.{kind_eq}
use re_poplan.Collector.{
  Item, each, values, value_item, operation_items, entry_items, variable_items, program_items,
  shared_items, environment_items, slots, joined, object_lists, active_items, object_items,
}
use re_poplan.Collector.References.{ProgramRefers, VariableOf, Refers}

module _ {ℓ} {A : Type ℓ} (f : A → List Item) where
  pub each_in : {a : A} {i : Item} (xs : List A) → Memᴰ a xs → Memᴰ i (f a) → Memᴰ i (each f xs)
  each_in {i} (x ∷ xs) (Memᴰ.head e) q =
      Memᴰ.append_left (each f xs) (subst (λ y. Memᴰ i (f y)) e q)
  each_in {i} (x ∷ xs) (Memᴰ.tail p) q = Memᴰ.append_right (f x) (each_in xs p q)
  each_in {i} [] p q = absurd (Memᴰ.not-nil p)

  pub each_out : {i : Item} (xs : List A) → Memᴰ i (each f xs) → (a : A) × Memᴰ a xs × Memᴰ i (f a)
  each_out [] p = absurd (Memᴰ.not-nil p)
  each_out (x ∷ xs) p = elim (Memᴰ.append_cases (f x) p) [
    | inl q ↦ (x, Memᴰ.head refl, q)
    | inr q ↦ (let (a, m, k) = each_out xs q in (a, Memᴰ.tail m, k))
  ]

pub only_item : {i j : Item} → Memᴰ i (j ∷ []) → i ≡ j
only_item = Memᴰ.eq_of_singleton

pub values_in : {v : Value} (vs : List Value) → Memᴰ v vs → Memᴰ (Item.value v) (values vs)
values_in vs p = each_in value_item vs p (Memᴰ.head refl)

pub values_out :
    (i : Item) (vs : List Value) → Memᴰ i (values vs) → (v : Value) × Memᴰ v vs × (i ≡ Item.value v)
values_out i vs p = let (v, m, q) = each_out value_item vs p in (v, m, only_item q)

pub program_in : {p : Program} {i : Item} → ProgramRefers p i → Memᴰ i (program_items p)
unfolding program_items
program_in {p} (ProgramRefers.operand m) =
    Memᴰ.append_left _ (each_in operation_items p.code m (Memᴰ.head refl))
program_in {p} (ProgramRefers.name m) =
    Memᴰ.append_left _ (each_in operation_items p.code m (Memᴰ.tail (Memᴰ.head refl)))
program_in {p} (ProgramRefers.symbol m) =
    Memᴰ.append_right _ (each_in entry_items p.symbols m (Memᴰ.head refl))

pub program_out : (p : Program) (i : Item) → Memᴰ i (program_items p) → ProgramRefers p i
unfolding program_items
program_out p i q = elim (Memᴰ.append_cases (each operation_items p.code) q) [
  | inl a ↦
      (let (o, m, k) = each_out operation_items p.code a in
        elim (Memᴰ.cases_cons k) [
          | inl e ↦ rw e (ProgramRefers.operand m)
          | inr l ↦ rw (only_item l) (ProgramRefers.name m)
        ])
  | inr b ↦
      (let (e, m, k) = each_out entry_items p.symbols b in
        rw (only_item k) (ProgramRefers.symbol m))
]

pub environment_in :
    {env : List (ℕ × ℕ)} {i : Item} → VariableOf env i → Memᴰ i (environment_items env)
unfolding environment_items
environment_in {env} (VariableOf.variable m) = each_in variable_items env m (Memᴰ.head refl)
environment_in {env} (VariableOf.variable_cell m) =
    each_in variable_items env m (Memᴰ.tail (Memᴰ.head refl))

pub environment_out :
    (env : List (ℕ × ℕ)) (i : Item) → Memᴰ i (environment_items env) → VariableOf env i
unfolding environment_items
environment_out env i q =
    let (e, m, k) = each_out variable_items env q in
    elim (Memᴰ.cases_cons k) [
      | inl a ↦ rw a (VariableOf.variable m)
      | inr l ↦ rw (only_item l) (VariableOf.variable_cell m)
    ]

identifier_only :
    (k : ObjectKind) → kind_eq k ObjectKind.identifier ≡ true → k ≡ ObjectKind.identifier
identifier_only ObjectKind.identifier e = refl
identifier_only ObjectKind.word e = cc
identifier_only ObjectKind.string e = cc
identifier_only ObjectKind.pair e = cc
identifier_only ObjectKind.reference e = cc
identifier_only ObjectKind.record_kind e = cc
identifier_only ObjectKind.strip e = cc
identifier_only ObjectKind.function e = cc

active_in :
    {x : Option ℕ} {k : ObjectKind} {id : ℕ}
    → k ≡ ObjectKind.identifier
    → x ≡ some id
    → Memᴰ (Item.cell id) (active_items x (kind_eq k ObjectKind.identifier))
active_in k e = rw (k, e) (Memᴰ.head refl)

active_out :
    (x : Option ℕ) (b : Bool) (i : Item)
    → Memᴰ i (active_items x b)
    → (id : ℕ) × (x ≡ some id) × (b ≡ true) × (i ≡ Item.cell id)
active_out (some id) true i p = (id, refl, refl, only_item p)
active_out (some id) false i p = absurd (Memᴰ.not-nil p)
active_out none true i p = absurd (Memᴰ.not-nil p)
active_out none false i p = absurd (Memᴰ.not-nil p)

pub shared_in :
    {x : Option Program} {p : Program} {i : Item}
    → x ≡ some p
    → ProgramRefers p i
    → Memᴰ i (shared_items x)
shared_in {i} e q = subst (λ y. Memᴰ i (shared_items y)) (sym e) (program_in q)

pub shared_out :
    (x : Option Program) (i : Item)
    → Memᴰ i (shared_items x)
    → (p : Program) × (x ≡ some p) × ProgramRefers p i
shared_out none i q = absurd (Memᴰ.not-nil q)
shared_out (some p) i q = (p, refl, program_out p i q)

-- The rules of joined lists.
pub joined_in :
    {l : List Item} {i : Item} (ls : List (List Item)) → Memᴰ l ls → Memᴰ i l → Memᴰ i (joined ls)
joined_in {i} (x ∷ ls) (Memᴰ.head e) q = Memᴰ.append_left (joined ls) (subst (Memᴰ i) e q)
joined_in {i} (x ∷ ls) (Memᴰ.tail p) q = Memᴰ.append_right x (joined_in ls p q)
joined_in {i} [] p q = absurd (Memᴰ.not-nil p)

abbrev pub Each : (Item → Type 0) → List (List Item) → Type 0
Each P [] = Unit
Each P (l ∷ ls) = ((i : Item) → Memᴰ i l → P i) × Each P ls

pub joined_out :
    (P : Item → Type 0) (ls : List (List Item)) (i : Item) → Each P ls → Memᴰ i (joined ls) → P i
joined_out P [] i k q = absurd (Memᴰ.not-nil q)
joined_out P (l ∷ ls) i (f, k) q = elim (Memᴰ.append_cases l q) [
  | inl a ↦ f i a
  | inr b ↦ joined_out P ls i k b
]

pub of_values :
    (P : Item → Type 0) (vs : List Value)
    → ((v : Value) → Memᴰ v vs → P (Item.value v))
    → (i : Item) → Memᴰ i (values vs)
    → P i
of_values P vs f i q = let (v, m, e) = values_out i vs q in subst P (sym e) (f v m)

-- The collector lists what an object refers to, and nothing else.
pub object_in :
    (s : Runtime) (h : ℕ) (o : Object) {i : Item} → Refers s h o i → Memᴰ i (object_items s h o)
unfolding object_items
object_in s h o (Refers.bound {id} k e) =
    joined_in (object_lists s h o) (Memᴰ.head refl) (active_in k e)
object_in s h o (Refers.field m) =
    joined_in (object_lists s h o) (Memᴰ.tail (Memᴰ.head refl)) (values_in o.fields m)
object_in s h o (Refers.slot m) =
    joined_in (object_lists s h o) (Memᴰ.tail (Memᴰ.tail (Memᴰ.head refl))) (values_in (slots o) m)
object_in s h o (Refers.program e q) =
    joined_in (object_lists s h o) (Memᴰ.tail (Memᴰ.tail (Memᴰ.tail (Memᴰ.head refl))))
      (shared_in e q)
object_in s h o (Refers.environment q) =
    joined_in (object_lists s h o) (Memᴰ.tail (Memᴰ.tail (Memᴰ.tail (Memᴰ.tail (Memᴰ.head refl)))))
      (environment_in q)

pub object_out :
    (s : Runtime) (h : ℕ) (o : Object) (i : Item) → Memᴰ i (object_items s h o) → Refers s h o i
unfolding object_items
object_out s h o i =
    let P = Refers s h o in
    joined_out P (object_lists s h o) i (
      (λ j q.
        (let (id, a, k, e) = active_out (s.active h) (kind_eq o.kind ObjectKind.identifier) j q in
          rw e (Refers.bound (identifier_only o.kind k) a)))
      & of_values P o.fields (λ v m. Refers.field m)
      & of_values P (slots o) (λ v m. Refers.slot m)
      & (λ j q. (let (p, e, k) = shared_out o.program j q in Refers.program e k))
      & (λ j q. Refers.environment (environment_out o.environment j q))
      & tt)

-- The order of a list does not matter.
reverse_aux_in :
    {A : Type 0} {a : A} (xs ys : List A) → Memᴰ a xs ⊎ Memᴰ a ys → Memᴰ a (reverse_aux xs ys)
reverse_aux_in [] ys (inl p) = absurd (Memᴰ.not-nil p)
reverse_aux_in [] ys (inr p) = p
reverse_aux_in (x ∷ xs) ys (inl (Memᴰ.head e)) = reverse_aux_in xs (x ∷ ys) (inr (Memᴰ.head e))
reverse_aux_in (x ∷ xs) ys (inl (Memᴰ.tail p)) = reverse_aux_in xs (x ∷ ys) (inl p)
reverse_aux_in (x ∷ xs) ys (inr p) = reverse_aux_in xs (x ∷ ys) (inr (Memᴰ.tail p))

reverse_aux_out :
    {A : Type 0} {a : A} (xs ys : List A) → Memᴰ a (reverse_aux xs ys) → Memᴰ a xs ⊎ Memᴰ a ys
reverse_aux_out [] ys p = inr p
reverse_aux_out (x ∷ xs) ys p = elim (reverse_aux_out xs (x ∷ ys) p) [
  | inl q ↦ inl (Memᴰ.tail q)
  | inr q ↦ elim (Memᴰ.cases_cons q) [ inl e ↦ inl (Memᴰ.head e) | inr k ↦ inr k ]
]

pub reverse_in : {A : Type 0} {a : A} (xs : List A) → Memᴰ a xs → Memᴰ a (reverse xs)
reverse_in xs p = reverse_aux_in xs [] (inl p)

pub reverse_out : {A : Type 0} {a : A} (xs : List A) → Memᴰ a (reverse xs) → Memᴰ a xs
reverse_out xs p = elim (reverse_aux_out xs [] p) [ inl q ↦ q | inr n ↦ absurd (Memᴰ.not-nil n) ]
