-- ===== src/Compiler/Labels.antt =====
-- The labels that GOTOs are resolved to (`resolve` of standalone/src/compiler.cpp).
use re_poplan.Prelude.{
  some_injective, ℕ, zero, suc, ◌+◌, ◌≤◌, ◌≡◌, ◌∙◌, inl, inr, refl, sym, ap, arith, Bool, true,
  false, ◌&&◌, List, [], ◌∷◌, ◌++◌, Option, none, some, if◌then◌else◌, get_elem?, Bool-cases,
}
use re_poplan.Value.{Result, ok, err, fault, bytes}
use re_poplan.State.{Text, text_eq, Operation, OperationKind, lookup_text}
use re_poplan.Compiler.{
  is_label, is_go, labels_from, jump_to_label, resolve_from, resolve, Resolved,
}

-- The operation at an index is a label of the name.
abbrev pub defines : Text → Operation → Bool
defines name op = is_label op.kind && text_eq name op.name

pub record IsLabel (code : List Operation) (name : Text) (k : ℕ) : Type 0 where
  pub op : Operation
  pub here : get_elem? code k ≡ some op
  pub labels : defines name op ≡ true

-- What a name has in the map after the labels of `code`: the last of them, or what there was.
data Located (name : Text) (i : ℕ) (code : List Operation) (old found : Option ℕ) : Type 0 where
  last :
      (k : ℕ)
      → found ≡ some (i + k)
      → IsLabel code name k
      → ((j : ℕ) → IsLabel code name j → j ≤ k)
      → Located name i code old found
  before : found ≡ old → ((j : ℕ) → ¬ IsLabel code name j) → Located name i code old found

next-IsLabel :
    {code : List Operation} {name : Text} {k : ℕ} {op : Operation}
    → IsLabel code name k
    → IsLabel (op ∷ code) name (suc k)
next-IsLabel l = record { op = l.op; here = l.here; labels = l.labels }

shifted :
    (name : Text) (op : Operation) (code : List Operation) (k : ℕ)
    → ((j : ℕ) → IsLabel code name j → j ≤ k)
    → (j : ℕ) → IsLabel (op ∷ code) name j
    → j ≤ suc k
shifted name op code k g zero l = omega arith
shifted name op code k g (suc j) l =
    let b = g j (record { op = l.op; here = l.here; labels = l.labels }) in omega arith

only_first :
    (name : Text) (op : Operation) (code : List Operation)
    → ((j : ℕ) → ¬ IsLabel code name j)
    → (j : ℕ) → IsLabel (op ∷ code) name j
    → j ≤ 0
only_first name op code n zero l = omega arith
only_first name op code n (suc j) l =
    absurd (n j (record { op = l.op; here = l.here; labels = l.labels }))

not_first :
    (name : Text) (op : Operation) (code : List Operation)
    → defines name op ≡ false
    → ((j : ℕ) → ¬ IsLabel code name j)
    → (j : ℕ) → ¬ IsLabel (op ∷ code) name j
not_first name op code d n zero l =
    let e : op ≡ l.op = some_injective l.here in
    let f = l.labels in let g = ap (defines name) e in cc
not_first name op code d n (suc j) l = n j (record { op = l.op; here = l.here; labels = l.labels })

-- The entry that an operation adds.
abbrev with_label : ℕ → Operation → List (Text × ℕ) → List (Text × ℕ)
with_label i op labels = if is_label op.kind then (op.name, i) ∷ labels else labels

lookup-with_label :
    (name : Text) (i : ℕ) (op : Operation) (labels : List (Text × ℕ))
    → lookup_text name (with_label i op labels)
      ≡ (if defines name op then some i else lookup_text name labels)
unfolding lookup_text
lookup-with_label name i op labels = ground arith

step_located :
    (name : Text) (i : ℕ) (op : Operation) (code : List Operation) (labels : List (Text × ℕ))
    (found : Option ℕ)
    → Located name (suc i) code (lookup_text name (with_label i op labels)) found
    → Located name i (op ∷ code) (lookup_text name labels) found
step_located name i op code labels found (last k e l g) =
    last (suc k) (e ∙ ap some (omega arith)) (next-IsLabel l) (shifted name op code k g)
step_located name i op code labels found (before e n) = elim (Bool-cases (defines name op)) [
  | inl y ↦
      last 0 (e ∙ lookup-with_label name i op labels ∙ rw y (ap some (omega arith)))
        (record { op = op; here = refl; labels = y }) (only_first name op code n)
  | inr d ↦ before (e ∙ lookup-with_label name i op labels ∙ rw d refl) (not_first name op code d n)
]

located :
    (name : Text) (i : ℕ) (code : List Operation) (labels : List (Text × ℕ))
    → Located name i code (lookup_text name labels) (lookup_text name (labels_from i code labels))
unfolding labels_from
located name i [] labels = before refl (λ j l. (let e = l.here in cc))
located name i (op ∷ code) labels =
    step_located name i op code labels _ (located name (suc i) code (with_label i op labels))

-- How the operations of a program are resolved, one after the other. The whole program is `whole`.
pub data ResolvesTo (whole : List Operation) : List Operation → Resolved → Type 0 where
  done : ResolvesTo whole [] (ok tt, [])
  keep :
      {op : Operation} {code code' : List Operation} {r : Result (Unit {0})}
      → is_go op.kind ≡ false
      → ResolvesTo whole code (r, code')
      → ResolvesTo whole (op ∷ code) (r, op ∷ code')
  jump :
      {op : Operation} {code code' : List Operation} {r : Result (Unit {0})} (target : ℕ)
      → is_go op.kind ≡ true
      → IsLabel whole op.name target
      → ((j : ℕ) → IsLabel whole op.name j → j ≤ target)
      → ResolvesTo whole code (r, code')
      → ResolvesTo whole
          (op ∷ code)
          (r, record op { kind = OperationKind.jump; target = target } ∷ code')
  stop :
      {op : Operation} {code : List Operation}
      → is_go op.kind ≡ true
      → ((j : ℕ) → ¬ IsLabel whole op.name j)
      → ResolvesTo whole (op ∷ code) (err (fault (bytes "unknown label " ++ op.name)), op ∷ code)

jump_resolves :
    (whole : List Operation) (op : Operation) (code : List Operation) (found : Option ℕ)
    (rest : Resolved)
    → is_go op.kind ≡ true
    → Located op.name 0 whole none found
    → ResolvesTo whole code rest
    → ResolvesTo whole (op ∷ code) (jump_to_label found op code rest)
unfolding jump_to_label
jump_resolves whole op code none rest g (last k e l m) t = cc
jump_resolves whole op code none rest g (before e n) t = ResolvesTo.stop g n
jump_resolves whole op code (some target) (r, code') g (last k e l m) t =
    let q : target ≡ k = some_injective e ∙ omega arith in
    ResolvesTo.jump target g (rw q l) (rw q m) t
jump_resolves whole op code (some target) rest g (before e n) t = cc

resolves_from :
    (whole code : List Operation)
    → ResolvesTo whole code (resolve_from (labels_from 0 whole []) code)
unfolding resolve_from lookup_text
resolves_from whole [] = ResolvesTo.done
resolves_from whole (op ∷ code) = elim (Bool-cases (is_go op.kind)) [
  | inl g ↦
      rw g
        (jump_resolves whole op code _ _ g (located op.name 0 whole []) (resolves_from whole code))
  | inr n ↦ rw n (ResolvesTo.keep n (resolves_from whole code))
]

-- resolve goes through the code in order and leaves every operation but a GOTO as it is; a GOTO
-- becomes a jump to the last label of its name in the whole program, or, if there is none, it
-- stops the loop with a report of the name, and it and the operations behind it stay as they are.
pub resolve-ResolvesTo : (code : List Operation) → ResolvesTo code code (resolve code)
unfolding resolve
resolve-ResolvesTo code = resolves_from code code

-- Every GOTO of the code has its label in the whole.
abbrev pub HasLabels : List Operation → List Operation → Type 0
HasLabels whole code =
    (k : ℕ) (op : Operation)
    → get_elem? code k ≡ some op
    → is_go op.kind ≡ true
    → (j : ℕ) × IsLabel whole op.name j

ends_ok :
    (whole code : List Operation) (r : Resolved)
    → ResolvesTo whole code r
    → HasLabels whole code
    → r.0 ≡ ok tt
ends_ok whole [] r ResolvesTo.done h = refl
ends_ok whole (op ∷ code) r (ResolvesTo.keep n t) h =
    ends_ok whole code _ t (λ k o e. h (suc k) o e)
ends_ok whole (op ∷ code) r (ResolvesTo.jump k g l m t) h =
    ends_ok whole code _ t (λ j o e. h (suc j) o e)
ends_ok whole (op ∷ code) r (ResolvesTo.stop g n) h = let (j, l) = h 0 op refl g in absurd (n j l)

no_go :
    (whole code : List Operation) (r : Resolved)
    → ResolvesTo whole code r
    → r.0 ≡ ok tt
    → (k : ℕ) (op : Operation) → get_elem? r.1 k ≡ some op
    → is_go op.kind ≡ false
no_go whole [] r ResolvesTo.done q k op e = cc
no_go whole (o ∷ code) r (ResolvesTo.keep n t) q zero op e =
    ap (λ (x : Operation). is_go x.kind) (sym (some_injective e)) ∙ n
no_go whole (o ∷ code) r (ResolvesTo.keep n t) q (suc k) op e = no_go whole code _ t q k op e
no_go whole (o ∷ code) r (ResolvesTo.jump j g l m t) q zero op e =
    ap (λ (x : Operation). is_go x.kind) (sym (some_injective e))
no_go whole (o ∷ code) r (ResolvesTo.jump j g l m t) q (suc k) op e = no_go whole code _ t q k op e
no_go whole (o ∷ code) r (ResolvesTo.stop g n) q k op e = cc

-- If every GOTO has a label of its name, resolve returns without an error, and leaves no GOTO.
pub resolve_ok :
    (code : List Operation)
    → HasLabels code code
    → ((resolve code).0 ≡ ok tt)
      × ((k : ℕ) (op : Operation) → get_elem? (resolve code).1 k ≡ some op → is_go op.kind ≡ false)
resolve_ok code h =
    let t = resolve-ResolvesTo code in let e = ends_ok code code _ t h in (e, no_go code code _ t e)
