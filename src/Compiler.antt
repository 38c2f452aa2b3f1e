-- ===== src/Compiler.antt =====
-- The end of the compiler: `resolve` of standalone/src/compiler.cpp, which turns each GOTO into a jump to
-- its label. The code that a throw leaves behind is returned with it.
pub mod Labels
use re_poplan.Prelude.{
  ℕ, zero, suc, Bool, true, false, List, [], ◌∷◌, ◌++◌, Option, none, some, if◌then◌else◌,
}
use re_poplan.Value.{Result, ok, err, fault, bytes}
use re_poplan.State.{Text, text_eq, Operation, OperationKind, lookup_text}

abbrev pub is_label : OperationKind → Bool
is_label OperationKind.label = true
is_label _ = false

abbrev pub is_go : OperationKind → Bool
is_go OperationKind.go = true
is_go _ = false

-- The map of labels, the last write to a name first; `i` is the index of the next operation.
unfoldable pub labels_from : ℕ → List Operation → List (Text × ℕ) → List (Text × ℕ)
labels_from i [] labels = labels
labels_from i (op ∷ code) labels =
    labels_from (suc i) code (if is_label op.kind then (op.name, i) ∷ labels else labels)

abbrev pub Resolved : Type 0
Resolved = Result (Unit {0}) × List Operation

abbrev pub prepend_resolved : Operation → Resolved → Resolved
prepend_resolved op (r, code) = (r, op ∷ code)

-- One GOTO, and the rest of the loop, which a throw leaves undone.
unfoldable pub jump_to_label : Option ℕ → Operation → List Operation → Resolved → Resolved
jump_to_label none op code rest = (err (fault (bytes "unknown label " ++ op.name)), op ∷ code)
jump_to_label (some target) op code rest =
    prepend_resolved (record op { kind = OperationKind.jump; target = target }) rest

unfoldable pub resolve_from : List (Text × ℕ) → List Operation → Resolved
unfolding jump_to_label
resolve_from labels [] = (ok tt, [])
resolve_from labels (op ∷ code) =
    let rest = resolve_from labels code in
    if is_go op.kind
    then jump_to_label (lookup_text op.name labels) op code rest
    else prepend_resolved op rest

unfoldable pub resolve : List Operation → Resolved
unfolding labels_from resolve_from
resolve code = resolve_from (labels_from 0 code []) code
