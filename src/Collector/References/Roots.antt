-- ===== src/Collector/References/Roots.antt =====
-- The collector's list of roots, compared with the roots.
use mathlib.Core.List.{Memᴰ}
use mathlib.Core.List.Memᴰ
use mathlib.Core.Path.{subst}
use re_poplan.Prelude.{ℕ, ◌≡◌, inl, inr, refl, sym, List, [], ◌∷◌, Option, none, some, reverse, ◌&◌}
use re_poplan.Value.{Value}
use re_poplan.State.{Text, Token, PrintTask, PrintState, Frame, Runtime}
use re_poplan.Collector.{
  Reader, InputContext, Item, each, values, entry_items, task_items, handle_items, token_value,
  shared_items, token_items, source_items, root_lists, frame_lists, printer_items, frame_items,
  root_items,
}
use re_poplan.Collector.References.{FrameRefers, Root}
use re_poplan.Collector.References.Listed.{
  each_in, each_out, only_item, values_in, program_in, program_out, environment_in, environment_out,
  joined_in, joined_out, of_values, reverse_in, reverse_out, shared_out,
}

-- The values of tokens.
value_in : {x : Option Value} {v : Value} → x ≡ some v → Memᴰ (Item.value v) (token_value x)
value_in {v} e = subst (λ y. Memᴰ (Item.value v) (token_value y)) (sym e) (Memᴰ.head refl)

value_out :
    (x : Option Value) (i : Item)
    → Memᴰ i (token_value x)
    → (v : Value) × (x ≡ some v) × (i ≡ Item.value v)
value_out none i q = absurd (Memᴰ.not-nil q)
value_out (some v) i q = (v, refl, only_item q)

abbrev of_token : Token → List Item
of_token t = token_value t.value

tokens_in :
    {t : Token} {v : Value} (ts : List Token)
    → Memᴰ t ts
    → t.value ≡ some v
    → Memᴰ (Item.value v) (token_items ts)
unfolding token_items
tokens_in ts m e = each_in of_token ts m (value_in e)

tokens_out :
    (P : Item → Type 0) (ts : List Token)
    → ((t : Token) (v : Value) → Memᴰ t ts → t.value ≡ some v → P (Item.value v))
    → (i : Item) → Memᴰ i (token_items ts)
    → P i
unfolding token_items
tokens_out P ts f i q =
    let (t, m, k) = each_out of_token ts q in
    let (v, e, g) = value_out t.value i k in subst P (sym g) (f t v m e)

printer_in_task :
    {x : Option PrintState} {p : PrintState} {t : PrintTask}
    → x ≡ some p
    → Memᴰ t p.tasks
    → Memᴰ (Item.value t.item) (printer_items x)
unfolding printer_items
printer_in_task {p} {t} e m =
    subst (λ y. Memᴰ (Item.value t.item) (printer_items y)) (sym e)
      (Memᴰ.append_left (each handle_items p.visiting)
        (each_in task_items (reverse p.tasks) (reverse_in p.tasks m) (Memᴰ.head refl)))

printer_in_visiting :
    {x : Option PrintState} {p : PrintState} {h : ℕ}
    → x ≡ some p
    → Memᴰ h p.visiting
    → Memᴰ (Item.value (Value.object h)) (printer_items x)
unfolding printer_items
printer_in_visiting {p} {h} e m =
    subst (λ y. Memᴰ (Item.value (Value.object h)) (printer_items y)) (sym e)
      (Memᴰ.append_right (each task_items (reverse p.tasks))
        (each_in handle_items p.visiting m (Memᴰ.head refl)))

frame_printer :
    (f : Frame) (x : Option PrintState)
    → f.printer ≡ x
    → (i : Item) → Memᴰ i (printer_items x)
    → FrameRefers f i
unfolding printer_items
frame_printer f none e i q = absurd (Memᴰ.not-nil q)
frame_printer f (some p) e i q = elim (Memᴰ.append_cases (each task_items (reverse p.tasks)) q) [
  | inl a ↦
      (let (t, m, k) = each_out task_items (reverse p.tasks) a in
        rw (only_item k) (FrameRefers.task e (reverse_out p.tasks m)))
  | inr b ↦
      (let (h, m, k) = each_out handle_items p.visiting b in
        rw (only_item k) (FrameRefers.visiting e m))
]

frame_in : {i : Item} (f : Frame) → FrameRefers f i → Memᴰ i (frame_items f)
unfolding frame_items
frame_in f FrameRefers.callable = joined_in (frame_lists f) (Memᴰ.head refl) (Memᴰ.head refl)
frame_in f (FrameRefers.task e m) =
    joined_in (frame_lists f) (Memᴰ.tail (Memᴰ.head refl)) (printer_in_task e m)
frame_in f (FrameRefers.visiting e m) =
    joined_in (frame_lists f) (Memᴰ.tail (Memᴰ.head refl)) (printer_in_visiting e m)
frame_in f (FrameRefers.callee m) =
    joined_in (frame_lists f) (Memᴰ.tail (Memᴰ.tail (Memᴰ.head refl)))
      (values_in (reverse f.callees) (reverse_in f.callees m))
frame_in f (FrameRefers.code q) =
    joined_in (frame_lists f) (Memᴰ.tail (Memᴰ.tail (Memᴰ.tail (Memᴰ.head refl)))) (program_in q)
frame_in f (FrameRefers.captured q) =
    joined_in (frame_lists f) (Memᴰ.tail (Memᴰ.tail (Memᴰ.tail (Memᴰ.tail (Memᴰ.head refl)))))
      (environment_in q)
frame_in f (FrameRefers.saved q) =
    joined_in (frame_lists f)
      (Memᴰ.tail (Memᴰ.tail (Memᴰ.tail (Memᴰ.tail (Memᴰ.tail (Memᴰ.head refl))))))
      (environment_in q)

frame_out : (f : Frame) (i : Item) → Memᴰ i (frame_items f) → FrameRefers f i
unfolding frame_items
frame_out f i =
    let P = FrameRefers f in
    joined_out P (frame_lists f) i (
      (λ j q. rw (only_item q) FrameRefers.callable)
      & frame_printer f f.printer refl
      & of_values P (reverse f.callees) (λ v m. FrameRefers.callee (reverse_out f.callees m))
      & (λ j q. FrameRefers.code (program_out f.program j q))
      & (λ j q. FrameRefers.captured (environment_out f.environment j q))
      & (λ j q. FrameRefers.saved (environment_out f.saved j q))
      & tt)

abbrev source_values : InputContext → List Value
source_values c = c.supplier ∷ c.proglist ∷ c.nextch ∷ []

sources_out :
    (r : Reader) (s : Runtime) (i : Item) → Memᴰ i (each source_items r.sources) → Root r s i
unfolding source_items
sources_out r s i q =
    let (c, m, k) = each_out source_items r.sources q in
    elim (Memᴰ.append_cases (token_items c.tokens) k) [
      | inl a ↦ tokens_out (Root r s) c.tokens (λ t v n e. Root.source_token m n e) i a
      | inr b ↦ of_values (Root r s) (source_values c) (λ v n. Root.source_value m n) i b
    ]

entries_out :
    (P : Item → Type 0) (es : List (Text × Value))
    → ((e : Text × Value) → Memᴰ e es → P (Item.value e.1))
    → (i : Item) → Memᴰ i (each entry_items es)
    → P i
entries_out P es f i q =
    let (e, m, k) = each_out entry_items es q in subst P (sym (only_item k)) (f e m)

compiled_out :
    (r : Reader) (s : Runtime) (i : Item) → Memᴰ i (each shared_items r.compiling) → Root r s i
compiled_out r s i q =
    let (x, m, k) = each_out shared_items r.compiling q in
    let (p, e, n) = shared_out x i k in Root.compiled (subst (λ y. Memᴰ y r.compiling) e m) n

frames_out :
    (r : Reader) (s : Runtime) (i : Item)
    → Memᴰ i (each frame_items (reverse s.frames))
    → Root r s i
frames_out r s i q =
    let (f, m, k) = each_out frame_items (reverse s.frames) q in
    Root.frame (reverse_out s.frames m) (frame_out f i k)

-- The collector starts from the roots, and from nothing else.
pub root_out : (r : Reader) (s : Runtime) (i : Item) → Memᴰ i (root_items r s) → Root r s i
unfolding root_items
root_out r s i =
    let P = Root r s in
    joined_out P (root_lists r s) i (
      (λ j q. rw (only_item q) Root.nil_root)
      & tokens_out P r.input (λ t v m e. Root.input m e)
      & tokens_out P r.macro_expansion (λ t v m e. Root.expansion m e)
      & (λ j q. rw (only_item q) Root.supplier)
      & (λ j q. rw (only_item q) Root.empty_function)
      & sources_out r s
      & compiled_out r s
      & entries_out P s.words (λ e m. Root.word m)
      & entries_out P s.macros (λ e m. Root.macro m)
      & frames_out r s
      & tt)

pub root_in : (r : Reader) (s : Runtime) {i : Item} → Root r s i → Memᴰ i (root_items r s)
unfolding root_items source_items
root_in r s Root.nil_root = joined_in (root_lists r s) (Memᴰ.head refl) (Memᴰ.head refl)
root_in r s (Root.input m e) =
    joined_in (root_lists r s) (Memᴰ.tail (Memᴰ.head refl)) (tokens_in r.input m e)
root_in r s (Root.expansion m e) =
    joined_in (root_lists r s) (Memᴰ.tail (Memᴰ.tail (Memᴰ.head refl)))
      (tokens_in r.macro_expansion m e)
root_in r s Root.supplier =
    joined_in (root_lists r s) (Memᴰ.tail (Memᴰ.tail (Memᴰ.tail (Memᴰ.head refl)))) (Memᴰ.head refl)
root_in r s Root.empty_function =
    joined_in (root_lists r s) (Memᴰ.tail (Memᴰ.tail (Memᴰ.tail (Memᴰ.tail (Memᴰ.head refl)))))
      (Memᴰ.head refl)
root_in r s (Root.source_token {c} m n e) =
    joined_in (root_lists r s)
      (Memᴰ.tail (Memᴰ.tail (Memᴰ.tail (Memᴰ.tail (Memᴰ.tail (Memᴰ.head refl))))))
      (each_in source_items r.sources m
        (Memᴰ.append_left (values (source_values c)) (tokens_in c.tokens n e)))
root_in r s (Root.source_value {c} m n) =
    joined_in (root_lists r s)
      (Memᴰ.tail (Memᴰ.tail (Memᴰ.tail (Memᴰ.tail (Memᴰ.tail (Memᴰ.head refl))))))
      (each_in source_items r.sources m
        (Memᴰ.append_right (token_items c.tokens) (values_in (source_values c) n)))
root_in r s (Root.compiled m q) =
    joined_in (root_lists r s)
      (Memᴰ.tail (Memᴰ.tail (Memᴰ.tail (Memᴰ.tail (Memᴰ.tail (Memᴰ.tail (Memᴰ.head refl)))))))
      (each_in shared_items r.compiling m (program_in q))
root_in r s (Root.word m) =
    joined_in (root_lists r s)
      (Memᴰ.tail
        (Memᴰ.tail (Memᴰ.tail (Memᴰ.tail (Memᴰ.tail (Memᴰ.tail (Memᴰ.tail (Memᴰ.head refl))))))))
      (each_in entry_items s.words m (Memᴰ.head refl))
root_in r s (Root.macro m) =
    joined_in (root_lists r s)
      (Memᴰ.tail (
        Memᴰ.tail
          (Memᴰ.tail (Memᴰ.tail (Memᴰ.tail (Memᴰ.tail (Memᴰ.tail (Memᴰ.tail (Memᴰ.head refl)))))))))
      (each_in entry_items s.macros m (Memᴰ.head refl))
root_in r s (Root.frame {f} m q) =
    joined_in (root_lists r s)
      (Memᴰ.tail (
        Memᴰ.tail (
          Memᴰ.tail (
            Memᴰ.tail
              (Memᴰ.tail (Memᴰ.tail (Memᴰ.tail (Memᴰ.tail (Memᴰ.tail (Memᴰ.head refl))))))))))
      (each_in frame_items (reverse s.frames) (reverse_in s.frames m) (frame_in f q))
