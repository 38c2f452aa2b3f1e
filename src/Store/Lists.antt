-- ===== src/Store/Lists.antt =====
-- Lists on the heap: what `list` builds, `items` reads back.
use re_poplan.Prelude.{
  ℕ, zero, suc, ◌+◌, ◌-◌, ◌^◌, ◌≤◌, ◌<◌, ◌≡◌, ==_refl, ◌∙◌, sym, ap, refl, true, false, List, [],
  ◌∷◌, none, some, ◌==◌, length, arith,
}
use native.Mathlib.Decide.{dec_lt}
use re_poplan.Value.{Value, nil, is_object, ok}
use re_poplan.State.{Object, ObjectKind, new_object, Runtime, update_map, member}
use re_poplan.Store.{make, object, pair, list, kind_eq, empty_list, items_loop, items}

-- The word NIL at handle 1.
pub record HasNil (s : Runtime) : Type 0 where
  pub nil_word : Object
  pub stored : s.objects 1 ≡ some nil_word
  pub is_word : nil_word.kind ≡ ObjectKind.word
  pub settled : is_object nil_word.source_forward ≡ false

-- A node of a list at handle h, with the element x and the tail t.
pub record Cell (s : Runtime) (h : ℕ) (x t : Value) : Type 0 where
  pub node : Object
  pub stored : s.objects h ≡ some node
  pub is_pair_node : node.kind ≡ ObjectKind.pair
  pub is_list_node : node.plain_pair ≡ false
  pub settled : is_object node.source_forward ≡ false
  pub parts : node.fields ≡ x ∷ t ∷ []
  pub not_nil : (h == 1) ≡ false

-- A tail that is no function, so the list is not lazy there.
pub record IsDataTail (s : Runtime) (t : Value) : Type 0 where
  pub place : ℕ
  pub tail : Object
  pub same : t ≡ Value.object place
  pub stored : s.objects place ≡ some tail
  pub no_function : kind_eq tail.kind ObjectKind.function ≡ false

empty_list-nil : (s : Runtime) → HasNil s → empty_list nil s ≡ (ok true, s)
unfolding empty_list
empty_list-nil s n = ground arith

empty_list-Cell :
    (s : Runtime) (h : ℕ) (x t : Value)
    → Cell s h x t
    → IsDataTail s t
    → empty_list (Value.object h) s ≡ (ok false, s)
unfolding empty_list
empty_list-Cell s h x t c d = ground arith

-- `v` is a list of `xs` whose nodes have falling handles, all below `n`, and nothing lazy.
abbrev pub Chain : Runtime → ℕ → Value → List Value → Type 0
Chain s n v [] = v ≡ nil
Chain s n v (x ∷ xs) =
    (h : ℕ) × (t : Value) × (h < n) × (v ≡ Value.object h) × Cell s h x t × Chain s h t xs

Chain-IsDataTail :
    (s : Runtime) (n : ℕ) (v : Value) (xs : List Value) → HasNil s → Chain s n v xs → IsDataTail s v
Chain-IsDataTail s n v [] nl c = record {
  place = 1;
  tail = nl.nil_word;
  same = c;
  stored = nl.stored;
  no_function = ap (λ k. kind_eq k ObjectKind.function) nl.is_word;
}
Chain-IsDataTail s n v (x ∷ xs) nl (h, t, l, e, c, r) = record {
  place = h;
  tail = c.node;
  same = e;
  stored = c.stored;
  no_function = ap (λ k. kind_eq k ObjectKind.function) c.is_pair_node;
}

abbrev Above : ℕ → List ℕ → Type 0
Above n [] = Unit
Above n (k ∷ ks) = (n ≤ k) × Above n ks

Above-lower : (m n : ℕ) (ks : List ℕ) → m ≤ n → Above n ks → Above m ks
Above-lower m n [] l a = tt
Above-lower m n (k ∷ ks) l (b, a) = (omega arith, Above-lower m n ks l a)

member_below : (h n : ℕ) (ks : List ℕ) → h < n → Above n ks → member h ks ≡ false
unfolding member
member_below h n [] l a = refl
member_below h n (k ∷ ks) l (b, a) = ground (arith, member_below h n ks l a)

pub items_loop-Chain :
    (fuel : ℕ) (seen : List ℕ) (s : Runtime) (n : ℕ) (v : Value) (xs : List Value)
    → HasNil s
    → Chain s n v xs
    → Above n seen
    → length xs < fuel
    → items_loop fuel seen v s ≡ (ok xs, s)
unfolding items_loop
items_loop-Chain zero seen s n v xs nl c a l = absurd (omega arith)
items_loop-Chain (suc fuel) seen s n v [] nl c a l = rw c (ground (arith, empty_list-nil s nl))
items_loop-Chain (suc fuel) seen s n v (x ∷ xs) nl (h, t, below, e, c, r) a l =
    let tail = Chain-IsDataTail s h t xs nl r in
    let one = empty_list-Cell s h x t c tail in
    let new = member_below h n seen below a in
    let rest =
      items_loop-Chain fuel (h ∷ seen) s h t xs nl r
        (omega arith, Above-lower h n seen (omega arith) a) (omega arith) in
    rw e
      (rw one (rw (c.stored, object) (rw (c.is_pair_node, c.is_list_node, new, c.parts) (rw rest))))

-- A heap whose handles are below `next`, with the word NIL in it.
pub record IsHeap (s : Runtime) : Type 0 where
  pub has_nil : HasNil s
  pub fresh : (h : ℕ) → s.next ≤ h → s.objects h ≡ none

pub nil_below : (s : Runtime) → IsHeap s → 1 < s.next
nil_below s w = elim (dec_lt 1 s.next) [
  | yes l ↦ l
  | no g ↦ let f = w.fresh 1 (omega arith) in let n = w.has_nil.stored in cc
]

pub HasNil-objects : (s t : Runtime) → s.objects 1 ≡ t.objects 1 → HasNil s → HasNil t
HasNil-objects s t e n = record {
  nil_word = n.nil_word;
  stored = sym e ∙ n.stored;
  is_word = n.is_word;
  settled = n.settled;
}

-- The state that `pair(a, b)` leaves.
abbrev pub with_pair : Value → Value → Runtime → Runtime
with_pair a b s =
    let o = new_object ObjectKind.pair in
    record s {
      next = s.next + 1;
      objects =
          update_map (update_map s.objects s.next o) s.next (record o { fields = a ∷ b ∷ [] });
    }

pub pair_lem :
    (a b : Value) (s : Runtime)
    → s.next < 2 ^ 64 - 1
    → pair a b s ≡ (ok (Value.object s.next), with_pair a b s)
unfolding pair
pair_lem a b s l =
    let more : (s.next == 2 ^ 64 - 1) ≡ false = ground arith in
    rw (more, make) (rw (==_refl, object) refl)

pub with_pair-IsHeap : (a b : Value) (s : Runtime) → IsHeap s → IsHeap (with_pair a b s)
with_pair-IsHeap a b s w = record {
  has_nil = HasNil-objects s (with_pair a b s) (let b = nil_below s w in ground arith) w.has_nil;
  fresh = λ h l. ground (arith, w.fresh h);
}

pub Chain-kept :
    (s t : Runtime) (n : ℕ) (v : Value) (xs : List Value)
    → ((h : ℕ) → h < n → s.objects h ≡ t.objects h)
    → Chain s n v xs
    → Chain t n v xs
Chain-kept s t n v [] k c = c
Chain-kept s t n v (x ∷ xs) k (h, u, l, e, c, r) = (
  h,
  u,
  l,
  e,
  record {
    node = c.node;
    stored = sym (k h l) ∙ c.stored;
    is_pair_node = c.is_pair_node;
    is_list_node = c.is_list_node;
    settled = c.settled;
    parts = c.parts;
    not_nil = c.not_nil;
  },
  Chain-kept s t h u xs (λ j m. k j (omega arith)) r,
)

pub Chain-higher :
    (s : Runtime) (m n : ℕ) (v : Value) (xs : List Value) → m ≤ n → Chain s m v xs → Chain s n v xs
Chain-higher s m n v [] l c = c
Chain-higher s m n v (x ∷ xs) l (h, u, b, e, c, r) = (h, u, omega arith, e, c, r)

-- A pair in front of a list is a list.
pub with_pair-Chain :
    (a b : Value) (s : Runtime) (xs : List Value)
    → IsHeap s
    → Chain s s.next b xs
    → Chain (with_pair a b s) (s.next + 1) (Value.object s.next) (a ∷ xs)
with_pair-Chain a b s xs w c =
    let above = nil_below s w in
    (
      s.next,
      b,
      omega arith,
      refl,
      record {
        node = record (new_object ObjectKind.pair) { fields = a ∷ b ∷ [] };
        stored = ground arith;
        is_pair_node = refl;
        is_list_node = refl;
        settled = refl;
        parts = refl;
        not_nil = ground arith;
      },
      Chain-kept s _ s.next b xs (λ h l. ground arith) c,
    )

-- What `list(vs)` does.
pub record Built (vs : List Value) (s : Runtime) : Type 0 where
  pub result : Value
  pub state : Runtime
  pub run : list vs s ≡ (ok result, state)
  pub chain : Chain state state.next result vs
  pub heap : IsHeap state
  pub used : state.next ≡ s.next + length vs
  pub kept : (h : ℕ) → h < s.next → state.objects h ≡ s.objects h
  pub rest : state ≡ record s { objects = state.objects; next = state.next }

pub list-Built :
    (vs : List Value) (s : Runtime) → IsHeap s → s.next + length vs < 2 ^ 64 → Built vs s
unfolding list
list-Built [] s w l = record {
  result = nil;
  state = s;
  run = refl;
  chain = refl;
  heap = w;
  used = omega arith;
  kept = λ h b. refl;
  rest = refl;
}
list-Built (v ∷ vs) s w l =
    let t = list-Built vs s w (omega arith) in
    let one = pair_lem v t.result t.state (omega (arith, t.used)) in
    record {
      result = Value.object t.state.next;
      state = with_pair v t.result t.state;
      run = rw t.run one;
      chain = with_pair-Chain v t.result t.state vs t.heap t.chain;
      heap = with_pair-IsHeap v t.result t.state t.heap;
      used = omega (arith, t.used);
      kept = λ h b. ground (arith, t.kept h b, t.used);
      rest =
          let after = with_pair v t.result t.state in
          ap (λ (q : Runtime). record q { objects = after.objects; next = after.next }) t.rest;
    }

-- On a heap with room for the nodes, list succeeds, and items reads the result back as the
-- elements that list was given and changes nothing; list takes one fresh handle for each element,
-- keeps the heap well formed, and leaves every older object and the rest of the state as they
-- were.
pub items-list :
    (vs : List Value) (s : Runtime)
    → IsHeap s
    → s.next + length vs < 2 ^ 64
    → (v : Value) × (t : Runtime) × (list vs s ≡ (ok v, t))
      × (items v t ≡ (ok vs, t))
      × IsHeap t
      × (t ≡ record s { objects = t.objects; next = s.next + length vs })
      × ((h : ℕ) → h < s.next → t.objects h ≡ s.objects h)
unfolding items
items-list vs s w l =
    let b = list-Built vs s w l in
    (
      b.result,
      b.state,
      b.run,
      items_loop-Chain (suc b.state.next) [] b.state b.state.next b.result vs b.heap.has_nil b.chain
          tt (omega (arith, b.used)),
      b.heap,
      rw (← b.used) b.rest,
      b.kept,
    )
