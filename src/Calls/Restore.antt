-- ===== src/Calls/Restore.antt =====
-- Dynamic binding: what the return of an activation binds back.
use re_poplan.Prelude.{ℕ, ◌≡◌, some}
use re_poplan.Value.{Value}
use re_poplan.State.{Runtime}
use re_poplan.Calls.Undoes.{Undoes}

-- The frames and the bindings that there are stay as they are.
record Kept (s t : Runtime) : Type 0 where
  same_frames : t.frames ≡ s.frames
  still : (j id : ℕ) → s.active j ≡ some id → t.active j ≡ some id
