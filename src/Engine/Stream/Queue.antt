-- ===== src/Engine/Stream/Queue.antt =====
-- What a stream promises: a bounded FIFO that can be closed. It knows nothing of slots.
use mlxd.Base.{
  ℕ, Bool, true, ◌&&◌, not, Option, List, [], ◌∷◌, ◌++◌, length, ltb, ◌==◌, if◌then◌else◌, Bytes,
}
use mlxd.Core.Types.{FinishReason}
use mlxd.Engine.Stream.{Chunk, done, Wait, waits_on, freed}

pub record Channel : Type 0 where
  pub items : List Chunk
  pub bound : ℕ
  pub closed : Bool
  pub notify : Option ℕ

pub data Op : Type 0 where
  push : Chunk → Op
  next : Wait → Op
  cancel : Op
  set_notify : Option ℕ → Op
  finish_cancelled : Op

-- What a caller sees of a call.
pub data Reply : Type 0 where
  blocked : Reply
  refused : List Bytes → Reply
  accepted : Option ℕ → Reply
  nothing : Reply
  got : Chunk → Reply
  finished : List Bytes → Option ℕ → Reply
  quiet : Reply

-- The newest item gives way to `c`.
unfoldable pub replace_last : List Chunk → Chunk → List Chunk
replace_last [] c = []
replace_last (x ∷ []) c = c ∷ []
replace_last (x ∷ y ∷ ys) c = x ∷ replace_last (y ∷ ys) c

unfoldable pub newest : List Chunk → List Chunk
newest [] = []
newest (x ∷ []) = x ∷ []
newest (x ∷ y ∷ ys) = newest (y ∷ ys)

take_item : Wait → Channel → List Chunk → Reply × Channel
take_item w q [] = (if waits_on w && not q.closed then blocked else nothing, q)
take_item w q (x ∷ xs) = (got x, record q { items = xs })

unfoldable pub serve : Channel → Op → Reply × Channel
unfolding freed take_item replace_last newest
serve q (push c) =
    if length q.items == q.bound && not q.closed
    then (blocked, q)
    else if q.closed
    then (refused (freed (c ∷ [])), q)
    else (accepted q.notify, record q { items = q.items ++ c ∷ [] })
serve q (next w) = take_item w q q.items
serve q cancel = (quiet, record q { closed = true })
serve q (set_notify cb) = (quiet, record q { notify = cb })
serve q finish_cancelled =
    let end = done FinishReason.cancelled in
    if ltb (length q.items) q.bound
    then (finished [] q.notify, record q { items = q.items ++ end ∷ []; closed = true })
    else (
      finished (freed (newest q.items)) q.notify,
      record q { items = replace_last q.items end; closed = true },
    )
