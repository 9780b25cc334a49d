-- ===== src/Engine/Stream/Laws.antt =====
-- The stream keeps its ring well formed, and behaves as the bounded FIFO of `Queue`.
use mlxd.Base.{
  ℕ, zero, suc, ◌+◌, ◌-◌, ◌%◌, ◌≤◌, ◌<◌, ◌≡◌, refl, sym, ap, ◌∙◌, Bool, true, Option, some, List,
  [], ◌∷◌, ◌++◌, ℤ, pos, negsuc, length, length-set, length-replicate, get_or, set, arith,
  Bool-cases, inl, inr, ◌⊎◌, ltb,
}
use native.Mathlib.Numerals.{add-one}
use mlxd.Engine.Stream.{
  Stream, Chunk, done, blank, create, slice, contents, Push, blocked, refused, pushed, push, Wait,
  Next, waits, nothing, got, next, cancel, set_notify, finish_cancelled, tail, last_slot,
}
use mlxd.Engine.Stream.Ring.{slice-set_end, slice-snoc, length-slice}
use mlxd.Engine.Stream.Queue.{Channel, Op, Reply, serve, replace_last, newest}
use mlxd.Core.Types.{FinishReason}

-- The ring has `cap` slots, and its indices stay in them.
pub record IsValid (s : Stream) : Type 0 where
  pub size : length s.buf ≡ s.cap
  pub reads : s.read_pos < s.cap
  pub fits : s.len ≤ s.cap

pub create-IsValid :
    (capacity : ℤ) (a b : Bool) {s : Stream} → create capacity a b ≡ some s → IsValid s
unfolding create
create-IsValid (negsuc n) a b h = ground arith
create-IsValid (pos zero) a b h = ground arith
create-IsValid (pos (suc n)) a b h = ground (arith, length-replicate (suc n) blank)

pub push-IsValid :
    {s t : Stream} (c : Chunk) {cb : Option ℕ} → IsValid s → push s c ≡ pushed t cb → IsValid t
unfolding push
push-IsValid {s} c v h = ground (arith, length-set s.buf (tail s) c)

pub next-IsValid :
    {s t : Stream} (w : Wait) {c : Chunk} → IsValid s → next w s ≡ got c t → IsValid t
unfolding next
next-IsValid {s} w v h = ground arith

pub finish_cancelled-IsValid : (s : Stream) → IsValid s → IsValid (finish_cancelled s).0
unfolding finish_cancelled
finish_cancelled-IsValid s v = ground (
  arith,
  length-set s.buf (tail s) (done FinishReason.cancelled),
  length-set s.buf (last_slot s) (done FinishReason.cancelled),
)

-- What a caller of the abstract channel sees.
pub view : Stream → Channel
view s = record { items = contents s; bound = s.cap; closed = s.cancelled; notify = s.on_push }

pub contents-push :
    (s : Stream) (c : Chunk)
    → IsValid s
    → s.len < s.cap
    → contents (record s { buf = set s.buf (tail s) c; len = s.len + 1 }) ≡ contents s ++ c ∷ []
unfolding contents
contents-push s c v h =
    rw (add-one s.len) (slice-set_end s.cap s.len s.read_pos s.buf c v.reads h v.size)

pub length-contents : (s : Stream) → length (contents s) ≡ s.len
unfolding contents
length-contents s = length-slice s.cap s.len s.read_pos s.buf

replace_last-snoc : (xs : List Chunk) (y c : Chunk) → replace_last (xs ++ y ∷ []) c ≡ xs ++ c ∷ []
unfolding replace_last
replace_last-snoc [] y c = refl
replace_last-snoc (x ∷ []) y c = refl
replace_last-snoc (x ∷ z ∷ xs) y c = ap (λ t. x ∷ t) (replace_last-snoc (z ∷ xs) y c)

newest-snoc : (xs : List Chunk) (y : Chunk) → newest (xs ++ y ∷ []) ≡ y ∷ []
unfolding newest
newest-snoc [] y = refl
newest-snoc (x ∷ []) y = refl
newest-snoc (x ∷ z ∷ xs) y = newest-snoc (z ∷ xs) y

-- The newest chunk of a slice stands in the slot before the write position.
module _ (size n k r : ℕ) (buf : List Chunk) (hr : r < size) (hk : k < size)
    (wide : length buf ≡ size) (e : n ≡ suc k) where
  last_at : (r + n - 1) % size ≡ (r + k) % size
  last_at = ap (λ (t : ℕ). t % size) (omega arith)

  newest-slice : newest (slice size n r buf) ≡ get_or buf ((r + n - 1) % size) blank ∷ []
  newest-slice = rw (last_at, e, slice-snoc size k r buf hr hk) (newest-snoc (slice size k r buf) _)

  slice-set_last :
      (c : Chunk)
      → slice size n r (set buf ((r + n - 1) % size) c) ≡ replace_last (slice size n r buf) c
  slice-set_last c =
      rw (last_at, e, slice-snoc size k r buf hr hk)
        (slice-set_end size k r buf c hr hk wide ∙ sym (replace_last-snoc (slice size k r buf) _ c))

pub contents-finish_full :
    (s : Stream) (c : Chunk)
    → IsValid s
    → s.len ≡ s.cap
    → (contents (record s { buf = set s.buf (last_slot s) c; cancelled = true })
        ≡ replace_last (contents s) c)
      × (newest (contents s) ≡ get_or s.buf (last_slot s) blank ∷ [])
unfolding contents
contents-finish_full s c v full =
    let k = s.len - 1 in
    (
      slice-set_last s.cap s.len k s.read_pos s.buf v.reads (omega arith) v.size (omega arith) c,
      newest-slice s.cap s.len k s.read_pos s.buf v.reads (omega arith) v.size (omega arith),
    )

-- The calls of the stream, with the replies of the abstract channel.
abbrev push_step : Stream → Push → Reply × Stream
push_step s blocked = (Reply.blocked, s)
push_step s (refused ms) = (Reply.refused ms, s)
push_step s (pushed t cb) = (Reply.accepted cb, t)

abbrev next_step : Stream → Next → Reply × Stream
next_step s waits = (Reply.blocked, s)
next_step s nothing = (Reply.nothing, s)
next_step s (got c t) = (Reply.got c, t)

pub step : Stream → Op → Reply × Stream
step s (Op.push c) = push_step s (push s c)
step s (Op.next w) = next_step s (next w s)
step s Op.cancel = (Reply.quiet, cancel s)
step s (Op.set_notify cb) = (Reply.quiet, set_notify cb s)
step s Op.finish_cancelled = let (t, ms, cb) = finish_cancelled s in (Reply.finished ms cb, t)

-- One call of the stream is one call of the channel, and leaves a well formed stream.
abbrev pub Refines : Stream → Op → Type 0
Refines s op =
    ((step s op).0 ≡ (serve (view s) op).0)
    × (view (step s op).1 ≡ (serve (view s) op).1)
    × IsValid (step s op).1

push-Refines : (s : Stream) (c : Chunk) → IsValid s → Refines s (Op.push c)
unfolding step view serve push
push-Refines s c v =
    ground (arith, length-contents s, contents-push s c v, length-set s.buf (tail s) c)

slice-head :
    (size n r : ℕ) (buf : List Chunk)
    → 0 < n
    → slice size n r buf ≡ get_or buf r blank ∷ slice size (n - 1) ((r + 1) % size) buf
unfolding slice
slice-head size zero r buf h = elim h [ ]
slice-head size (suc n) r buf h = let e : suc n - 1 ≡ n = omega arith in rw e

pub contents-empty : (s : Stream) → s.len ≡ 0 → contents s ≡ []
unfolding contents slice
contents-empty s e = rw e

pub contents-next :
    (s : Stream)
    → 0 < s.len
    → contents s
      ≡ get_or s.buf s.read_pos blank
        ∷ contents (record s { read_pos = (s.read_pos + 1) % s.cap; len = s.len - 1 })
unfolding contents
contents-next s h = slice-head s.cap s.len s.read_pos s.buf h

next-Refines : (s : Stream) (w : Wait) → IsValid s → Refines s (Op.next w)
unfolding step view serve next
next-Refines s w v = ground (arith, contents-empty s, contents-next s)

contents-finish_room :
    (s : Stream) (c : Chunk)
    → IsValid s
    → s.len < s.cap
    → contents (record s { buf = set s.buf (tail s) c; len = s.len + 1; cancelled = true })
      ≡ contents s ++ c ∷ []
unfolding contents
contents-finish_room s c v h =
    rw (add-one s.len) (slice-set_end s.cap s.len s.read_pos s.buf c v.reads h v.size)

finish-Refines : (s : Stream) → IsValid s → Refines s Op.finish_cancelled
unfolding step view serve finish_cancelled
finish-Refines s v =
    let end = done FinishReason.cancelled in
    elim (Bool-cases (ltb s.len s.cap)) [
      | inl room ↦
          ground
            (arith, length-contents s, contents-finish_room s end v, length-set s.buf (tail s) end)
      | inr full ↦ ground (
        arith,
        length-contents s,
        contents-finish_full s end v,
        length-set s.buf (last_slot s) end,
      )
    ]

pub step-Refines : (s : Stream) (op : Op) → IsValid s → Refines s op
unfolding step view serve cancel set_notify contents
step-Refines s (Op.push c) v = push-Refines s c v
step-Refines s (Op.next w) v = next-Refines s w v
step-Refines s Op.cancel v = (refl, refl, omega arith)
step-Refines s (Op.set_notify cb) v = (refl, refl, omega arith)
step-Refines s Op.finish_cancelled v = finish-Refines s v

pub run : Stream → List Op → List Reply × Stream
run s [] = ([], s)
run s (op ∷ ops) = let (r, t) = step s op in let (rs, u) = run t ops in (r ∷ rs, u)

pub serve_all : Channel → List Op → List Reply × Channel
serve_all q [] = ([], q)
serve_all q (op ∷ ops) = let (r, t) = serve q op in let (rs, u) = serve_all t ops in (r ∷ rs, u)

-- On a well formed ring every sequence of calls, in whatever order the threads make them, gets the
-- replies of the bounded FIFO, and leaves the ring well formed with the FIFO's items.
pub run-serve_all :
    (s : Stream) (ops : List Op)
    → IsValid s
    → ((run s ops).0 ≡ (serve_all (view s) ops).0)
      × (view (run s ops).1 ≡ (serve_all (view s) ops).1)
      × IsValid (run s ops).1
unfolding run serve_all
run-serve_all s [] v = (refl, refl, v)
run-serve_all s (op ∷ ops) v =
    let (e, f, w) = step-Refines s op v in
    let (e', f', w') = run-serve_all (step s op).1 ops w in (rw (← f, e, e'), rw (← f, f'), w')

snoc_view :
    (xs : List Chunk) → 0 < length xs → (ys : List Chunk) × (y : Chunk) × (xs ≡ ys ++ y ∷ [])
snoc_view [] h = elim h [ ]
snoc_view (x ∷ []) h = ([], x, refl)
snoc_view (x ∷ z ∷ xs) h =
    let (ys, y, e) = snoc_view (z ∷ xs) (omega arith) in (x ∷ ys, y, ap (λ t. x ∷ t) e)

-- After `finish_cancelled` the DONE is the newest item, behind the others or in the newest's place.
abbrev pub Finished : Stream → Stream → Type 0
Finished s t =
    (contents t ≡ contents s ++ done FinishReason.cancelled ∷ [])
    ⊎ ((xs : List Chunk) × (y : Chunk) × (contents s ≡ xs ++ y ∷ [])
        × (contents t ≡ xs ++ done FinishReason.cancelled ∷ []))

pub finish_cancelled-Finished : (s : Stream) → IsValid s → Finished s (finish_cancelled s).0
unfolding finish_cancelled
finish_cancelled-Finished s v =
    let end = done FinishReason.cancelled in
    elim (Bool-cases (ltb s.len s.cap)) [
      | inl room ↦ inl (rw room (contents-finish_room s end v (ground arith)))
      | inr full ↦
          let (ys, y, e) = snoc_view (contents s) (ground (arith, length-contents s)) in
          inr (
            ys,
            y,
            e,
            rw full (
                (contents-finish_full s end v (ground arith)).0
                ∙ ap (λ t. replace_last t end) e
                ∙ replace_last-snoc ys y end),
          )
    ]

pub finish_cancelled-closed : (s : Stream) → (finish_cancelled s).0.cancelled ≡ true
unfolding finish_cancelled
finish_cancelled-closed s = ground arith
