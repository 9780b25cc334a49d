-- ===== src/Engine/Stream.antt =====
-- engine/engine.c, the stream: a bounded ring of chunks between the engine thread and a consumer.
-- Every function here runs under the stream's mutex, so it is one atomic step; a wait on the
-- condition variable is the result `blocked`, since the caller is not let past its test.
pub mod Ring
pub mod Laws
pub mod Queue
use mlxd.Base.{
  ℕ, zero, suc, ◌+◌, ◌-◌, ◌%◌, ◌≡◌, refl, Bool, true, false, ◌&&◌, not, Option, none, some, List,
  [], ◌∷◌, ℤ, pos, negsuc, length, replicate, get_or, set, ltb, ◌==◌, if◌then◌else◌, arith, Bytes,
}
use mlxd.Core.Types.{FinishReason}

-- `gen_err_kind_t`
pub data ErrKind : Type 0 where
  internal context_length : ErrKind

-- `chunk_t`. A token's id and log-probability are kept as their 32-bit patterns.
pub data Chunk : Type 0 where
  token : ℕ → ℕ → Chunk
  error : Bytes → ErrKind → Chunk
  done : FinishReason → Chunk

-- What `calloc` leaves in a slot.
abbrev pub blank : Chunk
blank = token 0 0

-- `stream_t`. `on_push` is the context of the callback, and `none` where the callback is NULL.
pub record Stream : Type 0 where
  pub buf : List Chunk
  pub cap : ℕ
  pub len : ℕ
  pub read_pos : ℕ
  pub cancelled : Bool
  pub refcount : ℕ
  pub on_push : Option ℕ

unfoldable pub fresh : ℕ → Stream
fresh cap = record {
  buf = replicate cap blank;
  cap = cap;
  len = 0;
  read_pos = 0;
  cancelled = false;
  refcount = 1;
  on_push = none;
}

-- `stream_create`; the two flags are the outcomes of its two allocations.
unfoldable pub create : ℤ → Bool → Bool → Option Stream
unfolding fresh
create (negsuc n) s_ok buf_ok = none
create (pos zero) s_ok buf_ok = none
create (pos (suc n)) s_ok buf_ok = if s_ok && buf_ok then some (fresh (suc n)) else none

-- `stream_retain`
unfoldable pub retain : Stream → Stream
retain s = record s { refcount = s.refcount + 1 }

-- The chunks in the slots `r`, `r + 1`, … of a ring.
unfoldable pub slice : ℕ → ℕ → ℕ → List Chunk → List Chunk
slice cap zero r buf = []
slice cap (suc n) r buf = get_or buf r blank ∷ slice cap n ((r + 1) % cap) buf

-- The buffered chunks, oldest first.
unfoldable pub contents : Stream → List Chunk
contents s = slice s.cap s.len s.read_pos s.buf

-- The messages that are freed when chunks are dropped.
unfoldable pub freed : List Chunk → List Bytes
freed [] = []
freed (token i p ∷ cs) = freed cs
freed (error msg k ∷ cs) = msg ∷ freed cs
freed (done r ∷ cs) = freed cs

-- `stream_release`: the stream that is left, or the messages freed with the last reference.
pub data Release : Type 0 where
  alive : Stream → Release
  gone : List Bytes → Release

unfoldable pub release : Stream → Release
unfolding contents freed slice
release s =
    if s.refcount == 1
    then gone (freed (contents s))
    else alive (record s { refcount = s.refcount - 1 })

-- `stream_push`: it waits on a full ring, frees the chunk of a cancelled stream, or stores the chunk
-- and calls back.
pub data Push : Type 0 where
  blocked : Push
  refused : List Bytes → Push
  pushed : Stream → Option ℕ → Push

abbrev pub tail : Stream → ℕ
tail s = (s.read_pos + s.len) % s.cap

unfoldable pub push : Stream → Chunk → Push
unfolding freed
push s c =
    if s.len == s.cap && not s.cancelled
    then blocked
    else if s.cancelled
    then refused (freed (c ∷ []))
    else pushed (record s { buf = set s.buf (tail s) c; len = s.len + 1 }) s.on_push

-- The `timeout_ms` of `stream_next`: below 0, 0, and above 0 with whether the deadline has passed.
pub data Wait : Type 0 where
  forever : Wait
  poll : Wait
  until : Bool → Wait

pub data Next : Type 0 where
  waits : Next
  nothing : Next
  got : Chunk → Stream → Next

abbrev waits_on : Wait → Bool
waits_on forever = true
waits_on poll = false
waits_on (until expired) = not expired

-- `stream_next`
unfoldable pub next : Wait → Stream → Next
next w s =
    if s.len == 0
    then (if waits_on w && not s.cancelled then waits else nothing)
    else got (get_or s.buf s.read_pos blank)
        (record s { read_pos = (s.read_pos + 1) % s.cap; len = s.len - 1 })

-- `stream_cancel`
unfoldable pub cancel : Stream → Stream
cancel s = record s { cancelled = true }

-- `stream_set_notify`
unfoldable pub set_notify : Option ℕ → Stream → Stream
set_notify cb s = record s { on_push = cb }

-- `stream_sole_owner`
unfoldable pub sole_owner : Stream → Bool
sole_owner s = s.refcount == 1

-- `stream_finish_cancelled`: the DONE takes a free slot, or the place of the newest chunk, whose
-- message is freed. The callback is called in both cases.
abbrev pub last_slot : Stream → ℕ
last_slot s = (s.read_pos + s.len - 1) % s.cap

unfoldable pub finish_cancelled : Stream → Stream × List Bytes × Option ℕ
unfolding freed
finish_cancelled s =
    let end = done FinishReason.cancelled in
    if ltb s.len s.cap
    then (
      record s { buf = set s.buf (tail s) end; len = s.len + 1; cancelled = true },
      [],
      s.on_push,
    )
    else (
      record s { buf = set s.buf (last_slot s) end; cancelled = true },
      freed (get_or s.buf (last_slot s) blank ∷ []),
      s.on_push,
    )
