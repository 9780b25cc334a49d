-- ===== src/Engine/Generate/Deliver.antt =====
-- What every generate command comes to, whatever is resident.
use mlxd.Base.{ℕ, ◌+◌, ◌*◌, [], codes, length, take, pos_part}
use mlxd.Engine.Stream.{error, internal}
use mlxd.Engine.World.{World}
use mlxd.Engine.World.Triple.{Assertion}
use mlxd.Engine.Generate.{Command, stub_limit, stub_reason}
use mlxd.Engine.Generate.StubLaws.{echo, Ends}
use mlxd.Engine.Generate.FailLaws.{FailEnds}
use mlxd.Engine.Generate.Outcome.{Outcome}
use mlxd.Engine.Generate.Real.{max_new, Resident, unloaded, stub, real}

-- What the log of a fresh stream comes to: an error if no model is loaded; the prompt's tokens on the
-- stub; the outcome of a decode on a real model.
abbrev pub Served : Resident → Command → Assertion (Unit {0})
Served unloaded cmd = FailEnds cmd.dup_ok (error (codes "model not loaded") internal) []
Served stub cmd =
    Ends (echo cmd 0 (take (pos_part (stub_limit cmd)) cmd.token_ids)) (stub_reason cmd)
Served (real m) cmd = λ a b l. Outcome m cmd b.late b l

-- The turns of the other threads that it takes at most.
abbrev pub turns : Resident → Command → ℕ
turns unloaded cmd = 4
turns stub cmd = 2 * length cmd.token_ids + 3
turns (real m) cmd = 2 * length cmd.token_ids + (3 * max_new m cmd + 6)
