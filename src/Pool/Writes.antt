-- ===== src/Pool/Writes.antt =====
-- A pool (internal/pool/pool.go) on a sink of internal/sink: what its workers write, and where it ends up.
-- Two calls of `Write` never overlap here: the sinks of a pool guard their own state.
pub mod Keeps
pub mod Drained
use mathlib.Core.List.{Perm, perm_middle, perm_append_singleton}
use mathlib.Core.List.Perm
use sluice_gate_telemetery_i.Base.{
  ℕ, ℤ, pos, negsuc, some_inj, ◌<◌, ◌≡◌, refl, sym, ap, subst, ◌∙◌, List, [], ◌∷◌, ◌++◌, append-nil,
  Option, none, some, length, length-append, get_elem?, All, All-mono, arith,
}
use sluice_gate_telemetery_i.Event.{Event, Error}
use sluice_gate_telemetery_i.Sink.{Sink}
use sluice_gate_telemetery_i.Consumer.NoLoss.{Durable}
use sluice_gate_telemetery_i.Pool.{
  Pool, Worker, looping, parked, exited, writing, new, send, close, AllExited,
}
use sluice_gate_telemetery_i.Pool.Moves.{
  receive, turn, work, Move, sends, works, closes, after_send, after_close, step, run, error_list,
}
use sluice_gate_telemetery_i.Pool.Order.{drained-perm}

module _ {S : Type 0} (k : Sink S) where
  pub record Running : Type 0 where
    pub pool : Pool
    pub sink : S

  -- A send, a step of worker i, or `Close`.
  pub data Act : Type 0 where
    offers : Event → Act
    turns : ℕ → Act
    shuts : Act

  -- `p.sink.Write(context.Background(), e)`, where the worker is there.
  abbrev pub write_of : Option Worker → S → S × Option Error
  write_of none s = (s, none)
  write_of (some looping) s = (s, none)
  write_of (some parked) s = (s, none)
  write_of (some exited) s = (s, none)
  write_of (some (writing e)) s = k.write e s

  -- The move of the pool that an act makes.
  abbrev pub move_of : Act → Running → Move
  move_of (offers e) r = sends e
  move_of (turns i) r = works i (write_of (get_elem? r.pool.workers i) r.sink).1
  move_of shuts r = closes

  abbrev pub sink_after : Act → Running → S
  sink_after (offers e) r = r.sink
  sink_after (turns i) r = (write_of (get_elem? r.pool.workers i) r.sink).0
  sink_after shuts r = r.sink

  unfoldable pub act : Running → Act → Running
  unfolding step
  act r a = record { pool = step r.pool (move_of a r); sink = sink_after a r }

  unfoldable pub acts : Running → List Act → Running
  unfolding act
  acts r [] = r
  acts r (a ∷ as') = acts (act r a) as'
