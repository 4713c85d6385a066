-- ===== src/Examples/PoolRuns.antt =====
-- Runs of the worker pool (internal/pool/pool.go).
use mathlib.Core.List.{Perm}
use sluice_gate_telemetery_i.Base.{
  ℕ, ◌+◌, ◌≤◌, ◌<◌, pos, codes, ◌≡◌, ◌≢◌, refl, List, [], ◌∷◌, true, false, none, some, length,
  get_elem?, arith,
}
use sluice_gate_telemetery_i.Pool.{
  Pool, Worker, looping, parked, exited, writing, new, hand, send, close, queue_depth, queue_cap,
}
use sluice_gate_telemetery_i.Pool.Moves.{Move, sends, works, closes, receive, turn, work, step, run}
use sluice_gate_telemetery_i.Pool.Workers.{in_flight}
use sluice_gate_telemetery_i.Pool.Order.{run_bounds, drained-perm}
use sluice_gate_telemetery_i.Pool.Drain.{steps_left, Drains, close_returns}
use sluice_gate_telemetery_i.Pool.Service.{Follows, fresh, view, observed}
use sluice_gate_telemetery_i.Pool.Service.Simulated.{run-refines}
use sluice_gate_telemetery_i.Examples.Systems.{event}

-- `New` with two workers and a queue of one.
abbrev pool : Pool
pool = record {
  queue = [];
  cap = 1;
  workers = looping ∷ looping ∷ [];
  closed = false;
  accepted = [];
  started = [];
  finished = [];
  errors = [];
}

-- A worker waits and is handed the first event; the second is queued; `Close`; the workers finish.
abbrev moves : List Move
moves =
    works 0 none
    ∷ sends (event (codes "k1"))
    ∷ sends (event (codes "k2"))
    ∷ closes
    ∷ works 1 none
    ∷ works 1 (some (codes "down"))
    ∷ works 0 none
    ∷ works 0 none
    ∷ works 1 none
    ∷ []

abbrev end : Pool
end = run pool moves

run_bounds_example :
    (queue_depth end ≤ queue_cap pool) × (length end.queue + length (in_flight end.workers) ≤ 1 + 2)
unfolding new
run_bounds_example = run_bounds 2 1 pool moves refl

run-refines_example : Follows (fresh 1) (observed pool moves) (view end)
unfolding new
run-refines_example = run-refines 2 1 pool moves refl

drained-perm_example : Perm end.accepted end.finished
unfolding new run step send hand receive turn work close
drained-perm_example = drained-perm (pos 2) (pos 1) pool moves refl (omega arith) tt

-- A closed pool with an event in the queue and one in a worker's hands.
abbrev closing : Pool
closing = record pool {
  queue = event (codes "k2") ∷ [];
  workers = writing (event (codes "k1")) ∷ parked ∷ [];
  closed = true;
  accepted = event (codes "k1") ∷ event (codes "k2") ∷ [];
  started = event (codes "k1") ∷ [];
}

close_returns_example :
    ((i : ℕ) (w : Worker)
      → get_elem? closing.workers i ≡ some w
      → w ≢ exited
      → steps_left (work i none closing) < 5)
    × ((ms : List Move) × Drains 5 closing ms)
close_returns_example = close_returns closing none refl
