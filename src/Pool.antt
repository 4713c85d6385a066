-- ===== src/Pool.antt =====
-- internal/pool/pool.go: a fixed number of workers behind a bounded channel.
pub mod Moves
pub mod Workers
pub mod Invariant
pub mod Order
pub mod Drain
pub mod Service
pub mod Writes
use sluice_gate_telemetery_i.Base.{
  ℕ, ℤ, pos, negsuc, ◌≡◌, List, [], ◌∷◌, ◌++◌, Bool, true, false, ◌&&◌, Option, none, some, length,
  get_elem?, set, replicate, ltb, if◌then◌else◌,
}
use sluice_gate_telemetery_i.Event.{Event, Error}

-- A worker is on its way to the channel, waits there, is in the sink's `Write`, or has returned.
pub data Worker : Type 0 where
  looping parked exited : Worker
  writing : Event → Worker

-- The channel's buffer and capacity, the workers, and whether `Close` was called; with the events
-- accepted into the channel, those taken out of it and those written, in order, and the errors
-- handed to `errFn`.
pub record Pool : Type 0 where
  pub queue : List Event
  pub cap : ℕ
  pub workers : List Worker
  pub closed : Bool
  pub accepted : List Event
  pub started : List Event
  pub finished : List Event
  pub errors : List Error

-- `make` panics on a negative size, `Add` on a negative count; both are `none`.
unfoldable pub new : ℤ → ℤ → Option Pool
new (pos workers) (pos queue_size) = some (record {
  queue = [];
  cap = queue_size;
  workers = replicate workers looping;
  closed = false;
  accepted = [];
  started = [];
  finished = [];
  errors = [];
})
new (pos workers) (negsuc n) = none
new (negsuc n) queue_size = none

-- An event goes to a worker that waits at the channel, if there is one.
unfoldable pub hand : Event → List Worker → Option (List Worker)
hand e [] = none
hand e (parked ∷ ws) = some (writing e ∷ ws)
hand e (looping ∷ ws) = elim (hand e ws) [ none ↦ none | some ws' ↦ some (looping ∷ ws') ]
hand e (exited ∷ ws) = elim (hand e ws) [ none ↦ none | some ws' ↦ some (exited ∷ ws') ]
hand e (writing f ∷ ws) = elim (hand e ws) [ none ↦ none | some ws' ↦ some (writing f ∷ ws') ]

pub data Sent : Type 0 where
  sent : Pool → Sent
  full : Sent
  panics : Sent

-- The send `p.queue <- e`, where it can go ahead.
unfoldable pub send : Pool → Event → Sent
unfolding hand
send p e = if p.closed then panics else (elim (hand e p.workers) [
  | some ws ↦
      sent
        (record p { workers = ws; accepted = p.accepted ++ e ∷ []; started = p.started ++ e ∷ [] })
  | none ↦
      if ltb (length p.queue) p.cap
      then sent (record p { queue = p.queue ++ e ∷ []; accepted = p.accepted ++ e ∷ [] })
      else full
])

pub data Submitted : Type 0 where
  submitted : Pool → Submitted
  refused : Submitted
  blocked : Submitted
  crashed : Submitted

-- `Submit` at one moment: `done` tells whether the context is, `chooses_done` which case `select` takes
-- where both are ready.
unfoldable pub submit : Bool → Bool → Pool → Event → Submitted
unfolding send
submit done chooses_done p e = elim (send p e) [
  | sent q ↦ if done && chooses_done then refused else submitted q
  | full ↦ if done then refused else blocked
  | panics ↦ if done && chooses_done then refused else crashed
]

-- `TrySubmit` never waits; `none` is the panic of a send on a closed channel.
unfoldable pub try_submit : Pool → Event → Option (Pool × Bool)
unfolding send
try_submit p e = elim (send p e) [
  | sent q ↦ some (q, true)
  | full ↦ some (p, false)
  | panics ↦ none
]

unfoldable pub queue_depth : Pool → ℕ
queue_depth p = length p.queue

unfoldable pub queue_cap : Pool → ℕ
queue_cap p = p.cap

-- `close(p.queue)`; a second close panics. `Close` then waits for every worker to return.
unfoldable pub close : Pool → Option Pool
close p = if p.closed then none else some (record p { closed = true })

abbrev pub AllExited : List Worker → Type 0
AllExited [] = Unit
AllExited (exited ∷ ws) = AllExited ws
AllExited (looping ∷ ws) = ⊥
AllExited (parked ∷ ws) = ⊥
AllExited (writing e ∷ ws) = ⊥
