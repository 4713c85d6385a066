-- ===== src/Pool/Moves.antt =====
-- The workers of internal/pool/pool.go, and histories of a pool.
use sluice_gate_telemetery_i.Base.{
  ℕ, List, [], ◌∷◌, ◌++◌, Option, none, some, get_elem?, set, if◌then◌else◌,
}
use sluice_gate_telemetery_i.Event.{Event, Error}
use sluice_gate_telemetery_i.Pool.{
  Pool, Worker, looping, parked, exited, writing, Sent, sent, full, panics, send, close,
}

abbrev pub put_worker : ℕ → Worker → Pool → Pool
put_worker i w p = record p { workers = set p.workers i w }

-- The head of `for e := range p.queue`.
unfoldable pub receive : ℕ → List Event → Pool → Pool
receive i [] p = if p.closed then put_worker i exited p else put_worker i parked p
receive i (e ∷ q) p = record p {
  queue = q;
  workers = set p.workers i (writing e);
  started = p.started ++ e ∷ [];
}

abbrev pub error_list : Option Error → List Error
error_list none = []
error_list (some x) = x ∷ []

-- One step of worker i, which is w; r is what the sink's `Write` returns.
unfoldable pub turn : ℕ → Worker → Option Error → Pool → Pool
unfolding receive
turn i looping r p = receive i p.queue p
turn i parked r p = if p.closed then put_worker i exited p else p
turn i (writing e) r p = record p {
  workers = set p.workers i looping;
  finished = p.finished ++ e ∷ [];
  errors = p.errors ++ error_list r;
}
turn i exited r p = p

unfoldable pub work : ℕ → Option Error → Pool → Pool
work i r p = elim (get_elem? p.workers i) [ none ↦ p | some w ↦ turn i w r p ]

-- A send from anywhere that can go ahead, a worker's step, or `Close`.
pub data Move : Type 0 where
  sends : Event → Move
  works : ℕ → Option Error → Move
  closes : Move

abbrev pub after_send : Pool → Sent → Pool
after_send p (sent q) = q
after_send p full = p
after_send p panics = p

abbrev pub after_close : Pool → Option Pool → Pool
after_close p (some q) = q
after_close p none = p

unfoldable pub step : Pool → Move → Pool
unfolding work send close
step p (sends e) = after_send p (send p e)
step p (works i r) = work i r p
step p closes = after_close p (close p)

unfoldable pub run : Pool → List Move → Pool
unfolding step
run p [] = p
run p (m ∷ ms) = run (step p m) ms
