-- ===== src/Gateway/Grows.antt =====
-- A pool never forgets what it has accepted (internal/pool/pool.go).
use sluice_gate_telemetery_i.Base.{
  ℕ, ◌≤◌, ap, List, [], ◌∷◌, Option, none, some, length, length-append, arith, get_elem?,
}
use sluice_gate_telemetery_i.Event.{Event, Error}
use sluice_gate_telemetery_i.Pool.{
  Pool, Worker, looping, parked, exited, writing, Sent, send, close,
}
use sluice_gate_telemetery_i.Pool.Moves.{
  Move, sends, works, closes, after_send, receive, turn, work, step, run,
}
use sluice_gate_telemetery_i.Pool.Order.{Sending, goes, waits, fails, send-Sending}

-- What was accepted stays accepted.
abbrev pub Grown : Pool → Pool → Type 0
Grown p q = length p.accepted ≤ length q.accepted

send_grows : (p : Pool) (e : Event) → Grown p (after_send p (send p e))
send_grows p e = by_sending (send p e) (send-Sending p e)
  where
    by_sending : (x : Sent) → Sending p e x → Grown p (after_send p x)
    by_sending x (goes q k a o) =
        rw k (omega (arith, ap length a, length-append p.accepted (e ∷ [])))
    by_sending x (waits k n w) = rw k (omega arith)
    by_sending x (fails k c) = rw k (omega arith)

receive_grows : (p : Pool) (i : ℕ) (q : List Event) → Grown p (receive i q p)
unfolding receive
receive_grows p i (e ∷ q) = omega arith
receive_grows p i [] = ground arith

turn_grows : (p : Pool) (i : ℕ) (w : Worker) (r : Option Error) → Grown p (turn i w r p)
unfolding turn
turn_grows p i looping r = receive_grows p i p.queue
turn_grows p i parked r = ground arith
turn_grows p i (writing e) r = omega arith
turn_grows p i exited r = omega arith

step_grows : (p : Pool) (m : Move) → Grown p (step p m)
unfolding step close work
step_grows p (sends e) = send_grows p e
step_grows p closes = ground arith
step_grows p (works i r) = by_worker (get_elem? p.workers i)
  where
    by_worker : (o : Option Worker) → Grown p (elim o [ none ↦ p | some w ↦ turn i w r p ])
    by_worker none = omega arith
    by_worker (some w) = turn_grows p i w r

pub run_grows : (p : Pool) (ms : List Move) → Grown p (run p ms)
unfolding run
run_grows p [] = omega arith
run_grows p (m ∷ ms) = omega (arith, step_grows p m, run_grows (step p m) ms)
