-- ===== src/Pool/Order.antt =====
-- What the users of internal/pool/pool.go can rely on.
use mathlib.Core.List.{Perm}
use sluice_gate_telemetery_i.Base.{
  ℕ, zero, suc, ℤ, pos, ◌+◌, ◌≤◌, ◌<◌, ◌≡◌, refl, sym, ap, subst, ◌∙◌, List, [], ◌∷◌, ◌++◌,
  append-nil, Bool, true, false, Option, none, some, length, length-set, get_elem?, replicate,
  arith, some_inj, ltb, if◌then◌else◌, Option-cases, inl, inr,
}
use sluice_gate_telemetery_i.Event.{Event, Error}
use sluice_gate_telemetery_i.Pool.{
  Pool, Worker, looping, parked, exited, writing, Sent, sent, full, panics, new, hand, send, close,
  AllExited, queue_depth, queue_cap,
}
use sluice_gate_telemetery_i.Pool.Moves.{
  receive, turn, work, Move, sends, works, closes, after_send, step, run,
}
use sluice_gate_telemetery_i.Pool.Workers.{
  in_flight, is_parked, is_exited, any, in_flight-le, in_flight-exited, hand-none, hand-Handed,
}
use sluice_gate_telemetery_i.Pool.Invariant.Sends.{Inv, new-Inv}
use sluice_gate_telemetery_i.Pool.Invariant.{run-Inv}

-- The capacity and the number of workers.
abbrev pub SameSizes : Pool → Pool → Type 0
SameSizes p q = (q.cap ≡ p.cap) × (length q.workers ≡ length p.workers)

send_sizes : (p : Pool) (e : Event) → SameSizes p (after_send p (send p e))
unfolding send
send_sizes p e = elim (Option-cases (hand e p.workers)) [
  | inl n ↦ rw (n, send) (ground arith)
  | inr (ws, k) ↦ rw (k, send) (let h = hand-Handed e p.workers ws k in ground (arith, h.counted))
]

receive_sizes : (p : Pool) (i : ℕ) (q : List Event) → SameSizes p (receive i q p)
unfolding receive
receive_sizes p i (e ∷ q) = (refl, length-set p.workers i (writing e))
receive_sizes p i [] = ground (arith, length-set p.workers i exited, length-set p.workers i parked)

turn_sizes : (p : Pool) (i : ℕ) (w : Worker) (r : Option Error) → SameSizes p (turn i w r p)
unfolding turn
turn_sizes p i looping r = receive_sizes p i p.queue
turn_sizes p i parked r = ground (arith, length-set p.workers i exited)
turn_sizes p i (writing e) r = (refl, length-set p.workers i looping)
turn_sizes p i exited r = (refl, refl)

work_sizes : (p : Pool) (i : ℕ) (r : Option Error) → SameSizes p (work i r p)
unfolding work
work_sizes p i r = by_worker (get_elem? p.workers i)
  where
    by_worker : (o : Option Worker) → SameSizes p (elim o [ none ↦ p | some w ↦ turn i w r p ])
    by_worker none = (refl, refl)
    by_worker (some w) = turn_sizes p i w r

step_sizes : (p : Pool) (m : Move) → SameSizes p (step p m)
unfolding step close
step_sizes p (sends e) = send_sizes p e
step_sizes p (works i r) = work_sizes p i r
step_sizes p closes = ground arith

pub run_sizes : (p : Pool) (ms : List Move) → SameSizes p (run p ms)
unfolding run
run_sizes p [] = (refl, refl)
run_sizes p (m ∷ ms) =
    let a = step_sizes p m in let b = run_sizes (step p m) ms in (b.0 ∙ a.0, b.1 ∙ a.1)

length-replicate : (n : ℕ) → length (replicate n looping) ≡ n
length-replicate zero = refl
length-replicate (suc n) = ap suc (length-replicate n)

pub new_sizes :
    (w n : ℕ) (p : Pool) → new (pos w) (pos n) ≡ some p → (p.cap ≡ n) × (length p.workers ≡ w)
unfolding new
new_sizes w n p h =
    subst (λ q. (q.cap ≡ n) × (length q.workers ≡ w)) (some_inj _ p h) (refl, length-replicate w)

-- Whatever is sent, and however the workers and the sink take their turns, the queue is never longer
-- than its size, and the pool never holds more events than the queue's size and the workers together.
pub run_bounds :
    (w n : ℕ) (p : Pool) (ms : List Move)
    → new (pos w) (pos n) ≡ some p
    → (queue_depth (run p ms) ≤ queue_cap p)
      × (length (run p ms).queue + length (in_flight (run p ms).workers) ≤ n + w)
unfolding queue_depth queue_cap
run_bounds w n p ms h =
    let v = run-Inv p ms (new-Inv (pos w) (pos n) p h) in
    let a = run_sizes p ms in
    let b = new_sizes w n p h in
    let c = in_flight-le (run p ms).workers in
    (omega (arith, v.bounded, a.0), omega (arith, v.bounded, a.0, a.1, b.0, b.1, c))

any-exited : (ws : List Worker) → 0 < length ws → AllExited ws → any is_exited ws ≡ true
any-exited [] n h = elim n [ ]
any-exited (exited ∷ ws) n h = refl
any-exited (looping ∷ ws) n h = absurd h
any-exited (parked ∷ ws) n h = absurd h
any-exited (writing e ∷ ws) n h = absurd h

-- When `Close` comes back, that is when every worker has returned, a pool with at least one worker has
-- passed each accepted event to the sink's `Write` once: none is lost, none is written twice.
pub drained-perm :
    (w n : ℤ) (p : Pool) (ms : List Move)
    → new w n ≡ some p
    → 0 < length (run p ms).workers
    → AllExited (run p ms).workers
    → Perm (run p ms).accepted (run p ms).finished
drained-perm w n p ms h some_worker returned =
    subst (λ es. Perm es q.finished) (sym all_started)
      (subst (Perm q.started)
        (ap (◌++◌ q.finished) (in_flight-exited q.workers returned) ∙ append-nil q.finished)
        v.owned)
  where
    q : Pool
    q = run p ms

    v : Inv q
    v = run-Inv p ms (new-Inv w n p h)

    all_started : q.accepted ≡ q.started
    all_started =
        v.in_order
        ∙ ap (◌++◌ q.started) (v.returned (any-exited q.workers some_worker returned)).1
        ∙ append-nil q.started

-- The three ways in which a send can turn out.
pub data Sending (p : Pool) (e : Event) (s : Sent) : Type 0 where
  goes :
      (q : Pool)
      → s ≡ sent q
      → q.accepted ≡ p.accepted ++ e ∷ []
      → q.closed ≡ p.closed
      → Sending p e s
  waits : s ≡ full → p.cap ≤ length p.queue → any is_parked p.workers ≡ false → Sending p e s
  fails : s ≡ panics → p.closed ≡ true → Sending p e s

pub send-Sending : (p : Pool) (e : Event) → Sending p e (send p e)
unfolding send
send-Sending p e = by_parts p.closed (hand e p.workers) (ltb (length p.queue) p.cap) refl refl refl
  where
    by_parts :
        (c : Bool) (o : Option (List Worker)) (room : Bool)
        → p.closed ≡ c
        → hand e p.workers ≡ o
        → ltb (length p.queue) p.cap ≡ room
        → Sending p e (
            if c then panics else (elim o [
              | some ws ↦ sent (record p {
                workers = ws;
                accepted = p.accepted ++ e ∷ [];
                started = p.started ++ e ∷ [];
              })
              | none ↦
                  if room
                  then sent
                      (record p { queue = p.queue ++ e ∷ []; accepted = p.accepted ++ e ∷ [] })
                  else full
            ]))
    by_parts true o room c k n = fails refl c
    by_parts false (some ws) room c k n =
        goes
          (record p {
            workers = ws;
            accepted = p.accepted ++ e ∷ [];
            started = p.started ++ e ∷ [];
          })
          refl refl refl
    by_parts false none true c k n =
        goes (record p { queue = p.queue ++ e ∷ []; accepted = p.accepted ++ e ∷ [] }) refl refl
          refl
    by_parts false none false c k n = waits refl (ground (arith, n)) (hand-none e p.workers k)
