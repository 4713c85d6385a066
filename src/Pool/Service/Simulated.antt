-- ===== src/Pool/Service/Simulated.antt =====
-- Each step of a pool (internal/pool/pool.go) is a step of the service that it gives.
use mathlib.Core.List.{Perm}
use mathlib.Core.List.Perm
use mathlib.Core.Path.{subst₂}
use mathlib.Core.Quot
use mathlib.Core.Quot.{Quot, Quot-set}
use sluice_gate_telemetery_i.Base.{
  ℕ, pos, ◌≡◌, refl, sym, ap, subst, ◌∙◌, List, [], ◌∷◌, ◌++◌, Bool, true, false, not, Option, none,
  some, some_inj, length, get_elem?, set, ltb, if◌then◌else◌, arith,
}
use sluice_gate_telemetery_i.Event.{Event, Error}
use sluice_gate_telemetery_i.Pool.{
  Pool, Worker, looping, parked, exited, writing, Sent, sent, full, panics, new, hand, send, close,
}
use sluice_gate_telemetery_i.Pool.Moves.{
  put_worker, receive, turn, work, Move, sends, works, after_send, after_close, step, run,
}
use sluice_gate_telemetery_i.Pool.Moves as Moves
use sluice_gate_telemetery_i.Pool.Workers.{
  held, in_flight, in_flight-set, hand-Handed, in_flight-replicate,
}
use sluice_gate_telemetery_i.Pool.Invariant.Sends.{Inv, new-Inv}
use sluice_gate_telemetery_i.Pool.Invariant.{step-Inv}
use sluice_gate_telemetery_i.Pool.Service.{
  add, takes_in, quiet, Serves, queues, hands_over, is_full, is_shut, takes, rests, is_written,
  closes, closed_before, Follows, fresh, view, send_label, turn_label, work_label, close_label,
  label, observed,
}

-- A worker with empty hands goes from one place to another: nobody sees it.
module _ (p : Pool) (i : ℕ) (w : Worker) (at : get_elem? p.workers i ≡ some w) (x : Worker) where
  unseen : held w ≡ [] → held x ≡ [] → Serves (view p) quiet (view (put_worker i x p))
  unseen a b =
      let same : Quot.mk (in_flight p.workers) ≡ Quot.mk (in_flight (set p.workers i x)) =
        Quot.sound (
          Perm.symm (
            subst₂ (λ s t. Perm (s ++ in_flight (set p.workers i x)) (t ++ in_flight p.workers)) a b
              (in_flight-set p.workers i w x at))) in
      subst (λ b. Serves (view p) quiet (record (view p) { in_hands = b })) same rests

receive-Serves :
    (p : Pool) (i : ℕ) (q : List Event)
    → get_elem? p.workers i ≡ some looping
    → p.queue ≡ q
    → Serves (view p) quiet (view (receive i q p))
unfolding receive add
receive-Serves p i [] at h = by_closed p.closed
  where
    by_closed :
        (b : Bool)
        → Serves (view p) quiet (view (if b then put_worker i exited p else put_worker i parked p))
    by_closed true = unseen p i looping at exited refl refl
    by_closed false = unseen p i looping at parked refl refl
receive-Serves p i (e ∷ q) at h =
    let same : Quot.mk (e ∷ in_flight p.workers)
        ≡ Quot.mk (in_flight (set p.workers i (writing e))) =
      Quot.sound (Perm.symm (in_flight-set p.workers i looping (writing e) at)) in
    subst (λ b. Serves (view p) quiet (record (view p) { waiting = q; in_hands = b })) same
      (takes e q h)

turn-Serves :
    (p : Pool) (i : ℕ) (w : Worker) (r : Option Error)
    → get_elem? p.workers i ≡ some w
    → Serves (view p) (turn_label w) (view (turn i w r p))
unfolding turn add
turn-Serves p i looping r at = receive-Serves p i p.queue at refl
turn-Serves p i parked r at = by_closed p.closed
  where
    by_closed : (b : Bool) → Serves (view p) quiet (view (if b then put_worker i exited p else p))
    by_closed true = unseen p i parked at exited refl refl
    by_closed false = rests
turn-Serves p i (writing e) r at =
    is_written e (Quot.mk (in_flight (set p.workers i looping)))
      (Quot.sound (Perm.symm (in_flight-set p.workers i (writing e) looping at)))
turn-Serves p i exited r at = rests

work-Serves :
    (p : Pool) (i : ℕ) (r : Option Error)
    → Serves (view p) (work_label (get_elem? p.workers i)) (view (work i r p))
unfolding work
work-Serves p i r = by_worker (get_elem? p.workers i) refl
  where
    by_worker :
        (o : Option Worker)
        → get_elem? p.workers i ≡ o
        → Serves (view p) (work_label o) (view (elim o [ none ↦ p | some w ↦ turn i w r p ]))
    by_worker none at = rests
    by_worker (some w) at = turn-Serves p i w r at

close-Serves : (p : Pool) → Serves (view p) (close_label (close p)) (view (after_close p (close p)))
unfolding close
close-Serves p = by_closed p.closed refl
  where
    by_closed :
        (b : Bool)
        → p.closed ≡ b
        → let o : Option Pool = if b then none else some (record p { closed = true }) in
          Serves (view p) (close_label o) (view (after_close p o))
    by_closed true c = closed_before (ap not c)
    by_closed false c = closes (ap not c)

send-Serves :
    (p : Pool) (e : Event)
    → Inv p
    → Serves (view p) (send_label e (send p e)) (view (after_send p (send p e)))
unfolding send add
send-Serves p e v = by_parts p.closed (hand e p.workers) (ltb (length p.queue) p.cap) refl refl refl
  where
    by_parts :
        (c : Bool) (o : Option (List Worker)) (room : Bool)
        → p.closed ≡ c
        → hand e p.workers ≡ o
        → ltb (length p.queue) p.cap ≡ room
        → let s : Sent = if c then panics else (elim o [
          | some ws ↦ sent (record p {
            workers = ws;
            accepted = p.accepted ++ e ∷ [];
            started = p.started ++ e ∷ [];
          })
          | none ↦
              if room
              then sent (record p { queue = p.queue ++ e ∷ []; accepted = p.accepted ++ e ∷ [] })
              else full
        ]) in
          Serves (view p) (send_label e s) (view (after_send p s))
    by_parts true o room c k n = is_shut e (ap not c)
    by_parts false (some ws) room c k n =
        let h = hand-Handed e p.workers ws k in
        let same : Quot.mk (e ∷ in_flight p.workers) ≡ Quot.mk (in_flight ws) =
          Quot.sound (Perm.symm h.traded) in
        subst (λ b. Serves (view p) (takes_in e) (record (view p) { in_hands = b })) same
          (hands_over e (ap not c) (v.quiet h.waited))
    by_parts false none true c k n = queues e (ap not c) (ground (arith, n))
    by_parts false none false c k n = is_full e (ap not c) (ground (arith, n))

step-Serves : (p : Pool) (m : Move) → Inv p → Serves (view p) (label p m) (view (step p m))
unfolding step
step-Serves p (sends e) v = send-Serves p e v
step-Serves p (works i r) v = work-Serves p i r
step-Serves p Moves.closes v = close-Serves p

run-Follows :
    (p : Pool) (ms : List Move) → Inv p → Follows (view p) (observed p ms) (view (run p ms))
unfolding run
run-Follows p [] v = refl
run-Follows p (m ∷ ms) v =
    (view (step p m), step-Serves p m v, run-Follows (step p m) ms (step-Inv p m v))

new-fresh : (w n : ℕ) (p : Pool) → new (pos w) (pos n) ≡ some p → view p ≡ fresh n
unfolding new
new-fresh w n p h =
    ap view (sym (some_inj _ p h))
    ∙ ap (λ es. record (fresh n) { in_hands = Quot.mk es }) (in_flight-replicate w)

-- Whatever is sent, and however the workers, the sink and `Close` take their turns, a new pool does,
-- move for move and as it is seen, what a bounded first-in first-out queue with a bag of events in the
-- making can do: an event is taken in only before `Close`, at the end of a queue that is not full or,
-- where none waits, straight into a worker's hands; it is refused only at a full queue; a send after
-- `Close` and a second `Close` panic; workers take from the front; and each write that comes back is of
-- an event that was in their hands, and is not there any more.
pub run-refines :
    (w n : ℕ) (p : Pool) (ms : List Move)
    → new (pos w) (pos n) ≡ some p
    → Follows (fresh n) (observed p ms) (view (run p ms))
run-refines w n p ms h =
    subst (λ a. Follows a (observed p ms) (view (run p ms))) (new-fresh w n p h)
      (run-Follows p ms (new-Inv (pos w) (pos n) p h))
