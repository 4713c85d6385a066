-- ===== src/Pool/Invariant.antt =====
-- What holds of a pool (internal/pool/pool.go) at all times.
pub mod Sends
use mathlib.Core.List.{Perm}
use mathlib.Core.List.Perm
use mathlib.Core.Path.{subst₂}
use sluice_gate_telemetery_i.Base.{
  ℕ, ℤ, pos, negsuc, ◌≤◌, ◌≡◌, refl, sym, ap, subst, ◌∙◌, inl, inr, List, [], ◌∷◌, ◌++◌,
  append_assoc, append-nil, Bool, true, false, Option, none, some, length, length-append, get_elem?,
  set, arith, some_inj, ltb, if◌then◌else◌,
}
use sluice_gate_telemetery_i.Event.{Event, Error}
use sluice_gate_telemetery_i.Pool.{
  Pool, Worker, looping, parked, exited, writing, Sent, sent, full, panics, new, hand, send, close,
}
use sluice_gate_telemetery_i.Pool.Moves.{
  put_worker, receive, turn, work, Move, sends, works, closes, after_send, after_close, step, run,
}
use sluice_gate_telemetery_i.Pool.Workers.{
  held, in_flight, is_parked, is_exited, any, in_flight-set, any-set, hand-none, Handed,
  hand-Handed, in_flight-replicate, any-replicate, any-get, started-owned,
}
use sluice_gate_telemetery_i.Pool.Invariant.Sends.{Inv, send-Inv}

-- What a worker's change of place leaves to prove.
module _ (p : Pool) (i : ℕ) (w : Worker) (v : Inv p) (at : get_elem? p.workers i ≡ some w) where
  returned-kept :
      (x : Worker)
      → is_exited x ≡ false
      → any is_exited (set p.workers i x) ≡ true
      → (p.closed ≡ true) × (p.queue ≡ [])
  returned-kept x n k = elim (any-set is_exited p.workers i x k) [
    | inl e ↦ let f : true ≡ false = sym e ∙ n in cc
    | inr old ↦ v.returned old
  ]

  quiet-kept :
      (x : Worker) → is_parked x ≡ false → any is_parked (set p.workers i x) ≡ true → p.queue ≡ []
  quiet-kept x n k = elim (any-set is_parked p.workers i x k) [
    | inl e ↦ let f : true ≡ false = sym e ∙ n in cc
    | inr old ↦ v.quiet old
  ]

  -- A worker with empty hands goes from one place to another.
  moved-owned :
      (x : Worker)
      → held w ≡ []
      → held x ≡ []
      → Perm p.started (p.finished ++ in_flight (set p.workers i x))
  moved-owned x a b = Perm.trans v.owned (
      Perm.append_left p.finished (
        Perm.symm (
          subst₂ (λ s t. Perm (s ++ in_flight (set p.workers i x)) (t ++ in_flight p.workers)) a b
            (in_flight-set p.workers i w x at))))

  exit-Inv : held w ≡ [] → p.closed ≡ true → p.queue ≡ [] → Inv (put_worker i exited p)
  exit-Inv a c q = record {
    bounded = v.bounded;
    quiet = λ _. q;
    in_order = v.in_order;
    owned = moved-owned exited a refl;
    returned = λ _. (c, q);
  }

  park-Inv : held w ≡ [] → p.queue ≡ [] → Inv (put_worker i parked p)
  park-Inv a q = record {
    bounded = v.bounded;
    quiet = λ _. q;
    in_order = v.in_order;
    owned = moved-owned parked a refl;
    returned = returned-kept parked refl;
  }

  take-Inv :
      (e : Event) (q : List Event) → held w ≡ [] → p.queue ≡ e ∷ q → Inv (receive i (e ∷ q) p)
  unfolding receive
  take-Inv e q a h = record {
    bounded = let n = ap length h in omega (arith, v.bounded, n);
    quiet = λ k. let n = quiet-kept (writing e) refl k in cc;
    in_order = v.in_order ∙ ap (◌++◌ p.started) h ∙ sym (append_assoc p.started (e ∷ []) q);
    owned = started-owned e p.started p.finished _ _ v.owned (
        subst (λ s. Perm (s ++ in_flight (set p.workers i (writing e))) (e ∷ in_flight p.workers)) a
          (in_flight-set p.workers i w (writing e) at));
    returned = λ k. let n = (returned-kept (writing e) refl k).1 in cc;
  }

receive-Inv :
    (p : Pool) (i : ℕ) (q : List Event)
    → Inv p
    → get_elem? p.workers i ≡ some looping
    → p.queue ≡ q
    → Inv (receive i q p)
unfolding receive
receive-Inv p i (e ∷ q) v at h = take-Inv p i looping v at e q refl h
receive-Inv p i [] v at h = by_closed p.closed refl
  where
    by_closed :
        (b : Bool) → p.closed ≡ b → Inv (if b then put_worker i exited p else put_worker i parked p)
    by_closed true c = exit-Inv p i looping v at refl c h
    by_closed false c = park-Inv p i looping v at refl h

turn-Inv :
    (p : Pool) (i : ℕ) (w : Worker) (r : Option Error)
    → Inv p
    → get_elem? p.workers i ≡ some w
    → Inv (turn i w r p)
unfolding turn
turn-Inv p i looping r v at = receive-Inv p i p.queue v at refl
turn-Inv p i parked r v at = by_closed p.closed refl
  where
    by_closed : (b : Bool) → p.closed ≡ b → Inv (if b then put_worker i exited p else p)
    by_closed true c =
        exit-Inv p i parked v at refl c (v.quiet (any-get is_parked p.workers i parked at refl))
    by_closed false c = v
turn-Inv p i (writing e) r v at = record {
  bounded = v.bounded;
  quiet = quiet-kept p i (writing e) v at looping refl;
  in_order = v.in_order;
  owned = Perm.trans v.owned (
      rw (append_assoc p.finished (e ∷ []) (in_flight (set p.workers i looping))) (
        Perm.append_left p.finished
          (Perm.symm (in_flight-set p.workers i (writing e) looping at))));
  returned = returned-kept p i (writing e) v at looping refl;
}
turn-Inv p i exited r v at = v

work-Inv : (p : Pool) (i : ℕ) (r : Option Error) → Inv p → Inv (work i r p)
unfolding work
work-Inv p i r v = by_worker (get_elem? p.workers i) refl
  where
    by_worker :
        (o : Option Worker)
        → get_elem? p.workers i ≡ o
        → Inv (elim o [ none ↦ p | some w ↦ turn i w r p ])
    by_worker none at = v
    by_worker (some w) at = turn-Inv p i w r v at

close-Inv : (p : Pool) → Inv p → Inv (after_close p (close p))
unfolding close
close-Inv p v = by_closed p.closed
  where
    by_closed :
        (b : Bool) → Inv (after_close p (if b then none else some (record p { closed = true })))
    by_closed true = v
    by_closed false = record {
      bounded = v.bounded;
      quiet = v.quiet;
      in_order = v.in_order;
      owned = v.owned;
      returned = λ k. (refl, (v.returned k).1);
    }

pub step-Inv : (p : Pool) (m : Move) → Inv p → Inv (step p m)
step-Inv p (sends e) v = unfold step in send-Inv p e v
step-Inv p (works i r) v = unfold step in work-Inv p i r v
step-Inv p closes v = unfold step in close-Inv p v

pub run-Inv : (p : Pool) (ms : List Move) → Inv p → Inv (run p ms)
unfolding run
run-Inv p [] v = v
run-Inv p (m ∷ ms) v = run-Inv (step p m) ms (step-Inv p m v)
