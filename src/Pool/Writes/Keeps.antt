-- ===== src/Pool/Writes/Keeps.antt =====
-- What every call of `Write` keeps, a pool (internal/pool/pool.go) keeps that writes to the sink.
use mathlib.Core.List.{Perm}
use sluice_gate_telemetery_i.Base.{
  suc, ℕ, ℤ, pos, negsuc, some_inj, ◌<◌, ◌≡◌, refl, sym, subst, List, [], ◌∷◌, ◌++◌, Option, none,
  some, length, get_elem?, arith,
}
use sluice_gate_telemetery_i.Event.{Event, Error}
use sluice_gate_telemetery_i.Sink.{Sink}
use sluice_gate_telemetery_i.Pool.{
  Pool, Worker, looping, parked, exited, writing, new, send, close, AllExited,
}
use sluice_gate_telemetery_i.Pool.Moves.{
  receive, turn, work, Move, after_send, after_close, step, run, error_list,
}
use sluice_gate_telemetery_i.Pool.Order.{drained-perm, run_sizes, new_sizes}
use sluice_gate_telemetery_i.Pool.Writes.{
  Running, Act, offers, turns, shuts, write_of, move_of, act, acts,
}

module _ {S : Type 0} (k : Sink S) where
  abbrev pub moves_of : Running k → List (Act k) → List Move
  moves_of r [] = []
  moves_of r (a ∷ as') = move_of k a r ∷ moves_of (act k r a) as'

  pub acts-run :
      (r : Running k) (as' : List (Act k)) → (acts k r as').pool ≡ run r.pool (moves_of r as')
  unfolding acts run
  acts-run r [] = refl
  acts-run r (a ∷ as') = acts-run (act k r a) as'

  -- A fact on the events written, the errors reported and the sink.
  module _ (I : List Event → List Error → S → Type 0)
      (keeps : (finished : List Event) (errors : List Error) (s : S) (e : Event)
        → I finished errors s
        → I (finished ++ e ∷ []) (errors ++ error_list (k.write e s).1) (k.write e s).0) where
    abbrev Intact : Running k → Type 0
    Intact r = I r.pool.finished r.pool.errors r.sink

    -- A pool that has written nothing more.
    abbrev Unwritten : Pool → Pool → Type 0
    Unwritten q q' = (q'.finished ≡ q.finished) × (q'.errors ≡ q.errors)

    Intact-Unwritten :
        (r : Running k) (q : Pool) → Unwritten r.pool q → Intact r → Intact (record r { pool = q })
    Intact-Unwritten r q u i = rw (u.0, u.1) i

    send-Unwritten : (q : Pool) (e : Event) → Unwritten q (after_send q (send q e))
    unfolding send
    send-Unwritten q e = ground arith

    receive-Unwritten : (i : ℕ) (es : List Event) (q : Pool) → Unwritten q (receive i es q)
    unfolding receive
    receive-Unwritten i [] q = ground arith
    receive-Unwritten i (e ∷ es) q = (refl, refl)

    close-Unwritten : (q : Pool) → Unwritten q (after_close q (close q))
    unfolding close
    close-Unwritten q = ground arith

    turn-Intact :
        (i : ℕ) (w : Worker) (r : Running k)
        → Intact r
        → Intact (record {
          pool = turn i w (write_of k (some w) r.sink).1 r.pool;
          sink = (write_of k (some w) r.sink).0;
        })
    unfolding turn
    turn-Intact i looping r v =
        Intact-Unwritten r (receive i r.pool.queue r.pool) (receive-Unwritten i r.pool.queue r.pool)
          v
    turn-Intact i parked r v =
        Intact-Unwritten r (turn i parked none r.pool) (unfold turn in ground arith) v
    turn-Intact i exited r v = v
    turn-Intact i (writing e) r v = keeps r.pool.finished r.pool.errors r.sink e v

    act-Intact : (r : Running k) (a : Act k) → Intact r → Intact (act k r a)
    unfolding act step work
    act-Intact r (offers e) v =
        Intact-Unwritten r (after_send r.pool (send r.pool e)) (send-Unwritten r.pool e) v
    act-Intact r shuts v =
        Intact-Unwritten r (after_close r.pool (close r.pool)) (close-Unwritten r.pool) v
    act-Intact r (turns i) v = by_worker (get_elem? r.pool.workers i)
      where
        worked : Option Worker → Option Error → Pool
        worked o x = elim o [ none ↦ r.pool | some w ↦ turn i w x r.pool ]

        by_worker :
            (o : Option Worker)
            → Intact
                (record { pool = worked o (write_of k o r.sink).1; sink = (write_of k o r.sink).0 })
        by_worker none = v
        by_worker (some w) = turn-Intact i w r v

    pub acts-Intact : (r : Running k) (as' : List (Act k)) → Intact r → Intact (acts k r as')
    unfolding acts
    acts-Intact r [] v = v
    acts-Intact r (a ∷ as') v = acts-Intact (act k r a) as' (act-Intact r a v)

    pub new-Intact :
        (w n : ℤ) (q : Pool) (s : S) → new w n ≡ some q → I [] [] s → I q.finished q.errors s
    unfolding new
    new-Intact (pos w) (pos n) q s h i = subst (λ q. I q.finished q.errors s) (some_inj _ q h) i
    new-Intact (pos w) (negsuc n) q s h i = cc
    new-Intact (negsuc w) n q s h i = cc

  -- A drained pool has written what it accepted.
  pub drained-all :
      (w n : ℤ) (q : Pool) (s : S) (as' : List (Act k))
      → new w n ≡ some q
      → let r = acts k (record { pool = q; sink = s }) as' in
        0 < length r.pool.workers → AllExited r.pool.workers → Perm r.pool.accepted r.pool.finished
  drained-all w n q s as' h some_worker returned =
      let start : Running k = record { pool = q; sink = s } in
      let same = acts-run start as' in
      subst (λ q. Perm q.accepted q.finished) (sym same)
        (drained-perm w n q (moves_of start as') h
          (subst (λ q. 0 < length q.workers) same some_worker)
          (subst (λ q. AllExited q.workers) same returned))

  new-workers : (m : ℕ) (n : ℤ) (q : Pool) → new (pos (suc m)) n ≡ some q → length q.workers ≡ suc m
  unfolding new
  new-workers m (pos n) q h = (new_sizes (suc m) n q h).1
  new-workers m (negsuc n) q h = cc

  -- The workers of a pool do not get fewer.
  pub acts-workers :
      (w n : ℤ) (m : ℕ) (q : Pool) (s : S) (as' : List (Act k))
      → new w n ≡ some q
      → w ≡ pos (suc m)
      → 0 < length (acts k (record { pool = q; sink = s }) as').pool.workers
  acts-workers w n m q s as' h e =
      let start : Running k = record { pool = q; sink = s } in
      let there = (run_sizes q (moves_of start as')).1 in
      let first = new-workers m n q (subst (λ w. new w n ≡ some q) e h) in
      subst (λ r. 0 < length r.workers) (sym (acts-run start as')) (omega (arith, there, first))
