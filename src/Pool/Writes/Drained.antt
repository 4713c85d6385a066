-- ===== src/Pool/Writes/Drained.antt =====
-- Where the events of a drained pool (internal/pool/pool.go) are: in the sink, or reported.
use mathlib.Core.List.{Perm, perm_middle, perm_append_singleton}
use mathlib.Core.List.Perm
use sluice_gate_telemetery_i.Base.{
  ℤ, ◌<◌, ◌≡◌, refl, sym, ap, ◌∙◌, List, [], ◌∷◌, ◌++◌, append-nil, Option, none, some, length,
  length-append, All, All-mono, arith,
}
use sluice_gate_telemetery_i.Event.{Event, Error}
use sluice_gate_telemetery_i.Sink.{Sink}
use sluice_gate_telemetery_i.Consumer.NoLoss.{Durable}
use sluice_gate_telemetery_i.Pool.{Pool, new, AllExited}
use sluice_gate_telemetery_i.Pool.Moves.{error_list}
use sluice_gate_telemetery_i.Pool.Writes.{Running, Act, acts}
use sluice_gate_telemetery_i.Pool.Writes.Keeps.{acts-Intact, new-Intact, drained-all}

module _ {S : Type 0} (k : Sink S) where
  module _ (p : Durable k) where
    -- What was written is held by the sink, except for as many events as errors were reported.
    pub record Written (finished : List Event) (errors : List Error) (s : S) : Type 0 where
      pub kept : List Event
      pub lost : List Event
      pub each_once : Perm finished (kept ++ lost)
      pub held : All (p.Holds s) kept
      pub reported : length lost ≡ length errors

    write-Written :
        (finished : List Event) (errors : List Error) (s : S) (e : Event)
        → p.IsReady s
        → Written finished errors s
        → Written (finished ++ e ∷ []) (errors ++ error_list (k.write e s).1) (k.write e s).0
    write-Written finished errors s e ready w = by_result (k.write e s).1 refl
      where
        still : All (p.Holds (k.write e s).0) w.kept
        still =
            All-mono (p.Holds s) (p.Holds (k.write e s).0) w.kept
              (λ f h. p.write_keeps e f s ready h) w.held

        one_more : Perm (finished ++ e ∷ []) (e ∷ (w.kept ++ w.lost))
        one_more = Perm.trans (perm_append_singleton e finished) (Perm.cons e w.each_once)

        by_result :
            (o : Option Error)
            → (k.write e s).1 ≡ o
            → Written (finished ++ e ∷ []) (errors ++ error_list o) (k.write e s).0
        by_result none h = record {
          kept = e ∷ w.kept;
          lost = w.lost;
          each_once = one_more;
          held = (p.write_ok e s ready h, still);
          reported = w.reported ∙ ap length (sym (append-nil errors));
        }
        by_result (some x) h = record {
          kept = w.kept;
          lost = e ∷ w.lost;
          each_once = Perm.trans one_more (Perm.symm (perm_middle w.kept w.lost));
          held = still;
          reported = omega (arith, w.reported, length-append errors (x ∷ []));
        }

    abbrev ReadyWritten : List Event → List Error → S → Type 0
    ReadyWritten finished errors s = p.IsReady s × Written finished errors s

    write-Intact :
        (finished : List Event) (errors : List Error) (s : S) (e : Event)
        → ReadyWritten finished errors s
        → ReadyWritten (finished ++ e ∷ []) (errors ++ error_list (k.write e s).1) (k.write e s).0
    write-Intact finished errors s e i =
        (p.write_ready e s i.0, write-Written finished errors s e i.0 i.1)

    nothing : (s : S) → Written [] [] s
    nothing s = record { kept = []; lost = []; each_once = Perm.nil; held = tt; reported = refl }

    -- When `Close` comes back, a new pool with at least one worker has put each event that it accepted
    -- into its sink once, or reported an error for it: the accepted events are, in some order, those
    -- that the sink holds and as many others as there were calls of `errFn`.
    pub drained-Written :
        (w n : ℤ) (q : Pool) (s : S) (as' : List (Act k))
        → new w n ≡ some q
        → p.IsReady s
        → let r = acts k (record { pool = q; sink = s }) as' in
          0 < length r.pool.workers
          → AllExited r.pool.workers
          → Written r.pool.accepted r.pool.errors r.sink
    drained-Written w n q s as' h ready some_worker returned =
        let start : Running k = record { pool = q; sink = s } in
        let kept =
          acts-Intact k ReadyWritten write-Intact start as'
            (new-Intact k ReadyWritten write-Intact w n q s h (ready, nothing s)) in
        let v = kept.1 in
        record {
          kept = v.kept;
          lost = v.lost;
          each_once = Perm.trans (drained-all k w n q s as' h some_worker returned) v.each_once;
          held = v.held;
          reported = v.reported;
        }
