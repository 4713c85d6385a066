-- ===== src/Cmd/GatewayMain/Counts.antt =====
-- What the last line of cmd/gateway/main.go says of the events that the gateway accepted.
use sluice_gate_telemetery_i.Base.{
  pos, codes, beq, All, ℕ, suc, ◌%◌, ◌-◌, ◌≡◌, refl, sym, ap, subst, ◌∙◌, List, [], ◌∷◌, ◌++◌, Bool,
  true, false, Option, none, some, length, length-append, length-perm, ℤ, append-nil, u64_mod,
  arith, if◌then◌else◌,
}
use sluice_gate_telemetery_i.Event.{Event, Error, Proto}
use sluice_gate_telemetery_i.Broker.{Broker}
use sluice_gate_telemetery_i.Sink.Memory.{MemorySink, memory_sink, write, new_memory_sink}
use sluice_gate_telemetery_i.Pool.{Pool, Worker, looping, parked, exited, writing, AllExited, new}
use sluice_gate_telemetery_i.Pool.Moves.{error_list}
use sluice_gate_telemetery_i.Pool.Writes.{Running, Act, acts}
use sluice_gate_telemetery_i.Pool.Writes.Keeps.{acts-Intact, new-Intact, drained-all, acts-workers}
use sluice_gate_telemetery_i.Pool.Writes.Drained.{drained-Written}
use sluice_gate_telemetery_i.Sink.Kafka.{kafka_sink}
use sluice_gate_telemetery_i.Sink.Kafka.Durable.{InTopic, kafka_durable}
use mathlib.Core.List.{Perm}
use sluice_gate_telemetery_i.Cmd.GatewayMain.{
  Flags, Startup, Kind, memory, kafka, SetUp, ready, stops, bad_pool, listen_failed, kafka_failed,
  unknown_sink, set_up_pool, set_up, Serving, all_exited, FinalLine, final_line, sink_of, new_sink,
  course, Outcome, stopped, draining, drained, gateway_main,
}

all_exited-AllExited : (ws : List Worker) → all_exited ws ≡ true → AllExited ws
all_exited-AllExited [] h = tt
all_exited-AllExited (exited ∷ ws) h = all_exited-AllExited ws h
all_exited-AllExited (looping ∷ ws) h = cc
all_exited-AllExited (parked ∷ ws) h = cc
all_exited-AllExited (writing e ∷ ws) h = cc

-- A memory sink has counted what was written, and no error was reported.
abbrev Counted : List Event → List Error → MemorySink → Type 0
Counted finished errors s = (s.accepted ≡ length finished % u64_mod) × (errors ≡ [])

write-Counted :
    (finished : List Event) (errors : List Error) (s : MemorySink) (e : Event)
    → Counted finished errors s
    → Counted
        (finished ++ e ∷ [])
        (errors ++ error_list (memory_sink.write e s).1)
        (memory_sink.write e s).0
unfolding write
write-Counted finished errors s e (n, none_yet) =
    (omega (arith, n, length-append finished (e ∷ [])), append-nil errors ∙ none_yet)

memory_counts :
    (w n : ℤ) (m : ℕ) (q : Pool) (as' : List (Act memory_sink))
    → new w n ≡ some q
    → w ≡ pos (suc m)
    → let r = acts memory_sink (record { pool = q; sink = new_memory_sink }) as' in
      AllExited r.pool.workers
      → (some r.sink.accepted ≡ some (length r.pool.accepted % u64_mod))
        × (length r.pool.errors ≡ 0)
memory_counts w n m q as' h e a =
    let start : Running memory_sink = record { pool = q; sink = new_memory_sink } in
    let (count, no_error) = acts-Intact memory_sink Counted write-Counted start as' (
      new-Intact memory_sink Counted write-Counted w n q new_memory_sink h
        (unfold new_memory_sink in refl, refl)) in
    let all = length-perm (
      drained-all memory_sink w n q new_memory_sink as' h
        (acts-workers memory_sink w n m q new_memory_sink as' h e) a) in
    (ap some (count ∙ ap (λ k. k % u64_mod) (sym all)), ap length no_error)

-- A pool that was set up is a new one with the flags' sizes.
abbrev FromFlags : Flags → SetUp → Type 0
FromFlags f (ready k q) = new f.workers f.queue ≡ some q
FromFlags f (stops x) = Unit

set_up-FromFlags : (f : Flags) (u : Startup) → FromFlags f (set_up f u)
unfolding set_up
set_up-FromFlags f u =
    by_name (beq f.sink_kind (codes "memory")) (beq f.sink_kind (codes "kafka")) u.kafka
  where
    by_pool :
        (k : Kind) (o : Option Pool)
        → new f.workers f.queue ≡ o
        → (x : Option Error)
        → FromFlags f (elim o [
          | none ↦ stops bad_pool
          | some p ↦ elim x [ none ↦ ready k p | some y ↦ stops (listen_failed y) ]
        ])
    by_pool k none h x = tt
    by_pool k (some q) h none = h
    by_pool k (some q) h (some y) = tt

    for_kind : (k : Kind) → FromFlags f (set_up_pool f u k)
    for_kind k = by_pool k (new f.workers f.queue) refl u.listen

    by_name :
        (a b : Bool) (o : Option Error)
        → FromFlags f (
            if a
            then set_up_pool f u memory
            else (if b
                then (elim o [ none ↦ set_up_pool f u kafka | some x ↦ stops (kafka_failed x) ])
                else stops (unknown_sink f.sink_kind)))
    by_name true b o = for_kind memory
    by_name false true none = for_kind kafka
    by_name false true (some x) = tt
    by_name false false o = tt

module _ (p : Proto) (b : Broker) (f : Flags) (unseen : ℕ) where
  -- The line against the pool: with a memory sink it names all accepted events, up to the wrap of the
  -- counter; with a Kafka sink the topic has all accepted events but some, and the line has as many
  -- errors less the increments that were lost.
  abbrev pub Told : (k : Kind) → Running (sink_of p b f k) → FinalLine → Type 0
  Told memory r l = (l.accepted ≡ some (length r.pool.accepted % u64_mod)) × (l.errors ≡ 0)
  Told kafka r l =
      (l.accepted ≡ none)
      × ((kept : List Event) × (lost : List Event) × Perm r.pool.accepted (kept ++ lost)
          × All (InTopic p b f.topic r.sink) kept
          × (l.errors ≡ length lost - unseen))

  abbrev AllTold : Outcome p b f → Type 0
  AllTold (stopped x) = Unit
  AllTold (draining k r) = Unit
  AllTold (drained k r l) = Told k r l

  gateway_main-AllTold :
      (m : ℕ) (u : Startup) (log : b.State) (serving : List Serving) (steps : List ℕ)
      → f.workers ≡ pos (suc m)
      → AllTold (gateway_main p b f u log serving steps unseen)
  unfolding gateway_main
  gateway_main-AllTold m u log serving steps e = by_set_up (set_up f u) (set_up-FromFlags f u)
    where
      end : (k : Kind) (q : Pool) → Running (sink_of p b f k)
      end k q =
          acts (sink_of p b f k) (record { pool = q; sink = new_sink p b k log })
            (course p b f k serving steps)

      told :
          (k : Kind) (q : Pool)
          → new f.workers f.queue ≡ some q
          → AllExited (end k q).pool.workers
          → Told k (end k q) (final_line p b f k unseen (end k q))
      told memory q h a =
          let (count, none_there) =
            memory_counts f.workers f.queue m q (course p b f memory serving steps) h e a in
          (count, omega (arith, none_there))
      told kafka q h a =
          let w =
            drained-Written (kafka_sink p b f.topic) (kafka_durable p b f.topic) f.workers f.queue q
              log (course p b f kafka serving steps) h tt
              (acts-workers (kafka_sink p b f.topic) f.workers f.queue m q log
                (course p b f kafka serving steps) h e)
              a in
          (refl, (w.kept, w.lost, w.each_once, w.held, ap (◌- unseen) (sym w.reported)))

      by_set_up :
          (x : SetUp)
          → FromFlags f x
          → AllTold (elim x [
            | stops y ↦ stopped y
            | ready k q ↦
                let r = end k q in
                if all_exited r.pool.workers
                then drained k r (final_line p b f k unseen r)
                else draining k r
          ])
      by_set_up (stops y) h = tt
      by_set_up (ready k q) h = by_exit (all_exited (end k q).pool.workers) refl
        where
          by_exit :
              (x : Bool)
              → all_exited (end k q).pool.workers ≡ x
              → AllTold (
                  if x
                  then drained k (end k q) (final_line p b f k unseen (end k q))
                  else draining k (end k q))
          by_exit true a = told k q h (all_exited-AllExited (end k q).pool.workers a)
          by_exit false a = tt

  -- With at least one worker, when the shutdown comes to the last line of the log: on a memory sink the
  -- line names all events that the pool accepted, up to the wrap of the counter, and no errors; on a
  -- Kafka sink all events that the pool accepted but some are in the topic, and the errors of the line
  -- are as many as those, less the unsynchronised increments of the counter that were lost (so never
  -- more, and exactly as many where none was lost).
  pub gateway_main-Told :
      (m : ℕ) (u : Startup) (log : b.State) (serving : List Serving) (steps : List ℕ) (k : Kind)
      (r : Running (sink_of p b f k)) (l : FinalLine)
      → f.workers ≡ pos (suc m)
      → gateway_main p b f u log serving steps unseen ≡ drained k r l
      → Told k r l
  gateway_main-Told m u log serving steps k r l e h =
      subst AllTold h (gateway_main-AllTold m u log serving steps e)
