-- ===== src/Consumer/Rounds/History.antt =====
-- All rounds of internal/consumer/consumer.go together: what has become of every record polled so far.
use sluice_gate_telemetery_i.Base.{
  ◌≡◌, refl, sym, subst, inl, List, [], ◌∷◌, ◌++◌, Bool, Option, none, Bytes, In,
}
use sluice_gate_telemetery_i.Event.{Error}
use sluice_gate_telemetery_i.Dlq.{Letter}
use sluice_gate_telemetery_i.Consumer.{Env, Consumer, handle_batch}
use sluice_gate_telemetery_i.Consumer.NoLoss.{Durable, Reliable}
use sluice_gate_telemetery_i.Consumer.Rounds.{
  Round, cancelled, client_closed, fetched, log_fetch_errors, poll, flush_sink, finish, round, run,
}
use sluice_gate_telemetery_i.Consumer.Rounds.Commit.{round-committed}
use sluice_gate_telemetery_i.Consumer.Rounds.Settled.{Settling, IsFinal}
use sluice_gate_telemetery_i.Consumer.Rounds.Delivered.{finish-Delivered}
use sluice_gate_telemetery_i.Consumer.Rounds.Steady.{
  Steady, Lasting, finish-Final, finish-Lasting, finish-IsReady,
}
use sluice_gate_telemetery_i.Consumer.Rounds.Redis.{finish-redis}
use sluice_gate_telemetery_i.Consumer.Rounds.Standing.{Standing, Standing-map}
use sluice_gate_telemetery_i.Consumer.Rounds.Batch.{History, History-map, handle_batch-History}

module _ (v : Env) (p : Durable v.sink) (q : Settling v.sink p) (h : Reliable v)
    (w : Steady v.sink p q) (before : Bytes → Bool) where
  abbrev Past : List Letter → Consumer v → Type 0
  Past = History v p q h w before

  finish-History :
      (o : Option Error) (ls : List Letter) (c : Consumer v) → Past ls c → Past ls (finish v o c)
  finish-History o ls c a =
      History-map v p q h w before ls c (finish v o c) (finish-IsReady v p q h w o c a.ready)
        (finish-redis v o c) (λ l d. (d.0, finish-Delivered v p o c _ d.1))
        (λ l e k. finish-Lasting v p q h w o l e c a.ready k) a

  log_fetch_errors-History :
      (xs : List Error) (ls : List Letter) (c : Consumer v)
      → Past ls c
      → Past ls (log_fetch_errors v xs c)
  unfolding log_fetch_errors
  log_fetch_errors-History [] ls c a = a
  log_fetch_errors-History (x ∷ xs) ls c a =
      log_fetch_errors-History xs ls _
        (History-map v p q h w before ls c _ a.ready refl (λ l d. d) (λ k e b. b) a)

  poll-History : (ls ms : List Letter) (c : Consumer v) → Past ls c → Past ls (poll v ms c)
  poll-History ls ms c a =
      History-map v p q h w before ls c (poll v ms c) a.ready refl (λ l d. d) (λ k e b. b) a

  -- What a round hands to its end.
  handled-History :
      (xs : List Error) (ms ls : List Letter) (c : Consumer v)
      → Past ls c
      → Past (ls ++ ms) (handle_batch v ms (log_fetch_errors v xs (poll v ms c)))
  handled-History xs ms ls c a =
      handle_batch-History v p q h w before ls ms (log_fetch_errors v xs (poll v ms c))
        (log_fetch_errors-History xs ls (poll v ms c) (poll-History ls ms c a))

  round-History :
      (xs : List Error) (ms : List Letter) (o : Option Error) (c : Consumer v)
      → Past c.polled c
      → Past (round v xs ms o c).polled (round v xs ms o c)
  unfolding round
  round-History xs ms o c a =
      subst (λ ls. Past ls (round v xs ms o c)) (sym (round-committed v xs ms o c).0)
        (finish-History o (c.polled ++ ms) _ (handled-History xs ms c.polled c a))

  run-History :
      (rs : List Round) (c : Consumer v)
      → Past c.polled c
      → Past (run v rs c).0.polled (run v rs c).0
  unfolding run
  run-History [] c a = a
  run-History (cancelled x ∷ rs) c a = a
  run-History (client_closed ∷ rs) c a = a
  run-History (fetched xs ms o ∷ rs) c a =
      run-History rs (round v xs ms o c) (round-History xs ms o c a)

module _ (v : Env) (p : Durable v.sink) (q : Settling v.sink p) (h : Reliable v)
    (w : Steady v.sink p q) where
  -- A consumer that has polled nothing yet.
  start-History :
      (c : Consumer v)
      → p.IsReady c.sink
      → c.polled ≡ []
      → History v p q h w (v.redis.has c.redis) c.polled c
  start-History c r e =
      subst (λ ls. History v p q h w (v.redis.has c.redis) ls c) (sym e)
        (record { ready = r; each = λ l i. absurd i; traced = λ k t. inl t })

  -- Whatever the rounds have brought, each record that was polled stands, in the sink's hands at least.
  pub run-Lasting :
      (rs : List Round) (c : Consumer v) (l : Letter)
      → p.IsReady c.sink
      → c.polled ≡ []
      → let d = (run v rs c).0 in
        In l d.polled → Standing v p (v.redis.has c.redis) (Lasting v p q h w) d.polled d l
  run-Lasting rs c l r e i =
      (run-History v p q h w (v.redis.has c.redis) rs c (start-History c r e)).each l i

  pub run-IsReady :
      (rs : List Round) (c : Consumer v)
      → p.IsReady c.sink
      → c.polled ≡ []
      → p.IsReady (run v rs c).0.sink
  run-IsReady rs c r e =
      (run-History v p q h w (v.redis.has c.redis) rs c (start-History c r e)).ready

  pub run-Standing :
      (rs : List Round) (xs : List Error) (ms : List Letter) (o : Option Error) (c : Consumer v)
      (l : Letter)
      → p.IsReady c.sink
      → c.polled ≡ []
      → let d = (run v rs c).0 in
        (flush_sink v (handle_batch v ms (log_fetch_errors v xs (poll v ms d)))).1 ≡ none
        → In l (d.polled ++ ms)
        → Standing v p
            (v.redis.has c.redis)
            (IsFinal v p q h)
            (d.polled ++ ms)
            (round v xs ms o d)
            l
  unfolding round
  run-Standing rs xs ms o c l r e n i =
      let d = (run v rs c).0 in
      let end = handle_batch v ms (log_fetch_errors v xs (poll v ms d)) in
      let a =
        handled-History v p q h w (v.redis.has c.redis) xs ms d.polled d
          (run-History v p q h w (v.redis.has c.redis) rs c (start-History c r e)) in
      Standing-map v p (v.redis.has c.redis) (Lasting v p q h w) (IsFinal v p q h) (d.polled ++ ms)
        (d.polled ++ ms) end (finish v o end) l (λ b. (b.0, finish-Delivered v p o end _ b.1))
        (λ t j. j) (λ k f b. finish-Final v p q h w o k f end a.ready n b) (a.each l i)
